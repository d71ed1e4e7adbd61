-- ===== src/Printer/Reading.antt =====
-- What src/util/Printer.cpp writes can be read back.
use af_analyzer.Prelude.{
  ℕ, zero, suc, ◌^◌, ◌≡◌, refl, ap, ◌∙◌, true, false, Option, none, some, List, [], ◌∷◌, ◌++◌, all,
  length, ltb, arith,
}
use af_analyzer.Text.{is_digit, first, number, Stream, stream, extract_uint32}
use af_analyzer.Text.Extraction.{left, skip_space-number, extract_uint32-number}
use af_analyzer.Printer.{print_rest, print_list}

-- Extractions `in >> n`, as long as they find something, at most so many.
abbrev pub read_numbers : ℕ → Option ℕ × Stream → List ℕ
read_numbers k (none, s) = []
read_numbers zero (some n, s) = n ∷ []
read_numbers (suc k) (some n, s) = n ∷ read_numbers k (extract_uint32 s)

print_rest-stop : (xs : List ℕ) → is_digit (first (print_rest xs)) ≡ false
print_rest-stop [] = refl
print_rest-stop (x ∷ xs) = refl

read_end : read_numbers 0 (extract_uint32 (left [])) ≡ []
unfolding extract_uint32
read_end = refl

read_nothing : read_numbers 0 (extract_uint32 (stream [])) ≡ []
unfolding extract_uint32
read_nothing = refl

read-print_rest :
    (xs : List ℕ)
    → all (λ x. ltb x (2 ^ 32)) xs ≡ true
    → read_numbers (length xs) (extract_uint32 (left (print_rest xs))) ≡ xs
read-print_rest [] h = read_end
read-print_rest (x ∷ xs) h =
    ap (read_numbers (suc (length xs))) (
      extract_uint32-number (print_rest (x ∷ xs)) x (print_rest xs)
        (skip_space-number x (print_rest xs)) (print_rest-stop xs) (ground (arith, h)))
    ∙ ap (λ l. x ∷ l) (read-print_rest xs (ground (arith, h)))

-- What `print_list` writes for a list of uint32_t is read back as the list, by extractions up to the
-- end of the text.
pub read-print_list :
    (xs : List ℕ)
    → all (λ x. ltb x (2 ^ 32)) xs ≡ true
    → read_numbers (length xs) (extract_uint32 (stream (print_list xs))) ≡ xs
unfolding print_list
read-print_list [] h = read_nothing
read-print_list (x ∷ xs) h =
    ap (read_numbers (suc (length xs))) (
      extract_uint32-number (number x ++ print_rest xs) x (print_rest xs)
        (skip_space-number x (print_rest xs)) (print_rest-stop xs) (ground (arith, h)))
    ∙ ap (λ l. x ∷ l) (read-print_rest xs (ground (arith, h)))
