-- ===== src/Text/Extraction.antt =====
-- What the extractions of the standard streams find in front of a printed number.
use af_analyzer.Prelude.{
  ℕ, zero, suc, ◌+◌, ◌/◌, ◌%◌, ◌^◌, ◌<◌, ◌≡◌, refl, sym, ap, ◌∙◌, inl, inr, true, false, not, List,
  [], ◌∷◌, ◌++◌, all, some, ltb, ◌==◌, Bool-cases, arith,
}
use mathlib.Core.Path.{subst}
use af_analyzer.Prelude.Int.{pos}
use af_analyzer.Text.{
  newline, is_space, is_digit, is_nil, first, emit, number, getline, Stream, stream, skip_space,
  scan, digits, split_sign, found_digits, signed_digits, found_at, extract_digits, extract_uint32,
  extract_int32,
}
use af_analyzer.Text.Decimal.{scan-number, number-StartsDigit}

-- The extraction of a number leaves this stream.
abbrev pub left : List ℕ → Stream
left rest = record { rest = rest; good = not (is_nil rest) }

-- A line is read up to its newline.
pub getline-append :
    (s rest : List ℕ)
    → all (λ c. not (c == newline)) s ≡ true
    → getline (s ++ newline ∷ rest) ≡ (s, rest, false)
unfolding getline
getline-append [] rest h = refl
getline-append (c ∷ s) rest h =
    let e : (c == newline) ≡ false = ground (arith, h) in
    rw (getline, e, getline-append s rest (ground (arith, h))) refl

emit-all :
    (k n : ℕ) (out : List ℕ)
    → all (λ c. not (c == newline)) out ≡ true
    → all (λ c. not (c == newline)) (emit k n out) ≡ true
unfolding emit
emit-all zero n out h = h
emit-all (suc k) n out h = elim (Bool-cases (ltb 0 n)) [
  | inl e ↦ rw (emit, e) (emit-all k (n / 10) ((48 + n % 10) ∷ out) (ground (arith, h)))
  | inr e ↦ rw (emit, e) h
]

-- A printed number is on one line.
pub number-all : (n : ℕ) → all (λ c. not (c == newline)) (number n) ≡ true
unfolding number
number-all n = elim (Bool-cases (n == 0)) [
  | inl e ↦ rw e refl
  | inr e ↦ rw e (emit-all n n [] refl)
]

skip_space-digit : (c : ℕ) (r : List ℕ) → is_digit c ≡ true → skip_space (c ∷ r) ≡ c ∷ r
skip_space-digit c r d = let no : is_space c ≡ false = ground (arith, d) in rw (skip_space, no) refl

pub skip_space-number : (n : ℕ) (rest : List ℕ) → skip_space (number n ++ rest) ≡ number n ++ rest
skip_space-number n rest =
    let (c, r, e, d) = number-StartsDigit n in
    subst (λ l. skip_space (l ++ rest) ≡ l ++ rest) (sym e) (skip_space-digit c (r ++ rest) d)

split_sign-digit : (c : ℕ) (r : List ℕ) → is_digit c ≡ true → split_sign (c ∷ r) ≡ (false, c ∷ r)
split_sign-digit c r d = ground (arith, d)

signed_digits-digit :
    (c : ℕ) (r rest : List ℕ) (n : ℕ)
    → is_digit c ≡ true
    → scan (c ∷ r) 0 ≡ (n, rest)
    → signed_digits (false, c ∷ r) ≡ (digits false n, left rest)
unfolding signed_digits
signed_digits-digit c r rest n d read = rw (signed_digits, d) (ap (found_digits false) read)

found_at-digit :
    (c : ℕ) (r rest : List ℕ) (n : ℕ)
    → is_digit c ≡ true
    → scan (c ∷ r) 0 ≡ (n, rest)
    → found_at (c ∷ r) ≡ (digits false n, left rest)
unfolding found_at
found_at-digit c r rest n d read =
    ap signed_digits (split_sign-digit c r d) ∙ signed_digits-digit c r rest n d read

pub extract_digits-number :
    (s : List ℕ) (n : ℕ) (rest : List ℕ)
    → skip_space s ≡ number n ++ rest
    → is_digit (first rest) ≡ false
    → extract_digits (stream s) ≡ (digits false n, left rest)
unfolding extract_digits
extract_digits-number s n rest h stop =
    let (c, r, e, d) = number-StartsDigit n in
    ap found_at (h ∙ ap (λ l. l ++ rest) e)
    ∙ found_at-digit c (r ++ rest) rest n d
        (sym (ap (λ l. scan (l ++ rest) 0) e) ∙ scan-number n rest stop)

-- A number below 2 ^ 32 is read as it was printed, with white space before it, if no digit follows.
pub extract_uint32-number :
    (s : List ℕ) (n : ℕ) (rest : List ℕ)
    → skip_space s ≡ number n ++ rest
    → is_digit (first rest) ≡ false
    → n < 2 ^ 32
    → extract_uint32 (stream s) ≡ (some n, left rest)
unfolding extract_uint32
extract_uint32-number s n rest h stop small =
    let e : ltb n (2 ^ 32) ≡ true = ground arith in
    rw (extract_digits-number s n rest h stop, e) refl

pub extract_int32-number :
    (s : List ℕ) (n : ℕ) (rest : List ℕ)
    → skip_space s ≡ number n ++ rest
    → is_digit (first rest) ≡ false
    → n < 2 ^ 31
    → extract_int32 (stream s) ≡ (some (pos n), left rest)
unfolding extract_int32
extract_int32-number s n rest h stop small =
    let e : ltb n (2 ^ 31) ≡ true = ground arith in
    rw (extract_digits-number s n rest h stop, e) refl
