-- ===== src/Printer.antt =====
-- src/util/Printer.cpp: what its functions write to `cout`, as bytes. A hash set is the list of its
-- buckets.

pub mod Lists
pub mod Reading
use af_analyzer.Prelude.{
  ℕ, zero, suc, ◌+◌, ◌-◌, ◌≤◌, ◌<◌, ◌≡◌, refl, ap, ◌∙◌, Bool, true, false, ◌&&◌, List, [], ◌∷◌,
  ◌++◌, length, get_or, if◌then◌else◌, Result, ok, ◌>>=◌, at, at-get_or, arith,
}
use mathlib.Core.Path.{subst}
use af_analyzer.Prelude.Int.{ℤ, pos, negsuc}
use af_analyzer.Text.{is_nil, number}

-- `cout << n`, for an int64_t.
abbrev pub integer : ℤ → List ℕ
integer (pos n) = number n
integer (negsuc n) = b'-' ∷ number (n + 1)

-- The loop of `print_list` behind the first element.
abbrev pub print_rest : List ℕ → List ℕ
print_rest [] = []
print_rest (x ∷ xs) = 32 ∷ number x ++ print_rest xs

unfoldable pub print_list : List ℕ → List ℕ
print_list [] = []
print_list (x ∷ xs) = number x ++ print_rest xs

-- The bytes of a bucket and those after it, with the flag `isFirst`.
unfoldable pub print_bucket : Bool → List ℕ → (Bool → List ℕ) → List ℕ
print_bucket first [] next = next first
print_bucket true (x ∷ xs) next = number x ++ print_bucket false xs next
print_bucket false (x ∷ xs) next = 32 ∷ number x ++ print_bucket false xs next

unfoldable pub print_buckets : Bool → List (List ℕ) → List ℕ
unfolding print_bucket
print_buckets first [] = []
print_buckets first (b ∷ bs) = print_bucket first b (λ first'. print_buckets first' bs)

abbrev pub is_empty_set : List (List ℕ) → Bool
is_empty_set [] = true
is_empty_set (b ∷ bs) = is_nil b && is_empty_set bs

unfoldable pub print_set : List (List ℕ) → List ℕ
unfolding print_buckets
print_set buckets = if is_empty_set buckets then [] else print_buckets true buckets

module _ {A : Type 0} (shown : A → List ℕ) where
  -- The loop over the indices from `i` on, for `count` rounds.
  unfoldable pub print_from : List A → ℕ → ℕ → Result (List ℕ)
  print_from v i zero = ok []
  print_from v i (suc count) =
      at v i >>= λ x. print_from v (suc i) count >>= λ rest. ok (32 ∷ shown x ++ rest)

  unfoldable pub print_elements : List A → Result (List ℕ)
  unfolding print_from
  print_elements [] = ok []
  print_elements (x ∷ xs) = at (x ∷ xs) 0 >>= λ y.
      print_from (x ∷ xs) 1 (length (x ∷ xs) - 1) >>= λ rest. ok (shown y ++ rest)

-- `print_vector` of a vector of uint32_t, and of one of int64_t.
unfoldable pub print_vector : List ℕ → Result (List ℕ)
unfolding print_elements
print_vector v = print_elements number v

unfoldable pub print_vector_int64 : List ℤ → Result (List ℕ)
unfolding print_elements
print_vector_int64 v = print_elements integer v
