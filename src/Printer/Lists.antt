-- ===== src/Printer/Lists.antt =====
-- The functions of src/util/Printer.cpp write the same.
use mathlib.Core.List.{append_assoc}
use af_analyzer.Prelude.{
  ℕ, zero, suc, ◌+◌, ◌-◌, ◌≤◌, ◌<◌, ◌≡◌, refl, sym, ap, ◌∙◌, inl, inr, Bool, true, false,
  Bool-cases, List, [], ◌∷◌, ◌++◌, map, length, ok, at, arith,
}
use af_analyzer.Prelude.Int.{pos}
use af_analyzer.Text.{number}
use af_analyzer.Printer.{
  integer, print_rest, print_list, print_bucket, print_buckets, is_empty_set, print_set, print_from,
  print_elements, print_vector, print_vector_int64,
}

-- The elements, each behind a space.
abbrev pub spaced : {A : Type 0} → (A → List ℕ) → List A → List ℕ
spaced shown [] = []
spaced shown (x ∷ xs) = 32 ∷ shown x ++ spaced shown xs

drop : {A : Type 0} → ℕ → List A → List A
drop zero v = v
drop (suc i) [] = []
drop (suc i) (x ∷ v) = drop i v

drop-at :
    {A : Type 0} (v : List A) (i : ℕ)
    → i < length v
    → (x : A) × (at v i ≡ ok x) × (drop i v ≡ x ∷ drop (suc i) v)
unfolding drop
drop-at [] i h = elim h [ ]
drop-at (x ∷ v) zero h = (x, refl, refl)
drop-at (x ∷ v) (suc i) h = drop-at v i (omega (arith, h))

drop_all : {A : Type 0} (v : List A) (i : ℕ) → length v ≤ i → drop i v ≡ []
unfolding drop
drop_all [] zero h = refl
drop_all [] (suc i) h = refl
drop_all (x ∷ v) zero h = absurd (omega (arith, h))
drop_all (x ∷ v) (suc i) h = drop_all v i (omega (arith, h))

print_from-spaced :
    {A : Type 0} (shown : A → List ℕ) (v : List A) (i count : ℕ)
    → i + count ≡ length v
    → print_from shown v i count ≡ ok (spaced shown (drop i v))
unfolding print_from
print_from-spaced shown v i zero h = rw (drop_all v i (omega (arith, h))) refl
print_from-spaced shown v i (suc count) h =
    let (x, read, split) = drop-at v i (omega (arith, h)) in
    rw (read, split, print_from-spaced shown v (suc i) count (omega (arith, h))) refl

pub print_elements-spaced :
    {A : Type 0} (shown : A → List ℕ) (x : A) (xs : List A)
    → print_elements shown (x ∷ xs) ≡ ok (shown x ++ spaced shown xs)
unfolding print_elements drop
print_elements-spaced shown x xs =
    rw (print_from-spaced shown (x ∷ xs) 1 (length (x ∷ xs) - 1) (omega arith)) refl

pub spaced-print_rest : (xs : List ℕ) → spaced number xs ≡ print_rest xs
spaced-print_rest [] = refl
spaced-print_rest (x ∷ xs) = ap (λ r. 32 ∷ number x ++ r) (spaced-print_rest xs)

-- The elements of a hash set, bucket by bucket.
abbrev pub flatten : List (List ℕ) → List ℕ
flatten [] = []
flatten (b ∷ bs) = b ++ flatten bs

print_rest-append : (s t : List ℕ) → print_rest (s ++ t) ≡ print_rest s ++ print_rest t
print_rest-append [] t = refl
print_rest-append (x ∷ s) t =
    ap (λ r. 32 ∷ r)
      (ap (λ r. number x ++ r) (print_rest-append s t)
        ∙ sym (append_assoc (number x) (print_rest s) (print_rest t)))

print_bucket-rest :
    (b : List ℕ) (next : Bool → List ℕ) → print_bucket false b next ≡ print_rest b ++ next false
unfolding print_bucket
print_bucket-rest [] next = refl
print_bucket-rest (x ∷ b) next =
    ap (λ r. 32 ∷ r)
      (ap (λ r. number x ++ r) (print_bucket-rest b next)
        ∙ sym (append_assoc (number x) (print_rest b) (next false)))

print_buckets-rest : (bs : List (List ℕ)) → print_buckets false bs ≡ print_rest (flatten bs)
unfolding print_buckets
print_buckets-rest [] = refl
print_buckets-rest (b ∷ bs) =
    print_bucket-rest b (λ first. print_buckets first bs)
    ∙ ap (λ r. print_rest b ++ r) (print_buckets-rest bs)
    ∙ sym (print_rest-append b (flatten bs))

print_buckets-print_list : (bs : List (List ℕ)) → print_buckets true bs ≡ print_list (flatten bs)
unfolding print_buckets print_bucket print_list
print_buckets-print_list [] = refl
print_buckets-print_list ([] ∷ bs) = print_buckets-print_list bs
print_buckets-print_list ((x ∷ b) ∷ bs) =
    ap (λ r. number x ++ r)
      (print_bucket-rest b (λ first. print_buckets first bs)
        ∙ ap (λ r. print_rest b ++ r) (print_buckets-rest bs)
        ∙ sym (print_rest-append b (flatten bs)))

flatten-empty : (bs : List (List ℕ)) → is_empty_set bs ≡ true → flatten bs ≡ []
flatten-empty [] h = refl
flatten-empty ([] ∷ bs) h = flatten-empty bs h
flatten-empty ((x ∷ b) ∷ bs) h = cc

vectors : (v : List ℕ) → print_vector v ≡ ok (print_list v)
unfolding print_vector print_list
vectors [] = refl
vectors (x ∷ xs) =
    print_elements-spaced number x xs ∙ ap (λ r. ok (number x ++ r)) (spaced-print_rest xs)

spaced-map : (xs : List ℕ) → spaced integer (map pos xs) ≡ print_rest xs
spaced-map [] = refl
spaced-map (x ∷ xs) = ap (λ r. 32 ∷ number x ++ r) (spaced-map xs)

int64_vectors : (v : List ℕ) → print_vector_int64 (map pos v) ≡ ok (print_list v)
unfolding print_vector_int64 print_list
int64_vectors [] = refl
int64_vectors (x ∷ xs) =
    print_elements-spaced integer (pos x) (map pos xs)
    ∙ ap (λ r. ok (number x ++ r)) (spaced-map xs)

sets : (buckets : List (List ℕ)) → print_set buckets ≡ print_list (flatten buckets)
unfolding print_set print_list
sets buckets = elim (Bool-cases (is_empty_set buckets)) [
  | inl e ↦ rw (e, flatten-empty buckets e) refl
  | inr e ↦ rw e (print_buckets-print_list buckets)
]

-- The two overloads of `print_vector` read no index out of range and agree with `print_list`, and
-- `print_set` writes what `print_list` writes for the elements in the order of the buckets.
pub printers-print_list :
    ((v : List ℕ) → print_vector v ≡ ok (print_list v))
    × ((v : List ℕ) → print_vector_int64 (map pos v) ≡ ok (print_list v))
    × ((buckets : List (List ℕ)) → print_set buckets ≡ print_list (flatten buckets))
printers-print_list = (vectors, int64_vectors, sets)
