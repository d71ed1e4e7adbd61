-- ===== src/VectorBitSet/Copy.antt =====
-- `copy` of include/util/VectorBitSet.h returns the set itself, for every set with both
-- representations in agreement.
use af_analyzer.Prelude.{
  ℕ, zero, suc, ◌+◌, ◌≤◌, ◌<◌, ◌≡◌, refl, Bool, true, false, ◌⊎◌, inl, inr, List, [], ◌∷◌, ◌++◌,
  length, get_or, set, replicate, contains, ltb, ==_self, ap, sym, ◌∙◌, length-append, get_or-set,
  ok, ◌>>=◌, at, put, arith,
}
use mathlib.Core.List.{append_assoc, append-nil}
use af_analyzer.VectorBitSet.{VectorBitSet, copy_loop, copy, IsDistinct, Denotes}

at-append {ℓ} :
    {A : Type ℓ} (xs : List A) (y : A) (ys : List A) → at (xs ++ y ∷ ys) (length xs) ≡ ok y
at-append [] y ys = refl
at-append (x ∷ xs) y ys = at-append xs y ys

put-append {ℓ} :
    {A : Type ℓ} (xs : List A) (y : A) (ys : List A) (v : A)
    → put (xs ++ y ∷ ys) (length xs) v ≡ ok (xs ++ v ∷ ys)
put-append [] y ys v = refl
put-append (x ∷ xs) y ys v = ap (λ r. r >>= λ zs. ok (x ∷ zs)) (put-append xs y ys v)

-- The flags that are set.
count_true : List Bool → ℕ
count_true [] = 0
count_true (true ∷ bs) = suc (count_true bs)
count_true (false ∷ bs) = count_true bs

count_true-le : (bs : List Bool) → count_true bs ≤ length bs
unfolding count_true
count_true-le [] = omega arith
count_true-le (true ∷ bs) = omega (arith, count_true-le bs)
count_true-le (false ∷ bs) = omega (arith, count_true-le bs)

count_true-set :
    (bs : List Bool) (i : ℕ)
    → get_or bs i false ≡ true
    → suc (count_true (set bs i false)) ≡ count_true bs
unfolding count_true
count_true-set [] i h = cc
count_true-set (b ∷ bs) zero h = ground arith
count_true-set (true ∷ bs) (suc i) h = ap suc (count_true-set bs i h)
count_true-set (false ∷ bs) (suc i) h = count_true-set bs i h

lt-length_of_get_or : (bs : List Bool) (i : ℕ) → get_or bs i false ≡ true → i < length bs
lt-length_of_get_or [] i h = cc
lt-length_of_get_or (b ∷ bs) zero h = omega arith
lt-length_of_get_or (b ∷ bs) (suc i) h = omega (arith, lt-length_of_get_or bs i h)

-- Distinct members with their flags set are at most as many as the flags.
length-le-count_true :
    (xs : List ℕ) (bs : List Bool)
    → IsDistinct xs
    → ((a : ℕ) → contains xs a ≡ true → get_or bs a false ≡ true)
    → length xs ≤ count_true bs
length-le-count_true [] bs d h = omega arith
length-le-count_true (x ∷ xs) bs d h = omega (
  arith,
  count_true-set bs x marked,
  length-le-count_true xs (set bs x false) d.1 λ a m.
      ground (arith, d.0, h a, get_or-set bs x a false false (lt-length_of_get_or bs x marked)),
)
  where
    marked : get_or bs x false ≡ true
    marked = h x (ground (arith, ==_self x))

pub Denotes-length :
    {n : ℕ} {p : ℕ → Bool} {s : VectorBitSet} → Denotes n p s → length s.vector ≤ length s.bitset
Denotes-length {s} h = omega (
  arith,
  count_true-le s.bitset,
  length-le-count_true s.vector s.bitset h.distinct (λ a m. ground (arith, h.bits a, h.items a)),
)

-- Before each round the copies hold what has been visited: `done` of the flags and `pre` of the
-- members, which run out first.
copy_loop_lem :
    (s : VectorBitSet) (done rest : List Bool) (pre left : List ℕ) (i : ℕ) (copied : List Bool)
    → s.vector ≡ pre ++ left
    → s.bitset ≡ done ++ rest
    → copied ≡ done ++ replicate (length rest) false
    → i ≡ length done
    → (length pre ≡ i) ⊎ (left ≡ []) × (length pre ≤ i)
    → length left ≤ length rest
    → copy_loop s (length rest) i pre copied ≡ ok s
unfolding copy_loop
copy_loop_lem s done [] pre [] i copied v b c n o l =
    let members : s.vector ≡ pre = v ∙ append-nil pre in
    let flags : s.bitset ≡ copied = b ∙ sym c in ground arith
copy_loop_lem s done [] pre (y ∷ left) i copied v b c n o l = absurd (omega arith)
copy_loop_lem s done (x ∷ rest) pre [] i copied v b c n o l =
    let past : ltb i (length s.vector) ≡ false = rw v (ground (arith, length-append pre [])) in
    let read : at s.bitset i ≡ ok x = rw (b, n) (at-append done x rest) in
    let written : put copied i x ≡ ok (done ++ x ∷ replicate (length rest) false) =
      rw (c, n) (put-append done false (replicate (length rest) false) x) in
    rw (past, read, written)
      (copy_loop_lem s (done ++ x ∷ []) rest pre [] (i + 1)
        (done ++ x ∷ replicate (length rest) false) v (b ∙ sym (append_assoc done (x ∷ []) rest))
        (sym (append_assoc done (x ∷ []) (replicate (length rest) false)))
        (omega (arith, length-append {0} done (x ∷ []))) (inr (refl, ground arith)) (omega arith))
copy_loop_lem s done (x ∷ rest) pre (y ∷ left) i copied v b c n o l =
    let here : length pre ≡ i = ground arith in
    let inside : ltb i (length s.vector) ≡ true =
      rw v (ground (arith, length-append pre (y ∷ left))) in
    let member : at s.vector i ≡ ok y = rw (v, ← here) (at-append pre y left) in
    let read : at s.bitset i ≡ ok x = rw (b, n) (at-append done x rest) in
    let written : put copied i x ≡ ok (done ++ x ∷ replicate (length rest) false) =
      rw (c, n) (put-append done false (replicate (length rest) false) x) in
    rw (inside, member, read, written)
      (copy_loop_lem s (done ++ x ∷ []) rest (pre ++ y ∷ []) left (i + 1)
        (done ++ x ∷ replicate (length rest) false) (v ∙ sym (append_assoc pre (y ∷ []) left))
        (b ∙ sym (append_assoc done (x ∷ []) rest))
        (sym (append_assoc done (x ∷ []) (replicate (length rest) false)))
        (omega (arith, length-append {0} done (x ∷ [])))
        (inl (omega (arith, length-append {0} pre (y ∷ [])))) (omega arith))

-- Copying a set whose two representations agree returns that set.
pub copy-Denotes : {n : ℕ} {p : ℕ → Bool} {s : VectorBitSet} → Denotes n p s → copy s ≡ ok s
unfolding copy
copy-Denotes {s} h =
    copy_loop_lem s [] s.bitset [] s.vector 0 _ refl refl refl refl (inl refl) (Denotes-length h)
