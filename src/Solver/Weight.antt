-- ===== src/Solver/Weight.antt =====
-- How many runs between cuts a task of src/logic/Solver_DS_PR.cpp and the tasks below it can take:
-- an extension under construction grows, and each found set is found once.
use mathlib.Core.List.{Memᴰ}
use mathlib.Core.List.Memᴰ.{head, tail}
use af_analyzer.Prelude.{
  ℕ, zero, suc, ◌+◌, ◌≤◌, ◌≡◌, refl, sym, ap, ◌∙◌, true, List, [], ◌∷◌, ◌++◌, map, length,
  length-append, contains, filter_by, arith, Bool-cases, inl, inr, ==_self, all,
}
use af_analyzer.VectorBitSet.{IsDistinct}
use af_analyzer.Semantics.{ArgSet}
use af_analyzer.Semantics.Reducts.{minus}
use af_analyzer.VectorBitSet.Count.{count_by, count_by-lt}

-- How many subsets a set of so many members has.
abbrev pub subsets : ℕ → ℕ
subsets zero = 1
subsets (suc n) = subsets n + subsets n

-- At the head of the loop, with `k` sets that can still be found, and tasks of weight `w`.
abbrev pub loop_weight : ℕ → ℕ → ℕ
loop_weight zero w = 2
loop_weight (suc k) w = 2 + w + loop_weight k w

-- At the start of a task, with at most so many active arguments outside of the extension.
abbrev pub weight : ℕ → ℕ
weight zero = 1
weight (suc m) = 2 + loop_weight (subsets (suc m)) (weight m)

pub loop_weight-le : (j k w w' : ℕ) → j ≤ k → w ≤ w' → loop_weight j w ≤ loop_weight k w'
loop_weight-le zero zero w w' h g = omega arith
loop_weight-le zero (suc k) w w' h g = omega (arith, loop_weight-le zero k w w' (omega arith) g)
loop_weight-le (suc j) zero w w' h g = absurd (omega arith)
loop_weight-le (suc j) (suc k) w w' h g = omega (arith, loop_weight-le j k w w' (omega arith) g)

pub subsets-le : (m n : ℕ) → m ≤ n → subsets m ≤ subsets n
subsets-le zero zero h = omega arith
subsets-le zero (suc n) h = omega (arith, subsets-le zero n (omega arith))
subsets-le (suc m) zero h = absurd (omega arith)
subsets-le (suc m) (suc n) h = omega (arith, subsets-le m n (omega arith))

pub weight-le : (m n : ℕ) → m ≤ n → weight m ≤ weight n
weight-le zero zero h = omega arith
weight-le zero (suc n) h = omega arith
weight-le (suc m) zero h = absurd (omega arith)
weight-le (suc m) (suc n) h = omega (
  arith,
  loop_weight-le (subsets (suc m)) (subsets (suc n)) (weight m) (weight n)
      (subsets-le (suc m) (suc n) h) (weight-le m n (omega arith)),
)

-- The active arguments outside of the extension.
abbrev pub remaining : ArgSet → List ℕ → List ℕ → ℕ
remaining p l e = count_by (minus p (contains e)) l

-- A list without repetitions is no longer than the number of its members.
pub length-le-count_by :
    (xs l : List ℕ)
    → IsDistinct xs
    → ((a : ℕ) → contains xs a ≡ true → contains l a ≡ true)
    → length xs ≤ count_by (contains xs) l
length-le-count_by [] l d h = omega arith
length-le-count_by (x ∷ xs) l d h = omega (
  arith,
  length-le-count_by xs l d.1 (λ a m. h a (ground arith)),
  count_by-lt {p = contains (x ∷ xs)} {q = contains xs} l x (λ a m. ground arith)
      (h x (ground (arith, ==_self x))) (ground (arith, ==_self x)) d.0,
)

-- All choices of entries of a list, in its order.
abbrev pub sublists : List ℕ → List (List ℕ)
sublists [] = [] ∷ []
sublists (x ∷ l) = map (λ s. x ∷ s) (sublists l) ++ sublists l

length-map : {A B : Type 0} (f : A → B) (l : List A) → length (map f l) ≡ length l
length-map f [] = refl
length-map f (x ∷ l) = ap suc (length-map f l)

pub length-sublists : (l : List ℕ) → length (sublists l) ≡ subsets (length l)
length-sublists [] = refl
length-sublists (x ∷ l) = omega (
  arith,
  length-append {0} (map (λ s. x ∷ s) (sublists l)) (sublists l),
  length-map (λ s. x ∷ s) (sublists l),
  length-sublists l,
)

module _ {A : Type 0} where
  mem-append_left : {a : A} (xs ys : List A) → Memᴰ a xs → Memᴰ a (xs ++ ys)
  mem-append_left [] ys m = elim m [ ]
  mem-append_left (x ∷ xs) ys (head e) = head e
  mem-append_left (x ∷ xs) ys (tail m) = tail (mem-append_left xs ys m)

  mem-append_right : {a : A} (xs ys : List A) → Memᴰ a ys → Memᴰ a (xs ++ ys)
  mem-append_right [] ys m = m
  mem-append_right (x ∷ xs) ys m = tail (mem-append_right xs ys m)

  -- The list without one occurrence of a member.
  pub without : {a : A} (l : List A) → Memᴰ a l → List A
  without [] m = elim m [ ]
  without (x ∷ l) (head e) = l
  without (x ∷ l) (tail m) = x ∷ without l m

  pub length-without : {a : A} (l : List A) (m : Memᴰ a l) → length l ≡ suc (length (without l m))
  unfolding without
  length-without [] m = elim m [ ]
  length-without (x ∷ l) (head e) = refl
  length-without (x ∷ l) (tail m) = ap suc (length-without l m)

  pub mem-without :
      {a b : A} (l : List A) (m : Memᴰ a l) → Memᴰ b l → (b ≡ a → ⊥) → Memᴰ b (without l m)
  unfolding without
  mem-without [] m k ne = elim m [ ]
  mem-without (x ∷ l) (head e) (head g) ne = absurd (ne (g ∙ sym e))
  mem-without (x ∷ l) (head e) (tail k) ne = k
  mem-without (x ∷ l) (tail m) (head g) ne = head g
  mem-without (x ∷ l) (tail m) (tail k) ne = tail (mem-without l m k ne)

mem-map : {x : ℕ} {s : List ℕ} (l : List (List ℕ)) → Memᴰ s l → Memᴰ (x ∷ s) (map (λ t. x ∷ t) l)
mem-map [] m = elim m [ ]
mem-map {x} (t ∷ l) (head e) = head (ap (λ k. x ∷ k) e)
mem-map (t ∷ l) (tail m) = tail (mem-map l m)

pub mem-filter_by-sublists : (v : ArgSet) (l : List ℕ) → Memᴰ (filter_by v l) (sublists l)
mem-filter_by-sublists v [] = head refl
mem-filter_by-sublists v (x ∷ l) = elim (Bool-cases (v x)) [
  | inl e ↦ rw e (
      mem-append_left (map (λ s. x ∷ s) (sublists l)) (sublists l)
        (mem-map (sublists l) (mem-filter_by-sublists v l)))
  | inr e ↦
      rw e
        (mem-append_right (map (λ s. x ∷ s) (sublists l)) (sublists l) (mem-filter_by-sublists v l))
]

pub all-filter_by : (v : ArgSet) (l : List ℕ) → all v (filter_by v l) ≡ true
all-filter_by v [] = refl
all-filter_by v (x ∷ l) = elim (Bool-cases (v x)) [
  | inl e ↦ rw e (ground (arith, e, all-filter_by v l))
  | inr e ↦ rw e (all-filter_by v l)
]
