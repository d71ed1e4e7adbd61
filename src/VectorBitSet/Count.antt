-- ===== src/VectorBitSet/Count.antt =====
-- Counting the members of a set in a list of arguments, for the counters of
-- src/logic/PreProcessor_DS_PR.cpp and the bounds on the loops of src/logic.
use af_analyzer.Prelude.{
  ℕ, ◌+◌, ◌-◌, ◌≤◌, ◌<◌, ◌≡◌, refl, sym, ap, ◌∙◌, true, false, ◌&&◌, not, List, [], ◌∷◌, ◌==◌,
  if◌then◌else◌, length, contains, Bool-cases, inl, inr, arith, ==_self, eq_of_==,
}
use af_analyzer.VectorBitSet.{IsDistinct}
use af_analyzer.Semantics.{ArgSet, IsSubset}

-- How many entries of the list are in the set.
abbrev pub count_by : ArgSet → List ℕ → ℕ
count_by p [] = 0
count_by p (a ∷ l) = (if p a then 1 else 0) + count_by p l

pub count_by-eq :
    {p q : ArgSet} (l : List ℕ)
    → ((a : ℕ) → contains l a ≡ true → p a ≡ q a)
    → count_by p l ≡ count_by q l
count_by-eq [] h = refl
count_by-eq (x ∷ l) h =
    ground (arith, h x (ground (arith, ==_self x)), count_by-eq l (λ a m. h a (ground arith)))

pub count_by-le : (p : ArgSet) (l : List ℕ) → count_by p l ≤ length l
count_by-le p [] = omega arith
count_by-le p (x ∷ l) = ground (arith, count_by-le p l)

pub count_by-pos :
    (p : ArgSet) (l : List ℕ) (a : ℕ) → contains l a ≡ true → p a ≡ true → 1 ≤ count_by p l
count_by-pos p [] a h k = cc
count_by-pos p (x ∷ l) a h k = elim (Bool-cases (x == a)) [
  | inl e ↦ let k' : p x ≡ true = rw (eq_of_== x a e) k in ground (arith, k')
  | inr e ↦ ground (arith, count_by-pos p l a (ground arith) k)
]

-- Taking `v` out of the set takes at most one entry out of a list without repetitions.
pub count_by-drop :
    (p : ArgSet) (l : List ℕ) (v : ℕ)
    → IsDistinct l
    → count_by (λ a. p a && not (v == a)) l ≡ count_by p l - (if contains l v && p v then 1 else 0)
count_by-drop p [] v d = omega arith
count_by-drop p (x ∷ l) v d = elim (Bool-cases (x == v)) [
  | inl e ↦
      let out : contains l v ≡ false = ap (contains l) (sym (eq_of_== x v e)) ∙ d.0 in
      rw (eq_of_== x v e) (ground (arith, ==_self v, out, count_by-drop p l v d.1))
  | inr e ↦
      let other : (v == x) ≡ false = ground arith in
      ground (arith, e, other, count_by-drop p l v d.1, count_by-pos p l v)
]

pub count_by-sub : {p q : ArgSet} (l : List ℕ) → IsSubset q p → count_by q l ≤ count_by p l
count_by-sub [] sub = omega arith
count_by-sub (x ∷ l) sub = ground (arith, sub x, count_by-sub l sub)

pub count_by-lt :
    {p q : ArgSet} (l : List ℕ) (a : ℕ)
    → IsSubset q p
    → contains l a ≡ true
    → p a ≡ true
    → q a ≡ false
    → count_by q l < count_by p l
count_by-lt [] a sub m h k = cc
count_by-lt {p} {q} (x ∷ l) a sub m h k = elim (Bool-cases (x == a)) [
  | inl e ↦ rw (eq_of_== x a e) (ground (arith, h, k, count_by-sub l sub))
  | inr e ↦ ground (arith, sub x, count_by-lt l a sub (ground arith) h k)
]

-- All entries of the list are in the set.
pub count_by-all :
    (p : ArgSet) (l : List ℕ)
    → ((a : ℕ) → contains l a ≡ true → p a ≡ true)
    → count_by p l ≡ length l
count_by-all p [] h = refl
count_by-all p (x ∷ l) h =
    ground (arith, h x (ground (arith, ==_self x)), count_by-all p l (λ a m. h a (ground arith)))
