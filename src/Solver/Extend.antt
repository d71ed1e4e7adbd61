-- ===== src/Solver/Extend.antt =====
-- `ExtendExtension` of src/logic/Solver_DS_PR.cpp: merging joins the sets of two lists, sorted or
-- not.
use af_analyzer.Prelude.{
  ℕ, ◌≡◌, refl, ◌||◌, List, [], ◌∷◌, ltb, contains, Bool-cases, inl, inr, arith,
}
use af_analyzer.Solver.{merge, extend_extension}

contains-merge :
    (xs ys : List ℕ) (a : ℕ) → contains (merge xs ys) a ≡ (contains xs a || contains ys a)
unfolding merge
contains-merge [] ys a = refl
contains-merge (x ∷ xs) [] a = ground arith
contains-merge (x ∷ xs) (y ∷ ys) a = elim (Bool-cases (ltb y x)) [
  | inl e ↦ rw e (ground (arith, contains-merge (x ∷ xs) ys a))
  | inr e ↦ rw e (ground (arith, contains-merge xs (y ∷ ys) a))
]

-- The members of the new extension are those of the old one and those of the found set.
pub contains-extend_extension :
    (xs ys : List ℕ) (a : ℕ)
    → contains (extend_extension xs ys) a ≡ (contains xs a || contains ys a)
unfolding extend_extension
contains-extend_extension xs ys a = contains-merge xs ys a
