-- ===== src/Decoding.antt =====
-- include/logic/Decoding.h and src/logic/Decoding.cpp: the set of arguments of a model.
use af_analyzer.Prelude.{
  ℕ, ◌≡◌, sym, ◌∙◌, Bool, ◌&&◌, List, [], ◌∷◌, ◌++◌, if◌then◌else◌, filter_by, contains,
  contains-filter_by, Bool-cases, inl, inr, arith,
}
use mathlib.Core.List.{append_assoc, append-nil}
use af_analyzer.Prelude.Int.{pos}
use af_analyzer.VectorBitSet.{VectorBitSet, Denotes}
use af_analyzer.Sat.{SatSolver}

module _ (sat : SatSolver) where
  open sat use {Solver, check_var_model}

  -- The loop of `get_set_from_solver`.
  unfoldable pub collect_members : Solver → List ℕ → List ℕ → List ℕ
  collect_members solver [] output = output
  collect_members solver (a ∷ rest) output =
      collect_members solver rest
        (if check_var_model (pos a) solver then output ++ a ∷ [] else output)

  unfoldable pub get_set_from_solver : Solver → VectorBitSet → List ℕ
  unfolding collect_members
  get_set_from_solver solver active = collect_members solver active.vector []

  collect_members_lem :
      (s : Solver) (l out : List ℕ)
      → collect_members s l out ≡ out ++ filter_by (λ a. check_var_model (pos a) s) l
  unfolding collect_members
  collect_members_lem s [] out = sym (append-nil out)
  collect_members_lem s (a ∷ l) out = elim (Bool-cases (check_var_model (pos a) s)) [
    | inl e ↦ rw e (collect_members_lem s l (out ++ a ∷ []) ∙ append_assoc out (a ∷ []) _)
    | inr e ↦ rw e (collect_members_lem s l out)
  ]

  pub get_set_from_solver_lem :
      (s : Solver) (active : VectorBitSet)
      → get_set_from_solver s active ≡ filter_by (λ a. check_var_model (pos a) s) active.vector
  unfolding get_set_from_solver
  get_set_from_solver_lem s active = collect_members_lem s active.vector []

  -- The decoded set has just the active arguments whose variables the model makes true.
  pub contains-get_set_from_solver :
      {n : ℕ} {p : ℕ → Bool} (s : Solver) {active : VectorBitSet}
      → Denotes n p active
      → (a : ℕ) → contains (get_set_from_solver s active) a ≡ (p a && check_var_model (pos a) s)
  contains-get_set_from_solver s {active} d a = rw (get_set_from_solver_lem s active) (
      ground
        (arith, contains-filter_by (λ b. check_var_model (pos b) s) active.vector a, d.items a))
