-- ===== src/Solver/Invariant.antt =====
-- What holds of each task of src/logic/Solver_DS_PR.cpp at its cuts, and what one run of a task up to
-- its next cut has to keep.
use mathlib.Core.List.{Memᴰ}
use af_analyzer.Prelude.{
  suc, ◌+◌, ◌≤◌, length, filter_by, ℕ, ◌≡◌, ◌⊎◌, Bool, true, false, ◌&&◌, not, List, [], ◌∷◌,
  contains, Option, none, some, Result, ok,
}
use af_analyzer.Prelude.Predicates.{AllOf, SomeOf}
use af_analyzer.VectorBitSet.{VectorBitSet}
use af_analyzer.Af.{Af, exists_attack}
use af_analyzer.Sat.{SatSolver, Valuation, formula_true}
use af_analyzer.Semantics.{ArgSet, IsSubset, IsNonempty, AttackedBy, IsAdmissible, IsPreferred}
use af_analyzer.Encoding.Admissible.{chosen}
use af_analyzer.Solver.{
  Locals, TaskState, begin, encoded, looping, rejecting, reading, Effect, asked,
}
use af_analyzer.Solver.Weight.{subsets, loop_weight, weight, remaining}
use af_analyzer.Solver.Log.{IsLog}
use af_analyzer.Solver.Built.{IsBuilt, IsReductOf, Refutes}

module _ (sat : SatSolver) (f : Af) (p : ArgSet) (active : VectorBitSet) (q : ℕ) where
  open sat use {Solver, IsReady, formula}

  -- All models are nonempty admissible sets of the reduct.
  pub record IsSound (r : VectorBitSet) (s : Solver) : Type 0 where
    pub ready : IsReady s
    pub sound :
        (v : Valuation)
        → formula_true v (formula s) ≡ true
        → IsAdmissible (exists_attack f) (contains r.vector) (chosen (contains r.vector) v)
          × IsNonempty (chosen (contains r.vector) v)

  -- All nonempty admissible sets of the reduct are models.
  abbrev pub IsFull : VectorBitSet → Solver → Type 0
  IsFull r s =
      (S : ArgSet)
      → IsAdmissible (exists_attack f) (contains r.vector) S
      → IsNonempty S
      → (v : Valuation) × (formula_true v (formula s) ≡ true)
        × ((a : ℕ) → contains r.vector a ≡ true → v a ≡ S a)

  -- An extension that proves the rejection.
  abbrev pub IsProof : List ℕ → Type 0
  IsProof e =
      IsAdmissible (exists_attack f) p (contains e) × AttackedBy (exists_attack f) (contains e) q

  pub record IsRunning (e : List ℕ) (r : VectorBitSet) (s : Solver) : Type 0 where
    pub built : IsBuilt f p q (contains e)
    pub reduct : IsReductOf f p active e r
    pub sound : IsSound r s

  abbrev pub IsLooping : Locals Solver → Type 0
  IsLooping l =
      IsRunning l.extension_build l.reduct l.solver
      × (l.is_first_calculation ≡ true → (l.is_solved ≡ false) × IsFull l.reduct l.solver)

  abbrev pub TaskHolds : TaskState Solver → Type 0
  TaskHolds (begin e) = IsBuilt f p q (contains e)
  TaskHolds (encoded e r s) = IsRunning e r s × IsFull r s
  TaskHolds (looping l) = IsLooping l
  TaskHolds (rejecting e) = IsProof e
  TaskHolds (reading l) = IsLooping l

  -- The task can still reach `P`: it is complete already, or the rest of it is a model.
  abbrev pub Reaches : ArgSet → Locals Solver → Type 0
  Reaches P l =
      IsSubset (contains l.extension_build) P
      × ((l.is_first_calculation ≡ true) × IsSubset P (contains l.extension_build)
          ⊎ ((v : Valuation) × (formula_true v (formula (asked sat l)) ≡ true)
              × ((a : ℕ)
                  → contains l.reduct.vector a ≡ true
                  → v a ≡ (P a && not (contains l.extension_build a)))))

  abbrev pub IsResponsible : ArgSet → TaskState Solver → Type 0
  IsResponsible P (begin e) = IsSubset (contains e) P
  IsResponsible P (encoded e r s) = IsSubset (contains e) P
  IsResponsible P (looping l) = Reaches P l
  IsResponsible P (rejecting e) = ⊥
  IsResponsible P (reading l) = Reaches P l

  abbrev pub OutputHolds : Option (List ℕ) → Type 0
  OutputHolds none = Unit {0}
  OutputHolds (some e) = IsProof e

  -- Every model of the clauses that the body asks for is one of the sets of `sets` on the reduct.
  abbrev pub Covers : Locals Solver → List (List ℕ) → Type 0
  Covers l sets =
      (v : Valuation)
      → formula_true v (formula (asked sat l)) ≡ true
      → Memᴰ (filter_by v l.reduct.vector) sets

  -- The weight `b` bounds the runs of a loop.
  pub record Loops (l : Locals Solver) (b : ℕ) : Type 0 where
    pub size : ℕ
    pub sets : List (List ℕ)
    pub fits : remaining p active.vector l.extension_build ≤ suc size
    pub covers : Covers l sets
    pub bound : b ≡ loop_weight (length sets) (weight size)

  -- The weight `b` bounds the runs of the task and of those below it.
  abbrev pub IsBounded : TaskState Solver → ℕ → Type 0
  IsBounded (begin e) b = b ≡ weight (remaining p active.vector e)
  IsBounded (encoded e r s) b =
      (m : ℕ) × (remaining p active.vector e ≡ suc m)
      × (b ≡ 1 + loop_weight (subsets (suc m)) (weight m))
  IsBounded (looping l) b = Loops l b
  IsBounded (rejecting e) b = b ≡ 1
  IsBounded (reading l) b = (c : ℕ) × Loops l c × (b ≡ 1 + c)

  abbrev pub AreBounded : List (TaskState Solver) → ℕ → Type 0
  AreBounded [] b = b ≡ 0
  AreBounded (t ∷ ts) b = (c d : ℕ) × IsBounded t c × AreBounded ts d × (b ≡ c + d)

  -- A run of the task `t` returns, keeps what holds of tasks, rejects and writes only with a proof,
  -- and passes the responsibility for a preferred set without the query on, unless it rejects. The
  -- tasks that it leaves have less weight.
  pub record StepHolds (flag : Bool) (t : TaskState Solver) (result : Result (Effect Solver))
      : Type 0 where
    pub effect : Effect Solver
    pub returns : result ≡ ok effect
    pub tasks : AllOf TaskHolds effect.tasks
    pub rejects : effect.rejects ≡ true → (A : ArgSet) × Refutes f p q A
    pub output : OutputHolds effect.output
    pub printed : IsLog effect.printed
    pub covers :
        (P : ArgSet)
        → IsPreferred (exists_attack f) p P
        → P q ≡ false
        → IsResponsible P t
        → (flag ≡ true) ⊎ (effect.rejects ≡ true) ⊎ SomeOf (IsResponsible P) effect.tasks
    pub bounds : (b : ℕ) → IsBounded t b → (c : ℕ) × AreBounded effect.tasks c × (c + 1 ≤ b)
