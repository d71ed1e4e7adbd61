-- ===== src/Solver/Solve.antt =====
-- `check_rejection_parallel` and `Solver_DS_PR::solve` of src/logic/Solver_DS_PR.cpp, run. OpenMP is
-- a schedule: whenever a task can run to its next cut, it names one of those that have not ended.
use af_analyzer.Prelude.{
  ℕ, zero, suc, Bool, true, false, not, List, [], ◌∷◌, if◌then◌else◌, ltb, Option, none, some,
  Result, ok, err, out_of_fuel, dangling, ◌≡◌, ◌≢◌, ◌⊎◌, ◌>>=◌,
}
use af_analyzer.VectorBitSet.{VectorBitSet, blank}
use af_analyzer.Af.{Af}
use af_analyzer.Sat.{SatSolver}
use af_analyzer.Reduct.{is_empty}
use af_analyzer.PreProcessor.{accepted, rejected, unknown, process}
use af_analyzer.Solver.Search.{Search, perform, initial, run_task}

abbrev pub Schedule : Type 0
Schedule = ℕ → ℕ

-- The order in which OpenMP runs the tasks, by the number of threads that is asked for; if none is, the
-- number is that of the runtime. `captures` says whether the compiler gives a task a copy of the
-- parameters `argument` and `isRejected`, which are under `shared`.
pub record Openmp : Type 0 where
  pub order : Option ℕ → Schedule
  pub captures : Bool

-- The compiler copies the parameters for each task, or the run does not read them after the call that
-- they belong to has returned.
abbrev pub IsDefined {ℓ} : {A : Type ℓ} → Openmp → Result A → Type ℓ
IsDefined omp r = (omp.captures ≡ true) ⊎ (r ≢ err dangling)

-- The task with the given index, or the last one, with those before and after it.
abbrev pub pick {ℓ} : {A : Type ℓ} → ℕ → A → List A → List A × A × List A
pick zero t rest = ([], t, rest)
pick (suc k) t [] = ([], t, [])
pick (suc k) t (u ∷ rest) = let (before, x, after) = pick k u rest in (t ∷ before, x, after)

module _ (sat : SatSolver) (captures : Bool) (schedule : Schedule) where
  open sat use {Solver}

  -- The parallel region, until no task is left.
  unfoldable pub run_search : ℕ → Af → VectorBitSet → ℕ → Search Solver → Result (Search Solver)
  run_search zero f active argument s = if is_empty s.tasks then ok s else err out_of_fuel
  run_search (suc fuel) f active argument s = elim s.tasks [
    | [] ↦ ok s
    | t ∷ rest ↦
        let (before, x, after) = pick (schedule fuel) t rest in
        run_task sat captures f active argument s before x >>= λ e.
        run_search fuel f active argument (perform s before e after)
  ]

-- The number of threads that is asked for, if any is.
abbrev pub num_threads : ℕ → Option ℕ
num_threads num_cores = if ltb 0 num_cores then some num_cores else none

module _ (sat : SatSolver) (omp : Openmp) where
  -- The result, with what `proof_extension` is then, and what has been written to `cout`.
  unfoldable pub check_rejection_parallel :
      ℕ → ℕ → Af → VectorBitSet → List ℕ → ℕ → Result (Bool × List ℕ × List ℕ)
  unfolding run_search
  check_rejection_parallel fuel argument f active_args proof_extension num_cores =
      run_search sat omp.captures (omp.order (num_threads num_cores)) fuel f active_args argument
        (initial proof_extension)
      >>= λ s. ok (s.is_rejected, s.output_extension, s.out)

  -- The framework with its new distances, the result, `proof_extension`, and what has been written.
  unfoldable pub solve : ℕ → ℕ → Af → List ℕ → ℕ → Result (Af × Bool × List ℕ × List ℕ)
  unfolding process check_rejection_parallel
  solve fuel argument f proof_extension num_cores = process f argument blank >>= λ done.
      elim done.verdict [
        | accepted ↦ ok (done.framework, true, proof_extension, [])
        | rejected ↦ ok (done.framework, false, proof_extension, [])
        | unknown ↦
            check_rejection_parallel fuel argument done.framework done.reduct proof_extension
              num_cores
            >>= λ r. ok (done.framework, not r.0, r.1, r.2)
      ]
