-- ===== src/Solver/Agreement.antt =====
-- The answer of `Solver_DS_PR::solve` of src/logic/Solver_DS_PR.cpp is the same in all runs.
use af_analyzer.Prelude.{
  ℕ, ◌+◌, ◌^◌, ◌≤◌, ◌<◌, ◌≡◌, ap, ◌∙◌, Bool, false, List, get_or, Bool-ext, ok,
}
use af_analyzer.Af.{Af, exists_attack}
use af_analyzer.Af.Valid.{IsValid}
use af_analyzer.Sat.{SatSolver}
use af_analyzer.Solver.Weight.{weight}
use af_analyzer.Solver.Solve.{Openmp, IsDefined, solve}
use af_analyzer.Solver.Correct.{solve_lem}

-- What a run depends on besides the framework and the query: the solver, the order in which OpenMP runs
-- the tasks, the number of cores, the fuel, and what `proof_extension` is before.
pub record Setting : Type 1 where
  pub sat : SatSolver
  pub omp : Openmp
  pub cores : ℕ
  pub fuel : ℕ
  pub given : List ℕ

-- `solve` returns the answer in this setting.
abbrev pub Returns : Setting → Af → ℕ → Bool → Type 0
Returns s f q answer =
    (f' : Af) × (l out : List ℕ) × (solve s.sat s.omp s.fuel q f s.given s.cores
      ≡ ok (f', answer, l, out))

-- The compiler copies the shared parameters for each task, or the run does not read them after their
-- call has returned.
abbrev pub HasDefinedRun : Setting → Af → ℕ → Type 0
HasDefinedRun s f q = IsDefined s.omp (solve s.sat s.omp s.fuel q f s.given s.cores)

-- Take a valid framework with fewer than 2 ^ 30 arguments, whose distances are all 0 and in which 0
-- attacks nothing, and a query that is an argument of it. In any two settings with the weight of
-- num_args + 1 as fuel or more, whatever the solvers, the orders of the tasks and the numbers of
-- threads, if in each the compiler copies the shared parameters for each task or the run does not read
-- them after their call has returned, `solve` returns, and the same answer.
pub solve_agrees :
    {f : Af} (valid : IsValid f) (q : ℕ) (s t : Setting)
    → weight (f.num_args + 1) ≤ s.fuel
    → weight (f.num_args + 1) ≤ t.fuel
    → f.num_args < 2 ^ 30
    → ((a : ℕ) → get_or f.distance_to_query a 0 ≡ 0)
    → ((b : ℕ) → exists_attack f 0 b ≡ false)
    → 0 < q
    → q ≤ f.num_args
    → HasDefinedRun s f q
    → HasDefinedRun t f q
    → (answer : Bool) × Returns s f q answer × Returns t f q answer
solve_agrees valid q s t enough enough' small fresh no_zero positive hq defined defined' =
    let (f1, answer, l1, out1, ends, changed, right, witness, log) =
      solve_lem s.sat s.omp s.cores valid q s.given s.fuel enough small fresh no_zero positive hq
        defined in
    let (f2, answer', l2, out2, ends', changed', right', witness', log') =
      solve_lem t.sat t.omp t.cores valid q t.given t.fuel enough' small fresh no_zero positive hq
        defined' in
    let same : answer' ≡ answer =
      Bool-ext answer' answer (λ h. right.1 (right'.0 h)) (λ h. right'.1 (right.0 h)) in
    (answer, (f1, l1, out1, ends), (f2, l2, out2, ends' ∙ ap (λ b. ok (f2, b, l2, out2)) same))
