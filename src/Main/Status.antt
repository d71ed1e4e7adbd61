-- ===== src/Main/Status.antt =====
-- The exit status of src/Main.cpp, against what include/Main.h says of it.
use Prim.Native.String.{String}
use af_analyzer.Prelude.{ℕ, ◌≡◌, ◌≢◌, ◌↔◌, refl, List, Result, ok, arith}
use af_analyzer.Af.{Iteration}
use af_analyzer.Parser.{Files}
use af_analyzer.Sat.{SatSolver}
use af_analyzer.Solver.Solve.{Openmp}
use af_analyzer.Main.{Outcome, execute, main}
use af_analyzer.Main.Getopt.{Longopt, Event}

-- "0 iff the program exited without error. 1 otherwise": there is no error if `execute` returns 0.
pub record MainContract (execute main : List String → Result Outcome) : Type 0 where
  pub zero_iff :
      (argv : List String) (o o' : Outcome)
      → execute argv ≡ ok o
      → main argv ≡ ok o'
      → (o'.status ≡ 0) ↔ (o.status ≡ 0)
  pub one_otherwise :
      (argv : List String) (o o' : Outcome)
      → execute argv ≡ ok o
      → main argv ≡ ok o'
      → o.status ≢ 0
      → o'.status ≡ 1

module _ (it : Iteration) (files : Files) (sat : SatSolver) (omp : Openmp) (fuel : ℕ)
    (getopt_long_only : List Longopt → List String → List Event) where
  main_lem :
      (argv : List String) (o : Outcome)
      → execute it files sat omp fuel getopt_long_only argv ≡ ok o
      → main it files sat omp fuel getopt_long_only argv ≡ ok (record o { status = 0 })
  unfolding main
  main_lem argv o ran = rw ran refl

  -- If there are arguments for which `execute` returns 1, then `main` does not keep what Main.h says:
  -- for these arguments it writes the same, and the status is 0.
  pub main-not-MainContract :
      (argv : List String) (o : Outcome)
      → execute it files sat omp fuel getopt_long_only argv ≡ ok o
      → o.status ≡ 1
      → (main it files sat omp fuel getopt_long_only argv ≡ ok (record o { status = 0 }))
        × ¬ MainContract
            (execute it files sat omp fuel getopt_long_only)
            (main it files sat omp fuel getopt_long_only)
  main-not-MainContract argv o ran failed = (
    main_lem argv o ran,
    λ kept.
        let fine =
          (kept.zero_iff argv o (record o { status = 0 }) ran (main_lem argv o ran)).0 refl in
        omega (arith, fine, failed),
  )
