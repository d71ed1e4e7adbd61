-- ===== src/Drivers.antt =====
-- src/logic/Tests.cpp: functions that build or read a framework and print the answers for a range of
-- arguments. The measured times are parameters, as they are printed.
pub mod Reports
pub mod Aggregate
use Prim.Native.String.{String}
use af_analyzer.Prelude.{
  ℕ, zero, suc, ◌+◌, ◌-◌, ◌*◌, ◌/◌, ◌%◌, Bool, true, false, List, [], ◌∷◌, ◌++◌, ◌==◌,
  if◌then◌else◌, Result, ok, ◌>>=◌, at,
}
use af_analyzer.Text.{codes, newline, number}
use af_analyzer.VectorBitSet.{VectorBitSet}
use af_analyzer.Af.{Af, Attack, Iteration, empty_af, add_attack, finish_initilization}
use af_analyzer.Parser.{Files, parse_af}
use af_analyzer.Printer.{print_list}
use af_analyzer.Sat.{SatSolver}
use af_analyzer.Solver.Solve.{Openmp, solve}

abbrev pub banner : ℕ → List ℕ
banner i =
    codes "////////////////////////// ARGUMENT "
    ++ number i
    ++ codes " //////////////////////////////\n"

-- What is printed of the result of `solve`.
unfoldable pub report : Af → ℕ → Bool → List ℕ → Result (List ℕ)
report framework argument true l = ok (codes "YES\n")
report framework argument false (a ∷ l) = ok (codes "NO\nw " ++ print_list (a ∷ l) ++ newline ∷ [])
report framework argument false [] = at framework.victims argument >>= λ row.
    at row.bitset argument >>= λ attacks_itself. ok (
      codes "NO\nw "
      ++ (if attacks_itself
          then codes "Argument attacks itself.\n"
          else codes "No Extension found\n"))

-- A framework made by `AF(n)`, which sets the first member only.
abbrev pub aggregate : ℕ → Af
aggregate n = record empty_af { num_args = n }

abbrev pub add_attacks : Af → List Attack → Af
add_attacks f [] = f
add_attacks f ((a, b) ∷ l) = add_attacks (add_attack f a b).0 l

-- The attacks of `testArgsALot`, for so many values from `i` on.
abbrev pub attacks_from : ℕ → ℕ → List Attack
attacks_from zero i = []
attacks_from (suc count) i =
    (if i % 3 == 0
      then (i, (i + 50 / 2) % 50) ∷ (i, (i + 50 / 3) % 50) ∷ []
      else (i, i * 50 / 2 % 50) ∷ (i, i * 50 / 3 % 50) ∷ [])
    ++ attacks_from count (i + 1)

abbrev pub num_cores_tests : ℕ
num_cores_tests = 0

module _ (it : Iteration) (files : Files) (sat : SatSolver) (omp : Openmp) (fuel : ℕ)
    (parse_time compute_time : List ℕ) where
  -- The loop over the arguments from `i` on, on one framework: it keeps what `solve` leaves there.
  unfoldable pub run_rounds : ℕ → ℕ → Af → Result (Af × List ℕ)
  run_rounds zero i framework = ok (framework, [])
  run_rounds (suc count) i framework = solve sat omp fuel i framework [] num_cores_tests >>= λ r.
      report r.0 i r.1 r.2 >>= λ text.
      run_rounds count (i + 1) r.0 >>= λ rest. ok (rest.0, banner i ++ r.3 ++ text ++ rest.1)

  abbrev pub footer : List ℕ
  footer = codes "Compute Time: " ++ compute_time ++ codes " seconds\n"

  unfoldable pub run_parallel : ℕ → ℕ → Af → Result (Af × List ℕ)
  run_parallel num_args_start num_args_end framework =
      run_rounds (num_args_end + 1 - num_args_start) num_args_start framework >>= λ r.
      ok (r.0, r.1 ++ footer)

  -- A framework of `n` arguments with the attacks, finished, and the answers for a range.
  unfoldable pub run_built : ℕ → List Attack → ℕ → ℕ → Result (Af × List ℕ)
  run_built n attacks first last =
      finish_initilization it (add_attacks (aggregate n) attacks) >>= λ framework.
      run_parallel first last framework

  unfoldable pub test_self_attack : Result (Af × List ℕ)
  test_self_attack = run_built 3 ((1, 1) ∷ (2, 1) ∷ (3, 2) ∷ []) 1 1

  unfoldable pub test4_args : Result (Af × List ℕ)
  test4_args = run_built 4 ((1, 2) ∷ (4, 1) ∷ []) 1 1

  unfoldable pub test6_args : Result (Af × List ℕ)
  test6_args =
      run_built 6 ((1, 2) ∷ (1, 6) ∷ (2, 4) ∷ (2, 5) ∷ (3, 1) ∷ (3, 2) ∷ (4, 1) ∷ (5, 4) ∷ []) 1 6

  unfoldable pub test6_args_file : Result (Af × List ℕ)
  test6_args_file =
      parse_af it files empty_af "./../../../rsc/examples/example2.i23" >>= λ framework.
      run_parallel 1 6 framework

  unfoldable pub test_args_a_lot : Result (Af × List ℕ)
  test_args_a_lot = run_built 50 (attacks_from 50 1) 1 1

  unfoldable pub test_file : Result (Af × List ℕ)
  test_file =
      parse_af it files empty_af "/home/jsander/solvers/ICCMA23/benchmarks/main/g_1477_0.03_8.i23"
      >>= λ framework. run_parallel 671 671 framework >>= λ r.
          ok (
            r.0,
            codes "Time to parse + initialize AF: " ++ parse_time ++ codes " seconds\n" ++ r.1,
          )

  unfoldable pub run_tests : Result (Af × List ℕ)
  run_tests = test_file

  -- `test` of src/Main.cpp: the output, and the value that is returned.
  unfoldable pub test : Result (List ℕ × ℕ)
  test = run_tests >>= λ r. ok (r.1, 0)
