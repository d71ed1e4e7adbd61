-- ===== src/Tests/Solves.antt =====
-- Runs of `Solver_DS_PR::solve` of src/logic/Solver_DS_PR.cpp on the sample, and its theorems there.
use af_analyzer.Prelude.{
  ℕ, ◌≤◌, ◌≡◌, ◌↔◌, ◌⊎◌, inl, err, dangling, refl, Bool, true, false, List, [], ◌∷◌, ◌+◌, ok, arith,
}
use af_analyzer.Af.{Af, exists_attack}
use af_analyzer.Sat.Brute.{brute_solver}
use af_analyzer.Semantics.{IsSceptical}
use af_analyzer.Prioritizer.{distance}
use af_analyzer.Solver.Search.{Search, initial, Reachable}
use af_analyzer.Solver.Log.{IsLog}
use af_analyzer.Solver.Weight.{weight}
use af_analyzer.Solver.Solve.{run_search, solve}
use af_analyzer.Solver.Ends.{search_ends}
use af_analyzer.Solver.Correct.{arguments, IsWitness, OnlyDistances, solve_lem}
use af_analyzer.Solver.Agreement.{Setting, Returns, solve_agrees}
use af_analyzer.Tests.{
  in_turn, sample, sample-IsValid, active, active-Denotes, active-HasVariables, fresh,
}

no_zero : (b : ℕ) → exists_attack sample 0 b ≡ false
unfolding exists_attack
no_zero b = refl

no_self2 : exists_attack sample 2 2 ≡ false
unfolding exists_attack
no_self2 = refl

near : (m : ℕ) → distance sample m ≤ 4
near m = omega (arith, fresh m)

-- With a compiler that does not copy the shared parameters.
search_ends_example :
    ((s : Search (brute_solver.Solver)) × (run_search brute_solver false
          (λ k. k)
          (weight 3)
          sample
          active
          2
          (initial [])
        ≡ ok s)
      × Reachable brute_solver false sample active 2 [] s
      × (s.tasks ≡ []))
    ⊎ ((false ≡ false)
        × (run_search brute_solver false (λ k. k) (weight 3) sample active 2 (initial [])
            ≡ err dangling))
search_ends_example =
    search_ends brute_solver false sample-IsValid active-Denotes active-HasVariables 2 refl no_self2
      near [] (λ k. k) (weight 3) (omega arith)

solve_lem_example :
    (f' : Af) × (answer : Bool) × (l out : List ℕ) × (solve brute_solver in_turn
        (weight 5)
        2
        sample
        []
        8
      ≡ ok (f', answer, l, out))
    × OnlyDistances sample f'
    × ((answer ≡ true) ↔ IsSceptical (exists_attack sample) (arguments sample) 2)
    × IsWitness sample 2 [] l
    × IsLog out
solve_lem_example =
    solve_lem brute_solver in_turn 8 sample-IsValid 2 [] (weight 5) (omega arith) (omega arith)
      fresh no_zero (omega arith) (omega arith) (inl refl)

abbrev one_thread : Setting
one_thread = record { sat = brute_solver; omp = in_turn; cores = 1; fuel = weight 5; given = [] }

abbrev eight_threads : Setting
eight_threads = record {
  sat = brute_solver;
  omp = in_turn;
  cores = 8;
  fuel = weight 5 + 1;
  given = 7 ∷ [];
}

solve_agrees_example :
    (answer : Bool) × Returns one_thread sample 2 answer × Returns eight_threads sample 2 answer
solve_agrees_example =
    solve_agrees sample-IsValid 2 one_thread eight_threads (omega arith) (omega arith) (omega arith)
      fresh no_zero (omega arith) (omega arith) (inl refl) (inl refl)
