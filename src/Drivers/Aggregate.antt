-- ===== src/Drivers/Aggregate.antt =====
-- The frameworks that src/logic/Tests.cpp makes by `AF(n)`: their tables are empty.
use af_analyzer.Prelude.{
  ℕ, suc, ◌+◌, ◌-◌, ◌≤◌, ◌≡◌, refl, ◌∙◌, ◌⊎◌, inl, inr, false, List, [], ◌∷◌, replicate, ok, err,
  out_of_range, arith,
}
use af_analyzer.Af.{Af, Attack, Iteration, add_attack, finish_initilization}
use af_analyzer.Af.Finish.{add_attack-victims}
use af_analyzer.Parser.{Files}
use af_analyzer.Parser.Ends.{tabulate-OkOr, assemble-OkOr}
use af_analyzer.PreProcessor.{process}
use af_analyzer.Sat.{SatSolver}
use af_analyzer.Solver.Solve.{Openmp, solve}
use af_analyzer.Drivers.{
  num_cores_tests, aggregate, add_attacks, run_rounds, run_parallel, run_built,
}

add_attacks-victims : (f : Af) (l : List Attack) → (add_attacks f l).victims ≡ f.victims
add_attacks-victims f [] = refl
add_attacks-victims f ((a, b) ∷ l) =
    add_attacks-victims (add_attack f a b).0 l ∙ add_attack-victims f a b

finish_initilization-empty :
    (it : Iteration) (f : Af)
    → f.victims ≡ []
    → ((f' : Af) × (finish_initilization it f ≡ ok f') × (f'.victims ≡ []))
      ⊎ (finish_initilization it f ≡ err out_of_range)
unfolding finish_initilization
finish_initilization-empty it f none_yet =
    let n = f.num_args + 1 in
    elim (tabulate-OkOr f.attacks (it.order f.attacks) (record {
      attackers_vectors = replicate n [];
      attackers_bitsets = replicate n (replicate n false);
      victims_vectors = replicate n [];
      victims_bitsets = replicate n (replicate n false);
      self_attack = f.self_attack;
      symmetric_attacks = f.symmetric_attacks;
    })) [
      | inr bad ↦ inr (rw bad refl)
      | inl (t, good) ↦ elim (assemble-OkOr f.attackers t.attackers_vectors t.attackers_bitsets) [
        | inr bad ↦ inr (rw (good, bad) refl)
        | inl (ins, assembled) ↦ inl (
          record f {
            attackers = ins;
            victims = [];
            self_attack = t.self_attack;
            symmetric_attacks = t.symmetric_attacks;
          },
          rw (good, assembled, none_yet) refl,
          refl,
        )
      ]
    ]

solve-empty :
    (sat : SatSolver) (omp : Openmp) (fuel q : ℕ) (f : Af) (given : List ℕ) (num_cores : ℕ)
    → f.victims ≡ []
    → solve sat omp fuel q f given num_cores ≡ err out_of_range
unfolding solve
solve-empty sat omp fuel q f given num_cores none_there = rw (process, none_there) refl

module _ (it : Iteration) (files : Files) (sat : SatSolver) (omp : Openmp) (fuel : ℕ)
    (parse_time compute_time : List ℕ) where
  run_parallel-empty :
      (first last : ℕ) (f : Af)
      → first ≤ last
      → f.victims ≡ []
      → run_parallel it files sat omp fuel parse_time compute_time first last f ≡ err out_of_range
  unfolding run_parallel run_rounds
  run_parallel-empty first last f h none_there =
      let count : last + 1 - first ≡ suc (last - first) = omega (arith, h) in
      rw (count, solve-empty sat omp fuel first f [] num_cores_tests none_there) refl

  -- A framework made by `AF(n)` keeps empty tables when attacks are added and it is finished, so that
  -- the functions that build one access a vector behind its end, before they print an answer.
  pub run_built-eq-err :
      (n : ℕ) (attacks : List Attack) (first last : ℕ)
      → first ≤ last
      → run_built it files sat omp fuel parse_time compute_time n attacks first last
        ≡ err out_of_range
  unfolding run_built
  run_built-eq-err n attacks first last h =
      elim (finish_initilization-empty it (add_attacks (aggregate n) attacks)
        (add_attacks-victims (aggregate n) attacks)) [
          | inr bad ↦ rw bad refl
          | inl (f, ends, none_there) ↦ rw ends (run_parallel-empty first last f h none_there)
        ]
