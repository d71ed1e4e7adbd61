-- ===== src/Tests/Witnesses.antt =====
-- The theorems on src/logic at concrete inputs that meet their hypotheses.
use af_analyzer.Prelude.{
  ℕ, ◌-◌, ◌+◌, ◌^◌, ◌<◌, ◌⊎◌, overflow, length, ◌≤◌, ◌≡◌, ◌↔◌, refl, Bool, true, false, ◌&&◌, ◌||◌,
  not, List, [], ◌∷◌, ◌++◌, ◌==◌, inr, ok, err, out_of_range, get_or, length, contains, all, arith,
}
use af_analyzer.Prelude.Int.{pos, negsuc}
use af_analyzer.VectorBitSet.{VectorBitSet, blank, Denotes, copy}
use af_analyzer.VectorBitSet.Copy.{copy-Denotes}
use af_analyzer.Af.{Af, initialize, add_attack, finish_initilization, exists_attack}
use af_analyzer.Af.Finish.{
  IsInitialized, finish_initilization-IsValid, add_attack-exists, add_attack-IsInitialized,
}
use af_analyzer.Af.Fault.{finish_initilization-out_of_range}
use af_analyzer.Af.Valid.{IsValid}
use af_analyzer.Sat.{Valuation, formula_true}
use af_analyzer.Sat.Cadical.{SatSolverCadical, formula, add_clause, get_model, check_var_model}
use af_analyzer.Sat.Cadical.Clauses.{formula-add_clause}
use af_analyzer.Sat.Cadical.Models.{get_or-get_model}
use af_analyzer.Sat.Brute.{brute, brute_solver}
use af_analyzer.Semantics.{ArgSet, IsAdmissible, IsNonempty}
use af_analyzer.Semantics.Reducts.{IsReduct}
use af_analyzer.Encoding.{add_clauses_nonempty_admissible_set, add_complement_clause}
use af_analyzer.Encoding.Admissible.{chosen, models_are-IsAdmissible}
use af_analyzer.Encoding.Range.{IsInRange, clauses-IsInRange}
use af_analyzer.Encoding.Complement.{complement_excludes}
use af_analyzer.Decoding.{get_set_from_solver, contains-get_set_from_solver}
use af_analyzer.Reduct.{get_reduct_set}
use af_analyzer.Reduct.Laws.{kept, get_reduct_set-Denotes}
use af_analyzer.Prioritizer.{calculate_priority, distance, calculate_priority_lem}
use af_analyzer.PreProcessor.{calculate_cone_influence, reduce_by_grounded, Processed, process}
use af_analyzer.PreProcessor.Visits.{Walk}
use af_analyzer.PreProcessor.Influence.{calculate_cone_influence-Denotes}
use af_analyzer.PreProcessor.Grounded.{VerdictHolds, Decides}
use af_analyzer.PreProcessor.GroundedStart.{reduce_by_grounded-Decides}
use af_analyzer.PreProcessor.Outcome.{everything}
use af_analyzer.PreProcessor.Verdict.{process-VerdictHolds}
use af_analyzer.Tests.{
  in_order, unfinished, unfinished-IsInitialized, in_range, sample, sample-IsValid, active_args,
  active, active-Denotes, active-HasVariables, members_le, fresh,
}

models_are-IsAdmissible_example :
    (t : SatSolverCadical brute) × (add_clauses_nonempty_admissible_set brute_solver
        (brute_solver.create 3)
        sample
        active
      ≡ ok t)
    × brute_solver.IsReady t
    × ((v : Valuation)
        → formula_true v (formula brute t) ≡ true
        → IsAdmissible (exists_attack sample) active_args (chosen active_args v)
          × IsNonempty (chosen active_args v))
    × ((S : ArgSet)
        → IsAdmissible (exists_attack sample) active_args S
        → IsNonempty S
        → (v : Valuation) × (formula_true v (formula brute t) ≡ true)
          × ((a : ℕ) → active_args a ≡ true → v a ≡ S a))
models_are-IsAdmissible_example =
    models_are-IsAdmissible brute_solver sample-IsValid active-Denotes active-HasVariables 3

-- A solver whose model accepts argument 4 alone.
abbrev solved : SatSolverCadical brute
solved = record {
  cadical_solver = record { clauses = []; pending = []; model = λ n. n == 4 };
  num_variables = pos 3;
}

solved-IsReady : brute_solver.IsReady solved
solved-IsReady = record { complete = refl; proper = refl }

complement_excludes_example :
    brute_solver.IsReady (add_complement_clause brute_solver solved active)
    × ((v : Valuation)
        → formula_true v (formula brute (add_complement_clause brute_solver solved active)) ≡ (
            formula_true v (formula brute solved)
            && not (all v (get_set_from_solver brute_solver solved active))))
complement_excludes_example =
    complement_excludes brute_solver active-Denotes active-HasVariables solved solved-IsReady

contains-get_set_from_solver_example :
    contains (get_set_from_solver brute_solver solved active) 4
    ≡ (active_args 4 && brute_solver.check_var_model (pos 4) solved)
contains-get_set_from_solver_example =
    contains-get_set_from_solver brute_solver solved active-Denotes 4

get_reduct_set-Denotes_example :
    (r : VectorBitSet) × (get_reduct_set active sample (4 ∷ 2 ∷ []) ≡ ok r)
    × Denotes 4 (λ a. active_args a && all (λ k. kept sample k a) (4 ∷ 2 ∷ [])) r
    × IsReduct
        (exists_attack sample)
        active_args
        (contains (4 ∷ 2 ∷ []))
        (λ a. active_args a && all (λ k. kept sample k a) (4 ∷ 2 ∷ []))
get_reduct_set-Denotes_example =
    get_reduct_set-Denotes sample-IsValid 4 (2 ∷ []) members_le active-Denotes

finish_initilization-IsValid_example :
    (f : Af) × (finish_initilization in_order unfinished ≡ ok f)
    × IsValid f
    × (f.num_args ≡ unfinished.num_args)
    × ((a b : ℕ) → exists_attack f a b ≡ exists_attack unfinished a b)
    × (f.distance_to_query ≡ unfinished.distance_to_query)
finish_initilization-IsValid_example =
    finish_initilization-IsValid in_order unfinished unfinished-IsInitialized in_range

-- The framework with an attack on argument 5, which it does not have.
abbrev faulty : Af
unfolding add_attack
faulty = (add_attack unfinished 1 5).0

faulty-IsInitialized : IsInitialized faulty
unfolding add_attack
faulty-IsInitialized = add_attack-IsInitialized unfinished 1 5 unfinished-IsInitialized

finish_initilization-out_of_range_example : finish_initilization in_order faulty ≡ err out_of_range
unfolding add_attack exists_attack initialize
finish_initilization-out_of_range_example =
    finish_initilization-out_of_range in_order faulty faulty-IsInitialized 1 5 refl
      (inr (omega arith))

add_attack-exists_example :
    ((c d : ℕ)
      → exists_attack (add_attack unfinished 3 2).0 c d
        ≡ ((3 == c && 2 == d) || exists_attack unfinished c d))
    × ((add_attack unfinished 3 2).1 ≡ not (exists_attack unfinished 3 2))
    × ((add_attack unfinished 3 2).0.num_args ≡ unfinished.num_args)
add_attack-exists_example = add_attack-exists unfinished 3 2

calculate_cone_influence-Denotes_example :
    (distances : List ℕ) × (p : ℕ → Bool) × (cone : VectorBitSet) × (calculate_cone_influence sample
        2
      ≡ ok (record sample { distance_to_query = distances }, cone))
    × (length distances ≡ 5)
    × Denotes 4 p cone
    × ((a : ℕ) → (p a ≡ true) ↔ ((k : ℕ) × Walk sample 2 a k))
    × ((a : ℕ) → p a ≡ true → Walk sample 2 a (get_or distances a 0))
    × ((a : ℕ) → get_or distances a 0 ≤ 4)
calculate_cone_influence-Denotes_example =
    calculate_cone_influence-Denotes sample-IsValid 2 (omega arith) fresh

near : (m : ℕ) → distance sample m ≤ 4
near m = omega (arith, fresh m)

calculate_priority_example :
    (r : ℕ) × (calculate_priority sample (4 ∷ 2 ∷ []) ≡ ok r)
    × ((k : ℕ) → contains (4 ∷ 2 ∷ []) k ≡ true → 4 - distance sample k ≤ r)
    × ((k : ℕ) × (contains (4 ∷ 2 ∷ []) k ≡ true) × (r ≡ 4 - distance sample k))
calculate_priority_example = calculate_priority_lem sample-IsValid near 4 (2 ∷ []) members_le

copy-Denotes_example : copy active ≡ ok active
copy-Denotes_example = copy-Denotes active-Denotes

formula-add_clause_example :
    formula brute (add_clause brute (pos 1 ∷ negsuc 2 ∷ []) solved)
    ≡ formula brute solved ++ (pos 1 ∷ negsuc 2 ∷ []) ∷ []
formula-add_clause_example =
    formula-add_clause brute (pos 1 ∷ negsuc 2 ∷ []) solved refl solved-IsReady.complete

get_or-get_model_example :
    ((3 + 1 < 2 ^ 31)
      × ((model : List Bool) × (get_model brute solved ≡ ok model)
          × (length model ≡ 3)
          × ((i : ℕ) → i < 3 → get_or model i false ≡ check_var_model brute (pos (i + 1)) solved)))
    ⊎ ((3 + 1 ≡ 2 ^ 31) × (get_model brute solved ≡ err overflow))
get_or-get_model_example = get_or-get_model brute solved 3 refl (omega arith)

attackers_active :
    (a b : ℕ) → active_args b ≡ true → exists_attack sample a b ≡ true → active_args a ≡ true
unfolding exists_attack
attackers_active a b h g = ground arith

reduce_by_grounded-Decides_example :
    Decides sample active_args 2 (reduce_by_grounded sample active 2)
reduce_by_grounded-Decides_example =
    reduce_by_grounded-Decides sample-IsValid 2 active-Denotes attackers_active refl

process-VerdictHolds_example :
    (done : Processed) × (process sample 2 blank ≡ ok done)
    × VerdictHolds sample (everything sample) 2 done.verdict (contains done.reduct.vector)
process-VerdictHolds_example = process-VerdictHolds sample-IsValid 2 blank (omega arith) fresh

clauses-IsInRange_example :
    (t : SatSolverCadical brute) × (add_clauses_nonempty_admissible_set brute_solver
        (brute_solver.create 3)
        sample
        active
      ≡ ok t)
    × IsInRange 4 (formula brute t)
    × ((s : SatSolverCadical brute)
        → brute_solver.IsReady s
        → IsInRange 4 (formula brute s)
        → IsInRange 4 (formula brute (add_complement_clause brute_solver s active)))
clauses-IsInRange_example =
    clauses-IsInRange brute_solver sample-IsValid active-Denotes active-HasVariables 3
