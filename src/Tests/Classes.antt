-- ===== src/Tests/Classes.antt =====
-- The theorems on src/logic/Tests.cpp and on the contracts of the headers, on concrete frameworks.
use mathlib.Core.Path.{subst}
use af_analyzer.Af.Valid.{IsValid}
use af_analyzer.PreProcessor.{calculate_cone_influence}
use af_analyzer.PreProcessor.Verdict.{distances-IsValid}
use af_analyzer.PreProcessor.Stale.{alone, calculate_cone_influence-stale}
use af_analyzer.Prelude.{
  ◌<◌, ◌⊎◌, inl, sym, get_or, ℕ, ◌≡◌, ◌↔◌, refl, true, List, [], ◌∷◌, none, ok, err, out_of_range,
  arith,
}
use af_analyzer.Text.{codes}
use af_analyzer.Af.{Af, exists_attack}
use af_analyzer.Reduct.{get_reduct, get_reduct_set}
use af_analyzer.ScepticalCheck.{check_rejection, check_terminate_extension_build}
use af_analyzer.Sat.Brute.{brute_solver}
use af_analyzer.Parser.{Files}
use af_analyzer.Drivers.{run_built}
use af_analyzer.Drivers.Aggregate.{run_built-eq-err}
use af_analyzer.Contracts.{ReductContract, ScepticalCheckContract}
use af_analyzer.Contracts.Kept.{Reduct-ReductContract, ScepticalCheck-ScepticalCheckContract}
use af_analyzer.Contracts.Solving.{EncodingContract, AllInitial, Encoding_iff}
use af_analyzer.Encoding.{add_clauses_nonempty_admissible_set, add_complement_clause}
use af_analyzer.Tests.{in_turn, in_order, sample, sample-IsValid}

abbrev no_files : Files
no_files name = none

abbrev time : List ℕ
time = codes "0.1"

run_built-eq-err_example :
    run_built in_order no_files brute_solver in_turn 9 time time 4 ((1, 2) ∷ (4, 1) ∷ []) 1 1
    ≡ err out_of_range
run_built-eq-err_example =
    run_built-eq-err in_order no_files brute_solver in_turn 9 time time 4 ((1, 2) ∷ (4, 1) ∷ []) 1 1
      (omega arith)

Reduct-ReductContract_example : ReductContract sample get_reduct get_reduct_set
Reduct-ReductContract_example = Reduct-ReductContract sample-IsValid

ScepticalCheck-ScepticalCheckContract_example :
    ScepticalCheckContract sample check_rejection check_terminate_extension_build
ScepticalCheck-ScepticalCheckContract_example = ScepticalCheck-ScepticalCheckContract sample-IsValid

-- The sample with the distances that a query for 1 leaves.
abbrev used : Af
used = record sample { distance_to_query = 0 ∷ 0 ∷ 0 ∷ 0 ∷ 1 ∷ [] }

used-IsValid : IsValid used
used-IsValid = distances-IsValid sample-IsValid 1 (0 ∷ 0 ∷ 0 ∷ 0 ∷ 1 ∷ []) refl

attackers_used :
    (a : ℕ) → exists_attack used a 1 ≡ true → (0 < get_or used.distance_to_query a 0) ⊎ (a ≡ 1)
unfolding exists_attack
attackers_used a h =
    let e : a ≡ 4 = ground (arith, h) in
    inl (subst (λ b. 0 < get_or used.distance_to_query b 0) (sym e) (omega arith))

calculate_cone_influence-stale_example :
    calculate_cone_influence used 1 ≡ ok (alone used-IsValid 1 (omega arith))
calculate_cone_influence-stale_example =
    calculate_cone_influence-stale used-IsValid 1 (omega arith) attackers_used

Encoding_iff_example :
    EncodingContract brute_solver sample
      (add_clauses_nonempty_admissible_set brute_solver)
      (add_complement_clause brute_solver)
    ↔ AllInitial brute_solver sample
Encoding_iff_example = Encoding_iff brute_solver sample-IsValid
