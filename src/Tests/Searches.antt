-- ===== src/Tests/Searches.antt =====
-- Runs of the search of src/logic/Solver_DS_PR.cpp on the sample, task by task, and its theorems on
-- them.
use af_analyzer.Prelude.{
  ℕ, zero, suc, ◌≤◌, ◌≡◌, ◌⊎◌, inl, inr, refl, Bool, true, false, List, [], ◌∷◌, contains, Result,
  ok, Error, err, dangling, ◌>>=◌, arith,
}
use mathlib.Core.Path.{subst}
use af_analyzer.Af.{exists_attack}
use af_analyzer.Prelude.Int.{to_int32}
use af_analyzer.Printer.{print_list}
use af_analyzer.Text.{number, emit, codes}
use af_analyzer.Sat.Cadical
use af_analyzer.Sat.Cadical.{SatSolverCadical}
use af_analyzer.Sat.Brute.{find_model, brute, brute_solver}
use af_analyzer.Encoding.{get_literal_accepted, get_literal_rejected, add_attacker}
use af_analyzer.Semantics.{IsAdmissible, IsSceptical, AttackedBy}
use af_analyzer.Prioritizer.{distance}
use af_analyzer.Solver.{TaskState, Effect, begin, step_task}
use af_analyzer.Solver.Search.{Search, perform, may_run, run_task, initial, Reachable, starts, runs}
use af_analyzer.Solver.Verdict.{
  search_returns, search_accepts-IsSceptical, search_rejects-IsSceptical,
  output_extension-IsAdmissible,
}
use af_analyzer.Tests.{
  sample, sample-IsValid, active_args, active, active-Denotes, active-HasVariables, fresh,
}

abbrev Solver : Type 0
Solver = SatSolverCadical brute

-- Runs the first task, so many times.
abbrev run_first : Bool → ℕ → ℕ → Search Solver → Result (Search Solver)
run_first captures zero q s = ok s
run_first captures (suc k) q s = elim s.tasks [
  | [] ↦ ok s
  | t ∷ rest ↦ run_task brute_solver captures sample active q s [] t >>= λ e.
      run_first captures k q (perform s [] e rest)
]

Result-cases : {A : Type 0} (r : Result A) → ((a : A) × (r ≡ ok a)) ⊎ ((e : Error) × (r ≡ err e))
Result-cases (ok a) = inl (a, refl)
Result-cases (err e) = inr (e, refl)

List-cases : {A : Type 0} (l : List A) → (l ≡ []) ⊎ ((x : A) × (rest : List A) × (l ≡ x ∷ rest))
List-cases [] = inl refl
List-cases (x ∷ rest) = inr (x, rest, refl)

same_state : {s t : Search Solver} → ok s ≡ ok t → s ≡ t
same_state h = cc

run_first-Reachable :
    (captures : Bool) (k q : ℕ) (s t : Search Solver)
    → Reachable brute_solver captures sample active q [] s
    → run_first captures k q s ≡ ok t
    → Reachable brute_solver captures sample active q [] t
run_first-Reachable captures zero q s t reach h =
    subst (λ x. Reachable brute_solver captures sample active q [] x) (same_state h) reach
run_first-Reachable captures (suc k) q s t reach h = elim (List-cases s.tasks) [
  | inl e ↦
      subst (λ x. Reachable brute_solver captures sample active q [] x)
        (same_state (simp (e, run_first) at h)) reach
  | inr (x, rest, e) ↦ elim (Result-cases (run_task brute_solver captures sample active q s [] x)) [
    | inl (eff, ran) ↦
        run_first-Reachable captures k q (perform s [] eff rest) t
          (runs s [] rest x eff reach e ran) (simp (e, run_first, ran) at h)
    | inr (why, ran) ↦ let bad = simp (e, run_first, ran) at h in cc
  ]
]

abbrev ended : Bool → List ℕ → List ℕ → ℕ → Search Solver
ended b l out fresh = record {
  is_rejected = b;
  output_extension = l;
  out = out;
  tasks = [];
  frames = [];
  fresh = fresh;
}

runs1 : run_first false 4 1 (initial []) ≡ ok (ended true (2 ∷ 4 ∷ []) [] 5)
unfolding step_task find_model Cadical.solve Cadical.add_clause Cadical.add_clause_short
    Cadical.check_var_model get_literal_accepted get_literal_rejected add_attacker to_int32 number
    emit
runs1 = refl

-- A child of the first task is started when the first task has ended.
runs2 : run_first false 20 2 (initial []) ≡ err dangling
unfolding step_task find_model Cadical.solve Cadical.add_clause Cadical.add_clause_short
    Cadical.check_var_model get_literal_accepted get_literal_rejected add_attacker to_int32 number
    emit
runs2 = refl

abbrev one_entry : List ℕ
one_entry = codes "Priority calculated for:4 Calculated Priority: 4\n"

runs3 : run_first true 20 2 (initial []) ≡ ok (ended false [] one_entry 8)
unfolding step_task find_model Cadical.solve Cadical.add_clause Cadical.add_clause_short
    Cadical.check_var_model get_literal_accepted get_literal_rejected add_attacker to_int32 number
    emit print_list
runs3 = refl

no_self1 : exists_attack sample 1 1 ≡ false
unfolding exists_attack
no_self1 = refl

no_self2 : exists_attack sample 2 2 ≡ false
unfolding exists_attack
no_self2 = refl

near : (m : ℕ) → distance sample m ≤ 4
near m = omega (arith, fresh m)

-- The search for argument 1, and that for argument 2.
reachable1 : Reachable brute_solver false sample active 1 [] (ended true (2 ∷ 4 ∷ []) [] 5)
reachable1 = run_first-Reachable false 4 1 (initial []) _ starts runs1

reachable2 : Reachable brute_solver true sample active 2 [] (ended false [] one_entry 8)
reachable2 = run_first-Reachable true 20 2 (initial []) _ starts runs3

search_accepts-IsSceptical_example : IsSceptical (exists_attack sample) active_args 2
search_accepts-IsSceptical_example =
    search_accepts-IsSceptical brute_solver true sample-IsValid active-Denotes active-HasVariables 2
      refl no_self2 near [] reachable2 refl refl

search_rejects-IsSceptical_example : ¬ IsSceptical (exists_attack sample) active_args 1
search_rejects-IsSceptical_example =
    search_rejects-IsSceptical brute_solver false sample-IsValid active-Denotes active-HasVariables
      1 refl no_self1 near [] reachable1 refl

abbrev one_start : TaskState Solver
one_start = begin []

search_returns_example :
    ((may_run false ((initial {S = Solver} []).frames) 0 one_start ≡ true)
      × ((e : Effect Solver) × (run_task brute_solver false sample active 2
              (initial [])
              []
              (begin [])
            ≡ ok e)))
    ⊎ ((may_run false ((initial {S = Solver} []).frames) 0 one_start ≡ false)
        × (run_task brute_solver false sample active 2 (initial []) [] (begin []) ≡ err dangling))
search_returns_example =
    search_returns brute_solver false sample-IsValid active-Denotes active-HasVariables 2 refl
      no_self2 near [] [] [] (begin []) starts refl

output_extension-IsAdmissible_example :
    ((ended true (2 ∷ 4 ∷ []) [] 5).output_extension ≡ [])
    ⊎ (IsAdmissible (exists_attack sample) active_args (contains (2 ∷ 4 ∷ []))
        × AttackedBy (exists_attack sample) (contains (2 ∷ 4 ∷ [])) 1)
output_extension-IsAdmissible_example =
    output_extension-IsAdmissible brute_solver false sample-IsValid active-Denotes
      active-HasVariables 1 refl no_self1 near [] reachable1
