-- ===== src/Solver/Loop.antt =====
-- The body of the loop in `check_rejection_parallel_recursiv` of src/logic/Solver_DS_PR.cpp: one
-- answer of the SAT solver, and what is done with the set that it gives.
use af_analyzer.Prelude.{
  ℕ, ◌≡◌, ◌≤◌, refl, sym, ap, ◌∙◌, inl, inr, Bool, true, false, List, [], ◌∷◌, contains, any, none,
  ok, ◌>>=◌, Bool-cases, arith,
}
use af_analyzer.Prelude.Int.{pos}
use af_analyzer.VectorBitSet.{VectorBitSet, Denotes, le_of_member}
use af_analyzer.Af.{Af, exists_attack}
use af_analyzer.Af.Valid.{IsValid}
use af_analyzer.Sat.{SatSolver, Valuation, formula_true}
use af_analyzer.Semantics.{ArgSet, IsSubset}
use af_analyzer.Semantics.Reducts.{minus, minus-IsAdmissible}
use af_analyzer.Decoding.{get_set_from_solver}
use af_analyzer.Reduct.{is_empty}
use af_analyzer.ScepticalCheck.{check_rejection_lem, check_terminate_lem}
use af_analyzer.Prioritizer.{calculate_priority, distance, calculate_priority_lem}
use af_analyzer.Encoding.Literals.{HasVariables}
use af_analyzer.Solver.{
  priority_line, Locals, become, reject, begin, looping, rejecting, reading, extend_extension,
  step_found, asked, step_loop,
}
use af_analyzer.Solver.Extend.{contains-extend_extension}
use af_analyzer.Solver.Log.{silent, one_line}
use af_analyzer.Solver.Built.{Refutes}
use af_analyzer.Solver.Found.{
  asked_fresh, asked-IsSound, S-IsNonempty, new-IsAdmissible, new-IsBuilt, new-IsProof, in_reduct,
  skip_lem, branch_lem, new-Refutes,
}
use af_analyzer.Solver.Bounds.{ends_bounds, reject_bounds, skip_bounds, spawn_bounds}
use af_analyzer.Solver.Invariant.{IsFull, IsRunning, IsLooping, StepHolds}

not_empty : (l : List ℕ) (a : ℕ) → contains l a ≡ true → is_empty l ≡ false
not_empty [] a h = cc
not_empty (x ∷ l) a h = refl

module _ (sat : SatSolver) {f : Af} (valid : IsValid f) {p : ArgSet} {active : VectorBitSet}
    (d : Denotes f.num_args p active) (proper : HasVariables f.num_args p) (q : ℕ) (hq : p q ≡ true)
    (near : (m : ℕ) → distance f m ≤ f.num_args) where
  open sat use {Solver, IsReady, formula, check_var_model, solve}

  priority_returns :
      (l : List ℕ) (a : ℕ)
      → contains l a ≡ true
      → IsSubset (contains l) p
      → (prio : ℕ) × (calculate_priority f l ≡ ok prio)
  priority_returns [] a h sub = cc
  priority_returns (m ∷ l) a h sub =
      let (prio, ends, above, found) =
        calculate_priority_lem valid near m l (λ k g. le_of_member d k (sub k g)) in
      (prio, ends)

  -- The body with an answer: `s` is the solver with its model, `S` the set that is decoded.
  module _ (flag : Bool) (l : Locals Solver) (s : Solver)
      (run : IsRunning sat f p active q l.extension_build l.reduct s)
      (same : formula s ≡ formula (asked sat l))
      (model : formula_true (λ n. check_var_model (pos n) s) (formula s) ≡ true) where
    abbrev S : List ℕ
    S = get_set_from_solver sat s l.reduct

    abbrev new_extension : List ℕ
    new_extension = extend_extension l.extension_build S

    abbrev next : Locals Solver
    next = record l { solver = s; is_solved = true; is_first_calculation = false }

    step_found_lem :
        StepHolds sat f p active q flag
          (looping l)
          (step_found sat f active q (record l { solver = s; is_solved = true }) S)
    unfolding step_found
    step_found_lem =
        let (a, member) = (S-IsNonempty sat proper q l s run same model) in
        let empty = not_empty S a member in
        let rejection = check_rejection_lem valid q S (le_of_member d q hq) (λ m h.
          le_of_member d m
            (run.reduct.is_reduct.within m ((in_reduct sat proper q l s run same model) m h))) in
        let (prio, ends) =
          priority_returns new_extension a
            (contains-extend_extension l.extension_build S a ∙ ground (arith, member))
            (new-IsAdmissible sat proper q l s run same model).within in
        elim (Bool-cases (any (λ m. exists_attack f m q) S)) [
          | inl attacked ↦ record {
            effect = reject (rejecting new_extension ∷ []);
            returns = rw (empty, rejection, ◌>>=◌, attacked) refl;
            tasks = ((new-IsProof sat proper q l s run same model) attacked, tt);
            rejects = λ h. (_, (new-Refutes sat proper q l s run same model) attacked);
            output = tt;
            printed = silent;
            covers = λ P pref out h. inr (inl refl);
            bounds = λ b h. reject_bounds sat f d q l new_extension b h;
          }
          | inr quiet ↦ elim (Bool-cases (contains S q)) [
            | inl found ↦ record {
              effect = become (looping next ∷ []);
              returns = rw (empty, rejection, ◌>>=◌, quiet, check_terminate_lem q S, found) refl;
              tasks = ((run, λ h. cc), tt);
              rejects = λ h. cc;
              output = tt;
              printed = silent;
              covers = λ P pref out h.
                  inr (inr (inl ((skip_lem sat proper q l s run same model) P pref out found h)));
              bounds = λ b h. skip_bounds sat f d q proper l s run same model b h;
            }
            | inr new ↦ record {
              effect = record {
                tasks = reading next ∷ begin new_extension ∷ [];
                rejects = false;
                output = none;
                printed = priority_line new_extension prio;
              };
              returns =
                  rw
                    (
                      empty,
                      rejection,
                      ◌>>=◌,
                      quiet,
                      check_terminate_lem q S,
                      new,
                      ends,
                      run.reduct.computed,
                    )
                    refl;
              tasks =
                  ((run, λ h. cc), ((new-IsBuilt sat proper q l s run same model) quiet new, tt));
              rejects = λ h. cc;
              output = tt;
              printed = one_line new_extension prio;
              covers = λ P pref out h.
                  elim ((branch_lem sat proper q l s run same model) P pref out h) [
                    | inl k ↦ inr (inr (inl k))
                    | inr k ↦ inr (inr (inr (inl k)))
                  ];
              bounds = λ b h. spawn_bounds sat f d q proper l s run same model b h;
            }
          ]
        ]

  -- Where the first answer is that there is no model, the extension is complete.
  complete-Refutes :
      (l : Locals Solver)
      → IsRunning sat f p active q l.extension_build l.reduct l.solver
      → IsFull sat f p active q l.reduct l.solver
      → ((v : Valuation) → formula_true v (formula l.solver) ≡ false)
      → Refutes f p q (contains l.extension_build)
  complete-Refutes l run full none_holds = record {
    admissible = run.built.admissible;
    excludes = λ T t sub. elim (Bool-cases (T q)) [
      | inr k ↦ k
      | inl k ↦
          let (v, holds, agrees) =
            full (minus T (contains l.extension_build))
              (minus-IsAdmissible run.reduct.is_reduct t sub)
              (q, ground (arith, k, run.built.without)) in
          cc (none_holds v, holds)
    ];
  }

  pub step_loop_lem :
      (flag : Bool) (l : Locals Solver)
      → IsLooping sat f p active q l
      → StepHolds sat f p active q flag (looping l) (step_loop sat f active q l)
  unfolding step_loop
  step_loop_lem flag l (run, first) =
      let sound = asked-IsSound sat proper q l run in
      elim (Bool-cases (solve (asked sat l)).0) [
        | inl e ↦
            let same = sat.formula-solve (asked sat l) sound.ready in
            let found =
              step_found_lem flag l (solve (asked sat l)).1
                (record {
                  built = run.built;
                  reduct = run.reduct;
                  sound = record {
                    ready = sat.solve-IsReady (asked sat l) sound.ready;
                    sound = λ v h. sound.sound v (ap (formula_true v) (sym same) ∙ h);
                  };
                })
                same
                (ap (formula_true (λ n. check_var_model (pos n) (solve (asked sat l)).1)) same
                  ∙ sat.solve_sat (asked sat l) sound.ready e) in
            rw e found
        | inr e ↦ elim (Bool-cases l.is_first_calculation) [
          | inl k ↦
              let (fresh, full) = first k in
              record {
                effect = reject [];
                returns = rw (e, k) refl;
                tasks = tt;
                rejects = λ h. (
                  _,
                  complete-Refutes l run full (λ v.
                      ap (λ s. formula_true v (formula s)) (sym (asked_fresh sat l fresh))
                      ∙ sat.solve_unsat (asked sat l) sound.ready e v),
                );
                output = tt;
                printed = silent;
                covers = λ P pref out h. inr (inl refl);
                bounds = λ b h. ends_bounds sat f d q (looping l) b h;
              }
          | inr k ↦ record {
            effect = become [];
            returns = rw (e, k) refl;
            tasks = tt;
            rejects = λ h. cc;
            output = tt;
            printed = silent;
            covers = λ P pref out h. elim h.1 [
              | inl (g, complete) ↦ cc (g, k)
              | inr (v, holds, agrees) ↦ cc (holds, sat.solve_unsat (asked sat l) sound.ready e v)
            ];
            bounds = λ b h. ends_bounds sat f d q (looping l) b h;
          }
        ]
      ]
