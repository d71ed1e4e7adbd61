-- ===== src/Solver/Verdict.antt =====
-- `check_rejection_parallel` of src/logic/Solver_DS_PR.cpp, in whichever order its tasks run: what
-- `isRejected` and `output_extension` say.
use af_analyzer.Prelude.{
  ℕ, ◌≡◌, ◌≤◌, refl, sym, ◌∙◌, ◌⊎◌, inl, inr, Bool, true, false, List, [], ◌∷◌, ◌++◌, contains,
  length, if◌then◌else◌, Result, ok, err, dangling, Option, none, some, Bool-cases, arith,
}
use mathlib.Core.Path.{subst}
use af_analyzer.Prelude.Predicates.{
  AllOf, SomeOf, AllOf-append, AllOf-split, SomeOf-append, SomeOf-split,
}
use af_analyzer.VectorBitSet.{VectorBitSet, Denotes}
use af_analyzer.Af.{Af, exists_attack}
use af_analyzer.Af.Valid.{IsValid}
use af_analyzer.Sat.{SatSolver}
use af_analyzer.Semantics.{ArgSet, AttackedBy, IsAdmissible, IsPreferred, IsSceptical}
use af_analyzer.Semantics.Preferred.{sceptical_not_excluded}
use af_analyzer.Prioritizer.{distance}
use af_analyzer.Encoding.Literals.{HasVariables}
use af_analyzer.Solver.{
  TaskState, Effect, begin, encoded, looping, rejecting, reading, become, step_task,
}
use af_analyzer.Solver.Search.{
  Search, latest, perform, initial, may_run, run_task, Reachable, starts, runs,
}
use af_analyzer.Solver.Log.{IsLog, silent, IsLog-append}
use af_analyzer.Solver.Built.{Refutes}
use af_analyzer.Solver.Bounds.{ends_bounds, reading_bounds}
use af_analyzer.Solver.Invariant.{IsProof, OutputHolds, TaskHolds, IsResponsible, StepHolds}
use af_analyzer.Solver.Start.{step_begin_lem, step_encoded_lem}
use af_analyzer.Solver.Loop.{step_loop_lem}

-- A run that ends without an error was not stopped.
guarded :
    {S : Type 0} (b : Bool) (r : Result (Effect S)) (e : Effect S)
    → (if b then r else err dangling) ≡ ok e
    → r ≡ ok e
guarded true r e h = h
guarded false r e h = cc

effect_eq : {S : Type 0} {a b : Effect S} → ok a ≡ ok b → a ≡ b
effect_eq h = cc

module _ (sat : SatSolver) (captures : Bool) {f : Af} (valid : IsValid f) {p : ArgSet}
    {active : VectorBitSet} (d : Denotes f.num_args p active) (proper : HasVariables f.num_args p)
    (q : ℕ) (hq : p q ≡ true) (no_self : exists_attack f q q ≡ false)
    (near : (m : ℕ) → distance f m ≤ f.num_args) (proof_extension : List ℕ) where
  open sat use {Solver}

  step_task_lem :
      (flag : Bool) (t : TaskState Solver)
      → TaskHolds sat f p active q t
      → StepHolds sat f p active q flag t (step_task sat f active q flag t)
  unfolding step_task
  step_task_lem flag (begin e) h = step_begin_lem sat valid d proper q hq no_self flag e h
  step_task_lem flag (encoded e r s) h =
      step_encoded_lem sat valid d proper q hq no_self flag e r s h.0 h.1
  step_task_lem flag (looping l) h = step_loop_lem sat valid d proper q hq near flag l h
  step_task_lem flag (rejecting e) h = record {
    effect = record { tasks = []; rejects = false; output = some e; printed = [] };
    returns = refl;
    tasks = tt;
    rejects = λ k. cc;
    output = h;
    printed = silent;
    covers = λ P pref out k. elim k [ ];
    bounds = λ b k. ends_bounds sat f d q (rejecting e) b k;
  }
  step_task_lem true (reading l) h = record {
    effect = become [];
    returns = refl;
    tasks = tt;
    rejects = λ k. cc;
    output = tt;
    printed = silent;
    covers = λ P pref out k. inl refl;
    bounds = λ b k. ends_bounds sat f d q (reading l) b k;
  }
  step_task_lem false (reading l) h = record {
    effect = become (looping l ∷ []);
    returns = refl;
    tasks = (h, tt);
    rejects = λ k. cc;
    output = tt;
    printed = silent;
    covers = λ P pref out k. inr (inr (inl k));
    bounds = λ b k. reading_bounds sat f d q l b k;
  }

  record SearchHolds (s : Search Solver) : Type 0 where
    tasks : AllOf (TaskHolds sat f p active q) s.tasks
    rejected : s.is_rejected ≡ true → (A : ArgSet) × Refutes f p q A
    output : (s.output_extension ≡ proof_extension) ⊎ IsProof sat f p active q s.output_extension
    printed : IsLog s.out
    covers :
        (P : ArgSet)
        → IsPreferred (exists_attack f) p P
        → P q ≡ false
        → (s.is_rejected ≡ true) ⊎ SomeOf (IsResponsible sat f p active q P) s.tasks

  starts-SearchHolds : SearchHolds (initial proof_extension)
  starts-SearchHolds = record {
    tasks = (
      record {
        admissible = record {
          within = λ a h. cc;
          conflict_free = λ a b h k. cc;
          defended = λ a b h k g. cc;
        };
        without = refl;
        harmless = λ a h. cc;
      },
      tt,
    );
    rejected = λ h. cc;
    output = inl refl;
    printed = silent;
    covers = λ P pref out. inr (inl (λ a h. cc));
  }

  written :
      (old : List ℕ) (o : Option (List ℕ))
      → (old ≡ proof_extension) ⊎ IsProof sat f p active q old
      → OutputHolds sat f p active q o
      → (latest old o ≡ proof_extension) ⊎ IsProof sat f p active q (latest old o)
  written old none h k = h
  written old (some new) h k = inr k

  perform-SearchHolds :
      (s : Search Solver) (before after : List (TaskState Solver)) (t : TaskState Solver)
      → SearchHolds s
      → s.tasks ≡ before ++ t ∷ after
      → AllOf (TaskHolds sat f p active q) before
      → AllOf (TaskHolds sat f p active q) after
      → (step : StepHolds sat f p active q s.is_rejected t
          (step_task sat f active q s.is_rejected t))
      → SearchHolds (perform s before step.effect after)
  perform-SearchHolds s before after t inv split earlier later step = record {
    tasks =
        AllOf-append (TaskHolds sat f p active q) before (step.effect.tasks ++ after) earlier
          (AllOf-append (TaskHolds sat f p active q) step.effect.tasks after step.tasks later);
    rejected = λ h. elim (Bool-cases s.is_rejected) [
      | inl k ↦ inv.rejected k
      | inr k ↦ step.rejects (ground (arith, h, k))
    ];
    output = written s.output_extension step.effect.output inv.output step.output;
    printed = IsLog-append s.out step.effect.printed inv.printed step.printed;
    covers = λ P pref out.
        let R = IsResponsible sat f p active q P in
        let join = λ (h : (SomeOf R before) ⊎ (SomeOf R (step.effect.tasks ++ after))).
          SomeOf-append R before (step.effect.tasks ++ after) h in
        elim (inv.covers P pref out) [
          | inl h ↦ inl (ground (arith, h))
          | inr h ↦ elim (SomeOf-split R before (t ∷ after) (subst (λ ts. SomeOf R ts) split h)) [
            | inl k ↦ inr (join (inl k))
            | inr (inr k) ↦ inr (join (inr (SomeOf-append R step.effect.tasks after (inr k))))
            | inr (inl k) ↦ elim (step.covers P pref out k) [
              | inl m ↦ inl (ground (arith, m))
              | inr (inl m) ↦ inl (ground (arith, m))
              | inr (inr m) ↦ inr (join (inr (SomeOf-append R step.effect.tasks after (inl m))))
            ]
          ]
        ];
  }

  -- The task that stands between `before` and `after`, and the others.
  its_tasks :
      (s : Search Solver) (before after : List (TaskState Solver)) (t : TaskState Solver)
      → SearchHolds s
      → s.tasks ≡ before ++ t ∷ after
      → AllOf (TaskHolds sat f p active q) before × AllOf (TaskHolds sat f p active q) (t ∷ after)
  its_tasks s before after t inv split =
      AllOf-split (TaskHolds sat f p active q) before (t ∷ after)
        (subst (λ ts. AllOf (TaskHolds sat f p active q) ts) split inv.tasks)

  Reachable-SearchHolds :
      {s : Search Solver} → Reachable sat captures f active q proof_extension s → SearchHolds s
  Reachable-SearchHolds starts = starts-SearchHolds
  Reachable-SearchHolds (runs s before after t e reach split ran) =
      let inv = Reachable-SearchHolds reach in
      let (earlier, (here, later)) = its_tasks s before after t inv split in
      let step = step_task_lem s.is_rejected t here in
      let same : step.effect ≡ e =
        effect_eq
          (sym step.returns ∙ guarded (may_run captures s.frames (length before) t) _ e ran) in
      subst (λ x. SearchHolds (perform s before x after)) same
        (perform-SearchHolds s before after t inv split earlier later step)

  -- All that a run of a task of a reachable state keeps.
  pub next_step :
      (s : Search Solver) (before after : List (TaskState Solver)) (t : TaskState Solver)
      → Reachable sat captures f active q proof_extension s
      → s.tasks ≡ before ++ t ∷ after
      → StepHolds sat f p active q s.is_rejected t (step_task sat f active q s.is_rejected t)
  next_step s before after t reach split =
      let (earlier, (here, later)) =
        its_tasks s before after t (Reachable-SearchHolds reach) split in
      step_task_lem s.is_rejected t here

  -- For a valid framework with fewer than 2 ^ 30 arguments and distances of at most num_args,
  -- active arguments without 0, and a query among them that does not attack itself: in every
  -- reachable state, the next run of any task returns, so no table is read out of range, nothing is
  -- thrown, and `exit(1)` is not reached; only a task that starts when its creator has returned, where
  -- the compiler does not copy the shared parameters, is stopped by the error `dangling`.
  pub search_returns :
      {s : Search Solver} (before after : List (TaskState Solver)) (t : TaskState Solver)
      → Reachable sat captures f active q proof_extension s
      → s.tasks ≡ before ++ t ∷ after
      → ((may_run captures s.frames (length before) t ≡ true)
          × ((e : Effect Solver) × (run_task sat captures f active q s before t ≡ ok e)))
        ⊎ ((may_run captures s.frames (length before) t ≡ false)
            × (run_task sat captures f active q s before t ≡ err dangling))
  search_returns {s} before after t reach split =
      let step = next_step s before after t reach split in
      elim (Bool-cases (may_run captures s.frames (length before) t)) [
        | inl e ↦ inl (e, (step.effect, rw e (step.returns)))
        | inr e ↦ inr (e, rw e refl)
      ]

  -- For a valid framework with fewer than 2 ^ 30 arguments and distances of at most num_args,
  -- active arguments without 0, and a query among them that does not attack itself: whichever order
  -- the tasks run in, when all have ended and none has set `isRejected`, the query is in every
  -- preferred set of the active arguments.
  pub search_accepts-IsSceptical :
      {s : Search Solver}
      → Reachable sat captures f active q proof_extension s
      → s.tasks ≡ []
      → s.is_rejected ≡ false
      → IsSceptical (exists_attack f) p q
  search_accepts-IsSceptical reach ended h P pref = elim (Bool-cases (P q)) [
    | inl k ↦ k
    | inr k ↦ elim ((Reachable-SearchHolds reach).covers P pref k) [
      | inl m ↦ cc (h, m)
      | inr m ↦ absurd (subst (λ ts. SomeOf (IsResponsible sat f p active q P) ts) ended m)
    ]
  ]

  -- For a valid framework with fewer than 2 ^ 30 arguments and distances of at most num_args,
  -- active arguments without 0, and a query among them that does not attack itself: in any order of
  -- the tasks, once `isRejected` is set, the query is not in every preferred set of the active
  -- arguments.
  pub search_rejects-IsSceptical :
      {s : Search Solver}
      → Reachable sat captures f active q proof_extension s
      → s.is_rejected ≡ true
      → ¬ IsSceptical (exists_attack f) p q
  search_rejects-IsSceptical reach h sceptical =
      let (A, r) = (Reachable-SearchHolds reach).rejected h in
      sceptical_not_excluded active.vector (λ a k. d.items a ∙ k) q sceptical A r.admissible
        r.excludes

  -- For a valid framework with fewer than 2 ^ 30 arguments and distances of at most num_args,
  -- active arguments without 0, and a query among them that does not attack itself: in any order of
  -- the tasks `output_extension` is as it was given, or the list of an admissible set of the active
  -- arguments that attacks the query.
  pub output_extension-IsAdmissible :
      {s : Search Solver}
      → Reachable sat captures f active q proof_extension s
      → (s.output_extension ≡ proof_extension)
        ⊎ (IsAdmissible (exists_attack f) p (contains s.output_extension)
            × AttackedBy (exists_attack f) (contains s.output_extension) q)
  output_extension-IsAdmissible reach = (Reachable-SearchHolds reach).output

  -- What a reachable state has written to `cout`.
  pub Reachable-IsLog :
      {s : Search Solver} → Reachable sat captures f active q proof_extension s → IsLog s.out
  Reachable-IsLog reach = (Reachable-SearchHolds reach).printed
