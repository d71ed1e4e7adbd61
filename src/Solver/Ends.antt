-- ===== src/Solver/Ends.antt =====
-- The search of src/logic/Solver_DS_PR.cpp ends, whatever the schedule.
use af_analyzer.Prelude.{
  ℕ, zero, suc, ◌+◌, ◌≤◌, ◌≡◌, refl, sym, ap, ◌∙◌, ◌⊎◌, inl, inr, Bool, Bool-cases, Result, err,
  dangling, true, false, List, [], ◌∷◌, ◌++◌, length, contains, ok, ◌>>=◌, arith,
}
use mathlib.Core.Path.{subst}
use af_analyzer.VectorBitSet.{VectorBitSet, Denotes}
use af_analyzer.VectorBitSet.Count.{count_by-le}
use af_analyzer.Semantics.Reducts.{minus}
use af_analyzer.Af.{Af, exists_attack}
use af_analyzer.Af.Valid.{IsValid}
use af_analyzer.Sat.{SatSolver}
use af_analyzer.Semantics.{ArgSet}
use af_analyzer.Prioritizer.{distance}
use af_analyzer.Encoding.Literals.{HasVariables}
use af_analyzer.Solver.{TaskState, Effect, begin, encoded, looping, rejecting, reading, step_task}
use af_analyzer.Solver.Weight.{weight, weight-le, remaining}
use af_analyzer.Solver.Search.{
  Frame, Search, may_run, perform, initial, run_task, Reachable, starts, runs,
}
use af_analyzer.Solver.Invariant.{AreBounded}
use af_analyzer.Solver.Verdict.{next_step}
use af_analyzer.Solver.Solve.{Schedule, pick, run_search}

List-cases {ℓ} :
    {A : Type ℓ} (xs : List A) → (xs ≡ []) ⊎ ((x : A) × (rest : List A) × (xs ≡ x ∷ rest))
List-cases [] = inl refl
List-cases (x ∷ xs) = inr (x, xs, refl)

pick_lem :
    {A : Type 0} (k : ℕ) (t : A) (rest : List A)
    → (pick k t rest).0 ++ (pick k t rest).1 ∷ (pick k t rest).2 ≡ t ∷ rest
pick_lem zero t rest = refl
pick_lem (suc k) t [] = refl
pick_lem (suc k) t (u ∷ rest) = ap (λ l. t ∷ l) (pick_lem k u rest)

module _ (sat : SatSolver) (f : Af) (p : ArgSet) (active : VectorBitSet) (q : ℕ) where
  open sat use {Solver}

  AreBounded-append :
      (xs ys : List (TaskState Solver)) (b c : ℕ)
      → AreBounded sat f p active q xs b
      → AreBounded sat f p active q ys c
      → AreBounded sat f p active q (xs ++ ys) (b + c)
  AreBounded-append [] ys b c h k =
      subst (λ n. AreBounded sat f p active q ys n) (omega (arith, h)) k
  AreBounded-append (x ∷ xs) ys b c (m, n, here, rest, e) k =
      (m, n + c, here, AreBounded-append xs ys n c rest k, omega (arith, e))

  AreBounded-split :
      (xs ys : List (TaskState Solver)) (b : ℕ)
      → AreBounded sat f p active q (xs ++ ys) b
      → (c d : ℕ) × AreBounded sat f p active q xs c
        × AreBounded sat f p active q ys d
        × (b ≡ c + d)
  AreBounded-split [] ys b h = (0, b, refl, h, omega arith)
  AreBounded-split (x ∷ xs) ys b (m, n, here, rest, e) =
      let (c, d, left, right, g) = AreBounded-split xs ys n rest in
      (m + c, d, (m, c, here, left, refl), right, omega (arith, e, g))

-- Only a start is stopped, and not where the parameters are copied.
stopped :
    {S : Type 0} (captures : Bool) (calls : List Frame) (k : ℕ) (t : TaskState S)
    → may_run captures calls k t ≡ false
    → captures ≡ false
stopped captures calls k (begin e) h = ground (arith, h)
stopped captures calls k (encoded e r s) h = cc
stopped captures calls k (looping l) h = cc
stopped captures calls k (rejecting e) h = cc
stopped captures calls k (reading l) h = cc

module _ (sat : SatSolver) (captures : Bool) {f : Af} (valid : IsValid f) {p : ArgSet}
    {active : VectorBitSet} (d : Denotes f.num_args p active) (proper : HasVariables f.num_args p)
    (q : ℕ) (hq : p q ≡ true) (no_self : exists_attack f q q ≡ false)
    (near : (m : ℕ) → distance f m ≤ f.num_args) (proof_extension : List ℕ) where
  open sat use {Solver}

  abbrev IsReachable : Search Solver → Type 0
  IsReachable s = Reachable sat captures f active q proof_extension s

  -- A run of a task takes weight from the search.
  perform_bounds :
      (s : Search Solver) (before after : List (TaskState Solver)) (t : TaskState Solver) (b : ℕ)
      → IsReachable s
      → s.tasks ≡ before ++ t ∷ after
      → AreBounded sat f p active q s.tasks b
      → (e : Effect Solver) × (c : ℕ) × (step_task sat f active q s.is_rejected t ≡ ok e)
        × AreBounded sat f p active q (perform s before e after).tasks c
        × (c + 1 ≤ b)
  perform_bounds s before after t b reach split bounded =
      let step =
        next_step sat captures valid d proper q hq no_self near proof_extension s before after t
          reach split in
      let (c, n, earlier, (k, m, here, later, g), e) =
        AreBounded-split sat f p active q before (t ∷ after) b
          (subst (λ ts. AreBounded sat f p active q ts b) split bounded) in
      let (j, new, less) = step.bounds k here in
      (
        step.effect,
        c + (j + m),
        step.returns,
        AreBounded-append sat f p active q before (step.effect.tasks ++ after) c (j + m) earlier
            (AreBounded-append sat f p active q step.effect.tasks after j m new later),
        omega (arith, e, g, less),
      )

  -- A task that may run does so, and any other stops the search.
  runs_or_stops :
      (s : Search Solver) (before : List (TaskState Solver)) (t : TaskState Solver)
      (e : Effect Solver)
      → step_task sat f active q s.is_rejected t ≡ ok e
      → (run_task sat captures f active q s before t ≡ ok e)
        ⊎ ((captures ≡ false) × (run_task sat captures f active q s before t ≡ err dangling))
  runs_or_stops s before t e ran = elim (Bool-cases (may_run captures s.frames (length before) t)) [
    | inl h ↦ inl (rw h ran)
    | inr h ↦ inr (stopped captures s.frames (length before) t h, rw h refl)
  ]

  module _ (schedule : Schedule) where
    goes_on :
        (fuel : ℕ) (s : Search Solver) (t : TaskState Solver) (rest : List (TaskState Solver))
        (e : Effect Solver)
        → s.tasks ≡ t ∷ rest
        → run_task sat captures f active q s
            (pick (schedule fuel) t rest).0
            (pick (schedule fuel) t rest).1
          ≡ ok e
        → run_search sat captures schedule (suc fuel) f active q s
          ≡ run_search sat captures schedule fuel f active q
              (perform s (pick (schedule fuel) t rest).0 e (pick (schedule fuel) t rest).2)
    unfolding run_search
    goes_on fuel s t rest e split ran = simp (split, run_search) (simp (ran, ◌>>=◌))

    stops :
        (fuel : ℕ) (s : Search Solver) (t : TaskState Solver) (rest : List (TaskState Solver))
        → s.tasks ≡ t ∷ rest
        → run_task sat captures f active q s
            (pick (schedule fuel) t rest).0
            (pick (schedule fuel) t rest).1
          ≡ err dangling
        → run_search sat captures schedule (suc fuel) f active q s ≡ err dangling
    unfolding run_search
    stops fuel s t rest split ran = simp (split, run_search) (simp (ran, ◌>>=◌))

    -- The search comes to its end, or a task reads variables that are gone.
    abbrev Outcome : Result (Search Solver) → Type 0
    Outcome r =
        ((s : Search Solver) × (r ≡ ok s) × IsReachable s × (s.tasks ≡ []))
        ⊎ ((captures ≡ false) × (r ≡ err dangling))

    -- With as much fuel as weight the search comes to its end.
    pub run_search_lem :
        (fuel : ℕ) (s : Search Solver) (b : ℕ)
        → IsReachable s
        → AreBounded sat f p active q s.tasks b
        → b ≤ fuel
        → Outcome (run_search sat captures schedule fuel f active q s)
    unfolding run_search
    run_search_lem zero s b reach bounded enough = elim (List-cases s.tasks) [
      | inl e ↦ inl (s, simp (e, run_search), reach, e)
      | inr (t, rest, e) ↦
          let (eff, c, ran, new, less) = perform_bounds s [] rest t b reach e bounded in
          absurd (omega (arith, less))
    ]
    run_search_lem (suc fuel) s b reach bounded enough = elim (List-cases s.tasks) [
      | inl e ↦ inl (s, simp (e, run_search), reach, e)
      | inr (t, rest, e) ↦
          let chosen = pick (schedule fuel) t rest in
          let split : s.tasks ≡ chosen.0 ++ chosen.1 ∷ chosen.2 =
            e ∙ sym (pick_lem (schedule fuel) t rest) in
          let (eff, c, ran, new, less) =
            perform_bounds s chosen.0 chosen.2 chosen.1 b reach split bounded in
          elim (runs_or_stops s chosen.0 chosen.1 eff ran) [
            | inr (bare, gone) ↦ inr (bare, stops fuel s t rest e gone)
            | inl ran' ↦
                elim (run_search_lem fuel (perform s chosen.0 eff chosen.2) c
                  (runs s chosen.0 chosen.2 chosen.1 eff reach split ran') new
                  (omega (arith, less))) [
                    | inl (s', ends, reach', none_left) ↦
                        inl (s', goes_on fuel s t rest eff e ran' ∙ ends, reach', none_left)
                    | inr (bare, gone) ↦ inr (bare, goes_on fuel s t rest eff e ran' ∙ gone)
                  ]
          ]
    ]

    -- For a valid framework with fewer than 2 ^ 30 arguments and distances of at most num_args,
    -- active arguments without 0, and a query among them that does not attack itself: whatever the
    -- schedule, with the weight of the number of active arguments as fuel the parallel region ends,
    -- in a reachable state without a task; or else the compiler does not copy the shared parameters,
    -- and the schedule starts a task when its creator has returned, which is the error `dangling`.
    pub search_ends :
        (fuel : ℕ)
        → weight (length active.vector) ≤ fuel
        → ((s : Search Solver) × (run_search sat captures schedule fuel f active q
                (initial proof_extension)
              ≡ ok s)
            × Reachable sat captures f active q proof_extension s
            × (s.tasks ≡ []))
          ⊎ ((captures ≡ false)
              × (run_search sat captures schedule fuel f active q (initial proof_extension)
                  ≡ err dangling))
    search_ends fuel enough =
        let w : ℕ = weight (remaining p active.vector []) in
        run_search_lem fuel (initial proof_extension) w starts (w, 0, refl, refl, omega arith)
          (omega (
            arith,
            enough,
            weight-le (remaining p active.vector []) (length active.vector)
                (count_by-le (minus p (contains [])) active.vector),
          ))
