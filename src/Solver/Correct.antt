-- ===== src/Solver/Correct.antt =====
-- `Solver_DS_PR::solve` of src/logic/Solver_DS_PR.cpp as a whole: preprocessing and search.
use af_analyzer.Prelude.{
  ℕ, ◌+◌, ◌^◌, ◌≤◌, ◌<◌, ◌≡◌, refl, sym, ap, ◌∙◌, ◌⊎◌, inl, inr, Bool, true, false, ◌&&◌, not, List,
  ltb, ◌==◌, eq_of_==, ◌↔◌, length, get_or, contains, Result, ok, err, dangling, [], Bool-cases,
  arith,
}
use af_analyzer.VectorBitSet.{VectorBitSet, blank}
use af_analyzer.VectorBitSet.Copy.{Denotes-length}
use af_analyzer.Af.{Af, exists_attack}
use af_analyzer.Af.Valid.{IsValid}
use af_analyzer.Sat.{SatSolver}
use af_analyzer.Semantics.{ArgSet, IsSubset, AttackedBy, IsAdmissible, IsSceptical}
use af_analyzer.Semantics.Reducts.{union}
use af_analyzer.Semantics.Preferred.{preferred_above}
use af_analyzer.Semantics.Grounded.{none-IsForced}
use af_analyzer.Semantics.Cone.{widen-IsSceptical, narrow-IsSceptical}
use af_analyzer.PreProcessor.{PreProcResult, accepted, rejected, unknown, process}
use af_analyzer.PreProcessor.Visits.{Walk, stay, attack}
use af_analyzer.PreProcessor.Outcome.{everything, below, contains-below, IsOpen, Outcome}
use af_analyzer.PreProcessor.Verdict.{distances-IsValid, process_lem}
use af_analyzer.Encoding.Literals.{HasVariables}
use af_analyzer.Solver.Weight.{weight, weight-le}
use af_analyzer.Solver.Verdict.{
  search_accepts-IsSceptical, search_rejects-IsSceptical, output_extension-IsAdmissible,
  Reachable-IsLog,
}
use af_analyzer.Solver.Log.{IsLog, silent}
use af_analyzer.Solver.Solve.{Openmp, IsDefined, num_threads, check_rejection_parallel, solve}
use af_analyzer.Solver.Ends.{search_ends}

-- The arguments of the framework: the numbers from 1 to num_args.
abbrev pub arguments : Af → ArgSet
arguments f a = ltb 0 a && ltb a (f.num_args + 1)

-- What `proof_extension` is afterwards: as it was given, or a set that attacks the query, and that
-- is admissible together with some set.
abbrev pub IsWitness : Af → ℕ → List ℕ → List ℕ → Type 0
IsWitness f q given l =
    (l ≡ given)
    ⊎ (AttackedBy (exists_attack f) (contains l) q
        × ((G : ArgSet) × IsAdmissible (exists_attack f) (everything f) (union G (contains l))))

-- The second framework is the first one, but for its distances.
abbrev pub OnlyDistances : Af → Af → Type 0
OnlyDistances f f' = (d : List ℕ) × (f' ≡ record f { distance_to_query = d })

contains-everything :
    (f : Af) (a : ℕ) → everything f a ≡ true → contains (below (f.num_args + 1)) a ≡ true
contains-everything f a h = contains-below (f.num_args + 1) a (ground arith)

zero_unreached :
    {f : Af} {q a k : ℕ}
    → ((b : ℕ) → exists_attack f 0 b ≡ false)
    → 0 < q
    → Walk f q a k
    → a ≡ 0
    → ⊥
zero_unreached no_zero positive stay e = omega (arith, e)
zero_unreached {f} no_zero positive (attack {a} {b} w g) e =
    cc (no_zero b, ap (λ x. exists_attack f x b) (sym e) ∙ g)

module _ (sat : SatSolver) (omp : Openmp) (num_cores : ℕ) {f : Af} (valid : IsValid f) (q : ℕ)
    (given : List ℕ) where
  -- The search, on the framework with its new distances.
  search_lem :
      (fuel : ℕ) (distances : List ℕ) (reduct : VectorBitSet)
      → weight (f.num_args + 1) ≤ fuel
      → length distances ≡ f.num_args + 1
      → ((a : ℕ) → get_or distances a 0 ≤ f.num_args)
      → IsOpen f q reduct
      → HasVariables f.num_args (contains reduct.vector)
      → ((flag : Bool) × (l out : List ℕ) × (check_rejection_parallel sat omp fuel q
              (record f { distance_to_query = distances })
              reduct
              given
              num_cores
            ≡ ok (flag, l, out))
          × (flag ≡ false → IsSceptical (exists_attack f) (everything f) q)
          × (flag ≡ true → ¬ IsSceptical (exists_attack f) (everything f) q)
          × IsWitness f q given l
          × IsLog out)
        ⊎ ((omp.captures ≡ false)
            × (check_rejection_parallel sat omp fuel q
                  (record f { distance_to_query = distances })
                  reduct
                  given
                  num_cores
                ≡ err dangling))
  unfolding check_rejection_parallel exists_attack
  search_lem fuel distances reduct enough size near open_ proper =
      let valid' = distances-IsValid valid q distances size in
      let d = open_.denotes in
      elim (search_ends sat omp.captures valid' d proper q open_.included open_.no_self near given
        (omp.order (num_threads num_cores)) fuel
        (omega (
          arith,
          enough,
          weight-le (length reduct.vector) (f.num_args + 1)
              (omega (arith, Denotes-length d, d.size)),
        ))) [
          | inr (bare, gone) ↦ inr (bare, rw gone refl)
          | inl (s, ends, reach, ended) ↦ inl (
            s.is_rejected,
            s.output_extension,
            s.out,
            rw ends refl,
            λ h. open_.accepts (
                search_accepts-IsSceptical sat omp.captures valid' d proper q open_.included
                  open_.no_self near given reach ended h),
            λ h sceptical.
                search_rejects-IsSceptical sat omp.captures valid' d proper q open_.included
                  open_.no_self near given reach h (open_.rejects sceptical),
            elim (output_extension-IsAdmissible sat omp.captures valid' d proper q open_.included
                open_.no_self near given reach) [
                  | inl e ↦ inl e
                  | inr (adm, attacks) ↦
                      inr (attacks, open_.joins (contains s.output_extension) adm)
                ],
            Reachable-IsLog sat omp.captures valid' d proper q open_.included open_.no_self near
                given reach,
          )
        ]

  -- What `solve` returns.
  abbrev Answers : Result (Af × Bool × List ℕ × List ℕ) → Type 0
  Answers result =
      (f' : Af) × (answer : Bool) × (l out : List ℕ) × (result ≡ ok (f', answer, l, out))
      × OnlyDistances f f'
      × (answer ≡ true → IsSceptical (exists_attack f) (everything f) q)
      × (answer ≡ false → ¬ IsSceptical (exists_attack f) (everything f) q)
      × IsWitness f q given l
      × IsLog out

  cases_lem :
      (fuel : ℕ) (framework : Af) (verdict : PreProcResult) (reduct : VectorBitSet)
      → weight (f.num_args + 1) ≤ fuel
      → process f q blank
        ≡ ok (record { framework = framework; verdict = verdict; reduct = reduct })
      → Outcome f q verdict reduct
      → ((distances : List ℕ) × (framework ≡ record f { distance_to_query = distances })
          × (length distances ≡ f.num_args + 1)
          × ((a : ℕ) → get_or distances a 0 ≤ f.num_args))
      → ((h : IsOpen f q reduct) → HasVariables f.num_args (contains reduct.vector))
      → IsDefined omp (solve sat omp fuel q f given num_cores)
      → Answers (solve sat omp fuel q f given num_cores)
  unfolding solve
  cases_lem fuel framework accepted reduct enough ends outcome (distances, same, size, near) proper
        defined =
      (
        framework,
        true,
        given,
        [],
        rw ends refl,
        (distances, same),
        λ h. outcome,
        λ h. cc,
        inl refl,
        silent,
      )
  cases_lem fuel framework rejected reduct enough ends outcome (distances, same, size, near) proper
        defined =
      (
        framework,
        false,
        given,
        [],
        rw ends refl,
        (distances, same),
        λ h. cc,
        λ h sceptical.
            preferred_above (below (f.num_args + 1)) (contains-everything f) (λ _. false)
              none-IsForced.admissible (λ P pref sub. cc (outcome P pref, sceptical P pref)),
        inl refl,
        silent,
      )
  cases_lem fuel framework unknown reduct enough ends outcome (distances, same, size, near) proper
        defined =
      elim (search_lem fuel distances reduct enough size near outcome (proper outcome)) [
        | inr (bare, gone) ↦ elim defined [
          | inl captured ↦ cc (bare, captured)
          | inr sound ↦ absurd (sound (rw (ends, same, gone) refl))
        ]
        | inl (flag, l, out, ran, accepts, rejects, witness, log) ↦ (
          record f { distance_to_query = distances },
          not flag,
          l,
          out,
          rw (ends, same, ran) refl,
          (distances, refl),
          λ h. accepts (ground (arith, h)),
          λ h. rejects (ground (arith, h)),
          witness,
          log,
        )
      ]

  -- Take a valid framework with fewer than 2 ^ 30 arguments, whose distances are all 0 and in which
  -- 0, which is no argument, attacks nothing, and a query that is an argument of it. Whatever the
  -- schedule of the tasks, if the compiler copies the shared parameters for each task or the run does
  -- not read them after their call has returned, then with the weight of num_args + 1 as fuel
  -- `solve` returns, without an access out of range, and the framework has changed in its distances
  -- only. It returns true exactly if the query is in every preferred set of the framework.
  -- `proof_extension` is left as it was given, or is a set that attacks the query and that is
  -- admissible together with some set. What has been written to `cout` is a sequence of lines with
  -- priorities.
  pub solve_lem :
      (fuel : ℕ)
      → weight (f.num_args + 1) ≤ fuel
      → f.num_args < 2 ^ 30
      → ((a : ℕ) → get_or f.distance_to_query a 0 ≡ 0)
      → ((b : ℕ) → exists_attack f 0 b ≡ false)
      → 0 < q
      → q ≤ f.num_args
      → IsDefined omp (solve sat omp fuel q f given num_cores)
      → (f' : Af) × (answer : Bool) × (l out : List ℕ) × (solve sat omp fuel q f given num_cores
          ≡ ok (f', answer, l, out))
        × OnlyDistances f f'
        × ((answer ≡ true) ↔ IsSceptical (exists_attack f) (arguments f) q)
        × IsWitness f q given l
        × IsLog out
  solve_lem fuel enough small fresh no_zero positive hq defined =
      let (done, ends, outcome, left) = process_lem valid q blank hq fresh in
      let (f', answer, l, out, returns, left_as, accepts, rejects, witness, log) =
        cases_lem fuel done.framework done.verdict done.reduct enough ends outcome left
          (λ h. record {
            no_zero = elim (Bool-cases (contains done.reduct.vector 0)) [
              | inl k ↦ let (n, w) = h.walks 0 k in absurd (zero_unreached no_zero positive w refl)
              | inr k ↦ k
            ];
            small = small;
          })
          defined in
      let inside : IsSubset (arguments f) (everything f) = λ a h. ground (arith, h) in
      let closed : (a b : ℕ)
          → arguments f b ≡ true
          → everything f a ≡ true
          → exists_attack f a b ≡ true
          → arguments f a ≡ true =
        λ a b h k g. elim (Bool-cases (a == 0)) [
          | inl e ↦ cc (no_zero b, ap (λ x. exists_attack f x b) (sym (eq_of_== a 0 e)) ∙ g)
          | inr e ↦ ground (arith, k, e)
        ] in
      let here : arguments f q ≡ true = ground arith in
      (
        f',
        answer,
        l,
        out,
        returns,
        left_as,
        (
          λ h.
              narrow-IsSceptical inside closed q here (below (f.num_args + 1))
                (contains-everything f) (accepts h),
          λ h. elim (Bool-cases answer) [
            | inl e ↦ e
            | inr e ↦ absurd (rejects e (widen-IsSceptical inside closed q here h))
          ],
        ),
        witness,
        log,
      )
