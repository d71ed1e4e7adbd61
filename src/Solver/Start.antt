-- ===== src/Solver/Start.antt =====
-- The start of a task of src/logic/Solver_DS_PR.cpp: the reduct, its size, and the clauses.
use af_analyzer.Prelude.{
  ℕ, ◌≡◌, ◌<◌, refl, inl, inr, Bool, true, false, List, [], ◌∷◌, ◌==◌, ltb, length, contains, any,
  any_intro, any_elim, ◌>>=◌, Bool-cases, arith, ==_self, eq_of_==,
}
use af_analyzer.VectorBitSet.{VectorBitSet, Denotes}
use af_analyzer.Af.{Af, exists_attack}
use af_analyzer.Af.Valid.{IsValid}
use af_analyzer.Sat.{SatSolver}
use af_analyzer.Semantics.{ArgSet, Attacks, IsSubset, IsAdmissible, IsPreferred}
use af_analyzer.Semantics.Reducts.{IsReduct, union, minus, union-IsAdmissible, minus-IsAdmissible}
use af_analyzer.Encoding.Admissible.{models_are-IsAdmissible}
use af_analyzer.Encoding.Literals.{HasVariables}
use af_analyzer.Solver.{become, begin, encoded, step_begin, step_encoded, asked}
use af_analyzer.Solver.Log.{silent}
use af_analyzer.Solver.Built.{IsBuilt, reduct_of_lem}
use af_analyzer.Solver.Bounds.{ends_bounds, begin_bounds, encoded_bounds}
use af_analyzer.Solver.Found.{reduct-HasVariables}
use af_analyzer.Solver.Invariant.{IsFull, IsRunning, StepHolds}

-- Of a list with less than two members each is the given one.
short_list :
    (l : List ℕ) (q a : ℕ) → length l < 2 → contains l q ≡ true → contains l a ≡ true → a ≡ q
short_list [] q a h k m = cc
short_list (x ∷ []) q a h k m = ground arith
short_list (x ∷ y ∷ l) q a h k m = absurd (omega arith)

module _ {att : Attacks} {p : ArgSet} (P : ArgSet) (pref : IsPreferred att p P) {E r : ArgSet}
    (red : IsReduct att p E r) (sub : IsSubset E P) where
  -- What `P` has besides `E` is in the reduct.
  rest_in_reduct : (a : ℕ) → P a ≡ true → E a ≡ false → r a ≡ true
  rest_in_reduct a h k = (minus-IsAdmissible red pref.admissible sub).within a (ground arith)

module _ {f : Af} {p : ArgSet} {q : ℕ} (hq : p q ≡ true)
    (no_self : exists_attack f q q ≡ false) where
  -- The query is in the reduct by a set that neither contains nor attacks it.
  query_left : {E r : ArgSet} → IsBuilt f p q E → IsReduct (exists_attack f) p E r → r q ≡ true
  query_left b red = elim (red.complete q hq) [
    | inl k ↦ cc (b.without)
    | inr (inl (a, m, g)) ↦ cc (b.harmless a m, g)
    | inr (inr k) ↦ k
  ]

  -- Where only the query is left, it can be joined to any preferred superset.
  only_query :
      {E r : ArgSet} (P : ArgSet)
      → IsPreferred (exists_attack f) p P
      → IsBuilt f p q E
      → IsReduct (exists_attack f) p E r
      → ((a : ℕ) → r a ≡ true → a ≡ q)
      → IsSubset E P
      → P q ≡ true
  only_query {E} {r} P pref b red only sub =
      let alone : IsAdmissible (exists_attack f) r (λ a. a == q) = record {
        within = λ a h. rw (eq_of_== a q h) (query_left b red);
        conflict_free = λ a c h k. rw (eq_of_== a q h, eq_of_== c q k) no_self;
        defended = λ a c h k g. cc (no_self, g, only c k, eq_of_== a q h);
      } in
      pref.maximal (union E (λ a. a == q)) (union-IsAdmissible red b.admissible alone)
        (λ a h. elim (Bool-cases (E a)) [
          | inl k ↦ ground arith
          | inr k ↦
              let here = only a (rest_in_reduct P pref red sub a h k) in
              rw here (ground (arith, ==_self q))
        ])
        q (ground (arith, ==_self q))

module _ (sat : SatSolver) {f : Af} (valid : IsValid f) {p : ArgSet} {active : VectorBitSet}
    (d : Denotes f.num_args p active) (proper : HasVariables f.num_args p) (q : ℕ) (hq : p q ≡ true)
    (no_self : exists_attack f q q ≡ false) where
  pub step_begin_lem :
      (flag : Bool) (e : List ℕ)
      → IsBuilt f p q (contains e)
      → StepHolds sat f p active q flag (begin e) (step_begin sat f active flag e)
  unfolding step_begin
  step_begin_lem true e built = record {
    effect = _;
    returns = refl;
    tasks = tt;
    rejects = λ h. cc;
    output = tt;
    printed = silent;
    covers = λ P pref out h. inl refl;
    bounds = λ b h. ends_bounds sat f d q (begin e) b h;
  }
  step_begin_lem false e b =
      let (r, red) = reduct_of_lem valid d e b.admissible.within in
      let (s, ends, ready, sound, full) =
        models_are-IsAdmissible sat valid red.denotes (reduct-HasVariables sat proper q red)
          (length r.vector) in
      elim (Bool-cases (ltb (length r.vector) 2)) [
        | inl few ↦ record {
          effect = become [];
          returns = rw (red.computed, ◌>>=◌, few) refl;
          tasks = tt;
          rejects = λ h. cc;
          output = tt;
          printed = silent;
          covers = λ P pref out h.
              let left = query_left hq no_self b red.is_reduct in
              cc (
                only_query hq no_self P pref b red.is_reduct
                    (λ a k. short_list r.vector q a (ground arith) left k) h,
                out,
              );
          bounds = λ c h. ends_bounds sat f d q (begin e) c h;
        }
        | inr many ↦ record {
          effect = become (encoded e r s ∷ []);
          returns = rw (red.computed, ◌>>=◌, many, ends) refl;
          tasks = (
            (
              record { built = b; reduct = red; sound = record { ready = ready; sound = sound } },
              full,
            ),
            tt,
          );
          rejects = λ h. cc;
          output = tt;
          printed = silent;
          covers = λ P pref out h. inr (inr (inl h));
          bounds = λ c h. begin_bounds sat f d q e r s red (ground arith) c h;
        }
      ]

  pub step_encoded_lem :
      (flag : Bool) (e : List ℕ) (r : VectorBitSet) (s : sat.Solver)
      → IsRunning sat f p active q e r s
      → IsFull sat f p active q r s
      → StepHolds sat f p active q flag (encoded e r s) (step_encoded sat flag e r s)
  unfolding step_encoded asked
  step_encoded_lem true e r s run full = record {
    effect = _;
    returns = refl;
    tasks = tt;
    rejects = λ h. cc;
    output = tt;
    printed = silent;
    covers = λ P pref out h. inl refl;
    bounds = λ b h. ends_bounds sat f d q (encoded e r s) b h;
  }
  step_encoded_lem false e r s run full = record {
    effect = _;
    returns = refl;
    tasks = ((run, λ h. (refl, full)), tt);
    rejects = λ h. cc;
    output = tt;
    printed = silent;
    covers = λ P pref out h.
        let rest = minus-IsAdmissible run.reduct.is_reduct pref.admissible h in
        elim (Bool-cases (any (minus P (contains e)) r.vector)) [
          | inl k ↦
              let (a, m, g) = any_elim (minus P (contains e)) r.vector k in
              let (v, holds, same) = full (minus P (contains e)) rest (a, g) in
              inr (inr (inl (h, inr (v, holds, same))))
          | inr k ↦ inr (
              inr (
                inl (
                  h,
                  inl (
                    refl,
                    λ a m. elim (Bool-cases (contains e a)) [
                      | inl g ↦ g
                      | inr g ↦
                          let there : minus P (contains e) a ≡ true = ground arith in
                          cc (
                            any_intro (minus P (contains e)) r.vector a (rest.within a there) there,
                            k,
                          )
                    ],
                  ),
                )))
        ];
    bounds = λ b h. encoded_bounds sat f d q e r s _ run.reduct refl refl b h;
  }
