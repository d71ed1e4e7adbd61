-- ===== src/Solver/Found.antt =====
-- The set that a SAT solver's answer gives to the loop in `check_rejection_parallel_recursiv` of
-- src/logic/Solver_DS_PR.cpp: joined to the extension, and blocked for the next round.
use af_analyzer.Prelude.{
  ℕ, ◌≡◌, refl, sym, ap, ◌∙◌, ◌⊎◌, inl, inr, true, false, ◌&&◌, not, List, contains, any, any_intro,
  any_elim, all, all_elim, Bool-cases, arith,
}
use mathlib.Core.Path.{subst}
use af_analyzer.Prelude.Int.{pos}
use af_analyzer.VectorBitSet.{VectorBitSet}
use af_analyzer.Af.{Af, exists_attack}
use af_analyzer.Sat.{SatSolver, Valuation, formula_true}
use af_analyzer.Semantics.{ArgSet, Attacks, IsSubset, IsNonempty, IsAdmissible, IsPreferred}
use af_analyzer.Semantics.Reducts.{union-IsAdmissible}
use af_analyzer.Encoding.Complement.{complement_excludes}
use af_analyzer.Decoding.{get_set_from_solver, contains-get_set_from_solver}
use af_analyzer.Encoding.Literals.{HasVariables}
use af_analyzer.Solver.{Locals, extend_extension, asked}
use af_analyzer.Solver.Extend.{contains-extend_extension}
use af_analyzer.Solver.Built.{IsBuilt, IsReductOf, Refutes}
use af_analyzer.Solver.Invariant.{IsSound, IsProof, IsRunning, Reaches}

IsAdmissible-eq :
    {att : Attacks} {act S T : ArgSet}
    → IsAdmissible att act S
    → ((a : ℕ) → S a ≡ T a)
    → IsAdmissible att act T
IsAdmissible-eq {att} {act} h e = subst (λ X. IsAdmissible att act X) (λ i a. e a i) h

pub asked_fresh :
    (sat : SatSolver) (l : Locals sat.Solver) → l.is_solved ≡ false → asked sat l ≡ l.solver
unfolding asked
asked_fresh sat l h = rw h refl

module _ (sat : SatSolver) {f : Af} {p : ArgSet} {active : VectorBitSet}
    (proper : HasVariables f.num_args p) (q : ℕ) where
  open sat use {Solver, formula, check_var_model}

  -- A reduct has its variables, too.
  pub reduct-HasVariables :
      {e : List ℕ} {r : VectorBitSet}
      → IsReductOf f p active e r
      → HasVariables f.num_args (contains r.vector)
  reduct-HasVariables {r} red = record {
    no_zero = elim (Bool-cases (contains r.vector 0)) [
      | inl k ↦ cc (red.is_reduct.within 0 k, proper.no_zero)
      | inr k ↦ k
    ];
    small = proper.small;
  }

  -- The clause that the body adds takes models away only.
  pub asked-IsSound :
      (l : Locals Solver)
      → IsRunning sat f p active q l.extension_build l.reduct l.solver
      → IsSound sat f p active q l.reduct (asked sat l)
  unfolding asked
  asked-IsSound l run = elim (Bool-cases l.is_solved) [
    | inl e ↦
        let (ready, meaning) =
          complement_excludes sat run.reduct.denotes (reduct-HasVariables run.reduct) l.solver
            run.sound.ready in
        rw e (record {
          ready = ready;
          sound = λ v h. run.sound.sound v (ground (arith, meaning v, h));
        })
    | inr e ↦ rw e run.sound
  ]

  -- The body with an answer: `s` is the solver with its model, `S` the set that is decoded.
  module _ (l : Locals Solver) (s : Solver)
      (run : IsRunning sat f p active q l.extension_build l.reduct s)
      (same : formula s ≡ formula (asked sat l))
      (model : formula_true (λ n. check_var_model (pos n) s) (formula s) ≡ true) where
    abbrev E : ArgSet
    E = contains l.extension_build

    abbrev r : VectorBitSet
    r = l.reduct

    abbrev S : List ℕ
    S = get_set_from_solver sat s l.reduct

    abbrev new_extension : List ℕ
    new_extension = extend_extension l.extension_build S

    abbrev next : Locals Solver
    next = record l { solver = s; is_solved = true; is_first_calculation = false }

    pub S-IsAdmissible : IsAdmissible (exists_attack f) (contains r.vector) (contains S)
    S-IsAdmissible =
        IsAdmissible-eq (run.sound.sound _ model).0
          (λ a. sym (contains-get_set_from_solver sat s run.reduct.denotes a))

    pub S-IsNonempty : IsNonempty (contains S)
    S-IsNonempty =
        let (a, h) = (run.sound.sound _ model).1 in
        (a, contains-get_set_from_solver sat s run.reduct.denotes a ∙ h)

    pub new-IsAdmissible : IsAdmissible (exists_attack f) p (contains new_extension)
    new-IsAdmissible =
        IsAdmissible-eq
          (union-IsAdmissible run.reduct.is_reduct run.built.admissible S-IsAdmissible)
          (λ a. sym (contains-extend_extension l.extension_build S a))

    -- A preferred set that goes beyond `E` only.
    not_complete : (P : ArgSet) → IsPreferred (exists_attack f) p P → IsSubset P E → ⊥
    not_complete P pref sub =
        let (a, h) = S-IsNonempty in
        let there : contains new_extension a ≡ true =
          contains-extend_extension l.extension_build S a ∙ ground (arith, h) in
        let inside =
          pref.maximal (contains new_extension) new-IsAdmissible
            (λ b g. contains-extend_extension l.extension_build S b ∙ ground (arith, sub b g)) a
            there in
        cc (sub a inside, run.reduct.is_reduct.outside a (S-IsAdmissible.within a h))

    -- The models that the next round has left.
    left_over :
        (v : Valuation)
        → formula_true v (formula (asked sat l)) ≡ true
        → all v S ≡ false
        → formula_true v (formula (asked sat next)) ≡ true
    unfolding asked
    left_over v h k =
        let (ready, meaning) =
          complement_excludes sat run.reduct.denotes (reduct-HasVariables run.reduct) s
            run.sound.ready in
        let old : formula_true v (formula s) ≡ true = ap (formula_true v) same ∙ h in
        meaning v ∙ ground (arith, old, k)

    pub new-IsBuilt :
        any (λ m. exists_attack f m q) S ≡ false
        → contains S q ≡ false
        → IsBuilt f p q (contains new_extension)
    new-IsBuilt quiet out = record {
      admissible = new-IsAdmissible;
      without =
          contains-extend_extension l.extension_build S q ∙ ground (arith, run.built.without, out);
      harmless = λ a h. elim (Bool-cases (exists_attack f a q)) [
        | inr k ↦ k
        | inl k ↦ elim (Bool-cases (E a)) [
          | inl g ↦ run.built.harmless a g
          | inr g ↦
              let there : contains S a ≡ true =
                ground (arith, contains-extend_extension l.extension_build S a, h, g) in
              cc (any_intro (λ m. exists_attack f m q) S a there k, quiet)
        ]
      ];
    }

    pub new-IsProof :
        any (λ m. exists_attack f m q) S ≡ true → IsProof sat f p active q new_extension
    new-IsProof attacked =
        let (a, m, g) = any_elim (λ m. exists_attack f m q) S attacked in
        (
          new-IsAdmissible,
          (a, contains-extend_extension l.extension_build S a ∙ ground (arith, m), g),
        )

    -- What the branches that go on do for a preferred set.
    passes_on :
        (P : ArgSet)
        → IsPreferred (exists_attack f) p P
        → P q ≡ false
        → Reaches sat f p active q P l
        → (IsSubset E P)
          × ((v : Valuation) × (formula_true v (formula (asked sat l)) ≡ true)
              × ((a : ℕ) → contains r.vector a ≡ true → v a ≡ (P a && not (E a))))
    passes_on P pref out (sub, inl (first, complete)) = absurd (not_complete P pref complete)
    passes_on P pref out (sub, inr rest) = (sub, rest)

    pub in_reduct : (a : ℕ) → contains S a ≡ true → contains r.vector a ≡ true
    in_reduct = S-IsAdmissible.within

    pub skip_lem :
        (P : ArgSet)
        → IsPreferred (exists_attack f) p P
        → P q ≡ false
        → contains S q ≡ true
        → Reaches sat f p active q P l
        → Reaches sat f p active q P next
    skip_lem P pref out member reach =
        let (sub, (v, holds, agrees)) = passes_on P pref out reach in
        (
          sub,
          inr (
            v,
            left_over v holds (elim (Bool-cases (all v S)) [
              | inl k ↦
                  absurd
                    (ground (arith, all_elim v S q k member, agrees q (in_reduct q member), out))
              | inr k ↦ k
            ]),
            agrees,
          ),
        )

    pub branch_lem :
        (P : ArgSet)
        → IsPreferred (exists_attack f) p P
        → P q ≡ false
        → Reaches sat f p active q P l
        → (Reaches sat f p active q P next) ⊎ (IsSubset (contains new_extension) P)
    branch_lem P pref out reach =
        let (sub, (v, holds, agrees)) = passes_on P pref out reach in
        elim (Bool-cases (all v S)) [
          | inr k ↦ inl (sub, inr (v, left_over v holds k, agrees))
          | inl k ↦ inr (λ a h. elim (Bool-cases (E a)) [
            | inl g ↦ sub a g
            | inr g ↦
                let there : contains S a ≡ true =
                  ground (arith, contains-extend_extension l.extension_build S a, h, g) in
                ground (arith, all_elim v S a k there, agrees a (in_reduct a there))
          ])
        ]

    pub new-Refutes :
        any (λ m. exists_attack f m q) S ≡ true → Refutes f p q (contains new_extension)
    new-Refutes attacked =
        let (adm, (a, m, g)) = new-IsProof attacked in
        record {
          admissible = adm;
          excludes = λ T t sub. elim (Bool-cases (T q)) [
            | inl k ↦ cc (t.conflict_free a q (sub a m) k, g)
            | inr k ↦ k
          ];
        }
