-- ===== src/Encoding/Admissible.antt =====
-- src/logic/Encoding.cpp: the models of the clauses are the nonempty admissible sets.
use af_analyzer.Prelude.{
  ℕ, ◌+◌, ◌-◌, ◌≡◌, refl, sym, ap, ◌∙◌, Bool, true, false, ◌&&◌, List, [], ◌∷◌, ltb, if◌then◌else◌,
  ok, any, all, contains, arith, Bool-cases, inl, inr, ==_self, contains-filter_by, any_intro,
  any_elim, all_intro, all_elim,
}
use af_analyzer.VectorBitSet.{VectorBitSet, Denotes, le_of_member}
use af_analyzer.Af.{Af, exists_attack}
use af_analyzer.Af.Valid.{IsValid, attackers_of}
use af_analyzer.Sat.{Valuation, formula_true, SatSolver}
use af_analyzer.Semantics.{ArgSet, IsNonempty, IsAdmissible}
use af_analyzer.Encoding.{add_clauses_nonempty_admissible_set}
use af_analyzer.Encoding.Literals.{HasVariables}
use af_analyzer.Encoding.Meaning.{attacker_ok, argument_ok}
use af_analyzer.Encoding.Loops.{active_attackers, add_clauses_lem, pos_of_ne_zero}

-- The active arguments that a valuation accepts.
abbrev pub chosen : ArgSet → Valuation → ArgSet
chosen p v a = p a && v a

any_congr :
    (p q : ℕ → Bool) (l : List ℕ) → ((a : ℕ) → contains l a ≡ true → p a ≡ q a) → any p l ≡ any q l
any_congr p q [] h = refl
any_congr p q (x ∷ l) h =
    ground (arith, h x (ground (arith, ==_self x)), any_congr p q l (λ a m. h a (ground arith)))

-- A clause by clause check of the three clauses for an attacker `b` of `a`.
attacker_values :
    (n a b : ℕ) (v : Valuation) {Sa Sb Ra Rb : Bool}
    → v a ≡ Sa
    → v b ≡ Sb
    → v (a + n) ≡ Ra
    → v (b + n) ≡ Rb
    → (Sb ≡ true → Ra ≡ true)
    → (Sa ≡ true → Sb ≡ true → ⊥)
    → (Sa ≡ true → Rb ≡ true)
    → attacker_ok n v a b ≡ true
attacker_values n a b v ea eb ra rb attacking conflict defence = ground arith

module _ (sat : SatSolver) {f : Af} (valid : IsValid f) {p : ℕ → Bool} {active : VectorBitSet}
    (d : Denotes f.num_args p active) (proper : HasVariables f.num_args p) where
  open sat use {Solver, IsReady, formula, create}

  abbrev rivals : ℕ → List ℕ
  rivals = active_attackers sat valid d proper

  abbrev says_admissible : Valuation → Bool
  says_admissible v =
      all (λ a. argument_ok f.num_args v a (rivals a)) active.vector && any v active.vector

  contains-rivals : (a b : ℕ) → p a ≡ true → contains (rivals a) b ≡ (exists_attack f b a && p b)
  contains-rivals a b h = ground (
    arith,
    contains-filter_by p (attackers_of f a).vector b,
    (valid.attackers a (le_of_member d a h)).items b,
  )

  module _ (v : Valuation) (m : says_admissible v ≡ true) where
    argument_holds : (a : ℕ) → p a ≡ true → argument_ok f.num_args v a (rivals a) ≡ true
    argument_holds a h =
        all_elim (λ b. argument_ok f.num_args v b (rivals b)) active.vector a (ground arith)
          (d.items a ∙ h)

    attacker_holds :
        (a b : ℕ)
        → p a ≡ true
        → p b ≡ true
        → exists_attack f b a ≡ true
        → attacker_ok f.num_args v a b ≡ true
    attacker_holds a b ha hb g =
        all_elim (attacker_ok f.num_args v a) (rivals a) b (ground (arith, argument_holds a ha))
          (ground (arith, contains-rivals a b ha))

    chosen-IsAdmissible : IsAdmissible (exists_attack f) p (chosen p v)
    chosen-IsAdmissible = record {
      within = λ a h. ground arith;
      conflict_free = λ a b h k. elim (Bool-cases (exists_attack f a b)) [
        | inl g ↦ ground (arith, attacker_holds b a (ground arith) (ground arith) g)
        | inr g ↦ g
      ];
      defended = λ a b h k g.
          let rejected : v (b + f.num_args) ≡ true =
            ground (arith, attacker_holds a b (ground arith) k g) in
          let (c, among, accepted) = any_elim v (rivals b) (ground (arith, argument_holds b k)) in
          (c, ground (arith, contains-rivals b c k), ground (arith, contains-rivals b c k));
    }

    chosen-IsNonempty : IsNonempty (chosen p v)
    chosen-IsNonempty =
        let (a, among, accepted) = any_elim v active.vector (ground arith) in
        (a, ground (arith, d.items a))

  -- A valuation for an admissible set: rejected is what the set attacks.
  abbrev valuation_of : ArgSet → Valuation
  valuation_of S x = if ltb f.num_args x then any S (rivals (x - f.num_args)) else S x

  module _ (S : ArgSet) (adm : IsAdmissible (exists_attack f) p S) where
    accepted-eq : (a : ℕ) → p a ≡ true → valuation_of S a ≡ S a
    accepted-eq a h =
        let low : ltb f.num_args a ≡ false = ground (arith, le_of_member d a h) in rw low refl

    rejected-eq : (a : ℕ) → p a ≡ true → valuation_of S (a + f.num_args) ≡ any S (rivals a)
    rejected-eq a h =
        let high : ltb f.num_args (a + f.num_args) ≡ true =
          ground (arith, pos_of_ne_zero p proper.no_zero a h) in
        let back : a + f.num_args - f.num_args ≡ a = omega arith in rw (high, back) refl

    rivals-eq : (a : ℕ) → p a ≡ true → any (valuation_of S) (rivals a) ≡ any S (rivals a)
    rivals-eq a h =
        any_congr (valuation_of S) S (rivals a)
          (λ b m. accepted-eq b (ground (arith, contains-rivals a b h)))

    -- Some active attacker of `a` is in the set.
    attacked :
        (a b : ℕ) → p a ≡ true → S b ≡ true → exists_attack f b a ≡ true → any S (rivals a) ≡ true
    attacked a b h k g =
        any_intro S (rivals a) b (ground (arith, contains-rivals a b h, adm.within b k)) k

    attacked_not_in : (a : ℕ) → p a ≡ true → any S (rivals a) ≡ true → S a ≡ false
    attacked_not_in a h k =
        let (b, among, k') = any_elim S (rivals a) k in
        let g : exists_attack f b a ≡ true = ground (arith, contains-rivals a b h) in
        elim (Bool-cases (S a)) [ inl m ↦ cc (adm.conflict_free b a k' m, g) | inr m ↦ m ]

    attacker_said :
        (a b : ℕ)
        → p a ≡ true
        → contains (rivals a) b ≡ true
        → attacker_ok f.num_args (valuation_of S) a b ≡ true
    attacker_said a b h m =
        let hb : p b ≡ true = ground (arith, contains-rivals a b h) in
        let g : exists_attack f b a ≡ true = ground (arith, contains-rivals a b h) in
        attacker_values f.num_args a b (valuation_of S) (accepted-eq a h) (accepted-eq b hb)
          (rejected-eq a h) (rejected-eq b hb) (λ k. attacked a b h k g)
          (λ k l. cc (adm.conflict_free b a l k, g))
          (λ k. let (c, l, e) = adm.defended a b k hb g in attacked b c hb l e)

    argument_said :
        (a : ℕ) → p a ≡ true → argument_ok f.num_args (valuation_of S) a (rivals a) ≡ true
    argument_said a h = ground (
      arith,
      accepted-eq a h,
      rejected-eq a h,
      rivals-eq a h,
      attacked_not_in a h,
      all_intro (attacker_ok f.num_args (valuation_of S) a) (rivals a)
          (λ b m. attacker_said a b h m),
    )

    valuation_of_says : IsNonempty S → says_admissible (valuation_of S) ≡ true
    valuation_of_says (a, m) = ground (
      arith,
      all_intro (λ b. argument_ok f.num_args (valuation_of S) b (rivals b)) active.vector
          (λ b k. argument_said b (sym (d.items b) ∙ k)),
      any_intro (valuation_of S) active.vector a (d.items a ∙ adm.within a m)
          (accepted-eq a (adm.within a m) ∙ m),
    )

  -- On a fresh solver the encoding of a reduct, in which 0 is no argument, of a valid framework with
  -- fewer than 2 ^ 30 arguments reads no table out of range. In each model of its clauses the active
  -- arguments that are accepted are a nonempty admissible set, and each nonempty admissible set of
  -- the reduct is that of some model.
  pub models_are-IsAdmissible :
      (k : ℕ)
      → (t : Solver) × (add_clauses_nonempty_admissible_set sat (create k) f active ≡ ok t)
        × IsReady t
        × ((v : Valuation)
            → formula_true v (formula t) ≡ true
            → IsAdmissible (exists_attack f) p (chosen p v) × IsNonempty (chosen p v))
        × ((S : ArgSet)
            → IsAdmissible (exists_attack f) p S
            → IsNonempty S
            → (v : Valuation) × (formula_true v (formula t) ≡ true)
              × ((a : ℕ) → p a ≡ true → v a ≡ S a))
  models_are-IsAdmissible k =
      let (t, ends, says) = add_clauses_lem sat valid d proper (create k) (sat.create-IsReady k) in
      let meaning : (v : Valuation) → formula_true v (formula t) ≡ says_admissible v = λ v.
        says.meaning v ∙ ap (λ g. formula_true v g && says_admissible v) (sat.formula-create k) in
      (
        t,
        ends,
        says.ready,
        λ v h. let m = sym (meaning v) ∙ h in (chosen-IsAdmissible v m, chosen-IsNonempty v m),
        λ S adm some_member. (
          valuation_of S,
          meaning (valuation_of S) ∙ valuation_of_says S adm some_member,
          accepted-eq S adm,
        ),
      )
