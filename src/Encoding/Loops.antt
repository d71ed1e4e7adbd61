-- ===== src/Encoding/Loops.antt =====
-- What the loops of src/logic/Encoding.cpp add: over the attackers of one argument, and over the
-- active arguments.
use af_analyzer.Prelude.{
  ℕ, zero, suc, ◌+◌, ◌≤◌, ◌<◌, ◌≡◌, refl, sym, ap, ◌∙◌, Bool, true, false, ◌&&◌, ◌||◌, List, [],
  ◌∷◌, ◌++◌, map, ok, at, any, all, contains, filter_by, at-get_or, arith, Bool-cases, inl, inr,
  ==_self, contains-filter_by,
}
use mathlib.Core.List.{append_assoc, append-nil}
use af_analyzer.Prelude.Int.{pos, neg_of_ℕ}
use af_analyzer.VectorBitSet.{VectorBitSet, Denotes, le_of_member}
use af_analyzer.Af.{Af}
use af_analyzer.Af.Valid.{IsValid, attackers_of, at-attackers}
use af_analyzer.Sat.{Clause, Valuation, clause_true, SatSolver}
use af_analyzer.Encoding.{
  get_literal_accepted, get_literal_rejected, add_rejected_clauses, add_attacker, add_attackers,
  add_admissible, add_arguments, add_clauses_nonempty_admissible_set,
}
use af_analyzer.Encoding.Literals.{HasVariables, IsEncoded, is_encoded-neg, map_pos-IsEncoded}
use af_analyzer.Encoding.Meaning.{
  attacker_ok, argument_ok, literal-neg, Says, Says-add_clause, Says-trans, Says-eq, Says-pair,
  add_attacker_lem,
}

clause_true-map_pos : (v : Valuation) (bs : List ℕ) → clause_true v (map pos bs) ≡ any v bs
clause_true-map_pos v [] = refl
clause_true-map_pos v (b ∷ bs) = ap (λ r. v b || r) (clause_true-map_pos v bs)

-- A set that leaves argument 0 out, among the arguments 0 .. n.
pub at-bitset :
    {n : ℕ} {p : ℕ → Bool} {s : VectorBitSet}
    → Denotes n p s
    → (a : ℕ) → a ≤ n
    → at s.bitset a ≡ ok (p a)
at-bitset {s} d a h = at-get_or s.bitset a false (omega (arith, d.size)) ∙ ap ok (d.bits a)

pub pos_of_ne_zero : (p : ℕ → Bool) → p 0 ≡ false → (a : ℕ) → p a ≡ true → 0 < a
pos_of_ne_zero p h zero k = cc
pos_of_ne_zero p h (suc a) k = omega arith

module _ (sat : SatSolver) {n : ℕ} {p : ℕ → Bool} {active : VectorBitSet} (d : Denotes n p active)
    (proper : HasVariables n p) where
  open sat use {Solver, IsReady}

  add_attackers_lem :
      (a : ℕ)
      → 0 < a
      → a ≤ n
      → (bs : List ℕ) (s : Solver) (c : Clause) → ((b : ℕ) → contains bs b ≡ true → b ≤ n)
      → IsReady s
      → (t : Solver × Clause) × (add_attackers sat n active a bs (s, c) ≡ ok t)
        × Says sat n s t.0 (λ v. all (attacker_ok n v a) (filter_by p bs))
        × (t.1 ≡ c ++ map pos (filter_by p bs))
  unfolding add_attackers
  add_attackers_lem a a_pos a_le [] s c range r = (
    (s, c),
    refl,
    record { ready = r; encoded = λ h. h; meaning = λ v. ground arith },
    sym (append-nil c),
  )
  add_attackers_lem a a_pos a_le (b ∷ bs) s c range r = elim (Bool-cases (p b)) [
    | inl e ↦
        let here =
          add_attacker_lem sat n proper.small a b a_pos (pos_of_ne_zero p proper.no_zero b e) a_le
            (range b (ground (arith, ==_self b))) s c r in
        let (t, ends, says, more) =
          add_attackers_lem a a_pos a_le bs (add_attacker sat n a b (s, c)).0
            (add_attacker sat n a b (s, c)).1 (λ x m. range x (ground arith)) here.0.ready in
        (
          t,
          rw (at-bitset d b (range b (ground (arith, ==_self b))), e) ends,
          rw e (Says-trans sat n here.0 says),
          rw e (
              more
              ∙ ap (λ k. k ++ map pos (filter_by p bs)) here.1
              ∙ append_assoc c (pos b ∷ []) (map pos (filter_by p bs))),
        )
    | inr e ↦
        let (t, ends, says, more) =
          add_attackers_lem a a_pos a_le bs s c (λ x m. range x (ground arith)) r in
        (t, rw (at-bitset d b (range b (ground (arith, ==_self b))), e) ends, rw e says, rw e more)
  ]

module _ (sat : SatSolver) {f : Af} (valid : IsValid f) {p : ℕ → Bool} {active : VectorBitSet}
    (d : Denotes f.num_args p active) (proper : HasVariables f.num_args p) where
  open sat use {Solver, IsReady}

  -- The active attackers of an argument.
  abbrev pub active_attackers : ℕ → List ℕ
  active_attackers a = filter_by p (attackers_of f a).vector

  add_admissible_lem :
      (a : ℕ)
      → 0 < a
      → a ≤ f.num_args
      → (s : Solver) → IsReady s
      → (t : Solver) × (add_admissible sat s f active a ≡ ok t)
        × Says sat f.num_args s t (λ v. argument_ok f.num_args v a (active_attackers a))
  unfolding add_admissible add_rejected_clauses get_literal_accepted get_literal_rejected
  add_admissible_lem a a_pos a_le s r =
      let basic =
        Says-pair sat f.num_args proper.small (neg_of_ℕ (a + f.num_args)) (neg_of_ℕ a) s
          (is_encoded-neg f.num_args (a + f.num_args) (omega arith) (omega (arith, a_le)))
          (is_encoded-neg f.num_args a a_pos (omega (arith, a_le))) r in
      let (t, ends, says, more) =
        add_attackers_lem sat d proper a a_pos a_le (attackers_of f a).vector _
          (neg_of_ℕ (a + f.num_args) ∷ []) range basic.ready in
      let last =
        Says-add_clause sat f.num_args proper.small t.1 t.0
          (rw more (
            ground (
              arith,
              is_encoded-neg f.num_args (a + f.num_args) (omega arith) (omega (arith, a_le)),
              reasons,
            )))
          says.ready in
      (
        sat.add_clause t.1 t.0,
        rw (at-attackers valid a (omega arith), ends) refl,
        Says-eq sat f.num_args
            (Says-trans sat f.num_args basic (Says-trans sat f.num_args says last))
            (λ v. rw more (
              ground (
                arith,
                literal-neg v (a + f.num_args) (omega arith),
                literal-neg v a a_pos,
                clause_true-map_pos v (active_attackers a),
              ))),
      )
    where
      range : (b : ℕ) → contains (attackers_of f a).vector b ≡ true → b ≤ f.num_args
      range b m =
          omega
            (arith, (valid.in_range b a (sym ((valid.attackers a (omega arith)).items b) ∙ m)).0)

      reasons : IsEncoded f.num_args (map pos (active_attackers a))
      reasons = map_pos-IsEncoded f.num_args (active_attackers a) (λ b m. (
        pos_of_ne_zero p proper.no_zero b
            (ground (arith, contains-filter_by p (attackers_of f a).vector b)),
        range b (ground (arith, contains-filter_by p (attackers_of f a).vector b)),
      ))

  add_arguments_lem :
      (l : List ℕ) (s : Solver) (c : Clause)
      → ((a : ℕ) → contains l a ≡ true → (0 < a) × (a ≤ f.num_args))
      → IsReady s
      → (t : Solver × Clause) × (add_arguments sat f active l s c ≡ ok t)
        × Says sat f.num_args s t.0
            (λ v. all (λ a. argument_ok f.num_args v a (active_attackers a)) l)
        × (t.1 ≡ c ++ map pos l)
  unfolding add_arguments get_literal_accepted
  add_arguments_lem [] s c range r = (
    (s, c),
    refl,
    record { ready = r; encoded = λ h. h; meaning = λ v. ground arith },
    sym (append-nil c),
  )
  add_arguments_lem (a ∷ l) s c range r =
      let here = range a (ground (arith, ==_self a)) in
      let (s', ends, says) = add_admissible_lem a here.0 here.1 s r in
      let (t, rest, more, clause) =
        add_arguments_lem l s' (c ++ pos a ∷ []) (λ b m. range b (ground arith)) says.ready in
      (
        t,
        rw ends rest,
        Says-trans sat f.num_args says more,
        clause ∙ append_assoc c (pos a ∷ []) (map pos l),
      )

  -- `add_clauses_nonempty_admissible_set` never reads out of range, and adds what is said here.
  pub add_clauses_lem :
      (s : Solver)
      → IsReady s
      → (t : Solver) × (add_clauses_nonempty_admissible_set sat s f active ≡ ok t)
        × Says sat f.num_args s t (λ v.
          all (λ a. argument_ok f.num_args v a (active_attackers a)) active.vector
          && any v active.vector)
  unfolding add_clauses_nonempty_admissible_set
  add_clauses_lem s r =
      let (t, ends, says, clause) = add_arguments_lem active.vector s [] range r in
      let last =
        Says-add_clause sat f.num_args proper.small t.1 t.0
          (rw clause (map_pos-IsEncoded f.num_args active.vector range)) says.ready in
      (
        sat.add_clause t.1 t.0,
        rw ends refl,
        Says-eq sat f.num_args (Says-trans sat f.num_args says last)
            (λ v. rw clause (ground (arith, clause_true-map_pos v active.vector))),
      )
    where
      range : (a : ℕ) → contains active.vector a ≡ true → (0 < a) × (a ≤ f.num_args)
      range a m =
          let member = sym (d.items a) ∙ m in
          (pos_of_ne_zero p proper.no_zero a member, le_of_member d a member)
