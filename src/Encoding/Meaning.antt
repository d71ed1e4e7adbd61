-- ===== src/Encoding/Meaning.antt =====
-- What the clauses of src/logic/Encoding.cpp say of a valuation, call by call.
use af_analyzer.Prelude.{
  ℕ, zero, suc, ◌+◌, ◌^◌, ◌≤◌, ◌<◌, ◌≡◌, refl, Bool, true, false, ◌&&◌, ◌||◌, not, List, [], ◌∷◌,
  ◌++◌, ◌==◌, any, all, all-append, arith, Bool-cases, inl, inr,
}
use af_analyzer.Prelude.Int.{ℤ, pos, neg_of_ℕ}
use af_analyzer.Sat.{
  Clause, Valuation, literal_true, clause_true, formula_true, is_zero, is_small, short_clause,
  SatSolver,
}
use af_analyzer.Encoding.Literals.{
  is_encoded, IsEncoded, is_encoded-pos, is_encoded-neg, is_zero-encoded, is_literal-encoded,
  IsEncoded-IsProper,
}
use af_analyzer.Encoding.{
  get_literal_accepted, get_literal_rejected, add_attacker, add_conflict_free_per_attacker,
  add_defense_per_attacker,
}

-- Parts I and III for the argument `a` of `n`, Part II, conflict-freeness and defence against its
-- attacker `b`, and all of them for its active attackers `bs`.
abbrev pub attacker_ok : ℕ → Valuation → ℕ → ℕ → Bool
attacker_ok n v a b =
    (v (a + n) || not (v b)) && (not (v a) || not (v b)) && (a == b || (not (v a) || v (b + n)))

abbrev pub argument_ok : ℕ → Valuation → ℕ → List ℕ → Bool
argument_ok n v a bs =
    (not (v (a + n)) || not (v a)) && all (attacker_ok n v a) bs && (not (v (a + n)) || any v bs)

pub literal-neg : (v : Valuation) (a : ℕ) → 0 < a → literal_true v (neg_of_ℕ a) ≡ not (v a)
literal-neg v zero h = absurd (omega arith)
literal-neg v (suc a) h = refl

module _ (sat : SatSolver) (n : ℕ) where
  open sat use {Solver, formula, IsReady, add_clause, add_clause_short}

  -- `s'` has clauses added to those of `s` that say `m`, and that are of the encoding for `n` arguments.
  pub record Says (s s' : Solver) (m : Valuation → Bool) : Type 0 where
    pub ready : IsReady s'
    pub encoded :
        all (all (is_encoded n)) (formula s) ≡ true → all (all (is_encoded n)) (formula s') ≡ true
    pub meaning :
        (v : Valuation) → formula_true v (formula s') ≡ (formula_true v (formula s) && m v)

  -- One clause more.
  Says-append :
      (c : Clause) (s s' : Solver)
      → IsReady s'
      → IsEncoded n c
      → formula s' ≡ formula s ++ c ∷ []
      → Says s s' (λ v. clause_true v c)
  Says-append c s s' r h e = record {
    ready = r;
    encoded =
        λ k. rw e (ground (arith, all-append (all (is_encoded n)) (formula s) (c ∷ []), h, k));
    meaning = λ v. rw e (ground (arith, all-append (clause_true v) (formula s) (c ∷ [])));
  }

  pub Says-trans :
      {s t u : Solver} {m k : Valuation → Bool}
      → Says s t m
      → Says t u k
      → Says s u (λ v. m v && k v)
  Says-trans p q = record {
    ready = q.ready;
    encoded = λ h. q.encoded (p.encoded h);
    meaning = λ v. ground (arith, p.meaning v, q.meaning v);
  }

  -- The same, said otherwise.
  pub Says-eq :
      {s t : Solver} {m k : Valuation → Bool}
      → Says s t m
      → ((v : Valuation) → m v ≡ k v)
      → Says s t k
  Says-eq p e = record {
    ready = p.ready;
    encoded = p.encoded;
    meaning = λ v. ground (arith, p.meaning v, e v);
  }

  module _ (small : n < 2 ^ 30) where
    pub Says-add_clause :
        (c : Clause) (s : Solver)
        → IsEncoded n c
        → IsReady s
        → Says s (add_clause c s) (λ v. clause_true v c)
    Says-add_clause c s p r =
        let proper = IsEncoded-IsProper n c small p in
        Says-append c s _ (sat.add_clause-IsReady c s proper r) p
          (sat.formula-add_clause c s proper r)

    Says-add_clause_short :
        (l m : ℤ) (s : Solver)
        → is_encoded n l ≡ true
        → is_small m ≡ true
        → IsEncoded n (short_clause l m)
        → IsReady s
        → Says s (add_clause_short l m s) (λ v. clause_true v (short_clause l m))
    Says-add_clause_short l m s p k h r =
        let first = is_literal-encoded n l small p in
        Says-append (short_clause l m) s _ (sat.add_clause_short-IsReady l m s first k r) h
          (sat.formula-add_clause_short l m s first k r)

    pub Says-pair :
        (l m : ℤ) (s : Solver)
        → is_encoded n l ≡ true
        → is_encoded n m ≡ true
        → IsReady s
        → Says s (add_clause_short l m s) (λ v. literal_true v l || literal_true v m)
    Says-pair l m s p q r =
        let two : is_zero m ≡ false = is_zero-encoded n m q in
        Says-eq
          (Says-add_clause_short l m s p (ground (arith, is_literal-encoded n m small q))
            (rw two (ground (arith, p, q))) r)
          (λ v. rw two (ground arith))

    Says-single :
        (l : ℤ) (s : Solver)
        → is_encoded n l ≡ true
        → IsReady s
        → Says s (add_clause_short l (pos 0) s) (λ v. literal_true v l)
    Says-single l s p r =
        Says-eq (Says-add_clause_short l (pos 0) s p refl (ground (arith, p)) r) (λ v. ground arith)

  module _ (small : n < 2 ^ 30) (a b : ℕ) (a_pos : 0 < a) (b_pos : 0 < b) (a_le : a ≤ n)
      (b_le : b ≤ n) where
    add_conflict_free_lem :
        (s : Solver)
        → IsReady s
        → Says s (add_conflict_free_per_attacker sat s a b) (λ v. not (v a) || not (v b))
    unfolding add_conflict_free_per_attacker get_literal_accepted
    add_conflict_free_lem s r = elim (Bool-cases (a == b)) [
      | inl e ↦ rw e (
          Says-eq (Says-single small (neg_of_ℕ a) s (is_encoded-neg n a a_pos (omega arith)) r)
            (λ v. ground (arith, literal-neg v a a_pos)))
      | inr e ↦ rw e (
          Says-eq
            (Says-pair small (neg_of_ℕ a) (neg_of_ℕ b) s (is_encoded-neg n a a_pos (omega arith))
              (is_encoded-neg n b b_pos (omega arith)) r)
            (λ v. ground (arith, literal-neg v a a_pos, literal-neg v b b_pos)))
    ]

    add_defense_lem :
        (s : Solver)
        → IsReady s
        → Says s (add_defense_per_attacker sat s n a b) (λ v. a == b || (not (v a) || v (b + n)))
    unfolding add_defense_per_attacker get_literal_accepted get_literal_rejected
    add_defense_lem s r = elim (Bool-cases (a == b)) [
      | inl e ↦ rw e (record { ready = r; encoded = λ h. h; meaning = λ v. ground arith })
      | inr e ↦ rw e (
          Says-eq
            (Says-pair small (neg_of_ℕ a) (pos (b + n)) s (is_encoded-neg n a a_pos (omega arith))
              (is_encoded-pos n (b + n) (omega arith) (omega arith)) r)
            (λ v. ground (arith, literal-neg v a a_pos)))
    ]

    -- One active attacker: the three clauses, and one literal more for Part III.
    pub add_attacker_lem :
        (s : Solver) (c : Clause)
        → IsReady s
        → Says s (add_attacker sat n a b (s, c)).0 (λ v. attacker_ok n v a b)
          × ((add_attacker sat n a b (s, c)).1 ≡ c ++ pos b ∷ [])
    unfolding add_attacker get_literal_accepted get_literal_rejected
    add_attacker_lem s c r =
        let rejecting =
          Says-pair small (pos (a + n)) (neg_of_ℕ b) s
            (is_encoded-pos n (a + n) (omega arith) (omega arith))
            (is_encoded-neg n b b_pos (omega arith)) r in
        let conflict_free = add_conflict_free_lem _ rejecting.ready in
        let defence = add_defense_lem _ conflict_free.ready in
        (
          Says-eq (Says-trans rejecting (Says-trans conflict_free defence))
              (λ v. ground (arith, literal-neg v b b_pos)),
          refl,
        )
