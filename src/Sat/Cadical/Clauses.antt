-- ===== src/Sat/Cadical/Clauses.antt =====
-- The clauses that `add_clause` and `add_clause_short` of src/logic/SatSolver_cadical.cpp add.
use af_analyzer.Prelude.{
  ◌≡◌, refl, sym, ap, ◌∙◌, true, false, [], ◌∷◌, ◌++◌, Bool-cases, inl, inr, arith, all, all-append,
}
use mathlib.Core.List.{append_assoc, append-nil}
use af_analyzer.Prelude.Int.{ℤ, to_int32, to_int32-eq}
use af_analyzer.Sat.{Clause, is_zero, is_small, is_literal, IsProper, short_clause}
use af_analyzer.Sat.Cadical.{
  Cadical, SatSolverCadical, add_literals, add_clause, add_clause_short, formula, IsReady,
}

module _ (c : Cadical) where
  open c use {State, fresh, add, val, clauses, pending}

  add_literals_lem :
      (k : Clause) (s : State)
      → IsProper k
      → (clauses (add_literals c k s) ≡ clauses s) × (pending (add_literals c k s) ≡ pending s ++ k)
  add_literals_lem [] s h = (refl, sym (append-nil (pending s)))
  add_literals_lem (l ∷ k) s h =
      let here : is_zero l ≡ false = ground (arith, h) in
      let narrow : to_int32 l ≡ l = to_int32-eq l (ground (arith, h)) in
      let (same, more) = add_literals_lem k (add l s) (ground (arith, h)) in
      rw narrow (
        same ∙ c.clauses-add l s here,
        more ∙ ap (λ p. p ++ k) (c.pending-add l s here) ∙ append_assoc (pending s) (l ∷ []) k,
      )

  -- If no literal of the clause is 0, their variables are below 2 ^ 31, and CaDiCaL has no clause
  -- under construction, `add_clause` adds that clause, and no other, to the clauses of CaDiCaL, in
  -- spite of the conversion to int.
  pub formula-add_clause :
      (k : Clause) (s : SatSolverCadical c)
      → IsProper k
      → pending s.cadical_solver ≡ []
      → formula c (add_clause c k s) ≡ formula c s ++ k ∷ []
  unfolding add_clause
  formula-add_clause k s h r =
      let (same, more) = add_literals_lem k s.cadical_solver h in
      rw (c.clauses-add_zero, same, more, r) refl

  -- If the first literal is not 0, the variables are below 2 ^ 31, and CaDiCaL has no clause under
  -- construction, `add_clause_short` adds the clause of its literals, of the first alone if the
  -- second is 0.
  pub formula-add_clause_short :
      (l m : ℤ) (s : SatSolverCadical c)
      → is_literal l ≡ true
      → is_small m ≡ true
      → pending s.cadical_solver ≡ []
      → formula c (add_clause_short c l m s) ≡ formula c s ++ short_clause l m ∷ []
  unfolding add_clause_short
  formula-add_clause_short l m s h k r =
      let first : is_zero l ≡ false = ground (arith, h) in
      let narrow : to_int32 l ≡ l = to_int32-eq l (ground (arith, h)) in
      let narrow' : to_int32 m ≡ m = to_int32-eq m k in
      elim (Bool-cases (is_zero m)) [
        | inl e ↦
            rw (narrow, e, c.clauses-add_zero, c.clauses-add l _ first, c.pending-add l _ first, r)
              refl
        | inr e ↦
            rw
              (
                narrow,
                narrow',
                e,
                c.clauses-add_zero,
                c.clauses-add m _ e,
                c.clauses-add l _ first,
                c.pending-add m _ e,
                c.pending-add l _ first,
                r,
              )
              refl
      ]

  pub add_clause-IsReady :
      (k : Clause) (s : SatSolverCadical c)
      → IsProper k
      → IsReady c s
      → IsReady c (add_clause c k s)
  unfolding add_clause
  add_clause-IsReady k s h r = record {
    complete = c.pending-add_zero _;
    proper =
        ap (all (all is_literal)) (formula-add_clause k s h r.complete)
        ∙ ground (arith, all-append (all is_literal) (formula c s) (k ∷ []), r.proper, h);
  }

  short_clause-IsProper :
      (l m : ℤ) → is_literal l ≡ true → is_small m ≡ true → IsProper (short_clause l m)
  short_clause-IsProper l m h k = ground (arith, h, k)

  pub add_clause_short-IsReady :
      (l m : ℤ) (s : SatSolverCadical c)
      → is_literal l ≡ true
      → is_small m ≡ true
      → IsReady c s
      → IsReady c (add_clause_short c l m s)
  unfolding add_clause_short
  add_clause_short-IsReady l m s h k r = record {
    complete = c.pending-add_zero _;
    proper =
        ap (all (all is_literal)) (formula-add_clause_short l m s h k r.complete)
        ∙ ground (
          arith,
          all-append (all is_literal) (formula c s) (short_clause l m ∷ []),
          r.proper,
          short_clause-IsProper l m h k,
        );
  }
