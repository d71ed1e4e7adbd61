-- ===== src/Sat/Cadical/Models.antt =====
-- The models of src/logic/SatSolver_cadical.cpp, and that the class implements
-- include/logic/SatSolver.h.
use af_analyzer.Prelude.{
  ℕ, zero, suc, ◌+◌, ◌≡◌, ◌≢◌, refl, ap, ◌∙◌, true, false, [], ◌∷◌, ◌==◌, eq_of_==, arith, get_or,
  ◌<◌, ◌^◌, not, all, ltb, length, List, Bool, Bool-cases, inl, inr, ◌⊎◌, ok, err, overflow,
}
use af_analyzer.Prelude.Int.{ℤ, pos, negsuc, to_int32, to_int32-eq}
use af_analyzer.Sat.{
  Clause, Formula, Valuation, literal_true, clause_true, formula_true, is_literal, IsProper,
  SatSolver,
}
use af_analyzer.Sat.Cadical.{
  Cadical, SatSolverCadical, is_positive, create, add_clause, add_clause_short, check_var_model,
  solve, model_loop, get_model, formula, IsReady,
}
use af_analyzer.Sat.Cadical.Clauses.{
  formula-add_clause, formula-add_clause_short, add_clause-IsReady, add_clause_short-IsReady,
}

module _ (c : Cadical) where
  open c use {State, fresh, add, val, clauses, pending}

  model_loop_lem :
      (left k : ℕ) (s : SatSolverCadical c) (i : ℕ)
      → i < left
      → get_or (model_loop c left k s) i false ≡ is_positive (val (pos (k + i)) s.cadical_solver)
  model_loop_lem zero k s i h = elim h [ ]
  model_loop_lem (suc left) k s zero h =
      ap (λ j. is_positive (val (pos j) s.cadical_solver)) (omega arith)
  model_loop_lem (suc left) k s (suc i) h =
      model_loop_lem left (k + 1) s i (omega arith)
      ∙ ap (λ j. is_positive (val (pos j) s.cadical_solver)) (omega arith)

  length-model_loop : (left k : ℕ) (s : SatSolverCadical c) → length (model_loop c left k s) ≡ left
  length-model_loop zero k s = refl
  length-model_loop (suc left) k s = omega (arith, length-model_loop left (k + 1) s)

  pub unsat_status : (n : ℕ) → (n == 10) ≡ false → n ≢ 10
  unsat_status n h e = ground arith

  -- If `_num_variables` is not negative and below 2 ^ 31 - 1, `get_model` returns the list of what
  -- `check_var_model` says of each variable from 1 to it; for 2 ^ 31 - 1 the sum in its loop
  -- overflows.
  pub get_or-get_model :
      (s : SatSolverCadical c) (n : ℕ)
      → s.num_variables ≡ pos n
      → n < 2 ^ 31
      → ((n + 1 < 2 ^ 31)
          × ((model : List Bool) × (get_model c s ≡ ok model)
              × (length model ≡ n)
              × ((i : ℕ) → i < n → get_or model i false ≡ check_var_model c (pos (i + 1)) s)))
        ⊎ ((n + 1 ≡ 2 ^ 31) × (get_model c s ≡ err overflow))
  unfolding get_model check_var_model
  get_or-get_model s n e small = elim (Bool-cases (ltb (n + 1) (2 ^ 31))) [
    | inl h ↦ inl (
      ground (arith, h),
      (
        model_loop c n 1 s,
        simp (e, h),
        length-model_loop n 1 s,
        λ i below.
            let narrow : to_int32 (pos (i + 1)) ≡ pos (i + 1) =
              to_int32-eq (pos (i + 1)) (ground (arith, below, small)) in
            simp narrow (
              model_loop_lem n 1 s i below
              ∙ ap (λ k. is_positive (val (pos k) s.cadical_solver)) (omega arith)),
      ),
    )
    | inr h ↦ inr (ground (arith, h, small), simp (e, h))
  ]

  pub formula-solve : (s : SatSolverCadical c) → formula c (solve c s).1 ≡ formula c s
  unfolding solve
  formula-solve s = c.clauses-solve s.cadical_solver

  pub solve-IsReady : (s : SatSolverCadical c) → IsReady c s → IsReady c (solve c s).1
  unfolding solve
  solve-IsReady s r = record {
    complete = c.pending-solve s.cadical_solver ∙ r.complete;
    proper = ap (all (all is_literal)) (formula-solve s) ∙ r.proper;
  }

  literal-narrow :
      (s : State) (l : ℤ)
      → is_literal l ≡ true
      → literal_true (λ n. is_positive (val (to_int32 (pos n)) s)) l
        ≡ literal_true (λ n. is_positive (val (pos n) s)) l
  literal-narrow s (pos n) h =
      ap (λ k. is_positive (val k s)) (to_int32-eq (pos n) (ground (arith, h)))
  literal-narrow s (negsuc n) h =
      ap (λ k. not (is_positive (val k s))) (to_int32-eq (pos (suc n)) (ground (arith, h)))

  clause-narrow :
      (s : State) (k : Clause)
      → IsProper k
      → clause_true (λ n. is_positive (val (to_int32 (pos n)) s)) k
        ≡ clause_true (λ n. is_positive (val (pos n) s)) k
  clause-narrow s [] h = refl
  clause-narrow s (l ∷ k) h =
      ground (arith, literal-narrow s l (ground (arith, h)), clause-narrow s k (ground (arith, h)))

  formula-narrow :
      (s : State) (g : Formula)
      → all (all is_literal) g ≡ true
      → formula_true (λ n. is_positive (val (to_int32 (pos n)) s)) g
        ≡ formula_true (λ n. is_positive (val (pos n) s)) g
  formula-narrow s [] h = refl
  formula-narrow s (k ∷ g) h =
      ground (arith, clause-narrow s k (ground (arith, h)), formula-narrow s g (ground (arith, h)))

  pub model_of_solve :
      (s : SatSolverCadical c)
      → IsReady c s
      → (solve c s).0 ≡ true
      → formula_true (λ n. check_var_model c (pos n) (solve c s).1) (formula c s) ≡ true
  unfolding solve check_var_model
  model_of_solve s r e =
      formula-narrow (c.solve s.cadical_solver).1 (formula c s) r.proper
      ∙ c.solve_sat s.cadical_solver r.complete (eq_of_== _ _ e)

  pub no_model_of_solve :
      (s : SatSolverCadical c)
      → IsReady c s
      → (solve c s).0 ≡ false
      → (v : Valuation) → formula_true v (formula c s) ≡ false
  unfolding solve
  no_model_of_solve s r e = c.solve_unsat s.cadical_solver r.complete (unsat_status _ e)

  pub create-IsReady : (n : ℕ) → IsReady c (create c n)
  create-IsReady n = record {
    complete = c.pending-fresh;
    proper = ap (all (all is_literal)) c.clauses-fresh;
  }

  -- The class implements the interface.
  abbrev pub implementation : SatSolver
  implementation = record {
    Solver = SatSolverCadical c;
    create = create c;
    add_clause = add_clause c;
    add_clause_short = add_clause_short c;
    check_var_model = check_var_model c;
    solve = solve c;
    formula = formula c;
    IsReady = IsReady c;
    create-IsReady = create-IsReady;
    formula-create = λ n. c.clauses-fresh;
    add_clause-IsReady = add_clause-IsReady c;
    formula-add_clause = λ k s h r. formula-add_clause c k s h r.complete;
    add_clause_short-IsReady = add_clause_short-IsReady c;
    formula-add_clause_short = λ l m s h k r. formula-add_clause_short c l m s h k r.complete;
    solve-IsReady = solve-IsReady;
    formula-solve = λ s r. formula-solve s;
    solve_sat = model_of_solve;
    solve_unsat = no_model_of_solve;
  }
