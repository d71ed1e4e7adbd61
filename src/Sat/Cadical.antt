-- ===== src/Sat/Cadical.antt =====
-- include/logic/SatSolver_cadical.h and src/logic/SatSolver_cadical.cpp: the solver over CaDiCaL.
-- CaDiCaL itself is a parameter: what its header documents of `add`, `solve` and `val`. These take an
-- `int`, so the `int64_t` of the class is converted.
pub mod Clauses
pub mod Models
use af_analyzer.Prelude.{
  ℕ, zero, suc, ◌+◌, ◌≡◌, ◌≢◌, refl, sym, ap, ◌∙◌, Bool, true, false, List, [], ◌∷◌, ◌++◌, ◌==◌,
  if◌then◌else◌, eq_of_==, Bool-cases, inl, inr, arith, get_or, ◌<◌, ◌^◌, not, ltb, Result, ok, err,
  overflow, ◌>>=◌, ◌&&◌, all, all-append,
}
use mathlib.Core.List.{append_assoc, append-nil}
use af_analyzer.Prelude.Int.{ℤ, pos, negsuc, to_int32, to_int32-eq}
use af_analyzer.Sat.{
  Clause, Formula, Valuation, literal_true, clause_true, formula_true, is_zero, is_small,
  is_literal, IsProper, short_clause, SatSolver,
}

-- `x > 0`.
abbrev pub is_positive : ℤ → Bool
is_positive (pos zero) = false
is_positive (pos (suc n)) = true
is_positive (negsuc n) = false

-- `add` takes a literal of the clause that is being built, or 0, which completes that clause;
-- `solve` returns 10 if the clauses are satisfiable, and after that `val` gives a model.
pub record Cadical : Type 1 where
  pub State : Type 0
  pub fresh : State
  pub add : ℤ → State → State
  pub solve : State → ℕ × State
  pub val : ℤ → State → ℤ
  pub clauses : State → Formula
  pub pending : State → Clause
  pub clauses-fresh : clauses fresh ≡ []
  pub pending-fresh : pending fresh ≡ []
  pub clauses-add_zero : (s : State) → clauses (add (pos 0) s) ≡ clauses s ++ pending s ∷ []
  pub pending-add_zero : (s : State) → pending (add (pos 0) s) ≡ []
  pub clauses-add : (l : ℤ) (s : State) → is_zero l ≡ false → clauses (add l s) ≡ clauses s
  pub pending-add :
      (l : ℤ) (s : State) → is_zero l ≡ false → pending (add l s) ≡ pending s ++ l ∷ []
  pub clauses-solve : (s : State) → clauses (solve s).1 ≡ clauses s
  pub pending-solve : (s : State) → pending (solve s).1 ≡ pending s
  pub solve_sat :
      (s : State)
      → pending s ≡ []
      → (solve s).0 ≡ 10
      → formula_true (λ n. is_positive (val (pos n) (solve s).1)) (clauses s) ≡ true
  pub solve_unsat :
      (s : State)
      → pending s ≡ []
      → (solve s).0 ≢ 10
      → (v : Valuation) → formula_true v (clauses s) ≡ false

module _ (c : Cadical) where
  open c use {State, fresh, add, val, clauses, pending}

  -- The members `cadical_solver` and `_num_variables`.
  pub record SatSolverCadical : Type 0 where
    pub cadical_solver : State
    pub num_variables : ℤ

  abbrev pub create : ℕ → SatSolverCadical
  create number_variables = record {
    cadical_solver = fresh;
    num_variables = to_int32 (pos number_variables);
  }

  -- The loop of `add_clause`.
  abbrev pub add_literals : Clause → State → State
  add_literals [] s = s
  add_literals (l ∷ clause) s = add_literals clause (add (to_int32 l) s)

  unfoldable pub add_clause : Clause → SatSolverCadical → SatSolverCadical
  add_clause clause s = record s {
    cadical_solver = add (pos 0) (add_literals clause s.cadical_solver);
  }

  unfoldable pub add_clause_short : ℤ → ℤ → SatSolverCadical → SatSolverCadical
  add_clause_short lit1 lit2 s =
      let first = add (to_int32 lit1) s.cadical_solver in
      record s {
        cadical_solver = add (pos 0) (if is_zero lit2 then first else add (to_int32 lit2) first);
      }

  unfoldable pub check_var_model : ℤ → SatSolverCadical → Bool
  check_var_model variable s = is_positive (val (to_int32 variable) s.cadical_solver)

  unfoldable pub solve : SatSolverCadical → Bool × SatSolverCadical
  solve s =
      let (status, after) = c.solve s.cadical_solver in
      (status == 10, record s { cadical_solver = after })

  -- The loop of `get_model`: `left` variables from `i` on are left.
  abbrev pub model_loop : ℕ → ℕ → SatSolverCadical → List Bool
  model_loop zero i s = []
  model_loop (suc left) i s = is_positive (val (pos i) s.cadical_solver) ∷ model_loop left (i + 1) s

  -- How often the loop runs, up to `_num_variables + 1`, which an int has to hold.
  abbrev pub rounds : ℤ → Result ℕ
  rounds (pos n) = if ltb (n + 1) (2 ^ 31) then ok n else err overflow
  rounds (negsuc n) = ok 0

  unfoldable pub get_model : SatSolverCadical → Result (List Bool)
  get_model s = rounds s.num_variables >>= λ n. ok (model_loop n 1 s)

  abbrev pub formula : SatSolverCadical → Formula
  formula s = clauses s.cadical_solver

  -- No clause is under construction, and an int holds each literal.
  pub record IsReady (s : SatSolverCadical) : Type 0 where
    pub complete : pending s.cadical_solver ≡ []
    pub proper : all (all is_literal) (formula s) ≡ true
