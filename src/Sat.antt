-- ===== src/Sat.antt =====
-- include/logic/SatSolver.h: the interface of the solvers, as operations with the laws that the
-- callers rely on, and the meaning of clauses. Variables are the numbers from 1 on, literals are
-- signed variables, and 0 is no literal. An int has to hold a literal, as which CaDiCaL takes it.
pub mod Cadical
pub mod Brute
use af_analyzer.Prelude.{
  ℕ, zero, suc, ◌≡◌, ◌≢◌, Bool, true, false, ◌&&◌, ◌||◌, not, List, [], ◌∷◌, ◌++◌, any, all,
  if◌then◌else◌, ltb, ◌^◌,
}
use af_analyzer.Prelude.Int.{ℤ, pos, negsuc, magnitude}

abbrev pub Clause : Type 0
Clause = List ℤ

abbrev pub Formula : Type 0
Formula = List Clause

abbrev pub Valuation : Type 0
Valuation = ℕ → Bool

abbrev pub literal_true : Valuation → ℤ → Bool
literal_true v (pos n) = v n
literal_true v (negsuc n) = not (v (suc n))

abbrev pub clause_true : Valuation → Clause → Bool
clause_true v c = any (literal_true v) c

abbrev pub formula_true : Valuation → Formula → Bool
formula_true v f = all (clause_true v) f

abbrev pub is_zero : ℤ → Bool
is_zero (pos zero) = true
is_zero (pos (suc n)) = false
is_zero (negsuc n) = false

-- Does a positive int hold the variable of the literal, or is it 0?
abbrev pub is_small : ℤ → Bool
is_small l = ltb (magnitude l) (2 ^ 31)

abbrev pub is_literal : ℤ → Bool
is_literal l = not (is_zero l) && is_small l

-- Each member of the clause is a literal that an int holds.
abbrev pub IsProper : Clause → Type 0
IsProper c = all is_literal c ≡ true

-- The clause that `add_clause_short` adds: a second literal 0 stands for none.
abbrev pub short_clause : ℤ → ℤ → Clause
short_clause l m = if is_zero m then l ∷ [] else l ∷ m ∷ []

-- A solver object is a value of `Solver`; `formula` are its clauses. `IsReady` says that the clause
-- added last is complete.
pub record SatSolver : Type 1 where
  pub Solver : Type 0
  pub create : ℕ → Solver
  pub add_clause : Clause → Solver → Solver
  pub add_clause_short : ℤ → ℤ → Solver → Solver
  pub check_var_model : ℤ → Solver → Bool
  pub solve : Solver → Bool × Solver
  pub formula : Solver → Formula
  pub IsReady : Solver → Type 0
  pub create-IsReady : (n : ℕ) → IsReady (create n)
  pub formula-create : (n : ℕ) → formula (create n) ≡ []
  pub add_clause-IsReady :
      (c : Clause) (s : Solver) → IsProper c → IsReady s → IsReady (add_clause c s)
  pub formula-add_clause :
      (c : Clause) (s : Solver)
      → IsProper c
      → IsReady s
      → formula (add_clause c s) ≡ formula s ++ c ∷ []
  pub add_clause_short-IsReady :
      (l m : ℤ) (s : Solver)
      → is_literal l ≡ true
      → is_small m ≡ true
      → IsReady s
      → IsReady (add_clause_short l m s)
  pub formula-add_clause_short :
      (l m : ℤ) (s : Solver)
      → is_literal l ≡ true
      → is_small m ≡ true
      → IsReady s
      → formula (add_clause_short l m s) ≡ formula s ++ short_clause l m ∷ []
  pub solve-IsReady : (s : Solver) → IsReady s → IsReady (solve s).1
  pub formula-solve : (s : Solver) → IsReady s → formula (solve s).1 ≡ formula s
  pub solve_sat :
      (s : Solver)
      → IsReady s
      → (solve s).0 ≡ true
      → formula_true (λ n. check_var_model (pos n) (solve s).1) (formula s) ≡ true
  pub solve_unsat :
      (s : Solver)
      → IsReady s
      → (solve s).0 ≡ false
      → (v : Valuation) → formula_true v (formula s) ≡ false
