-- ===== src/Encoding.antt =====
-- include/logic/Encoding.h and src/logic/Encoding.cpp: the clauses for the nonempty admissible sets
-- of a reduct. Argument `a` of `argsSize` has the variable `a` for its acceptance and the variable
-- `a + argsSize` for its rejection. The sums stay below 2 ^ 33, so an int64_t holds them.
pub mod Literals
pub mod Meaning
pub mod Loops
pub mod Admissible
pub mod Complement
pub mod Range
use af_analyzer.Prelude.{
  ℕ, ◌+◌, Bool, true, false, List, [], ◌∷◌, ◌++◌, ◌==◌, if◌then◌else◌, Result, ok, ◌>>=◌, at,
}
use af_analyzer.Prelude.Int.{ℤ, pos, neg_of_ℕ}
use af_analyzer.VectorBitSet.{VectorBitSet}
use af_analyzer.Af.{Af}
use af_analyzer.Sat.{Clause, SatSolver}

unfoldable pub get_literal_accepted : ℕ → Bool → ℤ
get_literal_accepted argument is_inverted = if is_inverted then neg_of_ℕ argument else pos argument

unfoldable pub get_literal_rejected : ℕ → ℕ → Bool → ℤ
get_literal_rejected args_size argument is_inverted =
    let variable = argument + args_size in if is_inverted then neg_of_ℕ variable else pos variable

module _ (sat : SatSolver) where
  open sat use {Solver, add_clause, add_clause_short, check_var_model}

  -- The clause that is built for Part III is returned with the solver.
  unfoldable pub add_rejected_clauses : Solver → ℕ → ℕ → Solver × Clause
  add_rejected_clauses solver args_size argument = (
    add_clause_short (get_literal_rejected args_size argument true)
        (get_literal_accepted argument true) solver,
    get_literal_rejected args_size argument true ∷ [],
  )

  unfoldable pub add_rejected_clauses_per_attacker : Solver → ℕ → ℕ → ℕ → Clause → Solver × Clause
  add_rejected_clauses_per_attacker solver args_size argument attacker clause = (
    add_clause_short (get_literal_rejected args_size argument false)
        (get_literal_accepted attacker true) solver,
    clause ++ get_literal_accepted attacker false ∷ [],
  )

  unfoldable pub add_conflict_free_per_attacker : Solver → ℕ → ℕ → Solver
  add_conflict_free_per_attacker solver argument attacker =
      if argument == attacker
      then add_clause_short (get_literal_accepted argument true) (pos 0) solver
      else add_clause_short (get_literal_accepted argument true)
          (get_literal_accepted attacker true) solver

  unfoldable pub add_defense_per_attacker : Solver → ℕ → ℕ → ℕ → Solver
  add_defense_per_attacker solver args_size argument attacker =
      if argument == attacker
      then solver
      else add_clause_short (get_literal_accepted argument true)
          (get_literal_rejected args_size attacker false) solver

  -- The three calls for one active attacker.
  unfoldable pub add_attacker : ℕ → ℕ → ℕ → Solver × Clause → Solver × Clause
  unfolding add_rejected_clauses_per_attacker add_conflict_free_per_attacker
      add_defense_per_attacker
  add_attacker args_size argument attacker (solver, clause) =
      let (rejecting, longer) =
        add_rejected_clauses_per_attacker solver args_size argument attacker clause in
      let conflict_free = add_conflict_free_per_attacker rejecting argument attacker in
      (add_defense_per_attacker conflict_free args_size argument attacker, longer)

  -- The loop of `add_admissible` over the attackers.
  unfoldable pub add_attackers :
      ℕ → VectorBitSet → ℕ → List ℕ → Solver × Clause → Result (Solver × Clause)
  add_attackers args_size active argument [] s = ok s
  add_attackers args_size active argument (attacker ∷ rest) s =
      at active.bitset attacker >>= λ is_active.
      add_attackers args_size active argument rest
        (if is_active then add_attacker args_size argument attacker s else s)

  unfoldable pub add_admissible : Solver → Af → VectorBitSet → ℕ → Result Solver
  unfolding add_rejected_clauses add_attackers
  add_admissible solver f active argument = at f.attackers argument >>= λ row.
      add_attackers f.num_args active argument row.vector
        (add_rejected_clauses solver f.num_args argument)
      >>= λ s. ok (add_clause s.1 s.0)

  -- The loop of `add_clauses_nonempty_admissible_set`, with the clause that it builds.
  unfoldable pub add_arguments :
      Af → VectorBitSet → List ℕ → Solver → Clause → Result (Solver × Clause)
  unfolding add_admissible
  add_arguments f active [] solver clause = ok (solver, clause)
  add_arguments f active (argument ∷ rest) solver clause =
      add_admissible solver f active argument >>= λ next.
      add_arguments f active rest next (clause ++ get_literal_accepted argument false ∷ [])

  unfoldable pub add_clauses_nonempty_admissible_set : Solver → Af → VectorBitSet → Result Solver
  unfolding add_arguments
  add_clauses_nonempty_admissible_set solver f active =
      add_arguments f active active.vector solver [] >>= λ s. ok (add_clause s.1 s.0)

  -- The loop of `add_complement_clause`.
  unfoldable pub complement_literals : Solver → List ℕ → Clause → Clause
  complement_literals solver [] clause = clause
  complement_literals solver (a ∷ rest) clause =
      complement_literals solver rest
        (if check_var_model (pos a) solver then clause ++ neg_of_ℕ a ∷ [] else clause)

  unfoldable pub add_complement_clause : Solver → VectorBitSet → Solver
  unfolding complement_literals
  add_complement_clause solver active =
      add_clause (complement_literals solver active.vector []) solver
