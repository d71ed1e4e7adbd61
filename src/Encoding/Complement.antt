-- ===== src/Encoding/Complement.antt =====
-- `add_complement_clause` of src/logic/Encoding.cpp, against `get_set_from_solver` of
-- src/logic/Decoding.cpp.
use af_analyzer.Prelude.{
  ℕ, ◌<◌, ◌≤◌, ◌≡◌, refl, sym, ◌∙◌, Bool, true, ◌&&◌, not, List, [], ◌∷◌, ◌++◌, all, any-append,
  all-append, contains, Bool-cases, inl, inr, arith, ==_self,
}
use af_analyzer.Prelude.Int.{pos, neg_of_ℕ}
use af_analyzer.VectorBitSet.{VectorBitSet, Denotes, le_of_member}
use af_analyzer.Sat.{Clause, Valuation, clause_true, formula_true, SatSolver}
use af_analyzer.Decoding.{collect_members, get_set_from_solver}
use af_analyzer.Encoding.{complement_literals, add_complement_clause}
use af_analyzer.Encoding.Literals.{HasVariables, IsEncoded, is_encoded, is_encoded-neg}
use af_analyzer.Encoding.Meaning.{literal-neg, Says, Says-eq, Says-add_clause}
use af_analyzer.Encoding.Loops.{pos_of_ne_zero}

module _ (sat : SatSolver) where
  open sat use {Solver, IsReady, check_var_model, formula}

  -- The clause under construction is false exactly on the supersets of the set under construction.
  complement_literals_lem :
      (n : ℕ) (s : Solver) (l : List ℕ) (c : Clause) (out : List ℕ)
      → ((a : ℕ) → contains l a ≡ true → (0 < a) × (a ≤ n))
      → IsEncoded n c
      → ((v : Valuation) → clause_true v c ≡ not (all v out))
      → IsEncoded n (complement_literals sat s l c)
        × ((v : Valuation)
            → clause_true v (complement_literals sat s l c)
              ≡ not (all v (collect_members sat s l out)))
  unfolding complement_literals collect_members
  complement_literals_lem n s [] c out range proper h = (proper, h)
  complement_literals_lem n s (a ∷ l) c out range proper h =
      let (a_pos, a_le) = range a (ground (arith, ==_self a)) in
      elim (Bool-cases (check_var_model (pos a) s)) [
        | inl e ↦ rw e (
            complement_literals_lem n s l (c ++ neg_of_ℕ a ∷ []) (out ++ a ∷ [])
              (λ b m. range b (ground arith))
              (ground (
                arith,
                is_encoded-neg n a a_pos (omega (arith, a_le)),
                all-append (is_encoded n) c (neg_of_ℕ a ∷ []),
              ))
              (λ v. ground (
                arith,
                h v,
                literal-neg v a a_pos,
                any-append (λ k. clause_true v (k ∷ [])) c (neg_of_ℕ a ∷ []),
                all-append v out (a ∷ []),
              )))
        | inr e ↦
            rw e (complement_literals_lem n s l c out (λ b m. range b (ground arith)) proper h)
      ]

  pub add_complement_clause_lem :
      {n : ℕ} {p : ℕ → Bool} {active : VectorBitSet}
      → Denotes n p active
      → HasVariables n p
      → (s : Solver) → IsReady s
      → Says sat n s
          (add_complement_clause sat s active)
          (λ v. not (all v (get_set_from_solver sat s active)))
  unfolding add_complement_clause get_set_from_solver
  add_complement_clause_lem {n} {p} {active} d proper s r =
      let (shape, meaning) =
        complement_literals_lem n s active.vector [] []
          (λ a m. (
            pos_of_ne_zero p proper.no_zero a (sym (d.items a) ∙ m),
            le_of_member d a (sym (d.items a) ∙ m),
          ))
          refl (λ v. refl) in
      Says-eq sat n (Says-add_clause sat n proper.small _ s shape r) meaning

  -- For a framework with fewer than 2 ^ 30 arguments and active arguments without 0, after
  -- `add_complement_clause` on a ready solver the models are the earlier ones that do not accept
  -- the whole of the set that `get_set_from_solver` decodes: that set and its supersets are
  -- excluded, and nothing else is.
  pub complement_excludes :
      {n : ℕ} {p : ℕ → Bool} {active : VectorBitSet}
      → Denotes n p active
      → HasVariables n p
      → (s : Solver) → IsReady s
      → IsReady (add_complement_clause sat s active)
        × ((v : Valuation)
            → formula_true v (formula (add_complement_clause sat s active))
              ≡ (formula_true v (formula s) && not (all v (get_set_from_solver sat s active))))
  complement_excludes d proper s r =
      let says = add_complement_clause_lem d proper s r in (says.ready, says.meaning)
