-- ===== src/Encoding/Range.antt =====
-- The literals that src/logic/Encoding.cpp hands to the solver as `int64_t`, and CaDiCaL takes as `int`.
use af_analyzer.Prelude.{ℕ, ◌^◌, ◌<◌, ◌≡◌, refl, ap, Bool, true, [], ◌∷◌, map, ok, all, arith}
use af_analyzer.Prelude.Int.{to_int32, to_int32-eq}
use af_analyzer.VectorBitSet.{VectorBitSet, Denotes}
use af_analyzer.Af.{Af}
use af_analyzer.Af.Valid.{IsValid}
use af_analyzer.Sat.{Clause, Formula, SatSolver}
use af_analyzer.Encoding.{add_clauses_nonempty_admissible_set, add_complement_clause}
use af_analyzer.Encoding.Literals.{HasVariables, is_encoded, IsEncoded, is_literal-encoded}
use af_analyzer.Encoding.Loops.{add_clauses_lem}
use af_analyzer.Encoding.Complement.{add_complement_clause_lem}

-- Each literal is one of a variable from 1 to twice `n`, and remains as it is when it is converted.
pub record IsInRange (n : ℕ) (g : Formula) : Type 0 where
  pub encoded : all (all (is_encoded n)) g ≡ true
  pub unchanged : map (map to_int32) g ≡ g

clause_unchanged : (n : ℕ) (c : Clause) → n < 2 ^ 30 → IsEncoded n c → map to_int32 c ≡ c
clause_unchanged n [] small h = refl
clause_unchanged n (l ∷ c) small h =
    let here = to_int32-eq l (ground (arith, is_literal-encoded n l small (ground (arith, h)))) in
    rw here (ap (λ k. l ∷ k) (clause_unchanged n c small (ground (arith, h))))

encoded-IsInRange :
    (n : ℕ) (g : Formula) → n < 2 ^ 30 → all (all (is_encoded n)) g ≡ true → IsInRange n g
encoded-IsInRange n g small h = record { encoded = h; unchanged = same g h }
  where
    same : (g : Formula) → all (all (is_encoded n)) g ≡ true → map (map to_int32) g ≡ g
    same [] h = refl
    same (c ∷ g) h =
        let here = clause_unchanged n c small (ground (arith, h)) in
        rw here (ap (λ k. c ∷ k) (same g (ground (arith, h))))

module _ (sat : SatSolver) {f : Af} (valid : IsValid f) {p : ℕ → Bool} {active : VectorBitSet}
    (d : Denotes f.num_args p active) (proper : HasVariables f.num_args p) where
  open sat use {Solver, IsReady, formula, create}

  -- On a valid framework with fewer than 2 ^ 30 arguments, for active arguments without 0:
  -- `add_clauses_nonempty_admissible_set` on a fresh solver makes literals only of the variables from
  -- 1 to twice the number of arguments, and none of them is changed by the conversion from int64_t
  -- to int; and the clause of `add_complement_clause` on a ready solver keeps it so.
  pub clauses-IsInRange :
      (k : ℕ)
      → (t : Solver) × (add_clauses_nonempty_admissible_set sat (create k) f active ≡ ok t)
        × IsInRange f.num_args (formula t)
        × ((s : Solver)
            → IsReady s
            → IsInRange f.num_args (formula s)
            → IsInRange f.num_args (formula (add_complement_clause sat s active)))
  clauses-IsInRange k =
      let (t, ends, says) = add_clauses_lem sat valid d proper (create k) (sat.create-IsReady k) in
      let start : all (all (is_encoded f.num_args)) (formula (create k)) ≡ true =
        ap (all (all (is_encoded f.num_args))) (sat.formula-create k) in
      (
        t,
        ends,
        encoded-IsInRange f.num_args (formula t) proper.small (says.encoded start),
        λ s ready range.
            let more = add_complement_clause_lem sat d proper s ready in
            encoded-IsInRange f.num_args (formula (add_complement_clause sat s active)) proper.small
              (more.encoded range.encoded),
      )
