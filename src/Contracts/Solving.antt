-- ===== src/Contracts/Solving.antt =====
-- What the comments of include/logic/Encoding.h and include/logic/Decoding.h promise, over any solver.
-- The class of src/logic/Decoding.cpp keeps it; that of src/logic/Encoding.cpp does so under a condition.
use af_analyzer.Prelude.{
  ℕ, ◌≡◌, ap, sym, ◌∙◌, inl, inr, Bool-cases, ◌↔◌, true, false, not, List, [], ◌∷◌, any, any_elim,
  all, contains, Result, ok, arith,
}
use mathlib.Core.Path.{subst}
use af_analyzer.Prelude.Int.{pos}
use af_analyzer.VectorBitSet.{VectorBitSet, Denotes}
use af_analyzer.Af.{Af, exists_attack}
use af_analyzer.Af.Valid.{IsValid}
use af_analyzer.Sat.{SatSolver, Valuation, formula_true}
use af_analyzer.Semantics.{ArgSet, Attacks, IsSubset, IsAdmissible, IsNonempty}
use af_analyzer.Encoding.{add_clauses_nonempty_admissible_set, add_complement_clause}
use af_analyzer.Encoding.Literals.{HasVariables}
use af_analyzer.Encoding.Admissible.{chosen, models_are-IsAdmissible}
use af_analyzer.Encoding.Complement.{complement_excludes}
use af_analyzer.Decoding.{get_set_from_solver, contains-get_set_from_solver}

-- A minimal nonempty admissible set.
pub record IsInitial (att : Attacks) (p S : ArgSet) : Type 0 where
  pub admissible : IsAdmissible att p S
  pub nonempty : IsNonempty S
  pub minimal : (T : ArgSet) → IsAdmissible att p T → IsNonempty T → IsSubset T S → IsSubset S T

-- The clauses encode an initial set of the active arguments. The
-- complement clause makes the solver find another solution: one that leaves out an argument of the
-- solution that was found.
pub record EncodingContract (sat : SatSolver) (f : Af)
    (add_clauses_nonempty_admissible_set : sat.Solver → Af → VectorBitSet → Result sat.Solver)
    (add_complement_clause : sat.Solver → VectorBitSet → sat.Solver) : Type 0 where
  pub encodes :
      {p : ArgSet} {active : VectorBitSet} (k : ℕ)
      → Denotes f.num_args p active
      → HasVariables f.num_args p
      → (t : sat.Solver) × (add_clauses_nonempty_admissible_set (sat.create k) f active ≡ ok t)
        × sat.IsReady t
        × ((v : Valuation)
            → formula_true v (sat.formula t) ≡ true
            → IsInitial (exists_attack f) p (chosen p v))
  pub another :
      {p : ArgSet} {active : VectorBitSet} (s : sat.Solver)
      → Denotes f.num_args p active
      → HasVariables f.num_args p
      → sat.IsReady s
      → (v : Valuation) → formula_true v (sat.formula (add_complement_clause s active)) ≡ true
      → (formula_true v (sat.formula s) ≡ true)
        × ((a : ℕ) × (p a ≡ true) × (sat.check_var_model (pos a) s ≡ true) × (v a ≡ false))

-- The decoded set has the active arguments that the solution accepts.
pub record DecodingContract (sat : SatSolver)
    (get_set_from_solver : sat.Solver → VectorBitSet → List ℕ) : Type 0 where
  pub decodes :
      {n : ℕ} {p : ArgSet} {active : VectorBitSet} (s : sat.Solver)
      → Denotes n p active
      → (a : ℕ)
      → (contains (get_set_from_solver s active) a ≡ true)
        ↔ ((p a ≡ true) × (sat.check_var_model (pos a) s ≡ true))

module _ (sat : SatSolver) where
  pub Decoding-DecodingContract : DecodingContract sat (get_set_from_solver sat)
  Decoding-DecodingContract = record {
    decodes = λ s d a.
        let e = contains-get_set_from_solver sat s d a in
        ((λ h. (ground (arith, e, h), ground (arith, e, h))), (λ (m, h). ground (arith, e, m, h)));
  }

  any-not : (v : Valuation) (l : List ℕ) → not (all v l) ≡ true → any (λ b. not (v b)) l ≡ true
  any-not v [] h = h
  any-not v (b ∷ l) h = ground (arith, h, any-not v l)

  -- Some member is left out, if not all are kept.
  left_out :
      (v : Valuation) (l : List ℕ)
      → not (all v l) ≡ true
      → (a : ℕ) × (contains l a ≡ true) × (v a ≡ false)
  left_out v l h =
      let (a, m, k) = any_elim (λ b. not (v b)) l (any-not v l h) in (a, m, ground (arith, k))

  same_solver : {a b : sat.Solver} → ok a ≡ ok b → a ≡ b
  same_solver e = cc

  -- Each nonempty admissible set is minimal, whatever arguments are active.
  abbrev pub AllInitial : Af → Type 0
  AllInitial f =
      (p : ArgSet) (active : VectorBitSet) (S : ArgSet)
      → Denotes f.num_args p active
      → HasVariables f.num_args p
      → IsAdmissible (exists_attack f) p S
      → IsNonempty S
      → IsInitial (exists_attack f) p S

  module _ {f : Af} (valid : IsValid f) where
    contract-AllInitial :
        EncodingContract sat f (add_clauses_nonempty_admissible_set sat) (add_complement_clause sat)
        → AllInitial f
    contract-AllInitial kept p active S d proper adm some_member =
        let (t, ends, ready, sound, complete) = models_are-IsAdmissible sat valid d proper 0 in
        let (t', ends', ready', initial) = kept.encodes 0 d proper in
        let (v, holds, agrees) = complete S adm some_member in
        let same : t ≡ t' = same_solver (sym ends ∙ ends') in
        let chosen_is : (a : ℕ) → chosen p v a ≡ S a = λ a. elim (Bool-cases (p a)) [
          | inl h ↦ ground (arith, h, agrees a h)
          | inr h ↦ elim (Bool-cases (S a)) [
            | inl k ↦ cc (adm.within a k, h)
            | inr k ↦ ground (arith, h, k)
          ]
        ] in
        subst (λ X. IsInitial (exists_attack f) p X) (λ i a. chosen_is a i)
          (initial v (ap (λ s. formula_true v (sat.formula s)) (sym same) ∙ holds))

    AllInitial-contract :
        AllInitial f
        → EncodingContract sat f
            (add_clauses_nonempty_admissible_set sat)
            (add_complement_clause sat)
    AllInitial-contract all_initial = record {
      encodes = λ {p} {active} k d proper.
          let (t, ends, ready, sound, complete) = models_are-IsAdmissible sat valid d proper k in
          (
            t,
            ends,
            ready,
            λ v h. all_initial p active (chosen p v) d proper (sound v h).0 (sound v h).1,
          );
      another = λ {p} {active} s d proper ready v h.
          let (ready', meaning) = complement_excludes sat d proper s ready in
          let both = sym (meaning v) ∙ h in
          let (a, m, out) = left_out v (get_set_from_solver sat s active) (ground (arith, both)) in
          let e = contains-get_set_from_solver sat s d a in
          (ground (arith, both), (a, ground (arith, e, m), ground (arith, e, m), out));
    }

    -- Over any solver, for a valid framework: the class keeps what Encoding.h promises of the clauses
    -- that encode an initial set, that is a minimal nonempty admissible set, and of the complement
    -- clause, exactly if every nonempty admissible set of any active arguments (without 0, and of
    -- fewer than 2 ^ 30 arguments) is minimal. For other frameworks it does not keep it.
    pub Encoding_iff :
        EncodingContract sat f (add_clauses_nonempty_admissible_set sat) (add_complement_clause sat)
        ↔ AllInitial f
    Encoding_iff = (contract-AllInitial, AllInitial-contract)
