-- ===== src/Solver/Built.antt =====
-- What the search of src/logic/Solver_DS_PR.cpp knows of an extension under construction, and of the
-- reduct by it.
use af_analyzer.Prelude.{ℕ, ◌≡◌, refl, sym, ◌∙◌, inl, inr, true, false, List, [], ◌∷◌, contains, ok}
use af_analyzer.VectorBitSet.{VectorBitSet, Denotes, Denotes-eq, le_of_member}
use af_analyzer.VectorBitSet.Copy.{copy-Denotes}
use af_analyzer.Af.{Af, exists_attack}
use af_analyzer.Af.Valid.{IsValid}
use af_analyzer.Semantics.{ArgSet, Attacks, IsSubset, IsAdmissible}
use af_analyzer.Semantics.Reducts.{IsReduct}
use af_analyzer.Reduct.Laws.{get_reduct_set-Denotes}
use af_analyzer.Solver.{reduct_of}

-- An admissible set that neither contains the query nor attacks it.
pub record IsBuilt (f : Af) (p : ArgSet) (q : ℕ) (E : ArgSet) : Type 0 where
  pub admissible : IsAdmissible (exists_attack f) p E
  pub without : E q ≡ false
  pub harmless : (a : ℕ) → E a ≡ true → exists_attack f a q ≡ false

-- The reduct of a task.
pub record IsReductOf (f : Af) (p : ArgSet) (active : VectorBitSet) (e : List ℕ) (r : VectorBitSet)
    : Type 0 where
  pub computed : reduct_of f active e ≡ ok r
  pub denotes : Denotes f.num_args (contains r.vector) r
  pub is_reduct : IsReduct (exists_attack f) p (contains e) (contains r.vector)

-- An admissible set that no admissible set with the query includes.
pub record Refutes (f : Af) (p : ArgSet) (q : ℕ) (A : ArgSet) : Type 0 where
  pub admissible : IsAdmissible (exists_attack f) p A
  pub excludes : (T : ArgSet) → IsAdmissible (exists_attack f) p T → IsSubset A T → T q ≡ false

IsReduct-eq :
    {att : Attacks} {p E r r' : ArgSet}
    → IsReduct att p E r
    → ((a : ℕ) → r a ≡ r' a)
    → IsReduct att p E r'
IsReduct-eq i e = record {
  within = λ a h. i.within a (e a ∙ h);
  outside = λ a h. i.outside a (e a ∙ h);
  unattacked = λ a b h k. i.unattacked a b (e b ∙ h) k;
  complete = λ b h. elim (i.complete b h) [
    | inl k ↦ inl k
    | inr (inl k) ↦ inr (inl k)
    | inr (inr k) ↦ inr (inr (sym (e b) ∙ k))
  ];
}

module _ {f : Af} (valid : IsValid f) {p : ArgSet} {active : VectorBitSet}
    (d : Denotes f.num_args p active) where
  self-IsReduct : IsReduct (exists_attack f) p (contains []) (contains active.vector)
  self-IsReduct = record {
    within = λ a h. sym (d.items a) ∙ h;
    outside = λ a h. refl;
    unattacked = λ a b h k. cc;
    complete = λ b h. inr (inr (d.items b ∙ h));
  }

  pub reduct_of_lem :
      (e : List ℕ) → IsSubset (contains e) p → (r : VectorBitSet) × IsReductOf f p active e r
  unfolding reduct_of
  reduct_of_lem [] h = (
    active,
    record {
      computed = copy-Denotes d;
      denotes = Denotes-eq d (λ a. sym (d.items a));
      is_reduct = self-IsReduct;
    },
  )
  reduct_of_lem (m ∷ l) h =
      let (r, ends, den, red) =
        get_reduct_set-Denotes valid m l (λ k g. le_of_member d k (h k g)) d in
      (
        r,
        record {
          computed = ends;
          denotes = Denotes-eq den (λ a. sym (den.items a));
          is_reduct = IsReduct-eq red (λ a. sym (den.items a));
        },
      )
