-- ===== src/Semantics/Preferred.antt =====
-- Over finitely many arguments every admissible set is included in a preferred one, here in the form
-- that the verdicts of src/logic/Solver_DS_PR.cpp and src/logic/PreProcessor_DS_PR.cpp need.
use af_analyzer.Prelude.{
  ℕ, zero, suc, ◌+◌, ◌≤◌, ◌<◌, ◌≡◌, true, false, List, [], ◌∷◌, ◌==◌, if◌then◌else◌, contains,
  Bool-cases, inl, inr, arith, eq_of_==,
}
use af_analyzer.Semantics.{ArgSet, Attacks, IsSubset, IsAdmissible, IsPreferred, IsSceptical}

-- How many entries of the list are not in the set.
abbrev missing : ArgSet → List ℕ → ℕ
missing S [] = 0
missing S (a ∷ l) = (if S a then 0 else 1) + missing S l

missing-le : {S T : ArgSet} (l : List ℕ) → IsSubset S T → missing T l ≤ missing S l
missing-le [] sub = omega arith
missing-le (x ∷ l) sub = ground (arith, sub x, missing-le l sub)

missing-lt :
    {S T : ArgSet} (l : List ℕ) (a : ℕ)
    → IsSubset S T
    → contains l a ≡ true
    → S a ≡ false
    → T a ≡ true
    → missing T l < missing S l
missing-lt [] a sub m h k = cc
missing-lt {S} {T} (x ∷ l) a sub m h k = elim (Bool-cases (x == a)) [
  | inl e ↦ rw (eq_of_== x a e) (ground (arith, missing-le l sub))
  | inr e ↦ ground (arith, sub x, missing-lt l a sub (ground arith) h k)
]

module _ {att : Attacks} {act : ArgSet} (l : List ℕ)
    (lists : (a : ℕ) → act a ≡ true → contains l a ≡ true) where
  climb :
      (k : ℕ) (A : ArgSet)
      → missing A l < k
      → IsAdmissible att act A
      → ((P : ArgSet) → IsPreferred att act P → IsSubset A P → ⊥)
      → ⊥
  climb zero A bound adm none_above = omega arith
  climb (suc k) A bound adm none_above =
      none_above A
        (record {
          admissible = adm;
          maximal = λ T t sub a m. elim (Bool-cases (A a)) [
            | inl e ↦ e
            | inr e ↦ absurd (
                climb k T (omega (arith, missing-lt l a sub (lists a (t.within a m)) e m)) t
                  (λ P pref s. none_above P pref (λ b g. s b (sub b g))))
          ];
        })
        (λ a h. h)

  -- Not all preferred sets fail to include a given admissible set.
  pub preferred_above :
      (A : ArgSet)
      → IsAdmissible att act A
      → ((P : ArgSet) → IsPreferred att act P → IsSubset A P → ⊥)
      → ⊥
  preferred_above A = climb (missing A l + 1) A (omega arith)

  -- An argument of every preferred set is in some superset of each admissible set.
  pub sceptical_not_excluded :
      (q : ℕ)
      → IsSceptical att act q
      → (A : ArgSet) → IsAdmissible att act A
      → ((T : ArgSet) → IsAdmissible att act T → IsSubset A T → T q ≡ false)
      → ⊥
  sceptical_not_excluded q sceptical A adm excludes =
      preferred_above A adm (λ P pref sub. cc (sceptical P pref, excludes P pref.admissible sub))
