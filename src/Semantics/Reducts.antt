-- ===== src/Semantics/Reducts.antt =====
-- The reduct of a framework by an admissible set `E`, the view of src/logic/Reduct.cpp: what is
-- neither in `E` nor attacked by it. Admissible sets of the reduct and admissible supersets of `E`
-- correspond to each other.
use af_analyzer.Prelude.{ℕ, ◌≡◌, true, false, ◌&&◌, ◌||◌, not, arith, Bool-cases, inl, inr, ◌⊎◌}
use af_analyzer.Semantics.{ArgSet, Attacks, IsSubset, AttackedBy, IsAdmissible}

abbrev pub union : ArgSet → ArgSet → ArgSet
union S T a = S a || T a

abbrev pub minus : ArgSet → ArgSet → ArgSet
minus S T a = S a && not (T a)

-- `act'` is the reduct of `act` by `E`.
pub record IsReduct (att : Attacks) (act E act' : ArgSet) : Type 0 where
  pub within : IsSubset act' act
  pub outside : (a : ℕ) → act' a ≡ true → E a ≡ false
  pub unattacked : (a b : ℕ) → act' b ≡ true → E a ≡ true → att a b ≡ false
  pub complete : (b : ℕ) → act b ≡ true → (E b ≡ true) ⊎ (AttackedBy att E b) ⊎ (act' b ≡ true)

module _ {att : Attacks} {act E act' : ArgSet} (r : IsReduct att act E act') where
  -- What is left attacks no member of an admissible `E`.
  no_attack : IsAdmissible att act E → (a b : ℕ) → act' a ≡ true → E b ≡ true → att a b ≡ false
  no_attack e a b active eb = elim (Bool-cases (att a b)) [
    | inl g ↦
        let (c, m, n) = e.defended b a eb (r.within a active) g in cc (r.unattacked c a active m)
    | inr g ↦ g
  ]

  -- An admissible set of the reduct by an admissible set, joined with that set, is admissible.
  pub union-IsAdmissible :
      {T : ArgSet}
      → IsAdmissible att act E
      → IsAdmissible att act' T
      → IsAdmissible att act (union E T)
  union-IsAdmissible {T} e t = record {
    within = λ a h. elim (Bool-cases (E a)) [
      | inl k ↦ e.within a k
      | inr k ↦ r.within a (t.within a (ground arith))
    ];
    conflict_free = λ a b h k. elim (Bool-cases (E a)) [
      | inl ea ↦ elim (Bool-cases (E b)) [
        | inl eb ↦ e.conflict_free a b ea eb
        | inr eb ↦ r.unattacked a b (t.within b (ground arith)) ea
      ]
      | inr ea ↦ elim (Bool-cases (E b)) [
        | inl eb ↦ no_attack e a b (t.within a (ground arith)) eb
        | inr eb ↦ t.conflict_free a b (ground arith) (ground arith)
      ]
    ];
    defended = λ a b h k g. elim (Bool-cases (E a)) [
      | inl ea ↦ let (c, m, n) = e.defended a b ea k g in (c, ground arith, n)
      | inr ea ↦
          let in_T : T a ≡ true = ground arith in
          elim (r.complete b k) [
            | inl eb ↦ cc (r.unattacked b a (t.within a in_T) eb)
            | inr (inl (c, m, n)) ↦ (c, ground arith, n)
            | inr (inr active) ↦
                let (c, m, n) = t.defended a b in_T active g in (c, ground arith, n)
          ]
    ];
  }

  pub minus-IsAdmissible :
      {S : ArgSet} → IsAdmissible att act S → IsSubset E S → IsAdmissible att act' (minus S E)
  minus-IsAdmissible {S} s sub = record {
    within = λ a h. elim (r.complete a (s.within a (ground arith))) [
      | inl ea ↦ ground arith
      | inr (inl (c, m, n)) ↦ cc (s.conflict_free c a (sub c m) (ground arith))
      | inr (inr active) ↦ active
    ];
    conflict_free = λ a b h k. s.conflict_free a b (ground arith) (ground arith);
    defended = λ a b h k g.
        let (c, m, n) = s.defended a b (ground arith) (r.within b k) g in
        (c, ground (arith, r.unattacked c b k), n);
  }
