-- ===== src/Semantics/Grounded.antt =====
-- The reduction of src/logic/PreProcessor_DS_PR.cpp in the theory: an argument that no argument of the
-- reduct attacks can be joined to a set that every preferred set includes.
use af_analyzer.Prelude.{
  ℕ, ◌≡◌, refl, true, false, ◌&&◌, ◌||◌, not, ◌==◌, Bool-cases, inl, inr, arith, ==_self, eq_of_==,
}
use af_analyzer.Semantics.{
  ArgSet, Attacks, IsSubset, AttackedBy, IsAdmissible, IsPreferred, IsSceptical,
}
use af_analyzer.Semantics.Reducts.{IsReduct, union, minus, union-IsAdmissible, minus-IsAdmissible}

-- `G` is admissible and in every preferred set, and `r` is the reduct by it.
pub record IsForced (att : Attacks) (act G r : ArgSet) : Type 0 where
  pub admissible : IsAdmissible att act G
  pub included : (P : ArgSet) → IsPreferred att act P → IsSubset G P
  pub is_reduct : IsReduct att act G r

-- What the reduct by `u` keeps of `r`.
abbrev pub without_victims : Attacks → ℕ → ArgSet → ArgSet
without_victims att u r a = r a && not (a == u || att u a)

pub none-IsForced : {att : Attacks} {act : ArgSet} → IsForced att act (λ _. false) act
none-IsForced = record {
  admissible = record {
    within = λ a h. cc;
    conflict_free = λ a b h k. cc;
    defended = λ a b h k g. cc;
  };
  included = λ P pref a h. cc;
  is_reduct = record {
    within = λ a h. h;
    outside = λ a h. refl;
    unattacked = λ a b h k. cc;
    complete = λ b h. inr (inr h);
  };
}

module _ {att : Attacks} {act G r : ArgSet} (forced : IsForced att act G r) (u : ℕ)
    (active : r u ≡ true) (free : (a : ℕ) → r a ≡ true → att a u ≡ false) where
  alone-IsAdmissible : IsAdmissible att r (λ a. a == u)
  alone-IsAdmissible = record {
    within = λ a h. rw (eq_of_== a u h) active;
    conflict_free = λ a b h k. rw (eq_of_== a u h, eq_of_== b u k) (free u active);
    defended = λ a b h k g. cc (free b k, g, eq_of_== a u h);
  }

  -- Each attacker of `u` is attacked by `G`.
  attacker_attacked : (c : ℕ) → act c ≡ true → att c u ≡ true → AttackedBy att G c
  attacker_attacked c h g = elim (forced.is_reduct.complete c h) [
    | inl k ↦ cc (forced.is_reduct.unattacked c u active k, g)
    | inr (inl k) ↦ k
    | inr (inr k) ↦ cc (free c k, g)
  ]

  module _ (P : ArgSet) (pref : IsPreferred att act P) where
    no_attacker : (c : ℕ) → P c ≡ true → att c u ≡ false
    no_attacker c h = elim (Bool-cases (att c u)) [
      | inr k ↦ k
      | inl k ↦
          let (d, m, g) = attacker_attacked c (pref.admissible.within c h) k in
          cc (pref.admissible.conflict_free d c (forced.included P pref d m) h, g)
    ]

    no_victim : (b : ℕ) → P b ≡ true → att u b ≡ false
    no_victim b h = elim (Bool-cases (att u b)) [
      | inr k ↦ k
      | inl k ↦
          let (d, m, g) = pref.admissible.defended b u h (forced.is_reduct.within u active) k in
          cc (no_attacker d m, g)
    ]

    joined-IsAdmissible : IsAdmissible att act (union P (λ a. a == u))
    joined-IsAdmissible = record {
      within = λ a h. elim (Bool-cases (P a)) [
        | inl k ↦ pref.admissible.within a k
        | inr k ↦ rw (eq_of_== a u (ground arith)) (forced.is_reduct.within u active)
      ];
      conflict_free = λ a b h k. elim (Bool-cases (P a)) [
        | inl m ↦ elim (Bool-cases (P b)) [
          | inl n ↦ pref.admissible.conflict_free a b m n
          | inr n ↦ rw (eq_of_== b u (ground arith)) (no_attacker a m)
        ]
        | inr m ↦ elim (Bool-cases (P b)) [
          | inl n ↦ rw (eq_of_== a u (ground arith)) (no_victim b n)
          | inr n ↦ rw (eq_of_== a u (ground arith), eq_of_== b u (ground arith)) (free u active)
        ]
      ];
      defended = λ a b h k g. elim (Bool-cases (P a)) [
        | inl m ↦ let (c, n, e) = pref.admissible.defended a b m k g in (c, ground arith, e)
        | inr m ↦
            let g' : att b u ≡ true = cc (g, eq_of_== a u (ground arith)) in
            let (d, n, e) = attacker_attacked b k g' in
            (d, ground (arith, forced.included P pref d n), e)
      ];
    }

    -- `u` is in every preferred set.
    pub forced_member : P u ≡ true
    forced_member =
        pref.maximal (union P (λ a. a == u)) joined-IsAdmissible (λ a h. ground arith) u
          (ground (arith, ==_self u))

  pub join-IsForced : IsForced att act (union G (λ a. a == u)) (without_victims att u r)
  join-IsForced = record {
    admissible = union-IsAdmissible forced.is_reduct forced.admissible alone-IsAdmissible;
    included = λ P pref a h. elim (Bool-cases (G a)) [
      | inl k ↦ forced.included P pref a k
      | inr k ↦ rw (eq_of_== a u (ground arith)) (forced_member P pref)
    ];
    is_reduct = record {
      within = λ a h. forced.is_reduct.within a (ground arith);
      outside = λ a h. ground (arith, forced.is_reduct.outside a (ground arith));
      unattacked = λ a b h k. elim (Bool-cases (G a)) [
        | inl m ↦ forced.is_reduct.unattacked a b (ground arith) m
        | inr m ↦ rw (eq_of_== a u (ground arith)) (ground arith)
      ];
      complete = λ b h. elim (forced.is_reduct.complete b h) [
        | inl k ↦ inl (ground arith)
        | inr (inl (a, m, g)) ↦ inr (inl (a, ground arith, g))
        | inr (inr k) ↦ elim (Bool-cases (b == u)) [
          | inl e ↦ inl (ground arith)
          | inr e ↦ elim (Bool-cases (att u b)) [
            | inl g ↦ inr (inl (u, ground (arith, ==_self u), g))
            | inr g ↦ inr (inr (ground arith))
          ]
        ]
      ];
    };
  }

-- An argument of the reduct is in every preferred set exactly if it is in every one of the reduct.
module _ {att : Attacks} {act G r : ArgSet} (forced : IsForced att act G r) where
  rest-IsPreferred : (P : ArgSet) → IsPreferred att act P → IsPreferred att r (minus P G)
  rest-IsPreferred P pref =
      let above = forced.included P pref in
      record {
        admissible = minus-IsAdmissible forced.is_reduct pref.admissible above;
        maximal = λ T t sub a h.
            let inside =
              pref.maximal (union G T) (union-IsAdmissible forced.is_reduct forced.admissible t)
                (λ b k. elim (Bool-cases (G b)) [
                  | inl g ↦ ground arith
                  | inr g ↦ ground (arith, sub b (ground arith))
                ])
                a (ground arith) in
            ground (arith, inside, forced.is_reduct.outside a (t.within a h));
      }

  joined-IsPreferred : (S : ArgSet) → IsPreferred att r S → IsPreferred att act (union G S)
  joined-IsPreferred S pref = record {
    admissible = union-IsAdmissible forced.is_reduct forced.admissible pref.admissible;
    maximal = λ T t sub a h. elim (Bool-cases (G a)) [
      | inl g ↦ ground arith
      | inr g ↦
          let inside =
            pref.maximal (minus T G)
              (minus-IsAdmissible forced.is_reduct t (λ b k. sub b (ground arith)))
              (λ b k. ground (
                arith,
                sub b (ground arith),
                forced.is_reduct.outside b (pref.admissible.within b k),
              ))
              a (ground arith) in
          ground (arith, inside)
    ];
  }

  pub add-IsSceptical : (q : ℕ) → IsSceptical att r q → IsSceptical att act q
  add-IsSceptical q h P pref =
      let here = h (minus P G) (rest-IsPreferred P pref) in ground (arith, here)

  pub drop-IsSceptical : (q : ℕ) → r q ≡ true → IsSceptical att act q → IsSceptical att r q
  drop-IsSceptical q hq h S pref =
      let here = h (union G S) (joined-IsPreferred S pref) in
      ground (arith, here, forced.is_reduct.outside q hq)
