-- ===== src/Semantics/Cone.antt =====
-- Why src/logic/PreProcessor_DS_PR.cpp may restrict a framework to the cone of influence: preferred
-- sets, restricted to a part that no argument outside attacks, are preferred in that part.
use af_analyzer.Prelude.{ℕ, ◌≡◌, List, contains, true, false, ◌&&◌, Bool-cases, inl, inr, arith}
use af_analyzer.Semantics.{ArgSet, Attacks, IsSubset, IsAdmissible, IsPreferred, IsSceptical}
use af_analyzer.Semantics.Preferred.{sceptical_not_excluded}
use af_analyzer.Semantics.Reducts.{union}

abbrev pub within : ArgSet → ArgSet → ArgSet
within p S a = p a && S a

module _ {att : Attacks} {act p : ArgSet} (sub : IsSubset p act)
    (closed : (a b : ℕ) → p b ≡ true → act a ≡ true → att a b ≡ true → p a ≡ true) where
  within-IsAdmissible : (S : ArgSet) → IsAdmissible att act S → IsAdmissible att p (within p S)
  within-IsAdmissible S s = record {
    within = λ a h. ground arith;
    conflict_free = λ a b h k. s.conflict_free a b (ground arith) (ground arith);
    defended = λ a b h k g.
        let (c, m, e) = s.defended a b (ground arith) (sub b k) g in
        (c, ground (arith, m, closed c b k (s.within c m) e), e);
  }

  module _ (P T : ArgSet) (pref : IsPreferred att act P) (t : IsAdmissible att p T)
      (above : IsSubset (within p P) T) where
    above_at : (a : ℕ) → P a ≡ true → p a ≡ true → T a ≡ true
    above_at a h k = above a (ground (arith, h, k))

    -- A member of `P` does not attack `T`.
    no_attack_in : (a b : ℕ) → P a ≡ true → T b ≡ true → att a b ≡ false
    no_attack_in a b h k = elim (Bool-cases (att a b)) [
      | inr g ↦ g
      | inl g ↦
          let there = closed a b (t.within b k) (pref.admissible.within a h) g in
          cc (t.conflict_free a b (above_at a h there) k)
    ]

    no_attack_out : (a b : ℕ) → T a ≡ true → P b ≡ true → att a b ≡ false
    no_attack_out a b h k = elim (Bool-cases (att a b)) [
      | inr g ↦ g
      | inl g ↦
          let (c, m, e) = pref.admissible.defended b a k (sub a (t.within a h)) g in
          cc (no_attack_in c a m h, e)
    ]

    both-IsAdmissible : IsAdmissible att act (union P T)
    both-IsAdmissible = record {
      within = λ a h. elim (Bool-cases (P a)) [
        | inl k ↦ pref.admissible.within a k
        | inr k ↦ sub a (t.within a (ground arith))
      ];
      conflict_free = λ a b h k. elim (Bool-cases (P a)) [
        | inl m ↦ elim (Bool-cases (P b)) [
          | inl n ↦ pref.admissible.conflict_free a b m n
          | inr n ↦ no_attack_in a b m (ground arith)
        ]
        | inr m ↦ elim (Bool-cases (P b)) [
          | inl n ↦ no_attack_out a b (ground arith) n
          | inr n ↦ t.conflict_free a b (ground arith) (ground arith)
        ]
      ];
      defended = λ a b h k g. elim (Bool-cases (P a)) [
        | inl m ↦ let (c, n, e) = pref.admissible.defended a b m k g in (c, ground arith, e)
        | inr m ↦
            let in_T : T a ≡ true = ground arith in
            let (c, n, e) = t.defended a b in_T (closed b a (t.within a in_T) k g) g in
            (c, ground arith, e)
      ];
    }

    in_both : IsSubset T (within p P)
    in_both a h =
        let here =
          pref.maximal (union P T) both-IsAdmissible (λ b k. ground arith) a (ground arith) in
        ground (arith, here, t.within a h)

  pub within-IsPreferred : (P : ArgSet) → IsPreferred att act P → IsPreferred att p (within p P)
  within-IsPreferred P pref = record {
    admissible = within-IsAdmissible P pref.admissible;
    maximal = λ T t above. in_both P T pref t above;
  }

-- An argument of the part is in every preferred set exactly if it is in every one of the part.
module _ {att : Attacks} {act p : ArgSet} (sub : IsSubset p act)
    (closed : (a b : ℕ) → p b ≡ true → act a ≡ true → att a b ≡ true → p a ≡ true) (q : ℕ)
    (hq : p q ≡ true) where
  pub widen-IsSceptical : IsSceptical att p q → IsSceptical att act q
  widen-IsSceptical h P pref =
      let here = h (within p P) (within-IsPreferred sub closed P pref) in ground (arith, here)

  pub part-IsAdmissible : (S : ArgSet) → IsAdmissible att p S → IsAdmissible att act S
  part-IsAdmissible S s = record {
    within = λ a h. sub a (s.within a h);
    conflict_free = s.conflict_free;
    defended = λ a b h k g. s.defended a b h (closed b a (s.within a h) k g) g;
  }

  pub narrow-IsSceptical :
      (l : List ℕ)
      → ((a : ℕ) → act a ≡ true → contains l a ≡ true)
      → IsSceptical att act q
      → IsSceptical att p q
  narrow-IsSceptical l lists h S pref = elim (Bool-cases (S q)) [
    | inl k ↦ k
    | inr k ↦ absurd (
        sceptical_not_excluded l lists q h S (part-IsAdmissible S pref.admissible) (λ T t above.
          elim (Bool-cases (T q)) [
            | inl m ↦
                let inside =
                  pref.maximal (within p T) (within-IsAdmissible sub closed T t)
                    (λ a g. ground (arith, pref.admissible.within a g, above a g)) q
                    (ground (arith, hq, m)) in
                cc (inside, k)
            | inr m ↦ m
          ]))
  ]
