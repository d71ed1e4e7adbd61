-- ===== src/Reduct/Laws.antt =====
-- The reducts of src/logic/Reduct.cpp are those of the theory: what is left of the active arguments
-- after the given ones and their victims are taken out.
use af_analyzer.Prelude.{
  ℕ, ◌≤◌, ◌≡◌, refl, sym, ◌∙◌, ◌⊎◌, inl, inr, Bool, true, false, ◌&&◌, ◌||◌, not, List, [], ◌∷◌,
  ◌==◌, contains, all, all_elim, put-set, ok, ◌>>=◌, Bool-cases, arith, ==_self, err, thrown,
}
use af_analyzer.VectorBitSet.{
  VectorBitSet, IsDistinct, Denotes, Denotes-eq, Denotes-add, Denotes-empty, le_of_member,
}
use af_analyzer.Af.{Af, exists_attack}
use af_analyzer.Af.Valid.{IsValid, at-victims, at-victims-bitset}
use af_analyzer.Semantics.{ArgSet, AttackedBy}
use af_analyzer.Semantics.Reducts.{IsReduct}
use af_analyzer.Reduct.{
  is_removed, reduct_loop, get_reduct, is_empty, reduct_set_loop, get_reduct_set,
}

-- What the reduct by `argument` keeps.
abbrev pub kept : Af → ℕ → ℕ → Bool
kept f argument a = not (a == argument || exists_attack f argument a)

removed_or_kept :
    (f : Af) (b : ℕ) (l : List ℕ)
    → (contains l b ≡ true)
      ⊎ (AttackedBy (exists_attack f) (contains l) b)
      ⊎ (all (λ k. kept f k b) l ≡ true)
removed_or_kept f b [] = inr (inr refl)
removed_or_kept f b (x ∷ l) = elim (Bool-cases (b == x)) [
  | inl e ↦ inl (ground arith)
  | inr e ↦ elim (Bool-cases (exists_attack f x b)) [
    | inl g ↦ inr (inl (x, ground (arith, ==_self x), g))
    | inr g ↦ elim (removed_or_kept f b l) [
      | inl k ↦ inl (ground arith)
      | inr (inl (a, m, h)) ↦ inr (inl (a, ground arith, h))
      | inr (inr k) ↦ inr (inr (ground arith))
    ]
  ]
]

-- What all of `l` keep is the reduct by the set of `l`.
pub all-kept-IsReduct :
    (f : Af) (l : List ℕ) (p : ArgSet)
    → IsReduct (exists_attack f) p (contains l) (λ a. p a && all (λ k. kept f k a) l)
all-kept-IsReduct f l p = record {
  within = λ a h. ground arith;
  outside = λ a h. elim (Bool-cases (contains l a)) [
    | inl k ↦ ground (arith, ==_self a, all_elim (λ k. kept f k a) l a (ground arith) k)
    | inr k ↦ k
  ];
  unattacked = λ a b h k. ground (arith, all_elim (λ j. kept f j b) l a (ground arith) k);
  complete = λ b h. elim (removed_or_kept f b l) [
    | inl k ↦ inl k
    | inr (inl k) ↦ inr (inl k)
    | inr (inr k) ↦ inr (inr (ground arith))
  ];
}

not_member : (l : List ℕ) (a : ℕ) → is_empty l ≡ true → contains l a ≡ false
not_member [] a h = refl
not_member (x ∷ l) a h = cc

module _ {f : Af} (valid : IsValid f) where
  is_removed_lem :
      (m a : ℕ) → m ≤ f.num_args → a ≤ f.num_args → is_removed f m a ≡ ok (not (kept f m a))
  unfolding is_removed
  is_removed_lem m a hm ha = elim (Bool-cases (a == m)) [
    | inl e ↦ rw e refl
    | inr e ↦ rw (e, at-victims valid m hm, at-victims-bitset valid m hm a ha) (ground arith)
  ]

  reduct_loop_lem :
      (m : ℕ)
      → m ≤ f.num_args
      → (l : List ℕ) (q : ArgSet) (s : VectorBitSet) → Denotes f.num_args q s
      → IsDistinct l
      → ((a : ℕ) → contains l a ≡ true → (a ≤ f.num_args) × (q a ≡ false))
      → (r : VectorBitSet) × (reduct_loop f m l s ≡ ok r)
        × Denotes f.num_args (λ a. q a || (contains l a && kept f m a)) r
  unfolding reduct_loop
  reduct_loop_lem m hm [] q s d distinct range = (s, refl, Denotes-eq d (λ a. ground arith))
  reduct_loop_lem m hm (a ∷ l) q s d distinct range =
      let (ha, new) = range a (ground (arith, ==_self a)) in
      elim (Bool-cases (kept f m a)) [
        | inl e ↦
            let (r, ends, d') =
              reduct_loop_lem m hm l (λ b. q b || a == b) _ (Denotes-add d a ha new) distinct.1
                (λ b k. ((range b (ground arith)).0, ground (arith, range b, distinct.0))) in
            (
              r,
              rw (is_removed_lem m a hm ha, e, put-set s.bitset a true (omega (arith, d.size)))
                  ends,
              Denotes-eq d' (λ b. ground (arith, e)),
            )
        | inr e ↦
            let (r, ends, d') =
              reduct_loop_lem m hm l q s d distinct.1 (λ b k. range b (ground arith)) in
            (r, rw (is_removed_lem m a hm ha, e) ends, Denotes-eq d' (λ b. ground (arith, e)))
      ]

  -- `get_reduct` by an argument of the framework returns the active arguments other than it that it
  -- does not attack.
  pub get_reduct-Denotes :
      (m : ℕ) {p : ArgSet} {active : VectorBitSet}
      → m ≤ f.num_args
      → Denotes f.num_args p active
      → (r : VectorBitSet) × (get_reduct active f m ≡ ok r)
        × Denotes f.num_args (λ a. p a && kept f m a) r
  unfolding get_reduct
  get_reduct-Denotes m {active} hm d =
      let (r, ends, d') =
        reduct_loop_lem m hm active.vector (λ _. false) _ (Denotes-empty f.num_args) d.distinct
          (λ a k. (le_of_member d a (sym (d.items a) ∙ k), refl)) in
      (r, ends, Denotes-eq d' (λ a. ground (arith, d.items a)))

  reduct_set_loop_lem :
      (l : List ℕ) (p : ArgSet) (s : VectorBitSet)
      → ((m : ℕ) → contains l m ≡ true → m ≤ f.num_args)
      → Denotes f.num_args p s
      → (r : VectorBitSet) × (reduct_set_loop f l s ≡ ok r)
        × Denotes f.num_args (λ a. p a && all (λ m. kept f m a) l) r
  unfolding reduct_set_loop
  reduct_set_loop_lem [] p s range d = (s, refl, Denotes-eq d (λ a. ground arith))
  reduct_set_loop_lem (m ∷ l) p s range d = elim (Bool-cases (is_empty s.vector)) [
    | inl e ↦ (s, rw e refl, Denotes-eq d (λ a. ground (arith, d.items a, not_member s.vector a e)))
    | inr e ↦
        let (s', ends, d') = get_reduct-Denotes m (range m (ground (arith, ==_self m))) d in
        let (r, rest, d'') =
          reduct_set_loop_lem l (λ a. p a && kept f m a) s' (λ k h. range k (ground arith)) d' in
        (r, rw (e, ends) rest, Denotes-eq d'' (λ a. ground arith))
  ]

  -- `get_reduct_set` by a nonempty list of arguments of the framework returns what all of them keep,
  -- and that is the reduct of the active arguments by the set of the list: the active arguments that
  -- are neither in it nor attacked by a member of it.
  pub get_reduct_set-Denotes :
      (m : ℕ) (l : List ℕ) {p : ArgSet} {active : VectorBitSet}
      → ((k : ℕ) → contains (m ∷ l) k ≡ true → k ≤ f.num_args)
      → Denotes f.num_args p active
      → (r : VectorBitSet) × (get_reduct_set active f (m ∷ l) ≡ ok r)
        × Denotes f.num_args (λ a. p a && all (λ k. kept f k a) (m ∷ l)) r
        × IsReduct
            (exists_attack f)
            p
            (contains (m ∷ l))
            (λ a. p a && all (λ k. kept f k a) (m ∷ l))
  unfolding get_reduct_set
  get_reduct_set-Denotes m l {p} range d =
      let (s, ends, d') = get_reduct-Denotes m (range m (ground (arith, ==_self m))) d in
      elim (Bool-cases (is_empty s.vector)) [
        | inl e ↦ (
          s,
          rw (ends, ◌>>=◌, e) refl,
          Denotes-eq d' (λ a. ground (arith, d'.items a, not_member s.vector a e)),
          all-kept-IsReduct f (m ∷ l) p,
        )
        | inr e ↦
            let (r, rest, d'') =
              reduct_set_loop_lem l (λ a. p a && kept f m a) s (λ k h. range k (ground arith)) d' in
            (
              r,
              rw (ends, ◌>>=◌, e) rest,
              Denotes-eq d'' (λ a. ground arith),
              all-kept-IsReduct f (m ∷ l) p,
            )
      ]

-- The reduct by an empty list is refused.
pub get_reduct_set_empty :
    (f : Af) (active : VectorBitSet) → get_reduct_set active f [] ≡ err thrown
unfolding get_reduct_set
get_reduct_set_empty f active = refl
