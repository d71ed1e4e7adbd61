-- ===== src/PreProcessor/Grounded.antt =====
-- `reduce_by_grounded` of src/logic/PreProcessor_DS_PR.cpp: what the counters say, and that a round of
-- the outer loop, which takes out an unattacked argument and its victims, keeps it.
use af_analyzer.Prelude.{
  ℕ, ◌+◌, ◌≤◌, ◌≡◌, sym, ap, ◌∙◌, true, false, ◌&&◌, not, List, ◌∷◌, ◌==◌, length, contains, Result,
  ok, Bool-cases, inl, inr, arith, eq_of_==,
}
use mathlib.Core.Path.{subst}
use af_analyzer.VectorBitSet.{VectorBitSet, IsDistinct, Denotes, le_of_member}
use af_analyzer.Af.{Af, exists_attack}
use af_analyzer.Af.Valid.{IsValid, attackers_of, victims_of}
use af_analyzer.Semantics.{ArgSet, IsPreferred}
use af_analyzer.Semantics.Grounded.{IsForced}
use af_analyzer.Reduct.Laws.{kept}
use af_analyzer.PreProcessor.{Counting, release_all, PreProcResult, accepted, rejected, unknown}
use af_analyzer.PreProcessor.Release.{count_of}
use af_analyzer.VectorBitSet.Count.{count_by, count_by-eq, count_by-pos}
use af_analyzer.PreProcessor.Counted.{Counts, release_all_lem}

-- The counters are those of the reduct, and what is queued is unattacked in it.
pub record IsCounted (f : Af) (r : ArgSet) (c : Counting) : Type 0 where
  pub size : length c.num_attacker ≡ f.num_args + 1
  pub counts : (b : ℕ) → r b ≡ true → count_of c b ≡ count_by r (attackers_of f b).vector
  pub queued : (b : ℕ) → contains c.unprocessed b ≡ true → (r b ≡ true) × (count_of c b ≡ 0)
  pub distinct : IsDistinct c.unprocessed

-- What a verdict says of the query, and of the reduct that is left.
abbrev pub VerdictHolds : Af → ArgSet → ℕ → PreProcResult → ArgSet → Type 0
VerdictHolds f p q accepted r = (P : ArgSet) → IsPreferred (exists_attack f) p P → P q ≡ true
VerdictHolds f p q rejected r = (P : ArgSet) → IsPreferred (exists_attack f) p P → P q ≡ false
VerdictHolds f p q unknown r = r q ≡ true

-- A run returns a verdict that holds, and the reduct by a set that every preferred set includes.
abbrev pub Decides : Af → ArgSet → ℕ → Result (PreProcResult × VectorBitSet) → Type 0
Decides f p q result =
    (verdict : PreProcResult) × (reduct : VectorBitSet) × (G : ArgSet) × (r : ArgSet) × (result
      ≡ ok (verdict, reduct))
    × Denotes f.num_args r reduct
    × IsForced (exists_attack f) p G r
    × VerdictHolds f p q verdict r

module _ {f : Af} (valid : IsValid f) {r : ArgSet} {reduct : VectorBitSet}
    (d : Denotes f.num_args r reduct) (c : Counting) (inv : IsCounted f r c) (u : ℕ)
    (queued : contains c.unprocessed u ≡ true) where
  -- A queued argument is unattacked.
  pub free_lem : (a : ℕ) → r a ≡ true → exists_attack f a u ≡ false
  free_lem a h = elim (Bool-cases (exists_attack f a u)) [
    | inr k ↦ k
    | inl k ↦
        let (active, none_left) = inv.queued u queued in
        let member = (valid.attackers u (le_of_member d u active)).items a ∙ k in
        absurd (
          omega (
            arith,
            inv.counts u active,
            none_left,
            count_by-pos r (attackers_of f u).vector a member h,
          ))
  ]

module _ {f : Af} (valid : IsValid f) {r : ArgSet} {reduct : VectorBitSet}
    (d : Denotes f.num_args r reduct) (u : ℕ) (active : r u ≡ true)
    (free : (a : ℕ) → r a ≡ true → exists_attack f a u ≡ false) where
  hu : u ≤ f.num_args
  hu = le_of_member d u active

  abbrev left : ArgSet
  left a = r a && not (contains (victims_of f u).vector a)

  not_u :
      (c : Counting)
      → Counts valid d u free left c
      → (b : ℕ) → contains c.unprocessed b ≡ true
      → (b == u) ≡ false
  not_u c inv b h = elim (Bool-cases (b == u)) [
    | inl e ↦ cc (inv.gone, h, eq_of_== b u e)
    | inr e ↦ e
  ]

  -- `u` itself still counts among the attackers of its victims.
  spared :
      (c : Counting)
      → Counts valid d u free left c
      → (b : ℕ) → r b ≡ true
      → count_of c b ≡ 0
      → exists_attack f u b ≡ false
  spared c inv b rb none_left = elim (Bool-cases (exists_attack f u b)) [
    | inr g ↦ g
    | inl g ↦
        let member = (valid.attackers b (le_of_member d b rb)).items u ∙ g in
        let stays : left u ≡ true =
          ground (arith, active, (valid.victims u hu).items u, free u active) in
        absurd (
          omega (
            arith,
            inv.counts b rb,
            none_left,
            count_by-pos left (attackers_of f b).vector u member stays,
          ))
  ]

  -- After a round the counters are those of the reduct by `u`.
  round_lem : (c : Counting) → Counts valid d u free left c → IsCounted f (λ a. r a && kept f u a) c
  round_lem c inv = record {
    size = inv.size;
    counts = λ b h.
        let rb : r b ≡ true = ground arith in
        inv.counts b rb
        ∙ count_by-eq (attackers_of f b).vector (λ a m. elim (Bool-cases (a == u)) [
          | inl e ↦
              let g : exists_attack f u b ≡ true =
                ap (λ x. exists_attack f x b) (sym (eq_of_== a u e))
                ∙ sym ((valid.attackers b (le_of_member d b rb)).items a)
                ∙ m in
              ground (arith, g, h)
          | inr e ↦ ground (arith, e, (valid.victims u hu).items a)
        ]);
    queued = λ b h.
        let (rb, none_left) = inv.queued b h in
        (ground (arith, rb, not_u c inv b h, spared c inv b rb none_left), none_left);
    distinct = inv.distinct;
  }

  -- One round for `u`, up to the reduct.
  pub released :
      (c : Counting) (rest : List ℕ)
      → IsCounted f r c
      → c.unprocessed ≡ u ∷ rest
      → (c' : Counting) × (release_all f reduct
            (victims_of f u).vector
            (record c { unprocessed = rest })
          ≡ ok c')
        × IsCounted f (λ a. r a && kept f u a) c'
  released c rest inv e =
      let row = valid.victims u hu in
      let apart : IsDistinct (u ∷ rest) = subst IsDistinct e inv.distinct in
      let (c', ends, last) =
        release_all_lem valid d u free (victims_of f u).vector r (record c { unprocessed = rest })
          row.distinct (λ v m. le_of_member row v (sym (row.items v) ∙ m)) (λ a h. h) (λ v m h. h)
          (record {
            size = inv.size;
            counts = inv.counts;
            queued = λ b m. inv.queued b (ap (λ l. contains l b) e ∙ ground (arith, m));
            distinct = apart.1;
            gone = apart.0;
          }) in
      (c', ends, round_lem c' last)
