-- ===== src/PreProcessor/Counted.antt =====
-- The loop over the victims in `reduce_by_grounded` of src/logic/PreProcessor_DS_PR.cpp: after a round
-- the counters are those of the smaller reduct.
use af_analyzer.Prelude.{
  ℕ, ◌+◌, ◌≤◌, ◌≡◌, refl, sym, ◌∙◌, true, false, ◌&&◌, ◌||◌, not, List, [], ◌∷◌, ◌==◌, length,
  contains, at-get_or, ok, ◌>>=◌, Bool-cases, inl, inr, arith, ==_self, eq_of_==,
}
use mathlib.Core.Path.{subst}
use af_analyzer.VectorBitSet.{VectorBitSet, IsDistinct, Denotes, le_of_member}
use af_analyzer.VectorBitSet.Count.{count_by, count_by-le, count_by-pos, count_by-drop}
use af_analyzer.VectorBitSet.Copy.{Denotes-length}
use af_analyzer.Af.{Af, exists_attack}
use af_analyzer.Af.Valid.{IsValid, attackers_of, victims_of, at-victims}
use af_analyzer.Semantics.{ArgSet, IsSubset}
use af_analyzer.PreProcessor.{Counting, release_all}
use af_analyzer.PreProcessor.Release.{count_of, Releases, not_this, release_victims_lem}

module _ {f : Af} (valid : IsValid f) {r : ArgSet} {reduct : VectorBitSet}
    (d : Denotes f.num_args r reduct) (u : ℕ)
    (free : (a : ℕ) → r a ≡ true → exists_attack f a u ≡ false) where
  -- The counters are those of the attackers in `left`; `u` has been taken off the queue.
  pub record Counts (left : ArgSet) (c : Counting) : Type 0 where
    pub size : length c.num_attacker ≡ f.num_args + 1
    pub counts : (b : ℕ) → r b ≡ true → count_of c b ≡ count_by left (attackers_of f b).vector
    pub queued : (b : ℕ) → contains c.unprocessed b ≡ true → (r b ≡ true) × (count_of c b ≡ 0)
    pub distinct : IsDistinct c.unprocessed
    pub gone : contains c.unprocessed u ≡ false

  Counts-eq :
      {left right : ArgSet} {c : Counting}
      → Counts left c
      → ((a : ℕ) → left a ≡ right a)
      → Counts right c
  Counts-eq {c} h e = subst (λ X. Counts X c) (λ i a. e a i) h

  -- One active victim `v` of `u`.
  Counts-next :
      (left : ArgSet) (c c' : Counting) (v : ℕ)
      → Counts left c
      → v ≤ f.num_args
      → r v ≡ true
      → left v ≡ true
      → Releases f.num_args r (contains (victims_of f v).vector) c c'
      → Counts (λ a. left a && not (v == a)) c'
  Counts-next left c c' v inv hv active here rel =
      let items = (valid.victims v hv).items in
      record {
        size = rel.size;
        counts = λ b h.
            let rows = valid.attackers b (le_of_member d b h) in
            rel.counts b
            ∙ ground (
              arith,
              inv.counts b h,
              h,
              here,
              items b,
              rows.items v,
              count_by-drop left (attackers_of f b).vector v rows.distinct,
            );
        queued = λ b h. ground (arith, rel.queues b, rel.counts b, inv.queued b, h);
        distinct = rel.distinct;
        gone = rel.queues u ∙ ground (arith, inv.gone, items u, free v active);
      }

  -- What the inner loop asks of the active victims of `v`.
  fits_lem :
      (left : ArgSet) (c : Counting) (v b : ℕ)
      → Counts left c
      → v ≤ f.num_args
      → left v ≡ true
      → contains (victims_of f v).vector b ≡ true
      → r b ≡ true
      → (1 ≤ count_of c b) × (count_of c b ≤ f.num_args + 1) × (contains c.unprocessed b ≡ false)
  fits_lem left c v b inv hv here m h =
      let rows = valid.attackers b (le_of_member d b h) in
      let attacks : contains (attackers_of f b).vector v ≡ true =
        rows.items v ∙ sym ((valid.victims v hv).items b) ∙ m in
      let one = count_by-pos left (attackers_of f b).vector v attacks here in
      (
        omega (arith, inv.counts b h),
        omega (
          arith,
          inv.counts b h,
          count_by-le left (attackers_of f b).vector,
          Denotes-length rows,
          rows.size,
        ),
        elim (Bool-cases (contains c.unprocessed b)) [
          | inl k ↦ absurd (omega (arith, (inv.queued b k).1, inv.counts b h))
          | inr k ↦ k
        ],
      )

  pub release_all_lem :
      (vs : List ℕ) (left : ArgSet) (c : Counting)
      → IsDistinct vs
      → ((v : ℕ) → contains vs v ≡ true → v ≤ f.num_args)
      → IsSubset left r
      → ((v : ℕ) → contains vs v ≡ true → r v ≡ true → left v ≡ true)
      → Counts left c
      → (c' : Counting) × (release_all f reduct vs c ≡ ok c')
        × Counts (λ a. left a && not (contains vs a)) c'
  unfolding release_all
  release_all_lem [] left c dv range sub has inv = (c, refl, Counts-eq inv (λ a. ground arith))
  release_all_lem (v ∷ vs) left c dv range sub has inv =
      let hv = range v (ground (arith, ==_self v)) in
      elim (Bool-cases (r v)) [
        | inl e ↦
            let here = has v (ground (arith, ==_self v)) e in
            let row = valid.victims v hv in
            let (c1, released, rel) =
              release_victims_lem d (victims_of f v).vector c valid.small row.distinct
                (λ b m. le_of_member row b (sym (row.items b) ∙ m)) inv.size
                (λ b m h. fits_lem left c v b inv hv here m h) inv.distinct in
            let (c', ends, last) =
              release_all_lem vs (λ a. left a && not (v == a)) c1 dv.1
                (λ b m. range b (ground arith)) (λ a m. sub a (ground arith))
                (λ b m h. ground (arith, has b (ground arith) h, not_this v b vs dv.0 m))
                (Counts-next left c c1 v inv hv e here rel) in
            (
              c',
              rw
                  (
                    at-get_or reduct.bitset v false (omega (arith, d.size)),
                    d.bits v,
                    e,
                    at-victims valid v hv,
                    ◌>>=◌,
                    released,
                  )
                  ends,
              Counts-eq last (λ a. ground arith),
            )
        | inr e ↦
            let (c', ends, last) =
              release_all_lem vs left c dv.1 (λ b m. range b (ground arith)) sub
                (λ b m h. has b (ground arith) h) inv in
            (
              c',
              rw (at-get_or reduct.bitset v false (omega (arith, d.size)), d.bits v, e) ends,
              Counts-eq last (λ a. dropped left v a vs (not_left left v e sub)),
            )
      ]
    where
      not_left : (left : ArgSet) (v : ℕ) → r v ≡ false → IsSubset left r → left v ≡ false
      not_left left v e sub = ground (arith, sub v)

      dropped :
          (left : ArgSet) (v a : ℕ) (vs : List ℕ)
          → left v ≡ false
          → (left a && not (contains vs a)) ≡ (left a && not (v == a || contains vs a))
      dropped left v a vs h = elim (Bool-cases (v == a)) [
        | inl k ↦ rw (sym (eq_of_== v a k)) (ground (arith, h))
        | inr k ↦ ground (arith, k)
      ]
