-- ===== src/PreProcessor/Release.antt =====
-- The inner loops of `reduce_by_grounded` in src/logic/PreProcessor_DS_PR.cpp: the counters of
-- active attackers, and the arguments that lose their last one.
use af_analyzer.Prelude.{
  ℕ, ◌+◌, ◌-◌, ◌%◌, ◌^◌, ◌≤◌, ◌<◌, ◌≡◌, refl, sym, ap, ◌∙◌, true, false, ◌&&◌, ◌||◌, List, [], ◌∷◌,
  ◌++◌, ◌==◌, if◌then◌else◌, length, get_or, set, contains, contains-append, length-set, get_or-set,
  at-get_or, put-set, ok, ◌>>=◌, at, Bool-cases, inl, inr, arith, ==_self, eq_of_==,
}
use af_analyzer.VectorBitSet.{VectorBitSet, IsDistinct, IsDistinct-append, Denotes}
use af_analyzer.Semantics.{ArgSet}
use af_analyzer.PreProcessor.{Counting, release_victims}

abbrev pub count_of : Counting → ℕ → ℕ
count_of c b = get_or c.num_attacker b 0

-- `c'` has one attacker less for the active members of `new`, and has queued those of them that lost
-- their last one.
pub record Releases (n : ℕ) (r new : ArgSet) (c c' : Counting) : Type 0 where
  pub size : length c'.num_attacker ≡ n + 1
  pub counts : (b : ℕ) → count_of c' b ≡ count_of c b - (if new b && r b then 1 else 0)
  pub queues :
      (b : ℕ)
      → contains c'.unprocessed b
        ≡ (contains c.unprocessed b || (new b && (r b && count_of c b == 1)))
  pub distinct : IsDistinct c'.unprocessed

pub not_this :
    (v b : ℕ) (l : List ℕ) → contains l v ≡ false → contains l b ≡ true → (v == b) ≡ false
not_this v b l h k = elim (Bool-cases (v == b)) [ inl e ↦ cc (h, k, eq_of_== v b e) | inr e ↦ e ]

-- One active victim.
abbrev less : Counting → ℕ → Counting
less c v = record {
  num_attacker = set c.num_attacker v (count_of c v - 1);
  unprocessed = if count_of c v == 1 then c.unprocessed ++ v ∷ [] else c.unprocessed;
}

module _ {n : ℕ} {r : ArgSet} {reduct : VectorBitSet} (d : Denotes n r reduct) where
  module _ (c : Counting) (v : ℕ) (size : length c.num_attacker ≡ n + 1) (hv : v ≤ n)
      (active : r v ≡ true) (new : contains c.unprocessed v ≡ false)
      (distinct : IsDistinct c.unprocessed) where
    count-less :
        (b : ℕ) → count_of (less c v) b ≡ (if v == b then count_of c v - 1 else count_of c b)
    count-less b = get_or-set c.num_attacker v b (count_of c v - 1) 0 (omega (arith, size))

    less-Releases : Releases n r (λ b. v == b) c (less c v)
    less-Releases = record {
      size = length-set c.num_attacker v (count_of c v - 1) ∙ size;
      counts = λ b. elim (Bool-cases (v == b)) [
        | inl e ↦ count-less b ∙ rw (sym (eq_of_== v b e)) (ground (arith, ==_self v, active))
        | inr e ↦ count-less b ∙ ground (arith, e)
      ];
      queues = λ b. elim (Bool-cases (v == b)) [
        | inl e ↦
            rw (sym (eq_of_== v b e))
              (ground (arith, ==_self v, active, new, contains-append c.unprocessed (v ∷ []) v))
        | inr e ↦ ground (arith, e, contains-append c.unprocessed (v ∷ []) b)
      ];
      distinct = elim (Bool-cases (count_of c v == 1)) [
        | inl e ↦ rw e (IsDistinct-append c.unprocessed v distinct new)
        | inr e ↦ rw e distinct
      ];
    }

  wraps :
      (c : Counting) (v : ℕ)
      → n < 2 ^ 31
      → 1 ≤ count_of c v
      → count_of c v ≤ n + 1
      → (count_of c v + 2 ^ 32 - 1) % 2 ^ 32 ≡ count_of c v - 1
  wraps c v small h k = omega arith

  written :
      (c : Counting) (v : ℕ)
      → length c.num_attacker ≡ n + 1
      → v ≤ n
      → at (set c.num_attacker v (count_of c v - 1)) v ≡ ok (count_of c v - 1)
  written c v size hv =
      at-get_or (set c.num_attacker v (count_of c v - 1)) v 0
        (omega (arith, size, length-set c.num_attacker v (count_of c v - 1)))
      ∙ ap ok (
          get_or-set c.num_attacker v v (count_of c v - 1) 0 (omega (arith, size))
          ∙ ground (arith, ==_self v))

  last_one :
      (c : Counting) (v : ℕ) → 1 ≤ count_of c v → (count_of c v - 1 == 0) ≡ (count_of c v == 1)
  last_one c v h = ground arith

  pub release_victims_lem :
      (l : List ℕ) (c : Counting)
      → n < 2 ^ 31
      → IsDistinct l
      → ((b : ℕ) → contains l b ≡ true → b ≤ n)
      → length c.num_attacker ≡ n + 1
      → ((b : ℕ)
          → contains l b ≡ true
          → r b ≡ true
          → (1 ≤ count_of c b) × (count_of c b ≤ n + 1) × (contains c.unprocessed b ≡ false))
      → IsDistinct c.unprocessed
      → (c' : Counting) × (release_victims reduct l c ≡ ok c') × Releases n r (contains l) c c'
  unfolding release_victims
  release_victims_lem [] c small dl range size fits du = (
    c,
    refl,
    record { size = size; counts = λ b. omega arith; queues = λ b. ground arith; distinct = du },
  )
  release_victims_lem (v ∷ l) c small dl range size fits du =
      let hv = range v (ground (arith, ==_self v)) in
      elim (Bool-cases (r v)) [
        | inr e ↦
            let (c', ends, rel) =
              release_victims_lem l c small dl.1 (λ b h. range b (ground arith)) size
                (λ b h k. fits b (ground arith) k) du in
            (
              c',
              rw (at-get_or reduct.bitset v false (omega (arith, d.size)), d.bits v, e) ends,
              record {
                size = rel.size;
                counts = λ b. elim (Bool-cases (v == b)) [
                  | inl k ↦ rel.counts b ∙ rw (sym (eq_of_== v b k)) (ground (arith, e))
                  | inr k ↦ rel.counts b ∙ ground (arith, k)
                ];
                queues = λ b. elim (Bool-cases (v == b)) [
                  | inl k ↦ rel.queues b ∙ rw (sym (eq_of_== v b k)) (ground (arith, e))
                  | inr k ↦ rel.queues b ∙ ground (arith, k)
                ];
                distinct = rel.distinct;
              },
            )
        | inl e ↦
            let (some_left, bounded, new) = fits v (ground (arith, ==_self v)) e in
            let here = less-Releases c v size hv e new du in
            let (c', ends, rel) =
              release_victims_lem l (less c v) small dl.1 (λ b h. range b (ground arith)) here.size
                (λ b h k.
                  let other = not_this v b l dl.0 h in
                  let (one, most, out) = fits b (ground arith) k in
                  (
                    ground (arith, count-less c v size hv e new du b, other),
                    ground (arith, count-less c v size hv e new du b, other),
                    here.queues b ∙ ground (arith, other, out),
                  ))
                here.distinct in
            (
              c',
              rw
                  (
                    at-get_or reduct.bitset v false (omega (arith, d.size)),
                    d.bits v,
                    e,
                    at-get_or c.num_attacker v 0 (omega (arith, size)),
                    ◌>>=◌,
                    wraps c v small some_left bounded,
                    put-set c.num_attacker v (count_of c v - 1) (omega (arith, size)),
                    written c v size hv,
                    last_one c v some_left,
                  )
                  ends,
              record {
                size = rel.size;
                counts = λ b. rel.counts b ∙ ground (arith, here.counts b, not_this v b l dl.0);
                queues = λ b.
                    rel.queues b
                    ∙ ground (arith, here.queues b, here.counts b, not_this v b l dl.0);
                distinct = rel.distinct;
              },
            )
      ]
