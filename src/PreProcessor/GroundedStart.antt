-- ===== src/PreProcessor/GroundedStart.antt =====
-- `reduce_by_grounded` of src/logic/PreProcessor_DS_PR.cpp as a whole: the first loop counts the
-- attackers, and the rest decides the query or reduces the active arguments.
use af_analyzer.Prelude.{
  ℕ, ◌+◌, ◌≤◌, ◌≡◌, refl, sym, ◌∙◌, true, false, ◌&&◌, ◌||◌, List, [], ◌∷◌, ◌++◌, ◌==◌,
  if◌then◌else◌, length, set, contains, contains-append, length-set, get_or-set, put-set, replicate,
  length-replicate, Result, ok, ◌>>=◌, Bool-cases, inl, inr, arith, ==_self, eq_of_==,
}
use af_analyzer.VectorBitSet.{VectorBitSet, IsDistinct, IsDistinct-append, Denotes, le_of_member}
use af_analyzer.VectorBitSet.Copy.{Denotes-length}
use af_analyzer.Af.{Af, exists_attack}
use af_analyzer.Af.Valid.{IsValid, attackers_of, at-attackers}
use af_analyzer.Semantics.{ArgSet}
use af_analyzer.Semantics.Grounded.{none-IsForced}
use af_analyzer.Reduct.{is_empty}
use af_analyzer.PreProcessor.{
  u32, Counting, PreProcResult, grounded_loop, count_attackers, reduce_by_grounded,
}
use af_analyzer.PreProcessor.Release.{count_of, not_this}
use af_analyzer.VectorBitSet.Count.{count_by-all, count_by-le}
use af_analyzer.PreProcessor.Grounded.{IsCounted, Decides}
use af_analyzer.PreProcessor.GroundedLoop.{grounded_loop_lem}

empty_length : (l : List ℕ) → is_empty l ≡ true → length l ≡ 0
empty_length [] h = refl
empty_length (x ∷ l) h = cc

-- What the first loop has done for the arguments in `new`.
record Starts (f : Af) (new : ArgSet) (c c' : Counting) : Type 0 where
  size : length c'.num_attacker ≡ f.num_args + 1
  counts :
      (b : ℕ) → count_of c' b ≡ (if new b then length (attackers_of f b).vector else count_of c b)
  queues :
      (b : ℕ)
      → contains c'.unprocessed b
        ≡ (contains c.unprocessed b || (new b && is_empty (attackers_of f b).vector))
  distinct : IsDistinct c'.unprocessed

module _ {f : Af} (valid : IsValid f) where
  u32-length :
      (b : ℕ)
      → b ≤ f.num_args
      → u32 (length (attackers_of f b).vector) ≡ length (attackers_of f b).vector
  u32-length b h =
      let row = valid.attackers b h in omega (arith, Denotes-length row, row.size, valid.small)

  abbrev counted : Counting → ℕ → Counting
  counted c a = record {
    num_attacker = set c.num_attacker a (length (attackers_of f a).vector);
    unprocessed =
        if is_empty (attackers_of f a).vector then c.unprocessed ++ a ∷ [] else c.unprocessed;
  }

  counted-Starts :
      (c : Counting) (a : ℕ)
      → a ≤ f.num_args
      → length c.num_attacker ≡ f.num_args + 1
      → contains c.unprocessed a ≡ false
      → IsDistinct c.unprocessed
      → Starts f (λ b. a == b) c (counted c a)
  counted-Starts c a ha size new distinct = record {
    size = length-set c.num_attacker a (length (attackers_of f a).vector) ∙ size;
    counts = λ b.
        get_or-set c.num_attacker a b (length (attackers_of f a).vector) 0 (omega (arith, size))
        ∙ elim (Bool-cases (a == b)) [ inl e ↦ rw (eq_of_== a b e) refl | inr e ↦ rw e refl ];
    queues = λ b. elim (Bool-cases (a == b)) [
      | inl e ↦
          rw (sym (eq_of_== a b e))
            (ground (arith, ==_self a, contains-append c.unprocessed (a ∷ []) a))
      | inr e ↦ ground (arith, e, contains-append c.unprocessed (a ∷ []) b)
    ];
    distinct = elim (Bool-cases (is_empty (attackers_of f a).vector)) [
      | inl e ↦ rw e (IsDistinct-append c.unprocessed a distinct new)
      | inr e ↦ rw e distinct
    ];
  }

  count_attackers_lem :
      (l : List ℕ) (c : Counting)
      → IsDistinct l
      → ((b : ℕ) → contains l b ≡ true → (b ≤ f.num_args) × (contains c.unprocessed b ≡ false))
      → length c.num_attacker ≡ f.num_args + 1
      → IsDistinct c.unprocessed
      → (c' : Counting) × (count_attackers f l c ≡ ok c') × Starts f (contains l) c c'
  unfolding count_attackers
  count_attackers_lem [] c dl range size distinct = (
    c,
    refl,
    record { size = size; counts = λ b. refl; queues = λ b. ground arith; distinct = distinct },
  )
  count_attackers_lem (a ∷ l) c dl range size distinct =
      let (ha, new) = range a (ground (arith, ==_self a)) in
      let here = counted-Starts c a ha size new distinct in
      let (c', ends, rest) =
        count_attackers_lem l (counted c a) dl.1
          (λ b m.
            let (hb, out) = range b (ground arith) in
            (hb, here.queues b ∙ ground (arith, out, not_this a b l dl.0 m)))
          here.size here.distinct in
      (
        c',
        rw
            (
              at-attackers valid a ha,
              ◌>>=◌,
              u32-length a ha,
              put-set c.num_attacker a (length (attackers_of f a).vector) (omega (arith, size)),
            )
            ends,
        record {
          size = rest.size;
          counts = λ b. rest.counts b ∙ ground (arith, here.counts b);
          queues = λ b. rest.queues b ∙ ground (arith, here.queues b);
          distinct = rest.distinct;
        },
      )

  Starts-IsCounted :
      {p : ArgSet} {active : VectorBitSet} (c : Counting)
      → Denotes f.num_args p active
      → ((a b : ℕ) → p b ≡ true → exists_attack f a b ≡ true → p a ≡ true)
      → Starts f
          (contains active.vector)
          (record { num_attacker = replicate (f.num_args + 1) 0; unprocessed = [] })
          c
      → IsCounted f p c
  Starts-IsCounted {p} c d closed s = record {
    size = s.size;
    counts = λ b h.
        let row = valid.attackers b (le_of_member d b h) in
        s.counts b
        ∙ ground (
          arith,
          d.items b,
          h,
          count_by-all p (attackers_of f b).vector (λ a m. closed a b h (sym (row.items a) ∙ m)),
        );
    queued = λ b h.
        let active_b : p b ≡ true = ground (arith, s.queues b, d.items b, h) in
        let none : is_empty (attackers_of f b).vector ≡ true = ground (arith, s.queues b, h) in
        (
          active_b,
          s.counts b
              ∙ ground (arith, d.items b, active_b, empty_length (attackers_of f b).vector none),
        );
    distinct = s.distinct;
  }

  starts_loop :
      (q : ℕ) (active : VectorBitSet) (c : Counting)
      (result : Result (PreProcResult × VectorBitSet))
      → count_attackers f active.vector
          (record { num_attacker = replicate (f.num_args + 1) 0; unprocessed = [] })
        ≡ ok c
      → grounded_loop (f.num_args + 1) f q c active ≡ result
      → reduce_by_grounded f active q ≡ result
  unfolding reduce_by_grounded
  starts_loop q active c result counted_to ends =
      let wraps_not : u32 (f.num_args + 1) ≡ f.num_args + 1 = omega (arith, valid.small) in
      rw (wraps_not, counted_to, ◌>>=◌) ends

  -- For a valid framework and active arguments that include the query and all attackers of each
  -- other, `reduce_by_grounded` returns, without an access out of range and within the fuel, the
  -- reduct by an admissible set that every preferred set of the active arguments includes. If it
  -- accepts, the query is in every preferred set; if it rejects, in none; otherwise it is in the
  -- reduct.
  pub reduce_by_grounded-Decides :
      {p : ArgSet} {active : VectorBitSet} (q : ℕ)
      → Denotes f.num_args p active
      → ((a b : ℕ) → p b ≡ true → exists_attack f a b ≡ true → p a ≡ true)
      → p q ≡ true
      → Decides f p q (reduce_by_grounded f active q)
  reduce_by_grounded-Decides {p} {active} q d closed hq =
      let (c, counted_to, s) =
        count_attackers_lem active.vector
          (record { num_attacker = replicate (f.num_args + 1) 0; unprocessed = [] }) d.distinct
          (λ b m. (le_of_member d b (sym (d.items b) ∙ m), refl))
          (length-replicate (f.num_args + 1) 0) tt in
      let (verdict, reduct, G, r, ends, final, forced, holds) =
        grounded_loop_lem valid p q (le_of_member d q hq) active.vector (λ a m. d.items a ∙ m)
          (f.num_args + 1) c active (λ _. false) p d none-IsForced (Starts-IsCounted c d closed s)
          hq (omega (arith, count_by-le p active.vector, Denotes-length d, d.size)) in
      (verdict, reduct, G, r, starts_loop q active c _ counted_to ends, final, forced, holds)
