-- ===== src/PreProcessor/Visits.antt =====
-- The inner loop of `calculate_cone_influence` in src/logic/PreProcessor_DS_PR.cpp: one argument's
-- attackers are visited, marked by their distances and queued.
use af_analyzer.Prelude.{
  ℕ, zero, suc, ◌+◌, ◌^◌, ◌≤◌, ◌<◌, ◌≡◌, refl, sym, ap, ◌∙◌, Bool, true, false, ◌&&◌, ◌||◌, not,
  List, [], ◌∷◌, ◌++◌, ◌==◌, ltb, if◌then◌else◌, length, get_or, set, contains, length-append,
  contains-append, length-set, get_or-set, at-get_or, put-set, Result, ok, ◌>>=◌, Bool-cases, inl,
  inr, arith, ==_self, eq_of_==,
}
use mathlib.Core.Path.{subst}
use af_analyzer.VectorBitSet.{Denotes, Denotes-eq, Denotes-add}
use af_analyzer.VectorBitSet.Copy.{Denotes-length}
use af_analyzer.Af.{Af, exists_attack}
use af_analyzer.PreProcessor.{u32, Cone, visit_attacker, visit_attackers}

-- A walk of `k` attacks from `a` to the query.
pub data Walk (f : Af) (query : ℕ) : ℕ → ℕ → Type 0 where
  stay : Walk f query query zero
  attack : {a b k : ℕ} → Walk f query b k → exists_attack f a b ≡ true → Walk f query a (suc k)

abbrev pub distance_in : Cone → ℕ → ℕ
distance_in c a = get_or c.distances a 0

-- The code's test for visited arguments.
abbrev pub visited : ℕ → Cone → ℕ → Bool
visited query c a = ltb 0 (distance_in c a) || a == query

pub record IsCone (n query : ℕ) (c : Cone) : Type 0 where
  pub size : length c.distances ≡ n + 1
  pub denotes : Denotes n (visited query c) c.active
  pub near : (a : ℕ) → distance_in c a < length c.active.vector

-- `c'` has visited the arguments of `new` besides those of `c`, and queued those among them that
-- had not been visited.
pub record Visits (query : ℕ) (c : Cone) (new : ℕ → Bool) (c' : Cone) : Type 0 where
  pub marks : (a : ℕ) → visited query c' a ≡ (visited query c a || new a)
  pub queues :
      (a : ℕ) → contains c'.pending a ≡ (contains c.pending a || (new a && not (visited query c a)))
  pub keeps : (a : ℕ) → visited query c a ≡ true → distance_in c' a ≡ distance_in c a
  pub counts :
      length c'.active.vector + length c.pending ≡ length c.active.vector + length c'.pending

-- Every visited argument is at the end of a walk of the length of its distance.
abbrev pub HasWalks : Af → ℕ → Cone → Type 0
HasWalks f query c = (a : ℕ) → visited query c a ≡ true → Walk f query a (distance_in c a)

Visits-trans :
    {query : ℕ} {c d e : Cone} {p q r : ℕ → Bool}
    → Visits query c p d
    → Visits query d q e
    → ((a : ℕ) → r a ≡ (p a || q a))
    → Visits query c r e
Visits-trans v w h = record {
  marks = λ a. ground (arith, v.marks a, w.marks a, h a);
  queues = λ a. ground (arith, v.marks a, v.queues a, w.queues a, h a);
  keeps = λ a m. w.keeps a (ground (arith, v.marks a)) ∙ v.keeps a m;
  counts = omega (arith, v.counts, w.counts);
}

-- What one or more visits of attackers of `b` give.
abbrev pub Visited : Af → ℕ → ℕ → Cone → (ℕ → Bool) → Result Cone → Type 0
Visited f query b c new result =
    (c' : Cone) × (result ≡ ok c')
    × IsCone f.num_args query c'
    × Visits query c new c'
    × HasWalks f query c'

-- The cone with the new argument `a`, an attacker of one at the given distance.
abbrev next_cone : Cone → ℕ → ℕ → Cone
next_cone c a d = record {
  distances = set c.distances a (u32 (d + 1));
  active = record { vector = c.active.vector ++ a ∷ []; bitset = set c.active.bitset a true };
  pending = c.pending ++ a ∷ [];
}

module _ {n : ℕ} (small : n < 2 ^ 31) (query b : ℕ) (c : Cone) (inv : IsCone n query c) (a : ℕ)
    (ha : a ≤ n) (fresh : visited query c a ≡ false) where
  wraps_not : u32 (distance_in c b + 1) ≡ suc (distance_in c b)
  wraps_not = omega (arith, inv.near b, Denotes-length inv.denotes, inv.denotes.size)

  distance-next :
      (x : ℕ)
      → distance_in (next_cone c a (distance_in c b)) x
        ≡ (if a == x then suc (distance_in c b) else distance_in c x)
  distance-next x =
      rw (get_or-set c.distances a x (u32 (distance_in c b + 1)) 0 (omega (arith, inv.size)))
        (rw wraps_not refl)

  next-Visits : Visits query c (λ x. a == x) (next_cone c a (distance_in c b))
  next-Visits = record {
    marks = λ x. ground (arith, distance-next x, fresh);
    queues = λ x. ground (arith, contains-append c.pending (a ∷ []) x, fresh);
    keeps = λ x m. distance-next x ∙ ground (arith, fresh, m);
    counts =
        omega
          (arith, length-append {0} c.active.vector (a ∷ []), length-append {0} c.pending (a ∷ []));
  }

  next-IsCone : IsCone n query (next_cone c a (distance_in c b))
  next-IsCone = record {
    size = length-set c.distances a (u32 (distance_in c b + 1)) ∙ inv.size;
    denotes = Denotes-eq (Denotes-add inv.denotes a ha fresh) (λ x. sym (next-Visits.marks x));
    near = λ x. ground (
      arith,
      distance-next x,
      inv.near x,
      inv.near b,
      length-append {0} c.active.vector (a ∷ []),
    );
  }

  next-walks :
      (f : Af)
      → HasWalks f query c
      → visited query c b ≡ true
      → exists_attack f a b ≡ true
      → HasWalks f query (next_cone c a (distance_in c b))
  next-walks f walks known g x m = elim (Bool-cases (a == x)) [
    | inl e ↦
        let far : distance_in (next_cone c a (distance_in c b)) x ≡ suc (distance_in c b) =
          distance-next x ∙ ap (λ t. if t then suc (distance_in c b) else distance_in c x) e in
        subst (λ y. Walk f query y (distance_in (next_cone c a (distance_in c b)) x))
          (eq_of_== a x e) (subst (λ k. Walk f query a k) (sym far) (attack (walks b known) g))
    | inr e ↦
        let same : distance_in (next_cone c a (distance_in c b)) x ≡ distance_in c x =
          distance-next x ∙ ap (λ t. if t then suc (distance_in c b) else distance_in c x) e in
        subst (λ k. Walk f query x k) (sym same) (walks x (ground (arith, e, next-Visits.marks x)))
  ]

module _ {f : Af} (small : f.num_args < 2 ^ 31) (query b : ℕ) where
  -- One attacker `a` of `b`.
  visit_attacker_lem :
      (c : Cone) (a : ℕ)
      → IsCone f.num_args query c
      → HasWalks f query c
      → visited query c b ≡ true
      → a ≤ f.num_args
      → exists_attack f a b ≡ true
      → Visited f query b c (λ x. a == x) (visit_attacker query (distance_in c b) c a)
  unfolding visit_attacker
  visit_attacker_lem c a inv walks known ha g = elim (Bool-cases (visited query c a)) [
    | inl e ↦ (
      c,
      rw (at-get_or c.distances a 0 (omega (arith, inv.size)), ◌>>=◌, e) refl,
      inv,
      record {
        marks = λ x. ground (arith, e);
        queues = λ x. ground (arith, e);
        keeps = λ x m. refl;
        counts = refl;
      },
      walks,
    )
    | inr e ↦ (
      next_cone c a (distance_in c b),
      rw
          (
            at-get_or c.distances a 0 (omega (arith, inv.size)),
            ◌>>=◌,
            e,
            put-set c.distances a (u32 (distance_in c b + 1)) (omega (arith, inv.size)),
            put-set c.active.bitset a true (omega (arith, inv.denotes.size)),
          )
          refl,
      next-IsCone small query b c inv a ha e,
      next-Visits small query b c inv a ha e,
      next-walks small query b c inv a ha e f walks known g,
    )
  ]

  -- All of the given attackers of `b`, one after the other.
  pub visit_attackers_lem :
      (l : List ℕ) (c : Cone) (d : ℕ)
      → d ≡ distance_in c b
      → IsCone f.num_args query c
      → HasWalks f query c
      → visited query c b ≡ true
      → ((a : ℕ) → contains l a ≡ true → (a ≤ f.num_args) × (exists_attack f a b ≡ true))
      → Visited f query b c (contains l) (visit_attackers query d l c)
  unfolding visit_attackers
  visit_attackers_lem [] c d same inv walks known range = (
    c,
    refl,
    inv,
    record {
      marks = λ x. ground arith;
      queues = λ x. ground arith;
      keeps = λ x m. refl;
      counts = refl;
    },
    walks,
  )
  visit_attackers_lem (a ∷ l) c d same inv walks known range =
      let (ha, g) = range a (ground (arith, ==_self a)) in
      let (c', here, inv', v, walks') = visit_attacker_lem c a inv walks known ha g in
      let (e, rest, inv'', w, walks'') =
        visit_attackers_lem l c' d (same ∙ sym (v.keeps b known)) inv' walks'
          (ground (arith, v.marks b, known)) (λ x m. range x (ground arith)) in
      (
        e,
        rw (ap (λ k. visit_attacker query k c a) same ∙ here) rest,
        inv'',
        Visits-trans v w (λ x. refl),
        walks'',
      )
