-- ===== src/PreProcessor/Influence.antt =====
-- `calculate_cone_influence` of src/logic/PreProcessor_DS_PR.cpp: the active arguments are those
-- that have a walk of attacks to the query.
use af_analyzer.Prelude.{
  ℕ, zero, suc, ◌+◌, ◌≤◌, ◌≡◌, refl, sym, ap, ◌∙◌, ◌↔◌, ◌⊎◌, Bool, true, false, ◌&&◌, ◌||◌, not,
  List, [], ◌∷◌, ◌==◌, length, get_or, set, contains, length-set, get_or-set, at-get_or, put-set,
  replicate, length-replicate, ok, ◌>>=◌, Bool-cases, inl, inr, arith, ==_self, eq_of_==,
}
use mathlib.Core.Path.{subst}
use af_analyzer.VectorBitSet.{
  VectorBitSet, Denotes, Denotes-eq, Denotes-add, Denotes-empty, le_of_member,
}
use af_analyzer.VectorBitSet.Copy.{Denotes-length}
use af_analyzer.Af.{Af, exists_attack}
use af_analyzer.Af.Valid.{IsValid, attackers_of, at-attackers}
use af_analyzer.PreProcessor.{u32, Cone, expand, cone_loop, calculate_cone_influence}
use af_analyzer.PreProcessor.Visits.{
  Walk, stay, attack, distance_in, visited, IsCone, HasWalks, visit_attackers_lem,
}

List-cases {ℓ} :
    {A : Type ℓ} (xs : List A) → (xs ≡ []) ⊎ ((x : A) × (rest : List A) × (xs ≡ x ∷ rest))
List-cases [] = inl refl
List-cases (x ∷ xs) = inr (x, xs, refl)

module _ {f : Af} (valid : IsValid f) (query : ℕ) where
  -- Between two rounds: what is queued has been visited, and an attacker of a visited argument that
  -- is not queued any more has been visited.
  pub record Inv (c : Cone) : Type 0 where
    pub cone : IsCone f.num_args query c
    pub walks : HasWalks f query c
    pub source : distance_in c query ≡ 0
    pub waiting : (a : ℕ) → contains c.pending a ≡ true → visited query c a ≡ true
    pub closed :
        (a b : ℕ)
        → visited query c b ≡ true
        → exists_attack f a b ≡ true
        → (contains c.pending b ≡ true) ⊎ (visited query c a ≡ true)

  visited_le : (c : Cone) → Inv c → (a : ℕ) → visited query c a ≡ true → a ≤ f.num_args
  visited_le c inv a h = le_of_member inv.cone.denotes a h

  -- After a round the attackers of `b` have been visited, and the rest is as before.
  closed_after :
      (c c' : Cone) (b : ℕ) (rest : List ℕ) (x y : ℕ)
      → c.pending ≡ b ∷ rest
      → visited query c' x ≡ (visited query c x || contains (attackers_of f b).vector x)
      → visited query c' y ≡ (visited query c y || contains (attackers_of f b).vector y)
      → contains c'.pending y
        ≡ (contains rest y || (contains (attackers_of f b).vector y && not (visited query c y)))
      → (visited query c y ≡ true
          → exists_attack f x y ≡ true
          → (contains c.pending y ≡ true) ⊎ (visited query c x ≡ true))
      → contains (attackers_of f b).vector x ≡ exists_attack f x b
      → exists_attack f x y ≡ true
      → visited query c' y ≡ true
      → (contains c'.pending y ≡ true) ⊎ (visited query c' x ≡ true)
  closed_after c c' b rest x y e vx vy qy closed row g m = elim (Bool-cases (visited query c y)) [
    | inl old ↦ elim (closed old g) [
      | inl queued ↦ elim (Bool-cases (b == y)) [
        | inl h ↦
            let g' : exists_attack f x b ≡ true = rw (eq_of_== b y h) g in
            inr (vx ∙ ground (arith, row, g'))
        | inr h ↦
            let q : contains rest y ≡ true = ground (arith, h, ap (λ l. contains l y) e) in
            inl (qy ∙ ground (arith, q))
      ]
      | inr seen ↦ inr (vx ∙ ground (arith, seen))
    ]
    | inr new ↦ inl (qy ∙ ground (arith, vy, new))
  ]

  -- One round keeps all that, and takes one argument off the queue for good.
  expand_lem :
      (c : Cone) (b : ℕ) (rest : List ℕ)
      → Inv c
      → c.pending ≡ b ∷ rest
      → (c' : Cone) × (expand f query c b rest ≡ ok c')
        × Inv c'
        × (length c'.active.vector + length c.pending
            ≡ length c.active.vector + length c'.pending + 1)
  unfolding expand
  expand_lem c b rest inv e =
      let pops : (a : ℕ) → contains c.pending a ≡ (b == a || contains rest a) =
        λ a. ap (λ l. contains l a) e in
      let known : visited query c b ≡ true = inv.waiting b (rw e (ground (arith, ==_self b))) in
      let hb = visited_le c inv b known in
      let popped : IsCone f.num_args query (record c { pending = rest }) = record {
        size = inv.cone.size;
        denotes = inv.cone.denotes;
        near = inv.cone.near;
      } in
      let (c', ends, cone, v, walks) =
        visit_attackers_lem valid.small query b (attackers_of f b).vector
          (record c { pending = rest }) (distance_in c b) refl popped inv.walks known
          (λ a m.
            let g : exists_attack f a b ≡ true = sym ((valid.attackers b hb).items a) ∙ m in
            ((valid.in_range a b g).0, g)) in
      (
        c',
        rw
            (
              at-get_or c.distances b 0 (omega (arith, inv.cone.size)),
              ◌>>=◌,
              at-attackers valid b hb,
            )
            ends,
        record {
          cone = cone;
          walks = walks;
          source = v.keeps query (ground (arith, ==_self query)) ∙ inv.source;
          waiting = λ a m. ground (arith, v.marks a, v.queues a, inv.waiting a, pops a);
          closed = λ x y m g.
              closed_after c c' b rest x y e (v.marks x) (v.marks y) (v.queues y) (inv.closed x y)
                ((valid.attackers b hb).items x) g m;
        },
        omega (arith, v.counts, ap length e),
      )

  cone_loop_lem :
      (fuel : ℕ) (c : Cone)
      → Inv c
      → length c.active.vector + fuel ≡ f.num_args + 1 + length c.pending
      → (c' : Cone) × (cone_loop fuel f query c ≡ ok c') × Inv c' × (c'.pending ≡ [])
  unfolding cone_loop
  cone_loop_lem zero c inv work = elim (List-cases c.pending) [
    | inl e ↦ (c, simp e, inv, e)
    | inr (b, rest, e) ↦
        absurd (omega (arith, ap length e, Denotes-length inv.cone.denotes, inv.cone.denotes.size))
  ]
  cone_loop_lem (suc fuel) c inv work = elim (List-cases c.pending) [
    | inl e ↦ (c, simp (e, cone_loop), inv, e)
    | inr (b, rest, e) ↦
        let (c', here, inv', count) = expand_lem c b rest inv e in
        let (d, ends, inv'', empty) = cone_loop_lem fuel c' inv' (omega arith) in
        (d, rw (e, cone_loop) (rw here ends), inv'', empty)
  ]

  -- With an empty queue every argument with a walk to the query has been visited.
  Walk-visited :
      (c : Cone) → Inv c → c.pending ≡ [] → {a k : ℕ} → Walk f query a k → visited query c a ≡ true
  Walk-visited c inv empty stay = ground (arith, ==_self query)
  Walk-visited c inv empty (attack {a} {b} w g) =
      elim (inv.closed a b (Walk-visited c inv empty w) g) [
        | inl queued ↦ cc (ap (λ l. contains l b) empty)
        | inr seen ↦ seen
      ]

  module _ (hq : query ≤ f.num_args) (fresh : (a : ℕ) → get_or f.distance_to_query a 0 ≡ 0) where
    abbrev start : Cone
    start = record {
      distances = set f.distance_to_query query 0;
      active = record {
        vector = query ∷ [];
        bitset = set (replicate (f.num_args + 1) false) query true;
      };
      pending = query ∷ [];
    }

    distance-start : (a : ℕ) → distance_in start a ≡ 0
    distance-start a = ground (
      arith,
      get_or-set f.distance_to_query query a 0 0 (omega (arith, valid.distances)),
      fresh a,
    )

    start-Inv : Inv start
    start-Inv = record {
      cone = record {
        size = length-set f.distance_to_query query 0 ∙ valid.distances;
        denotes =
            Denotes-eq (Denotes-add (Denotes-empty f.num_args) query hq refl)
              (λ a. ground (arith, distance-start a));
        near = λ a. omega (arith, distance-start a);
      };
      walks = λ a m.
          subst (λ k. Walk f query a k) (sym (distance-start a))
            (subst (λ b. Walk f query b zero)
              (sym (eq_of_== a query (ground (arith, distance-start a)))) stay);
      source = distance-start query;
      waiting = λ a m. ground arith;
      closed = λ a b m g. inl (ground (arith, distance-start b));
    }

    -- On a framework whose distances are all 0, the cone of influence of an argument of it is
    -- computed without an access out of range and within the fuel: the active arguments are those
    -- with a walk of attacks to the query, each one's new distance is the length of such a walk, and
    -- no distance exceeds the number of arguments. Only the distances of the framework change.
    pub calculate_cone_influence-Denotes :
        (distances : List ℕ) × (p : ℕ → Bool) × (active : VectorBitSet) × (calculate_cone_influence
            f query
          ≡ ok (record f { distance_to_query = distances }, active))
        × (length distances ≡ f.num_args + 1)
        × Denotes f.num_args p active
        × ((a : ℕ) → (p a ≡ true) ↔ ((k : ℕ) × Walk f query a k))
        × ((a : ℕ) → p a ≡ true → Walk f query a (get_or distances a 0))
        × ((a : ℕ) → get_or distances a 0 ≤ f.num_args)
    unfolding calculate_cone_influence
    calculate_cone_influence-Denotes =
        let (c, ends, inv, empty) = cone_loop_lem (f.num_args + 1) start start-Inv (omega arith) in
        (
          c.distances,
          visited query c,
          c.active,
          rw
              (
                put-set f.distance_to_query query 0 (omega (arith, valid.distances)),
                u32-eq,
                put-set (replicate (f.num_args + 1) false) query true
                    (omega (arith, length-replicate {0} (f.num_args + 1) false)),
                ends,
              )
              refl,
          inv.cone.size,
          inv.cone.denotes,
          λ a. (λ m. (_, inv.walks a m), λ (k, w). Walk-visited c inv empty w),
          inv.walks,
          λ a.
              omega
                (arith, inv.cone.near a, Denotes-length inv.cone.denotes, inv.cone.denotes.size),
        )
      where
        u32-eq : u32 (f.num_args + 1) ≡ f.num_args + 1
        u32-eq = omega (arith, valid.small)
