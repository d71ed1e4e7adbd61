-- ===== src/PreProcessor/Stale.antt =====
-- `calculate_cone_influence` of src/logic/PreProcessor_DS_PR.cpp on a framework that still has the
-- distances of an earlier query.
use af_analyzer.Prelude.{
  ℕ, zero, suc, ◌+◌, ◌≤◌, ◌<◌, ◌≡◌, refl, sym, ap, ◌∙◌, true, false, ◌||◌, List, [], ◌∷◌, ◌⊎◌, ltb,
  ◌==◌, ==_self, if◌then◌else◌, replicate, length, length-replicate, length-set, get_or, get_or-set,
  set, contains, ok, at, at-get_or, put-set, inl, inr, arith,
}
use af_analyzer.VectorBitSet.{VectorBitSet, le_of_member}
use af_analyzer.Af.{Af, exists_attack}
use af_analyzer.Af.Valid.{IsValid, attackers_of, at-attackers}
use af_analyzer.PreProcessor.{
  u32, Cone, visit_attacker, visit_attackers, expand, cone_loop, calculate_cone_influence,
}

-- A visited attacker changes nothing.
visit_attackers-visited :
    (q d n : ℕ) (l : List ℕ) (c : Cone)
    → length c.distances ≡ n + 1
    → ((a : ℕ) → contains l a ≡ true → a ≤ n)
    → ((a : ℕ) → contains l a ≡ true → (ltb 0 (get_or c.distances a 0) || a == q) ≡ true)
    → visit_attackers q d l c ≡ ok c
unfolding visit_attackers visit_attacker
visit_attackers-visited q d n [] c size range visited = refl
visit_attackers-visited q d n (a ∷ l) c size range visited =
    let here : contains (a ∷ l) a ≡ true = ground (arith, ==_self a) in
    rw (at-get_or c.distances a 0 (omega (arith, size, range a here)), visited a here)
      (visit_attackers-visited q d n l c size (λ b m. range b (ground (arith, m)))
        (λ b m. visited b (ground (arith, m))))

cone_loop-nil :
    (fuel : ℕ) (f : Af) (q : ℕ) (c : Cone) → c.pending ≡ [] → cone_loop fuel f q c ≡ ok c
unfolding cone_loop
cone_loop-nil zero f q c none_left = simp none_left
cone_loop-nil (suc fuel) f q c none_left = simp (cone_loop, none_left)

module _ {f : Af} (valid : IsValid f) (q : ℕ) (hq : q ≤ f.num_args) where
  -- The query alone, its distance reset.
  abbrev pub alone : Af × VectorBitSet
  alone = (
    record f { distance_to_query = set f.distance_to_query q 0 },
    record { vector = q ∷ []; bitset = set (replicate (f.num_args + 1) false) q true },
  )

  abbrev start : Cone
  start = record { distances = alone.0.distance_to_query; active = alone.1; pending = q ∷ [] }

  abbrev expanded : Cone
  expanded = record start { pending = [] }

  at_self : (if q == q then 0 else get_or f.distance_to_query q 0) ≡ 0
  at_self = ground (arith, ==_self q)

  seen :
      (a : ℕ)
      → (0 < get_or f.distance_to_query a 0) ⊎ (a ≡ q)
      → q < length f.distance_to_query
      → (ltb 0 (get_or start.distances a 0) || a == q) ≡ true
  seen a (inr e) inside = ground (arith, e)
  seen a (inl h) inside = ground (arith, h, get_or-set f.distance_to_query q a 0 0 inside)

  first_round :
      (fuel : ℕ)
      → 0 < fuel
      → at start.distances q ≡ ok 0
      → visit_attackers q 0 (attackers_of f q).vector expanded ≡ ok expanded
      → cone_loop fuel f q start ≡ ok expanded
  unfolding cone_loop expand
  first_round zero h zero_there visited = absurd (omega (arith, h))
  first_round (suc fuel) h zero_there visited =
      simp (zero_there, at-attackers valid q hq, visited, cone_loop-nil fuel f q expanded refl)

  -- On a valid framework, for an argument of it: if each attacker of the query has a distance above 0
  -- from an earlier query, or is the query, then the cone of influence is the query alone, whatever
  -- else reaches it.
  pub calculate_cone_influence-stale :
      ((a : ℕ) → exists_attack f a q ≡ true → (0 < get_or f.distance_to_query a 0) ⊎ (a ≡ q))
      → calculate_cone_influence f q ≡ ok alone
  unfolding calculate_cone_influence
  calculate_cone_influence-stale stale =
      let row = attackers_of f q in
      let d = valid.attackers q hq in
      let size : length start.distances ≡ f.num_args + 1 =
        length-set f.distance_to_query q 0 ∙ valid.distances in
      let inside : q < length f.distance_to_query = omega (arith, valid.distances) in
      let visited : visit_attackers q 0 row.vector expanded ≡ ok expanded =
        visit_attackers-visited q 0 f.num_args row.vector expanded size
          (λ a m. le_of_member d a (sym (d.items a) ∙ m))
          (λ a m. seen a (stale a (sym (d.items a) ∙ m)) inside) in
      let whole : u32 (f.num_args + 1) ≡ f.num_args + 1 = omega (arith, valid.small) in
      let zero_there : at start.distances q ≡ ok 0 =
        at-get_or start.distances q 0 (omega (arith, size, hq))
        ∙ ap ok (get_or-set f.distance_to_query q q 0 0 inside ∙ at_self) in
      rw
        (
          put-set f.distance_to_query q 0 inside,
          whole,
          put-set (replicate (f.num_args + 1) false) q true
              (omega (arith, length-replicate {0} (f.num_args + 1) false)),
          first_round (f.num_args + 1) (omega arith) zero_there visited,
        )
        refl
