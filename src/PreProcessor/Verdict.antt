-- ===== src/PreProcessor/Verdict.antt =====
-- `PreProc_DS_PR::process` of src/logic/PreProcessor_DS_PR.cpp: its verdicts are right for the whole
-- framework.
use af_analyzer.Prelude.{
  ℕ, suc, ◌+◌, ◌≤◌, ◌≡◌, refl, sym, ◌∙◌, true, false, List, [], ◌∷◌, get_or, length, contains, ok,
  ◌>>=◌, Bool-cases, inl, inr, arith,
}
use af_analyzer.VectorBitSet.{VectorBitSet, Denotes, le_of_member}
use af_analyzer.Af.{Af, exists_attack}
use af_analyzer.Af.Valid.{IsValid, attackers_of, at-attackers, at-victims, at-victims-bitset}
use af_analyzer.Semantics.{ArgSet}
use af_analyzer.Semantics.Grounded.{none-IsForced, forced_member}
use af_analyzer.Reduct.{is_empty}
use af_analyzer.PreProcessor.{
  PreProcResult, accepted, rejected, Processed, process, calculate_cone_influence,
  reduce_by_grounded,
}
use af_analyzer.PreProcessor.Visits.{stay, attack}
use af_analyzer.PreProcessor.Influence.{calculate_cone_influence-Denotes}
use af_analyzer.PreProcessor.Grounded.{VerdictHolds, Decides}
use af_analyzer.PreProcessor.GroundedStart.{reduce_by_grounded-Decides}
use af_analyzer.PreProcessor.Outcome.{everything, Outcome, Outcome-VerdictHolds, outcome_lem}

empty_none : (l : List ℕ) (a : ℕ) → is_empty l ≡ true → contains l a ≡ false
empty_none [] a h = refl
empty_none (x ∷ l) a h = cc

module _ {f : Af} (valid : IsValid f) (q : ℕ) where
  -- Only the distances are new.
  pub distances-IsValid :
      (distances : List ℕ)
      → length distances ≡ f.num_args + 1
      → IsValid (record f { distance_to_query = distances })
  unfolding exists_attack
  distances-IsValid distances size = record {
    small = valid.small;
    in_range = valid.in_range;
    attackers_size = valid.attackers_size;
    victims_size = valid.victims_size;
    attackers = valid.attackers;
    victims = valid.victims;
    self_size = valid.self_size;
    self_attack = valid.self_attack;
    symmetric = valid.symmetric;
    distances = size;
  }

  reduced_lem :
      (distances : List ℕ) {p : ArgSet} {active : VectorBitSet}
      → length distances ≡ f.num_args + 1
      → Denotes f.num_args p active
      → ((a b : ℕ) → p b ≡ true → exists_attack f a b ≡ true → p a ≡ true)
      → p q ≡ true
      → Decides f p q (reduce_by_grounded (record f { distance_to_query = distances }) active q)
  unfolding exists_attack
  reduced_lem distances size d closed hq =
      reduce_by_grounded-Decides (distances-IsValid distances size) q d closed hq

  -- The last branch.
  reduces :
      (out_reduct active reduct : VectorBitSet) (verdict : PreProcResult) (distances : List ℕ)
      → q ≤ f.num_args
      → exists_attack f q q ≡ false
      → is_empty (attackers_of f q).vector ≡ false
      → calculate_cone_influence f q ≡ ok (record f { distance_to_query = distances }, active)
      → reduce_by_grounded (record f { distance_to_query = distances }) active q
        ≡ ok (verdict, reduct)
      → process f q out_reduct
        ≡ ok (record {
          framework = record f { distance_to_query = distances };
          verdict = verdict;
          reduct = reduct;
        })
  unfolding process
  reduces out_reduct active reduct verdict distances hq e some_left coned ends =
      rw
        (
          at-victims valid q hq,
          ◌>>=◌,
          at-victims-bitset valid q hq q hq,
          e,
          at-attackers valid q hq,
          some_left,
          coned,
          ends,
        )
        refl

  -- What `process` returns, with the framework that it leaves.
  pub process_lem :
      (out_reduct : VectorBitSet)
      → q ≤ f.num_args
      → ((a : ℕ) → get_or f.distance_to_query a 0 ≡ 0)
      → (done : Processed) × (process f q out_reduct ≡ ok done)
        × Outcome f q done.verdict done.reduct
        × ((distances : List ℕ) × (done.framework ≡ record f { distance_to_query = distances })
            × (length distances ≡ f.num_args + 1)
            × ((a : ℕ) → get_or distances a 0 ≤ f.num_args))
  unfolding process
  process_lem out_reduct hq fresh = elim (Bool-cases (exists_attack f q q)) [
    | inl e ↦ (
      record { framework = f; verdict = rejected; reduct = out_reduct },
      rw (at-victims valid q hq, ◌>>=◌, at-victims-bitset valid q hq q hq, e) refl,
      λ P pref. elim (Bool-cases (P q)) [
        | inl k ↦ cc (pref.admissible.conflict_free q q k k, e)
        | inr k ↦ k
      ],
      (f.distance_to_query, refl, valid.distances, λ a. omega (arith, fresh a)),
    )
    | inr e ↦ elim (Bool-cases (is_empty (attackers_of f q).vector)) [
      | inl none ↦ (
        record { framework = f; verdict = accepted; reduct = out_reduct },
        rw
            (
              at-victims valid q hq,
              ◌>>=◌,
              at-victims-bitset valid q hq q hq,
              e,
              at-attackers valid q hq,
              none,
            )
            refl,
        λ P pref.
            forced_member none-IsForced q (ground arith)
              (λ a h.
                sym ((valid.attackers q hq).items a) ∙ empty_none (attackers_of f q).vector a none)
              P pref,
        (f.distance_to_query, refl, valid.distances, λ a. omega (arith, fresh a)),
      )
      | inr some_left ↦
          let (distances, p, active, coned, size, d, walks, far, near) =
            calculate_cone_influence-Denotes valid q hq fresh in
          let closed : (a b : ℕ) → p b ≡ true → exists_attack f a b ≡ true → p a ≡ true =
            λ a b h g. let (k, w) = (walks b).0 h in (walks a).1 (suc k, attack w g) in
          let included : p q ≡ true = (walks q).1 (0, stay) in
          let (verdict, reduct, G, r, ends, left, forced, holds) =
            reduced_lem distances size d closed included in
          (
            record {
              framework = record f { distance_to_query = distances };
              verdict = verdict;
              reduct = reduct;
            },
            reduces out_reduct active reduct verdict distances hq e some_left coned ends,
            outcome_lem f q (λ a h. ground (arith, le_of_member d a h)) closed included
                (λ a h. (walks a).0 h) e verdict reduct G r left forced holds,
            (distances, refl, size, near),
          )
    ]
  ]

  -- For a valid framework whose distances are all 0 and a query of it, `process` returns, without an
  -- access out of range and within the fuel. If it accepts, the query is in every preferred set of
  -- the framework's arguments; if it rejects, in none; otherwise it is in the reduct.
  pub process-VerdictHolds :
      (out_reduct : VectorBitSet)
      → q ≤ f.num_args
      → ((a : ℕ) → get_or f.distance_to_query a 0 ≡ 0)
      → (done : Processed) × (process f q out_reduct ≡ ok done)
        × VerdictHolds f (everything f) q done.verdict (contains done.reduct.vector)
  process-VerdictHolds out_reduct hq fresh =
      let (done, ends, outcome, left) = process_lem out_reduct hq fresh in
      (done, ends, Outcome-VerdictHolds f q done.verdict done.reduct outcome)
