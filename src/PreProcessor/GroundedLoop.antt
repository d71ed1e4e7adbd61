-- ===== src/PreProcessor/GroundedLoop.antt =====
-- The outer loop of `reduce_by_grounded` of src/logic/PreProcessor_DS_PR.cpp, until the query is
-- decided or no unattacked argument is left.
use af_analyzer.Prelude.{
  ℕ, zero, suc, ◌≤◌, ◌≡◌, refl, sym, ap, ◌∙◌, ◌⊎◌, true, false, ◌&&◌, List, [], ◌∷◌, ◌==◌, contains,
  Result, ok, ◌>>=◌, Bool-cases, inl, inr, arith, ==_self, eq_of_==,
}
use af_analyzer.VectorBitSet.{VectorBitSet, Denotes, le_of_member}
use af_analyzer.Af.{Af, exists_attack}
use af_analyzer.Af.Valid.{IsValid, victims_of, at-victims, at-victims-bitset}
use af_analyzer.Semantics.{ArgSet}
use af_analyzer.Semantics.Grounded.{IsForced, forced_member, join-IsForced}
use af_analyzer.Semantics.Reducts.{union}
use af_analyzer.Reduct.{get_reduct}
use af_analyzer.Reduct.Laws.{kept, get_reduct-Denotes}
use af_analyzer.PreProcessor.{
  Counting, release_all, PreProcResult, accepted, rejected, unknown, grounded_loop,
}
use af_analyzer.VectorBitSet.Count.{count_by, count_by-pos, count_by-lt}
use af_analyzer.PreProcessor.Grounded.{IsCounted, Decides, free_lem, released}

List-cases : (xs : List ℕ) → (xs ≡ []) ⊎ ((x : ℕ) × (rest : List ℕ) × (xs ≡ x ∷ rest))
List-cases [] = inl refl
List-cases (x ∷ xs) = inr (x, xs, refl)

module _ {f : Af} (valid : IsValid f) (p : ArgSet) (q : ℕ) (hq : q ≤ f.num_args) (l : List ℕ)
    (lists : (a : ℕ) → p a ≡ true → contains l a ≡ true) where
  goes_on :
      (fuel : ℕ) (c c' : Counting) (reduct reduct' : VectorBitSet) (u : ℕ) (rest : List ℕ)
      (result : Result (PreProcResult × VectorBitSet))
      → c.unprocessed ≡ u ∷ rest
      → u ≤ f.num_args
      → (u == q) ≡ false
      → exists_attack f u q ≡ false
      → release_all f reduct (victims_of f u).vector (record c { unprocessed = rest }) ≡ ok c'
      → get_reduct reduct f u ≡ ok reduct'
      → grounded_loop fuel f q c' reduct' ≡ result
      → grounded_loop (suc fuel) f q c reduct ≡ result
  unfolding grounded_loop
  goes_on fuel c c' reduct reduct' u rest result e hu other g released_to reduced ends =
      rw (e, grounded_loop)
        (rw
          (
            other,
            at-victims valid u hu,
            ◌>>=◌,
            at-victims-bitset valid u hu q hq,
            g,
            released_to,
            reduced,
          )
          ends)

  -- A round in which the query is the unattacked argument.
  accepts :
      (fuel : ℕ) (c : Counting) (reduct : VectorBitSet) {G r : ArgSet} (u : ℕ) (rest : List ℕ)
      → Denotes f.num_args r reduct
      → IsForced (exists_attack f) p G r
      → c.unprocessed ≡ u ∷ rest
      → r u ≡ true
      → ((a : ℕ) → r a ≡ true → exists_attack f a u ≡ false)
      → (u == q) ≡ true
      → Decides f p q (grounded_loop (suc fuel) f q c reduct)
  unfolding grounded_loop
  accepts fuel c reduct {G} {r} u rest d forced e active free same = (
    accepted,
    reduct,
    G,
    r,
    rw (e, grounded_loop) (rw same refl),
    d,
    forced,
    λ P pref. ap P (sym (eq_of_== u q same)) ∙ forced_member forced u active free P pref,
  )

  -- A round in which the unattacked argument attacks the query.
  rejects :
      (fuel : ℕ) (c : Counting) (reduct : VectorBitSet) {G r : ArgSet} (u : ℕ) (rest : List ℕ)
      → Denotes f.num_args r reduct
      → IsForced (exists_attack f) p G r
      → c.unprocessed ≡ u ∷ rest
      → r u ≡ true
      → ((a : ℕ) → r a ≡ true → exists_attack f a u ≡ false)
      → (u == q) ≡ false
      → exists_attack f u q ≡ true
      → Decides f p q (grounded_loop (suc fuel) f q c reduct)
  unfolding grounded_loop
  rejects fuel c reduct {G} {r} u rest d forced e active free other g =
      let hu = le_of_member d u active in
      (
        rejected,
        reduct,
        G,
        r,
        rw (e, grounded_loop)
            (rw (other, at-victims valid u hu, ◌>>=◌, at-victims-bitset valid u hu q hq, g) refl),
        d,
        forced,
        λ P pref. elim (Bool-cases (P q)) [
          | inl k ↦
              cc
                (pref.admissible.conflict_free u q (forced_member forced u active free P pref) k, g)
          | inr k ↦ k
        ],
      )

  pub grounded_loop_lem :
      (fuel : ℕ) (c : Counting) (reduct : VectorBitSet) (G r : ArgSet)
      → Denotes f.num_args r reduct
      → IsForced (exists_attack f) p G r
      → IsCounted f r c
      → r q ≡ true
      → count_by r l ≤ fuel
      → Decides f p q (grounded_loop fuel f q c reduct)
  unfolding grounded_loop
  grounded_loop_lem zero c reduct G r d forced inv open_ enough =
      absurd (omega (arith, count_by-pos r l q (lists q (forced.is_reduct.within q open_)) open_))
  grounded_loop_lem (suc fuel) c reduct G r d forced inv open_ enough =
      elim (List-cases c.unprocessed) [
        | inl e ↦ (unknown, reduct, G, r, rw (e, grounded_loop) refl, d, forced, open_)
        | inr (u, rest, e) ↦
            let queued : contains c.unprocessed u ≡ true =
              ap (λ k. contains k u) e ∙ ground (arith, ==_self u) in
            let active = (inv.queued u queued).0 in
            let free = free_lem valid d c inv u queued in
            let hu = le_of_member d u active in
            elim (Bool-cases (u == q)) [
              | inl same ↦ accepts fuel c reduct u rest d forced e active free same
              | inr other ↦ elim (Bool-cases (exists_attack f u q)) [
                | inl g ↦ rejects fuel c reduct u rest d forced e active free other g
                | inr g ↦
                    let (c', released_to, inv') = released valid d u active free c rest inv e in
                    let (reduct', reduced, d') = get_reduct-Denotes valid u hu d in
                    let (verdict, last, G', r', ends, final, forced', holds) =
                      grounded_loop_lem fuel c' reduct' (union G (λ a. a == u))
                        (λ a. r a && kept f u a) d' (join-IsForced forced u active free) inv'
                        (ground (arith, open_, other, g))
                        (omega (
                          arith,
                          count_by-lt {p = r} {q = λ a. r a && kept f u a} l u (λ a h. ground arith)
                              (lists u (forced.is_reduct.within u active)) active
                              (ground (arith, ==_self u)),
                        )) in
                    (
                      verdict,
                      last,
                      G',
                      r',
                      goes_on fuel c c' reduct reduct' u rest _ e hu other g released_to reduced
                          ends,
                      final,
                      forced',
                      holds,
                    )
              ]
            ]
      ]
