-- ===== src/PreProcessor.antt =====
-- include/logic/PreProcessor_DS_PR.h and src/logic/PreProcessor_DS_PR.cpp: the cone of influence of
-- the query and its reduction by the grounded extension. The loops over a list that grows while it
-- is walked take fuel, and fail where it runs out.
pub mod Visits
pub mod Influence
pub mod Release
pub mod Counted
pub mod Grounded
pub mod GroundedLoop
pub mod GroundedStart
pub mod Outcome
pub mod Verdict
pub mod Stale
use af_analyzer.Prelude.{
  ℕ, zero, suc, ◌+◌, ◌-◌, ◌%◌, ◌^◌, Bool, true, false, ◌||◌, List, [], ◌∷◌, ◌++◌, ◌==◌, ltb,
  if◌then◌else◌, replicate, length, Result, ok, err, out_of_fuel, ◌>>=◌, at, put,
}
use af_analyzer.VectorBitSet.{VectorBitSet}
use af_analyzer.Af.{Af}
use af_analyzer.Reduct.{get_reduct, is_empty}

abbrev pub u32 : ℕ → ℕ
u32 n = n % 2 ^ 32

-- The framework's `distance_to_query`, the set under construction, and the part of
-- `ls_args_unprocessed` from the iterator on.
pub record Cone : Type 0 where
  pub distances : List ℕ
  pub active : VectorBitSet
  pub pending : List ℕ

-- One attacker of the argument at the iterator, whose distance is `distance`.
unfoldable pub visit_attacker : ℕ → ℕ → Cone → ℕ → Result Cone
visit_attacker query distance c attacker = at c.distances attacker >>= λ known.
    if ltb 0 known || attacker == query
    then ok c
    else put c.distances attacker (u32 (distance + 1)) >>= λ distances.
        put c.active.bitset attacker true >>= λ flags. ok (record {
          distances = distances;
          active = record { vector = c.active.vector ++ attacker ∷ []; bitset = flags };
          pending = c.pending ++ attacker ∷ [];
        })

unfoldable pub visit_attackers : ℕ → ℕ → List ℕ → Cone → Result Cone
unfolding visit_attacker
visit_attackers query distance [] c = ok c
visit_attackers query distance (attacker ∷ rest) c =
    visit_attacker query distance c attacker >>= λ c'. visit_attackers query distance rest c'

-- One round of the outer loop, for the argument at the iterator.
unfoldable pub expand : Af → ℕ → Cone → ℕ → List ℕ → Result Cone
unfolding visit_attackers
expand f query c argument rest = at c.distances argument >>= λ distance.
    at f.attackers argument >>= λ row.
    visit_attackers query distance row.vector (record c { pending = rest })

unfoldable pub cone_loop : ℕ → Af → ℕ → Cone → Result Cone
unfolding expand
cone_loop zero f query c = if is_empty c.pending then ok c else err out_of_fuel
cone_loop (suc fuel) f query c = elim c.pending [
  | [] ↦ ok c
  | argument ∷ rest ↦ expand f query c argument rest >>= λ c'. cone_loop fuel f query c'
]

-- The framework is returned with its new distances. `num_args + 1` is of type uint32_t here.
unfoldable pub calculate_cone_influence : Af → ℕ → Result (Af × VectorBitSet)
unfolding cone_loop
calculate_cone_influence f query = put f.distance_to_query query 0 >>= λ distances.
    put (replicate (u32 (f.num_args + 1)) false) query true >>= λ flags.
    cone_loop (f.num_args + 1) f query (record {
      distances = distances;
      active = record { vector = query ∷ []; bitset = flags };
      pending = query ∷ [];
    })
    >>= λ c. ok (record f { distance_to_query = c.distances }, c.active)

-- The counters `num_attacker`, and what is behind the iterator of `ls_unattacked_unprocessed`.
pub record Counting : Type 0 where
  pub num_attacker : List ℕ
  pub unprocessed : List ℕ

-- The first loop of `reduce_by_grounded`.
unfoldable pub count_attackers : Af → List ℕ → Counting → Result Counting
count_attackers f [] c = ok c
count_attackers f (a ∷ rest) c = at f.attackers a >>= λ row.
    put c.num_attacker a (u32 (length row.vector)) >>= λ counters. count_attackers f rest (record {
      num_attacker = counters;
      unprocessed = if is_empty row.vector then c.unprocessed ++ a ∷ [] else c.unprocessed;
    })

-- The innermost loop: one attacker less for each active victim of `vua`.
unfoldable pub release_victims : VectorBitSet → List ℕ → Counting → Result Counting
release_victims reduct [] c = ok c
release_victims reduct (vvua ∷ rest) c = at reduct.bitset vvua >>= λ active.
    (if active
      then (at c.num_attacker vvua >>= λ count.
          put c.num_attacker vvua ((count + 2 ^ 32 - 1) % 2 ^ 32) >>= λ counters.
          at counters vvua >>= λ left. ok (record {
            num_attacker = counters;
            unprocessed = if left == 0 then c.unprocessed ++ vvua ∷ [] else c.unprocessed;
          }))
      else ok c)
    >>= λ c'. release_victims reduct rest c'

-- The loop over the victims of `ua`.
unfoldable pub release_all : Af → VectorBitSet → List ℕ → Counting → Result Counting
unfolding release_victims
release_all f reduct [] c = ok c
release_all f reduct (vua ∷ rest) c = at reduct.bitset vua >>= λ active.
    (if active then (at f.victims vua >>= λ row. release_victims reduct row.vector c) else ok c)
    >>= λ c'. release_all f reduct rest c'

pub data PreProcResult : Type 0 where
  accepted rejected unknown : PreProcResult

-- The loop over the unattacked arguments, with the reduct so far.
unfoldable pub grounded_loop :
    ℕ → Af → ℕ → Counting → VectorBitSet → Result (PreProcResult × VectorBitSet)
unfolding release_all get_reduct
grounded_loop zero f query c reduct =
    if is_empty c.unprocessed then ok (unknown, reduct) else err out_of_fuel
grounded_loop (suc fuel) f query c reduct = elim c.unprocessed [
  | [] ↦ ok (unknown, reduct)
  | ua ∷ rest ↦
      let go_on = at f.victims ua >>= λ row. at row.bitset query >>= λ attacks_query.
      if attacks_query
      then ok (rejected, reduct)
      else release_all f reduct row.vector (record c { unprocessed = rest }) >>= λ c'.
          get_reduct reduct f ua >>= λ reduct'. grounded_loop fuel f query c' reduct' in
      if ua == query then ok (accepted, reduct) else go_on
]

unfoldable pub reduce_by_grounded : Af → VectorBitSet → ℕ → Result (PreProcResult × VectorBitSet)
unfolding count_attackers grounded_loop
reduce_by_grounded f active query =
    count_attackers f active.vector
      (record { num_attacker = replicate (u32 (f.num_args + 1)) 0; unprocessed = [] })
    >>= λ c. grounded_loop (f.num_args + 1) f query c active

-- `PreProc_DS_PR::process`: the framework with its new distances, the verdict, and `out_reduct`,
-- which is left alone by the two early returns.
pub record Processed : Type 0 where
  pub framework : Af
  pub verdict : PreProcResult
  pub reduct : VectorBitSet

unfoldable pub process : Af → ℕ → VectorBitSet → Result Processed
unfolding calculate_cone_influence reduce_by_grounded
process f query out_reduct = at f.victims query >>= λ row. at row.bitset query >>= λ attacks_itself.
    if attacks_itself
    then ok (record { framework = f; verdict = rejected; reduct = out_reduct })
    else at f.attackers query >>= λ attackers.
        if is_empty attackers.vector
        then ok (record { framework = f; verdict = accepted; reduct = out_reduct })
        else calculate_cone_influence f query >>= λ cone.
            reduce_by_grounded cone.0 cone.1 query >>= λ done.
            ok (record { framework = cone.0; verdict = done.0; reduct = done.1 })
