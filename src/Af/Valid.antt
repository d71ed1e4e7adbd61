-- ===== src/Af/Valid.antt =====
-- What AF::finish_initilization of src/logic/AF.cpp establishes, and the other code relies on: the
-- derived tables agree with the set of attacks, and every index of them is in range.
use af_analyzer.Prelude.{
  ℕ, ◌+◌, ◌^◌, ◌≤◌, ◌<◌, ◌≡◌, true, false, ◌&&◌, length, get_or, ok, at, at-get_or, arith, ap, ◌∙◌,
}
use af_analyzer.VectorBitSet.{VectorBitSet, blank, Denotes}
use af_analyzer.Af.{Af, has_attack, exists_attack}

-- The tables, of an AF with `n` arguments.
abbrev pub attackers_of : Af → ℕ → VectorBitSet
attackers_of f a = get_or f.attackers a blank

abbrev pub victims_of : Af → ℕ → VectorBitSet
victims_of f a = get_or f.victims a blank

pub record IsValid (f : Af) : Type 0 where
  pub small : f.num_args < 2 ^ 31
  pub in_range : (a b : ℕ) → exists_attack f a b ≡ true → (a ≤ f.num_args) × (b ≤ f.num_args)
  pub attackers_size : length f.attackers ≡ f.num_args + 1
  pub victims_size : length f.victims ≡ f.num_args + 1
  pub attackers :
      (b : ℕ) → b ≤ f.num_args → Denotes f.num_args (λ a. exists_attack f a b) (attackers_of f b)
  pub victims :
      (a : ℕ) → a ≤ f.num_args → Denotes f.num_args (λ b. exists_attack f a b) (victims_of f a)
  pub self_size : length f.self_attack ≡ f.num_args + 1
  pub self_attack : (a : ℕ) → get_or f.self_attack a false ≡ exists_attack f a a
  pub symmetric :
      (a b : ℕ) → has_attack f.symmetric_attacks a b ≡ (exists_attack f a b && exists_attack f b a)
  pub distances : length f.distance_to_query ≡ f.num_args + 1

module _ {f : Af} (v : IsValid f) (a : ℕ) (h : a ≤ f.num_args) where
  pub at-attackers : at f.attackers a ≡ ok (attackers_of f a)
  at-attackers = at-get_or f.attackers a blank (omega (arith, v.attackers_size))

  pub at-victims : at f.victims a ≡ ok (victims_of f a)
  at-victims = at-get_or f.victims a blank (omega (arith, v.victims_size))

  -- A flag of a row of `victims`.
  pub at-victims-bitset :
      (b : ℕ) → b ≤ f.num_args → at (victims_of f a).bitset b ≡ ok (exists_attack f a b)
  at-victims-bitset b k =
      at-get_or (victims_of f a).bitset b false (omega (arith, (v.victims a h).size))
      ∙ ap ok ((v.victims a h).bits b)
