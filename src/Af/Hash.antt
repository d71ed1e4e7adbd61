-- ===== src/Af/Hash.antt =====
-- The hash of a pair in include/logic/AF.h, as the sets of attacks use it. The hash of a number,
-- `std::hash`, is a parameter; a size_t has 64 bits.
use Prim.Native.Nat.{bit_xor}
use af_analyzer.Prelude.{ℕ, ◌+◌, ◌*◌, ◌/◌, ◌%◌, ◌^◌, ◌≡◌, refl}
use af_analyzer.Af.{Attack}

abbrev size_t : ℕ → ℕ
size_t n = n % 2 ^ 64

module _ (hasher : ℕ → ℕ) where
  -- `seed ^= hasher(v) + 0x9e3779b9 + (seed << 6) + (seed >> 2)`.
  unfoldable pub hash_combine : ℕ → ℕ → ℕ
  hash_combine seed v =
      bit_xor seed (size_t (hasher v + 2654435769 + size_t (seed * 2 ^ 6) + seed / 2 ^ 2))

  unfoldable pub hash : Attack → ℕ
  unfolding hash_combine
  hash (first, second) = hash_combine (hash_combine 0 first) second

hashes : hash (λ n. n) (0, 0) ≡ 175247769566
unfolding hash
hashes = refl
