-- ===== src/Prelude/Int.antt =====
-- Signed integers over the native numbers, under the library's names.
use Prim.Native.Nat.{ℕ, zero, suc, ◌-◌, ◌%◌, ◌^◌}
use mathlib.Core.Path.{◌≡◌, refl}
use mathlib.Core.Bool.{true}
use native.Mathlib.Omega.{arith}
use af_analyzer.Prelude.Tests.{ltb, if◌then◌else◌}

-- `negsuc n` is -(n + 1).
pub data ℤ : Type 0 where
  pos : ℕ → ℤ
  negsuc : ℕ → ℤ

-- The number -n.
abbrev pub neg_of_ℕ : ℕ → ℤ
neg_of_ℕ zero = pos 0
neg_of_ℕ (suc n) = negsuc n

-- The absolute value.
abbrev pub magnitude : ℤ → ℕ
magnitude (pos n) = n
magnitude (negsuc n) = suc n

-- What an `int` is given by an `int64_t`: the same number modulo 2 ^ 32.
unfoldable pub to_int32 : ℤ → ℤ
to_int32 (pos n) =
    if ltb (n % 2 ^ 32) (2 ^ 31) then pos (n % 2 ^ 32) else neg_of_ℕ (2 ^ 32 - n % 2 ^ 32)
to_int32 (negsuc n) =
    if ltb (n % 2 ^ 32) (2 ^ 31) then negsuc (n % 2 ^ 32) else pos (2 ^ 32 - 1 - n % 2 ^ 32)

pub to_int32-eq : (l : ℤ) → ltb (magnitude l) (2 ^ 31) ≡ true → to_int32 l ≡ l
unfolding to_int32
to_int32-eq (pos n) h =
    let low : n % 2 ^ 32 ≡ n = ground (arith, h) in
    let fits : ltb n (2 ^ 31) ≡ true = ground (arith, h) in rw (low, fits) refl
to_int32-eq (negsuc n) h =
    let low : n % 2 ^ 32 ≡ n = ground (arith, h) in
    let fits : ltb n (2 ^ 31) ≡ true = ground (arith, h) in rw (low, fits) refl
