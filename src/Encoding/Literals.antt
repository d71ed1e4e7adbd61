-- ===== src/Encoding/Literals.antt =====
-- The literals that src/logic/Encoding.cpp makes: of the variables from 1 to twice the number of
-- arguments. An int holds them if there are fewer than 2 ^ 30 arguments.
use af_analyzer.Prelude.{
  ℕ, zero, suc, ◌+◌, ◌^◌, ◌≤◌, ◌<◌, ◌≡◌, refl, Bool, true, false, ◌&&◌, not, List, [], ◌∷◌, map,
  all, ltb, contains, arith, ==_self,
}
use af_analyzer.Prelude.Int.{ℤ, pos, neg_of_ℕ, magnitude}
use af_analyzer.Sat.{Clause, is_zero, is_literal, IsProper}

-- Each argument of the set has its two variables: 0 is no variable, and an int holds all literals.
pub record HasVariables (n : ℕ) (p : ℕ → Bool) : Type 0 where
  pub no_zero : p 0 ≡ false
  pub small : n < 2 ^ 30

-- A literal of the encoding for `n` arguments.
abbrev pub is_encoded : ℕ → ℤ → Bool
is_encoded n l = not (is_zero l) && not (ltb (n + n) (magnitude l))

abbrev pub IsEncoded : ℕ → Clause → Type 0
IsEncoded n c = all (is_encoded n) c ≡ true

pub is_encoded-pos : (n a : ℕ) → 0 < a → a ≤ n + n → is_encoded n (pos a) ≡ true
is_encoded-pos n zero h k = absurd (omega arith)
is_encoded-pos n (suc a) h k = ground (arith, k)

pub is_encoded-neg : (n a : ℕ) → 0 < a → a ≤ n + n → is_encoded n (neg_of_ℕ a) ≡ true
is_encoded-neg n zero h k = absurd (omega arith)
is_encoded-neg n (suc a) h k = ground (arith, k)

pub is_zero-encoded : (n : ℕ) (l : ℤ) → is_encoded n l ≡ true → is_zero l ≡ false
is_zero-encoded n l h = ground (arith, h)

pub is_literal-encoded : (n : ℕ) (l : ℤ) → n < 2 ^ 30 → is_encoded n l ≡ true → is_literal l ≡ true
is_literal-encoded n l small h = ground (arith, small, h)

pub IsEncoded-IsProper : (n : ℕ) (c : Clause) → n < 2 ^ 30 → IsEncoded n c → IsProper c
IsEncoded-IsProper n [] small h = refl
IsEncoded-IsProper n (l ∷ c) small h = ground (
  arith,
  is_literal-encoded n l small (ground (arith, h)),
  IsEncoded-IsProper n c small (ground (arith, h)),
)

pub map_pos-IsEncoded :
    (n : ℕ) (bs : List ℕ)
    → ((b : ℕ) → contains bs b ≡ true → (0 < b) × (b ≤ n))
    → IsEncoded n (map pos bs)
map_pos-IsEncoded n [] h = refl
map_pos-IsEncoded n (b ∷ bs) h =
    let (b_pos, b_le) = h b (ground (arith, ==_self b)) in
    ground (
      arith,
      is_encoded-pos n b b_pos (omega (arith, b_le)),
      map_pos-IsEncoded n bs (λ c m. h c (ground arith)),
    )
