-- ===== src/Prelude/Results.antt =====
-- Results of code that can fail, and vectors whose accesses fail out of range.
use Prim.Native.Nat.{ℕ, zero, suc, ◌≤◌, ◌<◌}
use mathlib.Core.Path.{◌≡◌, refl, ap}
use mathlib.Core.List.{List, [], ◌∷◌}
use native.Mathlib.Omega.{arith}
use af_analyzer.Prelude.Lists.{length, get_or, set}

-- `out_of_range` is an access behind the end of a vector, which C++ leaves undefined; `thrown` is
-- `throw new exception`; `exited` is `exit(1)`; `uninitialised` is a read of a variable that
-- has no value; `dangling` is a read of a variable of a function that has returned;
-- `overflow` is an int that does not hold a sum; `out_of_fuel` stands for no behaviour of the code,
-- but for a loop of the model that was given too little fuel.
pub data Error : Type 0 where
  out_of_range thrown exited uninitialised dangling overflow out_of_fuel : Error

-- A failure carries its reason; everything behind it is skipped.
pub data Result {κ} (X : Type κ) : Type κ where
  err : Error → Result X
  ok : X → Result X

infixl 5 ◌>>=◌
abbrev pub ◌>>=◌ {κ μ} : {X : Type κ} {Y : Type μ} → Result X → (X → Result Y) → Result Y
err why >>= next = err why
ok x >>= next = next x

module _ {ℓ} {A : Type ℓ} where
  -- `v[i]`, read.
  abbrev pub at : List A → ℕ → Result A
  at [] i = err out_of_range
  at (x ∷ xs) zero = ok x
  at (x ∷ xs) (suc i) = at xs i

  -- `v[i] = x`.
  abbrev pub put : List A → ℕ → A → Result (List A)
  put [] i v = err out_of_range
  put (x ∷ xs) zero v = ok (v ∷ xs)
  put (x ∷ xs) (suc i) v = put xs i v >>= λ ys. ok (x ∷ ys)

  -- An access in range reads what `get_or` reads, whatever the default.
  pub at-get_or : (v : List A) (k : ℕ) (other : A) → k < length v → at v k ≡ ok (get_or v k other)
  at-get_or (a ∷ v) (suc k) other inside = at-get_or v k other (omega arith)
  at-get_or (a ∷ v) zero other inside = refl
  at-get_or [] k other inside = elim inside [ ]

  pub at-eq-err : (xs : List A) (i : ℕ) → length xs ≤ i → at xs i ≡ err out_of_range
  at-eq-err [] i h = refl
  at-eq-err (x ∷ xs) zero h = absurd (omega arith)
  at-eq-err (x ∷ xs) (suc i) h = at-eq-err xs i (omega arith)

  pub put-set : (xs : List A) (i : ℕ) (v : A) → i < length xs → put xs i v ≡ ok (set xs i v)
  put-set [] i v h = elim h [ ]
  put-set (x ∷ xs) zero v h = refl
  put-set (x ∷ xs) (suc i) v h = ap (λ r. r >>= λ ys. ok (x ∷ ys)) (put-set xs i v (omega arith))

  pub put-eq-err : (xs : List A) (i : ℕ) (v : A) → length xs ≤ i → put xs i v ≡ err out_of_range
  put-eq-err [] i v h = refl
  put-eq-err (x ∷ xs) zero v h = absurd (omega arith)
  put-eq-err (x ∷ xs) (suc i) v h =
      ap (λ r. r >>= λ ys. ok (x ∷ ys)) (put-eq-err xs i v (omega arith))
