-- ===== src/Reduct.antt =====
-- include/logic/Reduct.h and src/logic/Reduct.cpp: the reduct by one argument and by a list.
pub mod Laws
use af_analyzer.Prelude.{
  ℕ, ◌+◌, Bool, true, false, List, [], ◌∷◌, ◌++◌, ◌==◌, if◌then◌else◌, replicate, Result, ok, err,
  thrown, ◌>>=◌, at, put,
}
use af_analyzer.VectorBitSet.{VectorBitSet, clear}
use af_analyzer.Af.{Af}

-- The test of the loop, whose second half is read only if the first fails.
unfoldable pub is_removed : Af → ℕ → ℕ → Result Bool
is_removed f argument a =
    if a == argument then ok true else at f.victims argument >>= λ row. at row.bitset a

-- The loop of `get_reduct`, with the vector and the flags that it fills.
unfoldable pub reduct_loop : Af → ℕ → List ℕ → VectorBitSet → Result VectorBitSet
unfolding is_removed
reduct_loop f argument [] reduct = ok reduct
reduct_loop f argument (a ∷ rest) reduct = is_removed f argument a >>= λ removed.
    (if removed
      then ok reduct
      else put reduct.bitset a true >>= λ flags.
          ok (record { vector = reduct.vector ++ a ∷ []; bitset = flags }))
    >>= λ next. reduct_loop f argument rest next

unfoldable pub get_reduct : VectorBitSet → Af → ℕ → Result VectorBitSet
unfolding reduct_loop
get_reduct active f argument =
    reduct_loop f argument active.vector
      (record { vector = []; bitset = replicate (f.num_args + 1) false })

abbrev pub is_empty {ℓ} : {A : Type ℓ} → List A → Bool
is_empty [] = true
is_empty (x ∷ xs) = false

-- The loop of `get_reduct_set` over the arguments after the first.
unfoldable pub reduct_set_loop : Af → List ℕ → VectorBitSet → Result VectorBitSet
reduct_set_loop f [] reduct = ok reduct
reduct_set_loop f (m ∷ rest) reduct =
    if is_empty reduct.vector
    then ok reduct
    else get_reduct reduct f m >>= λ reduct_tmp. reduct_set_loop f rest reduct_tmp

unfoldable pub get_reduct_set : VectorBitSet → Af → List ℕ → Result VectorBitSet
unfolding get_reduct reduct_set_loop
get_reduct_set active f [] = err thrown
get_reduct_set active f (m ∷ rest) = get_reduct active f m >>= λ reduct.
    if is_empty reduct.vector then ok reduct else reduct_set_loop f rest reduct
