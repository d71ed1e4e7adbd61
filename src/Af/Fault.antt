-- ===== src/Af/Fault.antt =====
-- AF::finish_initilization of src/logic/AF.cpp on an attack that names an argument above
-- `num_args`: neither the parser nor `add_attack` tests for it, and an index is out of range.
use af_analyzer.Prelude.{
  ℕ, ◌^◌, ◌≤◌, ◌<◌, ◌≡◌, refl, sym, ◌∙◌, ◌⊎◌, Bool, true, false, List, [], ◌∷◌, get_or, err,
  out_of_range, at-eq-err, put-eq-err, put-set, ◌++◌, at-get_or, arith,
}
use native.Mathlib.Decide.{dec_lt}
use af_analyzer.Af.{
  Attack, has_attack, Af, Tables, int32_index, mark_at, push_at, tabulate_step, tabulate,
  AreDistinct, Iteration, finish_initilization, exists_attack,
}
use af_analyzer.Af.Build.{
  IsBuilt, next_tables, with_attack, tabulate_step-eq, IsBuilt-next, int32_index-eq,
}
use af_analyzer.Af.Finish.{IsInitialized, start, start-IsBuilt}

le-int32_index : (a : ℕ) → a ≤ int32_index a
le-int32_index a = ground arith

module _ {n : ℕ} {l : List Attack} {R : ℕ → ℕ → Bool} {t : Tables} (built : IsBuilt n l R t)
    (a b : ℕ) (small : n < 2 ^ 31) where
  tabulate_step_victim : n < b → tabulate_step l t a b ≡ err out_of_range
  unfolding tabulate_step push_at
  tabulate_step_victim h =
      rw
        (at-eq-err t.attackers_vectors (int32_index b)
          (omega (arith, le-int32_index b, built.attacked.rows)))
        refl

  tabulate_step_attacker : b ≤ n → n < a → tabulate_step l t a b ≡ err out_of_range
  unfolding tabulate_step push_at mark_at
  tabulate_step_attacker hb h =
      rw
        (
          int32_index-eq b n hb small,
          at-get_or t.attackers_vectors b [] (omega (arith, built.attacked.rows)),
          put-set t.attackers_vectors b (get_or t.attackers_vectors b [] ++ a ∷ [])
              (omega (arith, built.attacked.rows)),
          at-get_or t.attackers_bitsets b [] (omega (arith, built.attacked.flag_rows)),
          put-eq-err (get_or t.attackers_bitsets b []) (int32_index a) true
              (omega (arith, le-int32_index a, built.attacked.width b hb)),
        )
        refl

-- The loop stops at the first attack that is out of range.
tabulate-out_of_range :
    (n : ℕ) (l rest : List Attack) (R : ℕ → ℕ → Bool) (t : Tables)
    → n < 2 ^ 31
    → IsBuilt n l R t
    → AreDistinct rest
    → ((a b : ℕ) → has_attack rest a b ≡ true → R a b ≡ false)
    → ((a b : ℕ) → has_attack rest a b ≡ true → has_attack l a b ≡ true)
    → (c d : ℕ) → has_attack rest c d ≡ true
    → (n < c) ⊎ (n < d)
    → tabulate l rest t ≡ err out_of_range
unfolding tabulate
tabulate-out_of_range n l [] R t small built distinct new mem c d there bad = cc
tabulate-out_of_range n l ((a, b) ∷ rest) R t small built distinct new mem c d there bad =
    elim (dec_lt n b) [
      | yes hb ↦ rw (tabulate_step_victim built a b small hb) refl
      | no hb ↦ elim (dec_lt n a) [
        | yes ha ↦ rw (tabulate_step_attacker built a b small (omega arith) ha) refl
        | no ha ↦
            let here : has_attack ((a, b) ∷ rest) a b ≡ true = ground arith in
            rw (tabulate_step-eq built a b small (omega arith) (omega arith)) (
              tabulate-out_of_range n l rest (with_attack a b R) (next_tables built a b small) small
                (IsBuilt-next built a b small (omega arith) (omega arith) (new a b here)
                  (mem a b here))
                distinct.1 (λ e g m. ground (arith, distinct.0, new e g))
                (λ e g m. mem e g (ground arith)) c d (ground arith) bad)
      ]
    ]

-- If an attack names an argument above `num_args`, as attacker or as victim,
-- `finish_initilization` indexes its tables out of range.
pub finish_initilization-out_of_range :
    (it : Iteration) (f : Af)
    → IsInitialized f
    → (a b : ℕ) → exists_attack f a b ≡ true
    → (f.num_args < a) ⊎ (f.num_args < b)
    → finish_initilization it f ≡ err out_of_range
unfolding finish_initilization exists_attack
finish_initilization-out_of_range it f init a b there bad =
    rw
      (tabulate-out_of_range f.num_args f.attacks (it.order f.attacks) (λ _ _. false)
        (start it f init) init.small (start-IsBuilt it f init) (it.once f.attacks init.distinct)
        (λ c d m. refl) (λ c d m. sym (it.visits f.attacks c d) ∙ m) a b
        (it.visits f.attacks a b ∙ there) bad)
      refl
