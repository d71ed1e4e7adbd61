-- ===== src/Af/Build.antt =====
-- AF::finish_initilization of src/logic/AF.cpp: its loop over the attacks, and its tables.
use af_analyzer.Prelude.{
  ℕ, ◌+◌, ◌^◌, ◌≤◌, ◌<◌, ◌≡◌, refl, sym, inl, inr, Bool, true, false, ◌&&◌, ◌||◌, List, [], ◌∷◌,
  ◌++◌, length, get_or, set, ◌==◌, if◌then◌else◌, ok, put-set, length-set, get_or-set, Bool-cases,
  arith,
}
use mathlib.Core.Path.{subst, fun_ext}
use af_analyzer.Af.{
  Attack, has_attack, insert_attack, Tables, int32_index, tabulate_step, tabulate, AreDistinct,
}
use af_analyzer.Af.Rows.{IsTable, IsTable-set, push_at-set, mark_at-set}

has_attack-insert :
    (l : List Attack) (a b c d : ℕ)
    → has_attack (insert_attack a b l) c d ≡ ((a == c && b == d) || has_attack l c d)
has_attack-insert l a b c d = elim (Bool-cases (has_attack l a b)) [
  | inl e ↦ ground (arith)
  | inr e ↦ rw e refl
]

pub int32_index-eq : (a n : ℕ) → a ≤ n → n < 2 ^ 31 → int32_index a ≡ a
int32_index-eq a n h s = ground arith

-- The tables after the attacks of `R` have been visited, out of those of `l`.
pub record IsBuilt (n : ℕ) (l : List Attack) (R : ℕ → ℕ → Bool) (t : Tables) : Type 0 where
  pub attacked : IsTable n (λ j i. R i j) t.attackers_vectors t.attackers_bitsets
  pub attacking : IsTable n R t.victims_vectors t.victims_bitsets
  pub self_size : length t.self_attack ≡ n + 1
  pub self : (a : ℕ) → get_or t.self_attack a false ≡ R a a
  pub symmetric :
      (a b : ℕ)
      → has_attack t.symmetric_attacks a b
        ≡ ((R a b || R b a) && (has_attack l a b && has_attack l b a))

abbrev pub with_attack : ℕ → ℕ → (ℕ → ℕ → Bool) → ℕ → ℕ → Bool
with_attack a b R k l = (a == k && b == l) || R k l

module _ {n : ℕ} {l : List Attack} {R : ℕ → ℕ → Bool} {t : Tables} (built : IsBuilt n l R t)
    (a b : ℕ) (small : n < 2 ^ 31) where
  -- The tables after one more attack.
  abbrev pub next_tables : Tables
  next_tables = record {
    attackers_vectors = set t.attackers_vectors b (get_or t.attackers_vectors b [] ++ a ∷ []);
    attackers_bitsets = set t.attackers_bitsets b (set (get_or t.attackers_bitsets b []) a true);
    victims_vectors = set t.victims_vectors a (get_or t.victims_vectors a [] ++ b ∷ []);
    victims_bitsets = set t.victims_bitsets a (set (get_or t.victims_bitsets a []) b true);
    self_attack = if a == b then set t.self_attack a true else t.self_attack;
    symmetric_attacks =
        if has_attack l b a
        then insert_attack b a (insert_attack a b t.symmetric_attacks)
        else t.symmetric_attacks;
  }

  pub tabulate_step-eq : a ≤ n → b ≤ n → tabulate_step l t a b ≡ ok next_tables
  unfolding tabulate_step
  tabulate_step-eq ha hb =
      rw
        (
          int32_index-eq a n ha small,
          int32_index-eq b n hb small,
          push_at-set built.attacked b a hb ha,
          mark_at-set built.attacked b a hb ha,
          push_at-set built.attacking a b ha hb,
          mark_at-set built.attacking a b ha hb,
          put-set t.self_attack a true (omega (arith, built.self_size)),
        )
        (elim (Bool-cases (a == b)) [ inl e ↦ rw e refl | inr e ↦ rw e refl ])

  pub IsBuilt-next :
      a ≤ n
      → b ≤ n
      → R a b ≡ false
      → has_attack l a b ≡ true
      → IsBuilt n l (with_attack a b R) next_tables
  IsBuilt-next ha hb new mem = record {
    attacked = IsTable-set built.attacked b a hb ha new (λ k m. ground arith);
    attacking = IsTable-set built.attacking a b ha hb new (λ k m. refl);
    self_size = ground (arith, built.self_size, length-set t.self_attack a true);
    self =
        λ c. ground (arith, built.self c, built.self_size, get_or-set t.self_attack a c true false);
    symmetric = λ c d. elim (Bool-cases (has_attack l b a)) [
      | inl e ↦
          rw (e, has_attack-insert (insert_attack a b t.symmetric_attacks) b a c d)
            (ground
              (arith, e, mem, built.symmetric c d, has_attack-insert t.symmetric_attacks a b c d))
      | inr e ↦ rw e (ground (arith, e, mem, built.symmetric c d))
    ];
  }

-- The whole loop, over attacks that are new and in range.
pub tabulate-IsBuilt :
    (n : ℕ) (l rest : List Attack) (R S : ℕ → ℕ → Bool) (t : Tables)
    → n < 2 ^ 31
    → IsBuilt n l R t
    → AreDistinct rest
    → ((a b : ℕ) → has_attack rest a b ≡ true → R a b ≡ false)
    → ((a b : ℕ) → has_attack rest a b ≡ true → has_attack l a b ≡ true)
    → ((a b : ℕ) → has_attack rest a b ≡ true → (a ≤ n) × (b ≤ n))
    → ((a b : ℕ) → S a b ≡ (has_attack rest a b || R a b))
    → (t' : Tables) × (tabulate l rest t ≡ ok t') × IsBuilt n l S t'
unfolding tabulate
tabulate-IsBuilt n l [] R S t small built d new mem range eq =
    (t, refl, subst (λ Q. IsBuilt n l Q t) (fun_ext λ a. fun_ext λ b. sym (eq a b)) built)
tabulate-IsBuilt n l ((a, b) ∷ rest) R S t small built d new mem range eq =
    let here : has_attack ((a, b) ∷ rest) a b ≡ true = ground arith in
    let (ha, hb) = range a b here in
    let (t', ends, done) =
      tabulate-IsBuilt n l rest (with_attack a b R) S (next_tables built a b small) small
        (IsBuilt-next built a b small ha hb (new a b here) (mem a b here)) d.1
        (λ c e m. ground (arith, d.0, new c e)) (λ c e m. mem c e (ground arith))
        (λ c e m. range c e (ground arith)) (λ c e. ground (arith, eq c e)) in
    (t', rw (tabulate_step-eq built a b small ha hb) ends, done)
