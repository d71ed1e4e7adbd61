-- ===== src/Tests.antt =====
-- Concrete inputs for src/logic: the framework of rsc/examples/example1.i23 and the theorems on it.
pub mod Witnesses
pub mod Runs
pub mod Searches
pub mod Solves
pub mod Programs
pub mod Classes
use af_analyzer.Solver.Solve.{Openmp}
use mathlib.Core.Path.{subst}
use af_analyzer.Prelude.{
  ◌%◌, some, none, ℕ, ◌+◌, ◌≤◌, ◌≡◌, refl, sym, ◌∙◌, Bool, true, false, ◌||◌, List, [], ◌∷◌, ◌==◌,
  ok, get_or, get_or-replicate, contains, arith,
}
use af_analyzer.Encoding.Literals.{HasVariables}
use af_analyzer.VectorBitSet.{VectorBitSet, Denotes, Denotes-add, Denotes-empty}
use af_analyzer.Af.{
  Af, Iteration, empty_af, initialize, add_attack, finish_initilization, exists_attack,
  tabulate_step, push_at, mark_at,
}
use af_analyzer.Af.Finish.{
  IsInitialized, initialize-IsInitialized, add_attack-IsInitialized, finish_initilization-IsValid,
}
use af_analyzer.Af.Valid.{IsValid}
use af_analyzer.Semantics.{ArgSet}

-- Visits the attacks in the order of the list.
abbrev pub in_order : Iteration
in_order = record { order = λ l. l; visits = λ l a b. refl; once = λ l d. d }

-- 4 attacks 1, and 1 attacks 2.
abbrev pub unfinished : Af
unfolding initialize add_attack
unfinished = (add_attack (add_attack (initialize empty_af 4) 1 2).0 4 1).0

pub unfinished-IsInitialized : IsInitialized unfinished
unfolding initialize add_attack
unfinished-IsInitialized =
    add_attack-IsInitialized _ 4 1
      (add_attack-IsInitialized _ 1 2 (initialize-IsInitialized 4 (omega arith)))

abbrev row : List ℕ → List Bool → VectorBitSet
row v b = record { vector = v; bitset = b }

abbrev pub none_of_five : List Bool
none_of_five = false ∷ false ∷ false ∷ false ∷ false ∷ []

abbrev pub sample : Af
sample = record {
  num_args = 4;
  attackers =
      row [] none_of_five
      ∷ row (4 ∷ []) (false ∷ false ∷ false ∷ false ∷ true ∷ [])
      ∷ row (1 ∷ []) (false ∷ true ∷ false ∷ false ∷ false ∷ [])
      ∷ row [] none_of_five
      ∷ row [] none_of_five
      ∷ [];
  victims =
      row [] none_of_five
      ∷ row (2 ∷ []) (false ∷ false ∷ true ∷ false ∷ false ∷ [])
      ∷ row [] none_of_five
      ∷ row [] none_of_five
      ∷ row (1 ∷ []) (false ∷ true ∷ false ∷ false ∷ false ∷ [])
      ∷ [];
  self_attack = none_of_five;
  attacks = (4, 1) ∷ (1, 2) ∷ [];
  symmetric_attacks = [];
  distance_to_query = 0 ∷ 0 ∷ 0 ∷ 0 ∷ 0 ∷ [];
}

pub finish_runs : finish_initilization in_order unfinished ≡ ok sample
unfolding finish_initilization initialize add_attack tabulate_step push_at mark_at
finish_runs = refl

pub in_range :
    (a b : ℕ)
    → exists_attack unfinished a b ≡ true
    → (a ≤ unfinished.num_args) × (b ≤ unfinished.num_args)
unfolding exists_attack initialize add_attack
in_range a b h = ground arith

ok-injective : {a b : Af} → ok a ≡ ok b → a ≡ b
ok-injective h = cc

pub sample-IsValid : IsValid sample
sample-IsValid =
    let (f, ends, valid, same_size, same, distances) =
      finish_initilization-IsValid in_order unfinished unfinished-IsInitialized in_range in
    subst IsValid (ok-injective (sym ends ∙ finish_runs)) valid

-- The arguments 1, 2 and 4 as the active ones.
abbrev pub active_args : ArgSet
active_args a = ((false || 1 == a) || 2 == a) || 4 == a

abbrev pub active : VectorBitSet
active = row (1 ∷ 2 ∷ 4 ∷ []) (false ∷ true ∷ true ∷ false ∷ true ∷ [])

pub active-Denotes : Denotes 4 active_args active
active-Denotes =
    Denotes-add
      (Denotes-add (Denotes-add (Denotes-empty 4) 1 (omega arith) refl) 2 (omega arith) refl) 4
      (omega arith) refl

pub members_le : (m : ℕ) → contains (4 ∷ 2 ∷ []) m ≡ true → m ≤ 4
members_le m h = ground arith

pub fresh : (a : ℕ) → get_or sample.distance_to_query a 0 ≡ 0
fresh a = get_or-replicate 5 a 0

pub active-HasVariables : HasVariables 4 active_args
active-HasVariables = record { no_zero = refl; small = omega arith }

-- An order of the tasks, for one thread and for more, with a compiler that copies shared parameters.
abbrev pub in_turn : Openmp
in_turn = record {
  order = λ threads k. elim threads [ none ↦ k | some n ↦ k % n ];
  captures = true;
}
