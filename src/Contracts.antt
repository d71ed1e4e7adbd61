-- ===== src/Contracts.antt =====
-- What the comments of include/logic/Reduct.h, include/logic/ScepticalCheck.h and include/logic/Enums.h
-- promise of the classes declared there: interfaces of operations and laws. `Contracts.Kept` shows
-- that the code keeps them.
pub mod Kept
pub mod Solving
pub mod Program
pub mod Fulfilled
use Prim.Native.String.{String}
use af_analyzer.Prelude.{
  ℕ, ◌≤◌, ◌≡◌, ◌≢◌, ◌↔◌, Bool, true, List, [], ◌∷◌, contains, Result, ok, Option, none, some,
}
use af_analyzer.VectorBitSet.{VectorBitSet, Denotes}
use af_analyzer.Af.{Af, exists_attack}
use af_analyzer.Semantics.{ArgSet}
use af_analyzer.Semantics.Reducts.{IsReduct}
use af_analyzer.Enums.{
  Task, dc, ds, se, ee, ce, unknown_task, SemanticsName, it, uc, pr, gr, unknown_sem,
}

-- `get_reduct` and `get_reduct_set` on a framework: the active arguments after the reduction by an
-- argument, and by a set of arguments that is not empty.
pub record ReductContract (f : Af) (get_reduct : VectorBitSet → Af → ℕ → Result VectorBitSet)
    (get_reduct_set : VectorBitSet → Af → List ℕ → Result VectorBitSet) : Type 0 where
  pub by_argument :
      (m : ℕ) {p : ArgSet} {active : VectorBitSet}
      → m ≤ f.num_args
      → Denotes f.num_args p active
      → (r : VectorBitSet) × (p' : ArgSet) × (get_reduct active f m ≡ ok r)
        × Denotes f.num_args p' r
        × IsReduct (exists_attack f) p (contains (m ∷ [])) p'
  pub by_set :
      (m : ℕ) (l : List ℕ) {p : ArgSet} {active : VectorBitSet}
      → ((k : ℕ) → contains (m ∷ l) k ≡ true → k ≤ f.num_args)
      → Denotes f.num_args p active
      → (r : VectorBitSet) × (p' : ArgSet) × (get_reduct_set active f (m ∷ l) ≡ ok r)
        × Denotes f.num_args p' r
        × IsReduct (exists_attack f) p (contains (m ∷ l)) p'

-- `check_rejection` is true if and only if an argument of the initial set attacks the argument in
-- question, and `check_terminate_extension_build` if and only if the set contains it.
pub record ScepticalCheckContract (f : Af) (check_rejection : ℕ → List ℕ → Af → Result Bool)
    (check_terminate_extension_build : ℕ → List ℕ → Bool) : Type 0 where
  pub rejects :
      (argument : ℕ) (initial_set : List ℕ)
      → argument ≤ f.num_args
      → ((m : ℕ) → contains initial_set m ≡ true → m ≤ f.num_args)
      → (r : Bool) × (check_rejection argument initial_set f ≡ ok r)
        × ((r ≡ true)
            ↔ ((m : ℕ) × (contains initial_set m ≡ true) × (exists_attack f m argument ≡ true)))
  pub terminates :
      (argument : ℕ) (initial_set : List ℕ)
      → (check_terminate_extension_build argument initial_set ≡ true)
        ↔ (contains initial_set argument ≡ true)

-- The abbreviations, as they are used in the enums.
abbrev pub task_abbreviation : Task → Option String
task_abbreviation dc = some "DC"
task_abbreviation ds = some "DS"
task_abbreviation se = some "SE"
task_abbreviation ee = some "EE"
task_abbreviation ce = some "CE"
task_abbreviation unknown_task = none

abbrev pub semantics_abbreviation : SemanticsName → Option String
semantics_abbreviation it = some "IT"
semantics_abbreviation uc = some "UC"
semantics_abbreviation pr = some "PR"
semantics_abbreviation gr = some "GR"
semantics_abbreviation unknown_sem = none

-- A string is converted into the value whose abbreviation it is, and else into the unknown one.
pub record EnumsContract (string_to_task : String → Task) (string_to_sem : String → SemanticsName)
    : Type 0 where
  pub task_read : (t : Task) (s : String) → task_abbreviation t ≡ some s → string_to_task s ≡ t
  pub task_unknown :
      (s : String) → ((t : Task) → task_abbreviation t ≢ some s) → string_to_task s ≡ unknown_task
  pub sem_read :
      (t : SemanticsName) (s : String) → semantics_abbreviation t ≡ some s → string_to_sem s ≡ t
  pub sem_unknown :
      (s : String)
      → ((t : SemanticsName) → semantics_abbreviation t ≢ some s)
      → string_to_sem s ≡ unknown_sem
