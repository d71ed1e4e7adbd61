-- ===== src/Semantics.antt =====
-- The notions of abstract argumentation that src/logic implements: sets of arguments are Boolean
-- functions, `att a b` says that `a` attacks `b`, and `act` are the arguments of the framework or
-- of a reduct of it.
pub mod Reducts
pub mod Preferred
pub mod Grounded
pub mod Cone
use af_analyzer.Prelude.{ℕ, ◌≡◌, Bool, true, false, ◌&&◌, ◌||◌, not}

abbrev pub ArgSet : Type 0
ArgSet = ℕ → Bool

abbrev pub Attacks : Type 0
Attacks = ℕ → ℕ → Bool

abbrev pub IsSubset : ArgSet → ArgSet → Type 0
IsSubset S T = (a : ℕ) → S a ≡ true → T a ≡ true

abbrev pub IsNonempty : ArgSet → Type 0
IsNonempty S = (a : ℕ) × (S a ≡ true)

-- Some member of `S` attacks `b`.
abbrev pub AttackedBy : Attacks → ArgSet → ℕ → Type 0
AttackedBy att S b = (a : ℕ) × (S a ≡ true) × (att a b ≡ true)

pub record IsAdmissible (att : Attacks) (act S : ArgSet) : Type 0 where
  pub within : IsSubset S act
  pub conflict_free : (a b : ℕ) → S a ≡ true → S b ≡ true → att a b ≡ false
  pub defended : (a b : ℕ) → S a ≡ true → act b ≡ true → att b a ≡ true → AttackedBy att S b

-- A maximal admissible set.
pub record IsPreferred (att : Attacks) (act S : ArgSet) : Type 0 where
  pub admissible : IsAdmissible att act S
  pub maximal : (T : ArgSet) → IsAdmissible att act T → IsSubset S T → IsSubset T S

-- The argument is a member of every preferred set.
abbrev pub IsSceptical : Attacks → ArgSet → ℕ → Type 0
IsSceptical att act q = (S : ArgSet) → IsPreferred att act S → S q ≡ true
