-- ===== src/Sat/Brute.antt =====
-- A concrete solver that meets what lib/cadical/src/cadical.hpp documents: it tries all valuations
-- of the variables in use. The tests run the code of src/logic with it.
use af_analyzer.Prelude.{
  ℕ, zero, suc, ◌≤◌, ◌<◌, ◌≡◌, ◌≢◌, refl, ap, ◌∙◌, Bool, true, false, not, [], ◌∷◌, ◌++◌, ◌==◌,
  if◌then◌else◌, Bool-cases, inl, inr, arith, Option, none, some,
}
use Prim.Native.Nat.{max}
use mathlib.Core.Path.{subst}
use af_analyzer.Prelude.Int.{ℤ, pos, negsuc}
use af_analyzer.Sat.{
  Clause, Formula, Valuation, literal_true, clause_true, formula_true, is_zero, SatSolver,
}
use af_analyzer.Sat.Cadical.{Cadical, is_positive}
use af_analyzer.Sat.Cadical.Models.{implementation}

pub record BruteState : Type 0 where
  pub clauses : Formula
  pub pending : Clause
  pub model : Valuation

-- A number above all variables of the clauses.
abbrev pub literal_bound : ℤ → ℕ
literal_bound (pos n) = suc n
literal_bound (negsuc n) = suc (suc n)

abbrev pub clause_bound : Clause → ℕ
clause_bound [] = 0
clause_bound (l ∷ c) = max (literal_bound l) (clause_bound c)

abbrev pub bound : Formula → ℕ
bound [] = 0
bound (c ∷ f) = max (clause_bound c) (bound f)

abbrev pub assign : Valuation → ℕ → Bool → Valuation
assign v k b n = if k == n then b else v n

unfoldable pub find_model : ℕ → Valuation → Formula → Option Valuation
find_model zero v f = if formula_true v f then some v else none
find_model (suc k) v f = elim (find_model k (assign v k true) f) [
  | some w ↦ some w
  | none ↦ find_model k (assign v k false) f
]

AgreesOn : ℕ → Valuation → Valuation → Type 0
AgreesOn b v u = (n : ℕ) → n < b → v n ≡ u n

literal-agree :
    (v u : Valuation) (l : ℤ)
    → ((n : ℕ) → n < literal_bound l → v n ≡ u n)
    → literal_true v l ≡ literal_true u l
literal-agree v u (pos n) h = h n (omega arith)
literal-agree v u (negsuc n) h = ap not (h (suc n) (omega arith))

clause-agree :
    (v u : Valuation) (c : Clause)
    → ((n : ℕ) → n < clause_bound c → v n ≡ u n)
    → clause_true v c ≡ clause_true u c
clause-agree v u [] h = refl
clause-agree v u (l ∷ c) h = ground (
  arith,
  literal-agree v u l (λ n k. h n (omega arith)),
  clause-agree v u c (λ n k. h n (omega arith)),
)

formula-agree :
    (v u : Valuation) (f : Formula)
    → ((n : ℕ) → n < bound f → v n ≡ u n)
    → formula_true v f ≡ formula_true u f
formula-agree v u [] h = refl
formula-agree v u (c ∷ f) h = ground (
  arith,
  clause-agree v u c (λ n k. h n (omega arith)),
  formula-agree v u f (λ n k. h n (omega arith)),
)

same : {v w : Valuation} → some v ≡ some w → v ≡ w
same h = cc

pub find_model_sound :
    (k : ℕ) (v : Valuation) (f : Formula) (w : Valuation)
    → find_model k v f ≡ some w
    → formula_true w f ≡ true
unfolding find_model
find_model_sound zero v f w h = elim (Bool-cases (formula_true v f)) [
  | inl e ↦ subst (λ z. formula_true z f ≡ true) (same (rw (e, find_model) at h)) e
  | inr e ↦ ground arith
]
find_model_sound (suc k) v f w h =
    ground
      (arith, find_model_sound k (assign v k true) f w, find_model_sound k (assign v k false) f w)

pub find_model_complete :
    (k : ℕ) (v u : Valuation) (f : Formula)
    → formula_true u f ≡ true
    → ((n : ℕ) → k ≤ n → n < bound f → v n ≡ u n)
    → find_model k v f ≢ none
unfolding find_model
find_model_complete zero v u f t h = ground (arith, formula-agree v u f (λ n. h n (omega arith)))
find_model_complete (suc k) v u f t h = elim (Bool-cases (u k)) [
  | inl e ↦
      ground
        (arith, find_model_complete k (assign v k true) u f t (λ n p q. ground (arith, e, h n)))
  | inr e ↦
      ground
        (arith, find_model_complete k (assign v k false) u f t (λ n p q. ground (arith, e, h n)))
]

abbrev pub brute_result : BruteState → Option Valuation → ℕ × BruteState
brute_result s (some w) = (10, record s { model = w })
brute_result s none = (20, s)

abbrev pub brute_solve : BruteState → ℕ × BruteState
brute_solve s = brute_result s (find_model (bound s.clauses) (λ _. false) s.clauses)

abbrev pub brute_add : ℤ → BruteState → BruteState
brute_add l s =
    if is_zero l
    then record s { clauses = s.clauses ++ s.pending ∷ []; pending = [] }
    else record s { pending = s.pending ++ l ∷ [] }

abbrev pub brute_val : ℤ → BruteState → ℤ
brute_val (pos n) s = if s.model n then pos 1 else negsuc 0
brute_val (negsuc n) s = if s.model (suc n) then negsuc 0 else pos 1

brute_val-pos : (n : ℕ) (s : BruteState) → is_positive (brute_val (pos n) s) ≡ s.model n
brute_val-pos n s = ground arith

pub brute_sat :
    (s : BruteState) (o : Option Valuation)
    → ((w : Valuation) → o ≡ some w → formula_true w s.clauses ≡ true)
    → (brute_result s o).0 ≡ 10
    → formula_true (λ n. is_positive (brute_val (pos n) (brute_result s o).1)) s.clauses ≡ true
brute_sat s (some w) sound h =
    formula-agree _ w s.clauses (λ n k. brute_val-pos n (record s { model = w })) ∙ sound w refl
brute_sat s none sound h = absurd (omega arith)

pub brute_unsat :
    (s : BruteState) (o : Option Valuation)
    → ((v : Valuation) → formula_true v s.clauses ≡ true → o ≢ none)
    → (brute_result s o).0 ≢ 10
    → (v : Valuation) → formula_true v s.clauses ≡ false
brute_unsat s (some w) complete h v = absurd (h refl)
brute_unsat s none complete h v = elim (Bool-cases (formula_true v s.clauses)) [
  | inl e ↦ absurd (complete v e refl)
  | inr e ↦ e
]

pub result_clauses :
    (s : BruteState) (o : Option Valuation) → (brute_result s o).1.clauses ≡ s.clauses
result_clauses s (some w) = refl
result_clauses s none = refl

pub result_pending :
    (s : BruteState) (o : Option Valuation) → (brute_result s o).1.pending ≡ s.pending
result_pending s (some w) = refl
result_pending s none = refl

abbrev pub brute : Cadical
brute = record {
  State = BruteState;
  fresh = record { clauses = []; pending = []; model = λ _. false };
  add = brute_add;
  solve = brute_solve;
  val = brute_val;
  clauses = λ s. s.clauses;
  pending = λ s. s.pending;
  clauses-fresh = refl;
  pending-fresh = refl;
  clauses-add_zero = λ s. refl;
  pending-add_zero = λ s. refl;
  clauses-add = λ l s h. rw h refl;
  pending-add = λ l s h. rw h refl;
  clauses-solve = λ s. result_clauses s _;
  pending-solve = λ s. result_pending s _;
  solve_sat =
      λ s p. brute_sat s _ (λ w. find_model_sound (bound s.clauses) (λ _. false) s.clauses w);
  solve_unsat = λ s p. brute_unsat s _ (λ v t.
      find_model_complete (bound s.clauses) (λ _. false) v s.clauses t
        (λ n h k. absurd (omega arith)));
}

-- The interface of include/logic/SatSolver.h over it.
abbrev pub brute_solver : SatSolver
brute_solver = implementation brute
