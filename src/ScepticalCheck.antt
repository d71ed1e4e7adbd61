-- ===== src/ScepticalCheck.antt =====
-- include/logic/ScepticalCheck.h and src/logic/ScepticalCheck.cpp: what a found set says about the
-- query.
use af_analyzer.Prelude.{
  ℕ, ◌≤◌, ◌≡◌, refl, Bool, true, false, List, [], ◌∷◌, ◌==◌, if◌then◌else◌, any, contains, Result,
  ok, ◌>>=◌, at, Bool-cases, inl, inr, arith, ==_self,
}
use af_analyzer.Af.{Af, exists_attack}
use af_analyzer.Af.Valid.{IsValid, at-victims, at-victims-bitset}

unfoldable pub check_rejection : ℕ → List ℕ → Af → Result Bool
check_rejection argument [] f = ok false
check_rejection argument (m ∷ rest) f =
    let later = check_rejection argument rest f in
    at f.victims m >>= λ row.
    at row.bitset argument >>= λ attacked. if attacked then ok true else later

unfoldable pub check_terminate_extension_build : ℕ → List ℕ → Bool
check_terminate_extension_build argument [] = false
check_terminate_extension_build argument (m ∷ rest) =
    if m == argument then true else check_terminate_extension_build argument rest

-- For arguments of the framework, `check_rejection` says whether a member of the set attacks the
-- query.
pub check_rejection_lem :
    {f : Af} (valid : IsValid f) (q : ℕ) (l : List ℕ)
    → q ≤ f.num_args
    → ((m : ℕ) → contains l m ≡ true → m ≤ f.num_args)
    → check_rejection q l f ≡ ok (any (λ m. exists_attack f m q) l)
unfolding check_rejection
check_rejection_lem valid q [] hq range = refl
check_rejection_lem {f} valid q (m ∷ l) hq range =
    let hm = range m (ground (arith, ==_self m)) in
    let rest = check_rejection_lem valid q l hq (λ k h. range k (ground arith)) in
    elim (Bool-cases (exists_attack f m q)) [
      | inl e ↦ rw (at-victims valid m hm, at-victims-bitset valid m hm q hq, e) refl
      | inr e ↦ rw (at-victims valid m hm, at-victims-bitset valid m hm q hq, e) rest
    ]

-- `check_terminate_extension_build` says whether the query is a member of the set.
pub check_terminate_lem : (q : ℕ) (l : List ℕ) → check_terminate_extension_build q l ≡ contains l q
unfolding check_terminate_extension_build
check_terminate_lem q [] = refl
check_terminate_lem q (m ∷ l) = ground (arith, check_terminate_lem q l)
