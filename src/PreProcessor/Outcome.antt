-- ===== src/PreProcessor/Outcome.antt =====
-- What the three results of `PreProc_DS_PR::process` in src/logic/PreProcessor_DS_PR.cpp say of the
-- whole framework, from what `reduce_by_grounded` decides for the cone of influence.
use af_analyzer.Prelude.{
  ℕ, zero, suc, ◌<◌, ◌+◌, ◌≡◌, sym, ◌∙◌, true, false, List, [], ◌∷◌, ltb, contains, arith,
}
use mathlib.Core.Path.{subst}
use af_analyzer.VectorBitSet.{VectorBitSet, Denotes, Denotes-eq}
use af_analyzer.Af.{Af, exists_attack}
use af_analyzer.Semantics.{ArgSet, IsSubset, IsAdmissible, IsPreferred, IsSceptical}
use af_analyzer.Semantics.Reducts.{union, union-IsAdmissible}
use af_analyzer.Semantics.Grounded.{IsForced, add-IsSceptical, drop-IsSceptical}
use af_analyzer.Semantics.Cone.{
  within, within-IsPreferred, widen-IsSceptical, narrow-IsSceptical, part-IsAdmissible,
}
use af_analyzer.PreProcessor.{PreProcResult, accepted, rejected, unknown}
use af_analyzer.PreProcessor.Visits.{Walk}
use af_analyzer.PreProcessor.Grounded.{VerdictHolds}

-- All arguments of the framework, and 0.
abbrev pub everything : Af → ArgSet
everything f a = ltb a (f.num_args + 1)

-- What `process` leaves to the search: a reduct that decides the query as the framework does.
pub record IsOpen (f : Af) (q : ℕ) (reduct : VectorBitSet) : Type 0 where
  pub denotes : Denotes f.num_args (contains reduct.vector) reduct
  pub included : contains reduct.vector q ≡ true
  pub no_self : exists_attack f q q ≡ false
  pub walks : (a : ℕ) → contains reduct.vector a ≡ true → (k : ℕ) × Walk f q a k
  pub accepts :
      IsSceptical (exists_attack f) (contains reduct.vector) q
      → IsSceptical (exists_attack f) (everything f) q
  pub joins :
      (S : ArgSet)
      → IsAdmissible (exists_attack f) (contains reduct.vector) S
      → (G : ArgSet) × IsAdmissible (exists_attack f) (everything f) (union G S)
  pub rejects :
      IsSceptical (exists_attack f) (everything f) q
      → IsSceptical (exists_attack f) (contains reduct.vector) q

abbrev pub Outcome : Af → ℕ → PreProcResult → VectorBitSet → Type 0
Outcome f q accepted reduct = IsSceptical (exists_attack f) (everything f) q
Outcome f q rejected reduct =
    (P : ArgSet) → IsPreferred (exists_attack f) (everything f) P → P q ≡ false
Outcome f q unknown reduct = IsOpen f q reduct

pub Outcome-VerdictHolds :
    (f : Af) (q : ℕ) (verdict : PreProcResult) (reduct : VectorBitSet)
    → Outcome f q verdict reduct
    → VerdictHolds f (everything f) q verdict (contains reduct.vector)
Outcome-VerdictHolds f q accepted reduct h = h
Outcome-VerdictHolds f q rejected reduct h = h
Outcome-VerdictHolds f q unknown reduct h = h.included

-- The numbers below the given one.
abbrev pub below : ℕ → List ℕ
below zero = []
below (suc n) = n ∷ below n

pub contains-below : (n a : ℕ) → a < n → contains (below n) a ≡ true
contains-below zero a h = elim h [ ]
contains-below (suc n) a h = ground (arith, contains-below n a)

module _ (f : Af) {p : ArgSet} (q : ℕ) (sub : IsSubset p (everything f))
    (closed : (a b : ℕ) → p b ≡ true → exists_attack f a b ≡ true → p a ≡ true) (hq : p q ≡ true)
    (walks : (a : ℕ) → p a ≡ true → (k : ℕ) × Walk f q a k)
    (no_self : exists_attack f q q ≡ false) where
  -- A verdict for the cone is one for the framework.
  pub outcome_lem :
      (verdict : PreProcResult) (reduct : VectorBitSet) (G r : ArgSet)
      → Denotes f.num_args r reduct
      → IsForced (exists_attack f) p G r
      → VerdictHolds f p q verdict r
      → Outcome f q verdict reduct
  outcome_lem accepted reduct G r d forced holds =
      widen-IsSceptical sub (λ a b h k g. closed a b h g) q hq holds
  outcome_lem rejected reduct G r d forced holds = λ P pref.
      let here = holds (within p P) (within-IsPreferred sub (λ a b h k g. closed a b h g) P pref) in
      ground (arith, here, hq)
  outcome_lem unknown reduct G r d forced holds =
      let same : r ≡ contains reduct.vector = λ i a. sym (d.items a) i in
      record {
        denotes = Denotes-eq d (λ a. sym (d.items a));
        included = d.items q ∙ holds;
        no_self = no_self;
        walks = λ a h. walks a (forced.is_reduct.within a (sym (d.items a) ∙ h));
        accepts = λ h.
            widen-IsSceptical sub (λ a b k m g. closed a b k g) q hq
              (add-IsSceptical forced q
                (subst (λ X. IsSceptical (exists_attack f) X q) (sym same) h));
        joins = λ S s. (
          G,
          part-IsAdmissible sub (λ a b k m g. closed a b k g) q hq (union G S)
              (union-IsAdmissible forced.is_reduct forced.admissible
                (subst (λ X. IsAdmissible (exists_attack f) X S) (sym same) s)),
        );
        rejects = λ h.
            subst (λ X. IsSceptical (exists_attack f) X q) same
              (drop-IsSceptical forced q holds (
                narrow-IsSceptical sub (λ a b k m g. closed a b k g) q hq (below (f.num_args + 1))
                  (λ a k. contains-below (f.num_args + 1) a (ground arith)) h));
      }
