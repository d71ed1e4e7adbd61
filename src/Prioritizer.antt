-- ===== src/Prioritizer.antt =====
-- include/logic/Prioritizer.h and src/logic/Prioritizer.cpp: the priority of a task, from the
-- distances of its arguments to the query. Numbers of type uint32_t wrap.
use af_analyzer.Prelude.{
  ℕ, ◌+◌, ◌-◌, ◌%◌, ◌^◌, ◌≤◌, ◌≡◌, refl, true, List, [], ◌∷◌, ◌==◌, ltb, if◌then◌else◌, contains,
  get_or, at-get_or, Result, ok, err, thrown, ◌>>=◌, at, Bool-cases, inl, inr, arith, ==_self,
  eq_of_==, ◌⊎◌,
}
use af_analyzer.Af.{Af}
use af_analyzer.Af.Valid.{IsValid}

-- `num_args - distance_to_query[m]`.
unfoldable pub priority_of : Af → ℕ → Result ℕ
priority_of f m = at f.distance_to_query m >>= λ d. ok ((f.num_args + 2 ^ 32 - d) % 2 ^ 32)

-- The loop over the arguments after the first.
unfoldable pub priority_loop : Af → List ℕ → ℕ → Result ℕ
priority_loop f [] prio = ok prio
priority_loop f (m ∷ rest) prio = priority_of f m >>= λ new_prio.
    priority_loop f rest (if ltb prio new_prio then new_prio else prio)

unfoldable pub calculate_priority : Af → List ℕ → Result ℕ
unfolding priority_of priority_loop
calculate_priority f [] = err thrown
calculate_priority f (m ∷ rest) = priority_of f m >>= λ prio. priority_loop f rest prio

abbrev pub distance : Af → ℕ → ℕ
distance f m = get_or f.distance_to_query m 0

module _ {f : Af} (valid : IsValid f) (near : (m : ℕ) → distance f m ≤ f.num_args) where
  priority_of_lem : (m : ℕ) → m ≤ f.num_args → priority_of f m ≡ ok (f.num_args - distance f m)
  unfolding priority_of
  priority_of_lem m h =
      rw (at-get_or f.distance_to_query m 0 (omega (arith, valid.distances)))
        (ok_eq (omega (arith, near m, valid.small)))
    where
      ok_eq : {a b : ℕ} → a ≡ b → ok a ≡ ok b
      ok_eq e = cc

  priority_loop_lem :
      (l : List ℕ) (prio : ℕ)
      → ((m : ℕ) → contains l m ≡ true → m ≤ f.num_args)
      → (r : ℕ) × (priority_loop f l prio ≡ ok r)
        × (prio ≤ r)
        × ((m : ℕ) → contains l m ≡ true → f.num_args - distance f m ≤ r)
        × ((r ≡ prio) ⊎ ((m : ℕ) × (contains l m ≡ true) × (r ≡ f.num_args - distance f m)))
  unfolding priority_loop
  priority_loop_lem [] prio range = (prio, refl, omega arith, λ m h. cc, inl refl)
  priority_loop_lem (m ∷ l) prio range =
      let here = range m (ground (arith, ==_self m)) in
      let (r, ends, grows, above, found) =
        priority_loop_lem l
          (if ltb prio (f.num_args - distance f m) then f.num_args - distance f m else prio)
          (λ k h. range k (ground arith)) in
      (
        r,
        rw (priority_of_lem m here) ends,
        ground arith,
        λ k h. elim (Bool-cases (m == k)) [
          | inl e ↦ rw (← eq_of_== m k e) (ground arith)
          | inr e ↦ above k (ground arith)
        ],
        elim found [
          | inl e ↦ elim (Bool-cases (ltb prio (f.num_args - distance f m))) [
            | inl k ↦ inr (m, ground (arith, ==_self m), ground arith)
            | inr k ↦ inl (ground arith)
          ]
          | inr (k, h, e) ↦ inr (k, ground arith, e)
        ],
      )

  -- For a nonempty list of arguments of the framework, the priority is the largest of their
  -- `num_args` minus distance: no member's is larger, and it is that of some member.
  pub calculate_priority_lem :
      (m : ℕ) (l : List ℕ)
      → ((k : ℕ) → contains (m ∷ l) k ≡ true → k ≤ f.num_args)
      → (r : ℕ) × (calculate_priority f (m ∷ l) ≡ ok r)
        × ((k : ℕ) → contains (m ∷ l) k ≡ true → f.num_args - distance f k ≤ r)
        × ((k : ℕ) × (contains (m ∷ l) k ≡ true) × (r ≡ f.num_args - distance f k))
  unfolding calculate_priority
  calculate_priority_lem m l range =
      let here = range m (ground (arith, ==_self m)) in
      let (r, ends, grows, above, found) =
        priority_loop_lem l (f.num_args - distance f m) (λ k h. range k (ground arith)) in
      (
        r,
        rw (priority_of_lem m here) ends,
        λ k h. elim (Bool-cases (m == k)) [
          | inl e ↦ rw (← eq_of_== m k e) grows
          | inr e ↦ above k (ground arith)
        ],
        elim found [
          | inl e ↦ (m, ground (arith, ==_self m), e)
          | inr (k, h, e) ↦ (k, ground arith, e)
        ],
      )
