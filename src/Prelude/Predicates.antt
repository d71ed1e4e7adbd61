-- ===== src/Prelude/Predicates.antt =====
-- That all members of a list, or some member, have a property, with proofs for each.
use mathlib.Core.Logic.{◌⊎◌, inl, inr}
use mathlib.Core.List.{List, [], ◌∷◌, ◌++◌}

abbrev pub AllOf {ℓ} : {A : Type ℓ} → (A → Type 0) → List A → Type 0
AllOf P [] = Unit {0}
AllOf P (x ∷ xs) = P x × AllOf P xs

abbrev pub SomeOf {ℓ} : {A : Type ℓ} → (A → Type 0) → List A → Type 0
SomeOf P [] = ⊥
SomeOf P (x ∷ xs) = P x ⊎ SomeOf P xs

module _ {A : Type 0} (P : A → Type 0) where
  pub AllOf-append : (xs ys : List A) → AllOf P xs → AllOf P ys → AllOf P (xs ++ ys)
  AllOf-append [] ys h k = k
  AllOf-append (x ∷ xs) ys h k = (h.0, AllOf-append xs ys h.1 k)

  pub AllOf-split : (xs ys : List A) → AllOf P (xs ++ ys) → AllOf P xs × AllOf P ys
  AllOf-split [] ys h = (tt, h)
  AllOf-split (x ∷ xs) ys h = let (a, b) = AllOf-split xs ys h.1 in ((h.0, a), b)

  pub SomeOf-append : (xs ys : List A) → (SomeOf P xs) ⊎ (SomeOf P ys) → SomeOf P (xs ++ ys)
  SomeOf-append [] ys (inl h) = elim h [ ]
  SomeOf-append [] ys (inr h) = h
  SomeOf-append (x ∷ xs) ys (inl (inl h)) = inl h
  SomeOf-append (x ∷ xs) ys (inl (inr h)) = inr (SomeOf-append xs ys (inl h))
  SomeOf-append (x ∷ xs) ys (inr h) = inr (SomeOf-append xs ys (inr h))

  pub SomeOf-split : (xs ys : List A) → SomeOf P (xs ++ ys) → (SomeOf P xs) ⊎ (SomeOf P ys)
  SomeOf-split [] ys h = inr h
  SomeOf-split (x ∷ xs) ys (inl h) = inl (inl h)
  SomeOf-split (x ∷ xs) ys (inr h) = elim (SomeOf-split xs ys h) [
    | inl k ↦ inl (inr k)
    | inr k ↦ inr k
  ]
