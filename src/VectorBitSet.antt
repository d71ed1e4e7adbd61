-- ===== src/VectorBitSet.antt =====
-- include/util/VectorBitSet.h: a set of arguments, as the list of its members and a flag for each
-- argument. The flags, of type uint8_t, hold only 0 and 1.
pub mod Copy
pub mod Count
use af_analyzer.Prelude.{
  ℕ, zero, suc, ◌+◌, ◌≡◌, Bool, true, false, List, [], ◌∷◌, ◌++◌, length, get_or, replicate,
  contains, ltb, if◌then◌else◌, arith, refl, ◌∙◌, ◌||◌, ◌==◌, set, length-set, get_or-set,
  contains-append, length-replicate, get_or-replicate, ◌≤◌, ◌<◌, Result, ok, ◌>>=◌, at, put,
}

pub record VectorBitSet : Type 0 where
  pub vector : List ℕ
  pub bitset : List Bool

-- `VectorBitSet()`.
abbrev pub blank : VectorBitSet
blank = record { vector = []; bitset = [] }

-- The loop of `copy`: `rounds` of them are left, and the next index is `i`.
unfoldable pub copy_loop : VectorBitSet → ℕ → ℕ → List ℕ → List Bool → Result VectorBitSet
copy_loop s zero i copy_vector copy_bitset =
    ok (record { vector = copy_vector; bitset = copy_bitset })
copy_loop s (suc rounds) i copy_vector copy_bitset =
    (if ltb i (length s.vector)
      then (at s.vector i >>= λ a. ok (copy_vector ++ a ∷ []))
      else ok copy_vector)
    >>= λ longer. at s.bitset i >>= λ b.
        put copy_bitset i b >>= λ flags. copy_loop s rounds (i + 1) longer flags

unfoldable pub copy : VectorBitSet → Result VectorBitSet
unfolding copy_loop
copy s = copy_loop s (length s.bitset) 0 [] (replicate (length s.bitset) false)

-- `clear`.
pub clear : VectorBitSet → VectorBitSet
clear s = blank

-- No member is listed twice.
abbrev pub IsDistinct : List ℕ → Type 0
IsDistinct [] = Unit {0}
IsDistinct (a ∷ l) = (contains l a ≡ false) × IsDistinct l

-- `s` holds the arguments with property `p`, among the arguments 0 .. n: both representations say
-- so, and no member is listed twice.
pub record Denotes (n : ℕ) (p : ℕ → Bool) (s : VectorBitSet) : Type 0 where
  pub size : length s.bitset ≡ n + 1
  pub bits : (a : ℕ) → get_or s.bitset a false ≡ p a
  pub items : (a : ℕ) → contains s.vector a ≡ p a
  pub distinct : IsDistinct s.vector

-- The members are at most `n`.
lt-length_of_get_or : (bs : List Bool) (i : ℕ) → get_or bs i false ≡ true → i < length bs
lt-length_of_get_or [] i h = cc
lt-length_of_get_or (b ∷ bs) zero h = omega arith
lt-length_of_get_or (b ∷ bs) (suc i) h = omega (arith, lt-length_of_get_or bs i h)

pub le_of_member :
    {n : ℕ} {p : ℕ → Bool} {s : VectorBitSet} → Denotes n p s → (a : ℕ) → p a ≡ true → a ≤ n
le_of_member {s} d a h = omega (arith, d.size, lt-length_of_get_or s.bitset a (d.bits a ∙ h))

pub IsDistinct-append :
    (xs : List ℕ) (a : ℕ) → IsDistinct xs → contains xs a ≡ false → IsDistinct (xs ++ a ∷ [])
IsDistinct-append [] a d h = (refl, tt)
IsDistinct-append (x ∷ xs) a d h =
    (ground (arith, contains-append xs (a ∷ []) x), IsDistinct-append xs a d.1 (ground arith))

-- The same set, described otherwise.
pub Denotes-eq :
    {n : ℕ} {p q : ℕ → Bool} {s : VectorBitSet}
    → Denotes n p s
    → ((a : ℕ) → p a ≡ q a)
    → Denotes n q s
Denotes-eq d e = record {
  size = d.size;
  bits = λ a. d.bits a ∙ e a;
  items = λ a. d.items a ∙ e a;
  distinct = d.distinct;
}

-- `push_back` of a new member, and its flag.
pub Denotes-add :
    {n : ℕ} {p : ℕ → Bool} {s : VectorBitSet}
    → Denotes n p s
    → (a : ℕ) → a ≤ n
    → p a ≡ false
    → Denotes n
        (λ b. p b || a == b)
        (record { vector = s.vector ++ a ∷ []; bitset = set s.bitset a true })
Denotes-add {s} d a h new = record {
  size = length-set s.bitset a true ∙ d.size;
  bits = λ b. ground (arith, get_or-set s.bitset a b true false, d.size, d.bits b);
  items = λ b. ground (arith, contains-append s.vector (a ∷ []) b, d.items b);
  distinct = IsDistinct-append s.vector a d.distinct (d.items a ∙ new);
}

-- The empty set.
pub Denotes-empty :
    (n : ℕ) → Denotes n (λ _. false) (record { vector = []; bitset = replicate (n + 1) false })
Denotes-empty n = record {
  size = length-replicate (n + 1) false;
  bits = λ a. get_or-replicate (n + 1) a false;
  items = λ a. refl;
  distinct = tt;
}
