-- ===== src/Af/Rows.antt =====
-- The local tables of `finish_initilization` in src/logic/AF.cpp: a table of member lists and a
-- table of flags, row by row the sets of a relation.
use af_analyzer.Prelude.{
  ℕ, ◌+◌, ◌≤◌, ◌≡◌, refl, ◌∙◌, Bool, true, false, ◌&&◌, ◌||◌, List, [], ◌∷◌, ◌++◌, length, get_or,
  set, contains, contains-append, replicate, ◌==◌, ok, at-get_or, put-set, get_or-replicate_lt,
  get_or-ge, length-set, get_or-set, get_or-replicate, length-replicate, arith, Bool-cases, inl,
  inr,
}
use native.Mathlib.Decide.{dec_lt}
use af_analyzer.VectorBitSet.{IsDistinct, IsDistinct-append}
use af_analyzer.Af.{push_at, mark_at}

-- Row `i` of both tables is the set of the `j` with `R i j`, for i and j up to `n`.
pub record IsTable (n : ℕ) (R : ℕ → ℕ → Bool) (vs : List (List ℕ)) (bs : List (List Bool))
    : Type 0 where
  pub rows : length vs ≡ n + 1
  pub flag_rows : length bs ≡ n + 1
  pub width : (i : ℕ) → i ≤ n → length (get_or bs i []) ≡ n + 1
  pub flags : (i j : ℕ) → get_or (get_or bs i []) j false ≡ R i j
  pub members : (i j : ℕ) → contains (get_or vs i []) j ≡ R i j
  pub distinct : (i : ℕ) → IsDistinct (get_or vs i [])

pub IsTable-replicate :
    (n : ℕ)
    → IsTable n (λ _ _. false) (replicate (n + 1) []) (replicate (n + 1) (replicate (n + 1) false))
IsTable-replicate n = record {
  rows = length-replicate (n + 1) [];
  flag_rows = length-replicate (n + 1) (replicate (n + 1) false);
  width = λ i h.
      rw (get_or-replicate_lt (n + 1) i (replicate (n + 1) false) [] (omega arith))
        (length-replicate (n + 1) false);
  flags = λ i j. elim (dec_lt i (n + 1)) [
    | yes h ↦
        rw (get_or-replicate_lt (n + 1) i (replicate (n + 1) false) [] h)
          (get_or-replicate (n + 1) j false)
    | no h ↦
        rw
          (get_or-ge (replicate (n + 1) (replicate (n + 1) false)) i []
            (omega (arith, length-replicate {0} (n + 1) (replicate (n + 1) false))))
          refl
  ];
  members = λ i j. rw (get_or-replicate {A = List ℕ} (n + 1) i []) refl;
  distinct = λ i. rw (get_or-replicate {A = List ℕ} (n + 1) i []) tt;
}

abbrev row : List (List ℕ) → ℕ → List ℕ
row vs i = get_or vs i []

abbrev flag_row : List (List Bool) → ℕ → List Bool
flag_row bs i = get_or bs i []

module _ {n : ℕ} {R : ℕ → ℕ → Bool} {vs : List (List ℕ)} {bs : List (List Bool)}
    (t : IsTable n R vs bs) (i j : ℕ) (i_le : i ≤ n) (j_le : j ≤ n) where
  open t use {rows, flag_rows, width, flags, members, distinct}

  pub push_at-set : push_at vs i j ≡ ok (set vs i (row vs i ++ j ∷ []))
  unfolding push_at
  push_at-set =
      rw (at-get_or vs i [] (omega arith)) (put-set vs i (row vs i ++ j ∷ []) (omega arith))

  pub mark_at-set : mark_at bs i j ≡ ok (set bs i (set (flag_row bs i) j true))
  unfolding mark_at
  mark_at-set =
      rw
        (
          at-get_or bs i [] (omega arith),
          put-set (flag_row bs i) j true (omega (arith, width i i_le)),
        )
        (put-set bs i (set (flag_row bs i) j true) (omega arith))

  -- The tables with `j` added to row `i`, where it was not yet a member.
  pub IsTable-set :
      {S : ℕ → ℕ → Bool}
      → R i j ≡ false
      → ((k l : ℕ) → S k l ≡ ((i == k && j == l) || R k l))
      → IsTable n S (set vs i (row vs i ++ j ∷ [])) (set bs i (set (flag_row bs i) j true))
  IsTable-set {S} new adds = record {
    rows = omega (arith, length-set vs i (row vs i ++ j ∷ []));
    flag_rows = omega (arith, length-set bs i (set (flag_row bs i) j true));
    width = λ k h. ground (
      arith,
      get_or-set bs i k (set (flag_row bs i) j true) [],
      length-set (flag_row bs i) j true,
      width i,
      width k,
    );
    flags = λ k l. ground (
      arith,
      adds k l,
      get_or-set bs i k (set (flag_row bs i) j true) [],
      get_or-set (flag_row bs i) j l true false,
      width i,
      flags k l,
      flags i l,
    );
    members = λ k l. ground (
      arith,
      adds k l,
      get_or-set vs i k (row vs i ++ j ∷ []) [],
      contains-append (row vs i) (j ∷ []) l,
      members k l,
      members i l,
    );
    distinct = λ k. elim (Bool-cases (i == k)) [
      | inl e ↦
          rw (get_or-set vs i k (row vs i ++ j ∷ []) [] (omega arith), e)
            (IsDistinct-append (row vs i) j (distinct i) (members i j ∙ new))
      | inr e ↦ rw (get_or-set vs i k (row vs i ++ j ∷ []) [] (omega arith), e) (distinct k)
    ];
  }
