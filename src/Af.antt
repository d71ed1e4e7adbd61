-- ===== src/Af.antt =====
-- include/logic/AF.h and src/logic/AF.cpp: the argumentation framework, its set of attacks and the
-- tables that `finish_initilization` derives from it. The iteration order of the hash set of
-- attacks is not fixed by the code, and is a parameter.
pub mod Rows
pub mod Build
pub mod Valid
pub mod Finish
pub mod Fault
pub mod Hash
use af_analyzer.Prelude.{
  ℕ, zero, suc, ◌+◌, ◌-◌, ◌^◌, ◌≤◌, ◌<◌, ◌≡◌, Bool, true, false, ◌&&◌, ◌||◌, List, [], ◌∷◌, ◌++◌,
  map, length, get_or, replicate, ltb, ◌==◌, if◌then◌else◌, Result, ok, err, out_of_range, ◌>>=◌,
  at, put,
}
use af_analyzer.VectorBitSet.{VectorBitSet, blank, Denotes}

-- `pair<uint32_t, uint32_t>`: the attacker and the victim.
abbrev pub Attack : Type 0
Attack = ℕ × ℕ

-- `attacks.count(make_pair(a, b))`.
abbrev pub has_attack : List Attack → ℕ → ℕ → Bool
has_attack [] a b = false
has_attack ((s, t) ∷ l) a b = (s == a && t == b) || has_attack l a b

-- `insert` of `unordered_set`.
abbrev pub insert_attack : ℕ → ℕ → List Attack → List Attack
insert_attack a b l = if has_attack l a b then l else (a, b) ∷ l

pub record Af : Type 0 where
  pub num_args : ℕ
  pub attackers : List VectorBitSet
  pub victims : List VectorBitSet
  pub self_attack : List Bool
  pub attacks : List Attack
  pub symmetric_attacks : List Attack
  pub distance_to_query : List ℕ

-- A framework that has just been constructed.
abbrev pub empty_af : Af
empty_af = record {
  num_args = 0;
  attackers = [];
  victims = [];
  self_attack = [];
  attacks = [];
  symmetric_attacks = [];
  distance_to_query = [];
}

unfoldable pub exists_attack : Af → ℕ → ℕ → Bool
exists_attack f attacker victim = has_attack f.attacks attacker victim

-- The result says whether the attack is new. An argument of type uint32_t is never negative.
unfoldable pub add_attack : Af → ℕ → ℕ → Af × Bool
add_attack f attacker victim =
    if ltb attacker 0 || ltb victim 0
    then (f, false)
    else if has_attack f.attacks attacker victim
    then (f, false)
    else (record f { attacks = insert_attack attacker victim f.attacks }, true)

-- `resize` of `vector`: drops what is behind the new size, and fills up with `d`.
abbrev pub resize {ℓ} : {A : Type ℓ} → ℕ → A → List A → List A
resize zero d xs = []
resize (suc n) d [] = d ∷ resize n d []
resize (suc n) d (x ∷ xs) = x ∷ resize n d xs

unfoldable pub initialize : Af → ℕ → Af
initialize f number_args = record f {
  num_args = number_args;
  attackers = resize (number_args + 1) blank f.attackers;
  victims = resize (number_args + 1) blank f.victims;
  self_attack = map (λ _. false) (resize (number_args + 1) false f.self_attack);
  distance_to_query = map (λ _. 0) (resize (number_args + 1) 0 f.distance_to_query);
}

-- An index of type int32_t that was converted from uint32_t, as the size_t that it indexes with:
-- from 2 ^ 31 on it is negative and is sign-extended.
abbrev pub int32_index : ℕ → ℕ
int32_index a = if ltb a (2 ^ 31) then a else a + (2 ^ 64 - 2 ^ 32)

-- The local tables of `finish_initilization`, with the two members that its loop changes.
pub record Tables : Type 0 where
  pub attackers_vectors : List (List ℕ)
  pub attackers_bitsets : List (List Bool)
  pub victims_vectors : List (List ℕ)
  pub victims_bitsets : List (List Bool)
  pub self_attack : List Bool
  pub symmetric_attacks : List Attack

-- `rows[i].push_back(x)`.
unfoldable pub push_at : List (List ℕ) → ℕ → ℕ → Result (List (List ℕ))
push_at rows i x = at rows i >>= λ row. put rows i (row ++ x ∷ [])

-- `rows[i][j] = true`.
unfoldable pub mark_at : List (List Bool) → ℕ → ℕ → Result (List (List Bool))
mark_at rows i j = at rows i >>= λ row. put row j true >>= λ row'. put rows i row'

-- One round of the loop over the attacks; `all` is the set of attacks itself.
unfoldable pub tabulate_step : List Attack → Tables → ℕ → ℕ → Result Tables
tabulate_step all t a b =
    let source = int32_index a in
    let target = int32_index b in
    push_at t.attackers_vectors target a >>= λ av.
    mark_at t.attackers_bitsets target source >>= λ ab. push_at t.victims_vectors source b >>= λ vv.
    mark_at t.victims_bitsets source target >>= λ vb.
    (if a == b then put t.self_attack source true else ok t.self_attack) >>= λ self. ok (record {
      attackers_vectors = av;
      attackers_bitsets = ab;
      victims_vectors = vv;
      victims_bitsets = vb;
      self_attack = self;
      symmetric_attacks =
          if has_attack all b a
          then insert_attack b a (insert_attack a b t.symmetric_attacks)
          else t.symmetric_attacks;
    })

unfoldable pub tabulate : List Attack → List Attack → Tables → Result Tables
tabulate all [] t = ok t
tabulate all ((a, b) ∷ rest) t = tabulate_step all t a b >>= λ t'. tabulate all rest t'

-- The two loops that fill `attackers` and `victims` from the local tables: one round for each
-- element of the old vector.
unfoldable pub assemble :
    List VectorBitSet → List (List ℕ) → List (List Bool) → Result (List VectorBitSet)
assemble [] vs bs = ok []
assemble (x ∷ old) (v ∷ vs) (b ∷ bs) =
    assemble old vs bs >>= λ rest. ok (record { vector = v; bitset = b } ∷ rest)
assemble (x ∷ old) [] bs = err out_of_range
assemble (x ∷ old) (v ∷ vs) [] = err out_of_range

-- No attack is listed twice.
abbrev pub AreDistinct : List Attack → Type 0
AreDistinct [] = Unit {0}
AreDistinct ((a, b) ∷ l) = (has_attack l a b ≡ false) × AreDistinct l

-- The order in which a loop visits the hash set: each element once.
pub record Iteration : Type 0 where
  pub order : List Attack → List Attack
  pub visits : (l : List Attack) (a b : ℕ) → has_attack (order l) a b ≡ has_attack l a b
  pub once : (l : List Attack) → AreDistinct l → AreDistinct (order l)

unfoldable pub finish_initilization : Iteration → Af → Result Af
unfolding tabulate assemble
finish_initilization it f =
    let n = f.num_args + 1 in
    tabulate f.attacks (it.order f.attacks) (record {
      attackers_vectors = replicate n [];
      attackers_bitsets = replicate n (replicate n false);
      victims_vectors = replicate n [];
      victims_bitsets = replicate n (replicate n false);
      self_attack = f.self_attack;
      symmetric_attacks = f.symmetric_attacks;
    })
    >>= λ t. assemble f.attackers t.attackers_vectors t.attackers_bitsets >>= λ attackers.
        assemble f.victims t.victims_vectors t.victims_bitsets >>= λ victims. ok (record f {
          attackers = attackers;
          victims = victims;
          self_attack = t.self_attack;
          symmetric_attacks = t.symmetric_attacks;
        })
