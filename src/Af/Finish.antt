-- ===== src/Af/Finish.antt =====
-- The life of a framework in src/logic/AF.cpp: `initialize`, some calls of `add_attack`, and
-- `finish_initilization`, which fails exactly if an attack names an argument above `num_args`.
use af_analyzer.Prelude.{
  ℕ, zero, suc, ◌+◌, ◌^◌, ◌≤◌, ◌<◌, ◌≡◌, refl, sym, ◌∙◌, ap, inl, inr, Bool, true, false, ◌&&◌,
  ◌||◌, not, List, [], ◌∷◌, length, map, get_or, ltb, ◌==◌, ok, replicate, Bool-cases, arith,
}
use af_analyzer.VectorBitSet.{VectorBitSet, Denotes, blank}
use af_analyzer.Af.{
  has_attack, Af, empty_af, Tables, AreDistinct, Iteration, assemble, initialize, add_attack,
  finish_initilization, exists_attack, resize,
}
use af_analyzer.Af.Rows.{IsTable, IsTable-replicate}
use af_analyzer.Af.Build.{IsBuilt, tabulate-IsBuilt}
use af_analyzer.Af.Valid.{IsValid}

-- What holds between `initialize` and `finish_initilization`.
pub record IsInitialized (f : Af) : Type 0 where
  pub small : f.num_args < 2 ^ 31
  pub attackers_size : length f.attackers ≡ f.num_args + 1
  pub victims_size : length f.victims ≡ f.num_args + 1
  pub self_size : length f.self_attack ≡ f.num_args + 1
  pub self_clear : (a : ℕ) → get_or f.self_attack a false ≡ false
  pub symmetric : (a b : ℕ) → has_attack f.symmetric_attacks a b ≡ false
  pub distances : length f.distance_to_query ≡ f.num_args + 1
  pub distinct : AreDistinct f.attacks

length-resize {ℓ} : {A : Type ℓ} (n : ℕ) (d : A) (xs : List A) → length (resize n d xs) ≡ n
length-resize zero d xs = refl
length-resize (suc n) d [] = ap suc (length-resize n d [])
length-resize (suc n) d (x ∷ xs) = ap suc (length-resize n d xs)

length-map {ℓ κ} :
    {A : Type ℓ} {B : Type κ} (g : A → B) (xs : List A) → length (map g xs) ≡ length xs
length-map g [] = refl
length-map g (x ∷ xs) = ap suc (length-map g xs)

get_or-map_const {ℓ} :
    {A : Type ℓ} (xs : List A) (i : ℕ) → get_or (map (λ _. false) xs) i false ≡ false
get_or-map_const [] i = refl
get_or-map_const (x ∷ xs) zero = refl
get_or-map_const (x ∷ xs) (suc i) = get_or-map_const xs i

-- A fresh framework is initialised, and has no attack.
pub initialize-IsInitialized : (n : ℕ) → n < 2 ^ 31 → IsInitialized (initialize empty_af n)
unfolding initialize
initialize-IsInitialized n h = record {
  small = h;
  attackers_size = length-resize (n + 1) blank [];
  victims_size = length-resize (n + 1) blank [];
  self_size = length-map _ (resize (n + 1) false []) ∙ length-resize (n + 1) false [];
  self_clear = get_or-map_const (resize (n + 1) false []);
  symmetric = λ a b. refl;
  distances = length-map _ (resize (n + 1) 0 []) ∙ length-resize (n + 1) 0 [];
  distinct = tt;
}

ltb_zero : (a : ℕ) → ltb a 0 ≡ false
ltb_zero a = ground arith

add_attack_known :
    (f : Af) (a b : ℕ) → has_attack f.attacks a b ≡ true → add_attack f a b ≡ (f, false)
unfolding add_attack
add_attack_known f a b e = rw (ltb_zero a, ltb_zero b, e) refl

add_attack_new :
    (f : Af) (a b : ℕ)
    → has_attack f.attacks a b ≡ false
    → add_attack f a b ≡ (record f { attacks = (a, b) ∷ f.attacks }, true)
unfolding add_attack
add_attack_new f a b e = rw (ltb_zero a, ltb_zero b, e) refl

-- After `add_attack` exactly the attack asked for and the earlier ones are there, the number of
-- arguments is as before, and the result says whether the attack was new.
pub add_attack-exists :
    (f : Af) (a b : ℕ)
    → ((c d : ℕ)
        → exists_attack (add_attack f a b).0 c d ≡ ((a == c && b == d) || exists_attack f c d))
      × ((add_attack f a b).1 ≡ not (exists_attack f a b))
      × ((add_attack f a b).0.num_args ≡ f.num_args)
unfolding exists_attack
add_attack-exists f a b = elim (Bool-cases (has_attack f.attacks a b)) [
  | inl e ↦ rw (add_attack_known f a b e, e) ((λ c d. ground arith), refl, refl)
  | inr e ↦ rw (add_attack_new f a b e, e) ((λ c d. refl), refl, refl)
]

pub add_attack-distance_to_query :
    (f : Af) (a b : ℕ) → (add_attack f a b).0.distance_to_query ≡ f.distance_to_query
add_attack-distance_to_query f a b = elim (Bool-cases (has_attack f.attacks a b)) [
  | inl e ↦ rw (add_attack_known f a b e) refl
  | inr e ↦ rw (add_attack_new f a b e) refl
]

pub add_attack-victims : (f : Af) (a b : ℕ) → (add_attack f a b).0.victims ≡ f.victims
add_attack-victims f a b = elim (Bool-cases (has_attack f.attacks a b)) [
  | inl e ↦ rw (add_attack_known f a b e) refl
  | inr e ↦ rw (add_attack_new f a b e) refl
]

-- `add_attack` keeps the framework initialised, and its set of attacks free of duplicates.
pub add_attack-IsInitialized :
    (f : Af) (a b : ℕ) → IsInitialized f → IsInitialized (add_attack f a b).0
add_attack-IsInitialized f a b h = elim (Bool-cases (has_attack f.attacks a b)) [
  | inl e ↦ rw (add_attack_known f a b e) h
  | inr e ↦ rw (add_attack_new f a b e) (record {
    small = h.small;
    attackers_size = h.attackers_size;
    victims_size = h.victims_size;
    self_size = h.self_size;
    self_clear = h.self_clear;
    symmetric = h.symmetric;
    distances = h.distances;
    distinct = (e, h.distinct);
  })
]

assemble_lem :
    (old : List VectorBitSet) (vs : List (List ℕ)) (bs : List (List Bool))
    → length vs ≡ length old
    → length bs ≡ length old
    → (rows : List VectorBitSet) × (assemble old vs bs ≡ ok rows)
      × (length rows ≡ length old)
      × ((i : ℕ)
          → get_or rows i blank ≡ record { vector = get_or vs i []; bitset = get_or bs i [] })
unfolding assemble
assemble_lem [] [] [] p q = ([], refl, refl, λ i. refl)
assemble_lem [] (v ∷ vs) bs p q = absurd (omega arith)
assemble_lem [] [] (b ∷ bs) p q = absurd (omega arith)
assemble_lem (x ∷ old) [] bs p q = absurd (omega arith)
assemble_lem (x ∷ old) (v ∷ vs) [] p q = absurd (omega arith)
assemble_lem (x ∷ old) (v ∷ vs) (b ∷ bs) p q =
    let (rows, e, n, each) = assemble_lem old vs bs (omega arith) (omega arith) in
    (record { vector = v; bitset = b } ∷ rows, rw e refl, ap suc n, row_cases rows each)
  where
    row_cases :
        (rows : List VectorBitSet)
        → ((i : ℕ)
            → get_or rows i blank ≡ record { vector = get_or vs i []; bitset = get_or bs i [] })
        → (i : ℕ)
        → get_or (record { vector = v; bitset = b } ∷ rows) i blank
          ≡ record { vector = get_or (v ∷ vs) i []; bitset = get_or (b ∷ bs) i [] }
    row_cases rows each zero = refl
    row_cases rows each (suc i) = each i

row-Denotes :
    {n : ℕ} {R : ℕ → ℕ → Bool} {vs : List (List ℕ)} {bs : List (List Bool)}
    → IsTable n R vs bs
    → (i : ℕ) → i ≤ n
    → Denotes n (R i) (record { vector = get_or vs i []; bitset = get_or bs i [] })
row-Denotes t i h = record {
  size = t.width i h;
  bits = t.flags i;
  items = t.members i;
  distinct = t.distinct i;
}

module _ (it : Iteration) (f : Af) (init : IsInitialized f) where
  abbrev pub start : Tables
  start = record {
    attackers_vectors = replicate (f.num_args + 1) [];
    attackers_bitsets = replicate (f.num_args + 1) (replicate (f.num_args + 1) false);
    victims_vectors = replicate (f.num_args + 1) [];
    victims_bitsets = replicate (f.num_args + 1) (replicate (f.num_args + 1) false);
    self_attack = f.self_attack;
    symmetric_attacks = f.symmetric_attacks;
  }

  pub start-IsBuilt : IsBuilt f.num_args f.attacks (λ _ _. false) start
  start-IsBuilt = record {
    attacked = IsTable-replicate f.num_args;
    attacking = IsTable-replicate f.num_args;
    self_size = init.self_size;
    self = init.self_clear;
    symmetric = init.symmetric;
  }

  -- If every attack is in range, `finish_initilization` returns a framework whose tables agree with
  -- the set of attacks; that set, the number of arguments and the distances are as before.
  pub finish_initilization-IsValid :
      ((a b : ℕ) → exists_attack f a b ≡ true → (a ≤ f.num_args) × (b ≤ f.num_args))
      → (f' : Af) × (finish_initilization it f ≡ ok f')
        × IsValid f'
        × (f'.num_args ≡ f.num_args)
        × ((a b : ℕ) → exists_attack f' a b ≡ exists_attack f a b)
        × (f'.distance_to_query ≡ f.distance_to_query)
  unfolding finish_initilization exists_attack
  finish_initilization-IsValid range =
      let (t, loop, built) =
        tabulate-IsBuilt f.num_args f.attacks (it.order f.attacks) (λ _ _. false)
          (has_attack f.attacks) start init.small start-IsBuilt (it.once f.attacks init.distinct)
          (λ a b m. refl) (λ a b m. sym (it.visits f.attacks a b) ∙ m)
          (λ a b m. range a b (sym (it.visits f.attacks a b) ∙ m))
          (λ a b. ground (arith, it.visits f.attacks a b)) in
      let (ins, e, ins_size, each_in) =
        assemble_lem f.attackers t.attackers_vectors t.attackers_bitsets
          (built.attacked.rows ∙ sym init.attackers_size)
          (built.attacked.flag_rows ∙ sym init.attackers_size) in
      let (outs, e', outs_size, each_out) =
        assemble_lem f.victims t.victims_vectors t.victims_bitsets
          (built.attacking.rows ∙ sym init.victims_size)
          (built.attacking.flag_rows ∙ sym init.victims_size) in
      (
        record f {
          attackers = ins;
          victims = outs;
          self_attack = t.self_attack;
          symmetric_attacks = t.symmetric_attacks;
        },
        rw (loop, e, e') refl,
        record {
          small = init.small;
          in_range = range;
          attackers_size = ins_size ∙ init.attackers_size;
          victims_size = outs_size ∙ init.victims_size;
          attackers = λ b h. rw (each_in b) (row-Denotes built.attacked b h);
          victims = λ a h. rw (each_out a) (row-Denotes built.attacking a h);
          self_size = built.self_size;
          self_attack = built.self;
          symmetric = λ a b. ground (arith, built.symmetric a b);
          distances = init.distances;
        },
        refl,
        (λ a b. refl),
        refl,
      )
