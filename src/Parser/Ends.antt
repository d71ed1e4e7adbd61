-- ===== src/Parser/Ends.antt =====
-- How `ParserICCMA::parse_af` of src/logic/Parser_iccma.cpp ends, on any input.
use Prim.Native.String.{String}
use af_analyzer.Prelude.{
  ℕ, zero, suc, ◌+◌, ◌<◌, ◌≡◌, refl, ◌∙◌, ◌⊎◌, inl, inr, Bool, true, false, ◌||◌, Option, none,
  some, List, [], ◌∷◌, length, ◌==◌, if◌then◌else◌, Bool-cases, Result, ok, err, Error,
  out_of_range, exited, uninitialised, ◌>>=◌, at, put, arith,
}
use af_analyzer.VectorBitSet.{VectorBitSet}
use af_analyzer.Text.{newline, is_nil, first, getline, stream, extract_uint32, to_uint32}
use af_analyzer.Af.{
  Af, Attack, Iteration, Tables, int32_index, initialize, push_at, mark_at, tabulate_step, tabulate,
  assemble, finish_initilization,
}
use af_analyzer.Parser.{Files, header, initialised, read_line, read_lines, parse_input, parse_af}

-- The result is a value, or the error.
abbrev pub OkOr {ℓ} : {A : Type ℓ} → Error → Result A → Type ℓ
OkOr {A = A} e r = ((a : A) × (r ≡ ok a)) ⊎ (r ≡ err e)

bind-OkOr :
    {A B : Type 0} {e : Error} (r : Result A) (next : A → Result B)
    → OkOr e r
    → ((a : A) → OkOr e (next a))
    → OkOr e (r >>= next)
bind-OkOr r next (inl (a, h)) k = rw h (k a)
bind-OkOr r next (inr h) k = inr (rw h refl)

at-OkOr : {A : Type 0} (l : List A) (i : ℕ) → OkOr out_of_range (at l i)
at-OkOr [] i = inr refl
at-OkOr (x ∷ l) zero = inl (x, refl)
at-OkOr (x ∷ l) (suc i) = at-OkOr l i

put-OkOr : {A : Type 0} (l : List A) (i : ℕ) (v : A) → OkOr out_of_range (put l i v)
put-OkOr [] i v = inr refl
put-OkOr (x ∷ l) zero v = inl (v ∷ l, refl)
put-OkOr (x ∷ l) (suc i) v = bind-OkOr (put l i v) _ (put-OkOr l i v) (λ l'. inl (x ∷ l', refl))

push_at-OkOr : (rows : List (List ℕ)) (i x : ℕ) → OkOr out_of_range (push_at rows i x)
unfolding push_at
push_at-OkOr rows i x = bind-OkOr (at rows i) _ (at-OkOr rows i) (λ row. put-OkOr rows i _)

mark_at-OkOr : (rows : List (List Bool)) (i j : ℕ) → OkOr out_of_range (mark_at rows i j)
unfolding mark_at
mark_at-OkOr rows i j =
    bind-OkOr (at rows i) _ (at-OkOr rows i)
      (λ row. bind-OkOr (put row j true) _ (put-OkOr row j true) (λ row'. put-OkOr rows i row'))

self-OkOr :
    (t : Tables) (a b i : ℕ)
    → OkOr out_of_range (if a == b then put t.self_attack i true else ok t.self_attack)
self-OkOr t a b i = elim (Bool-cases (a == b)) [
  | inl e ↦ rw e (put-OkOr t.self_attack i true)
  | inr e ↦ rw e (inl (t.self_attack, refl))
]

tabulate_step-OkOr :
    (l : List Attack) (t : Tables) (a b : ℕ) → OkOr out_of_range (tabulate_step l t a b)
unfolding tabulate_step
tabulate_step-OkOr l t a b =
    bind-OkOr (push_at t.attackers_vectors (int32_index b) a) _ (push_at-OkOr _ _ a) (λ av.
      bind-OkOr (mark_at t.attackers_bitsets (int32_index b) (int32_index a)) _ (mark_at-OkOr _ _ _)
        (λ ab. bind-OkOr (push_at t.victims_vectors (int32_index a) b) _ (push_at-OkOr _ _ b) (λ vv.
          bind-OkOr (mark_at t.victims_bitsets (int32_index a) (int32_index b)) _
            (mark_at-OkOr _ _ _)
            (λ vb.
              bind-OkOr
                (if a == b then put t.self_attack (int32_index a) true else ok t.self_attack) _
                (self-OkOr t a b (int32_index a)) (λ self. inl (_, refl))))))

pub tabulate-OkOr : (l rest : List Attack) (t : Tables) → OkOr out_of_range (tabulate l rest t)
unfolding tabulate
tabulate-OkOr l [] t = inl (t, refl)
tabulate-OkOr l ((a, b) ∷ rest) t =
    bind-OkOr (tabulate_step l t a b) _ (tabulate_step-OkOr l t a b) (tabulate-OkOr l rest)

pub assemble-OkOr :
    (old : List VectorBitSet) (vs : List (List ℕ)) (bs : List (List Bool))
    → OkOr out_of_range (assemble old vs bs)
unfolding assemble
assemble-OkOr [] vs bs = inl ([], refl)
assemble-OkOr (x ∷ old) [] bs = inr refl
assemble-OkOr (x ∷ old) (v ∷ vs) [] = inr refl
assemble-OkOr (x ∷ old) (v ∷ vs) (b ∷ bs) =
    bind-OkOr (assemble old vs bs) _ (assemble-OkOr old vs bs) (λ rest. inl (_, refl))

finish_initilization-OkOr :
    (it : Iteration) (f : Af) → OkOr out_of_range (finish_initilization it f)
unfolding finish_initilization
finish_initilization-OkOr it f =
    bind-OkOr (tabulate f.attacks (it.order f.attacks) _) _ (tabulate-OkOr _ _ _) (λ t.
      bind-OkOr (assemble f.attackers t.attackers_vectors t.attackers_bitsets) _
        (assemble-OkOr f.attackers t.attackers_vectors t.attackers_bitsets)
        (λ ins.
          bind-OkOr (assemble f.victims t.victims_vectors t.victims_bitsets) _
            (assemble-OkOr f.victims t.victims_vectors t.victims_bitsets) (λ outs. inl (_, refl))))

initialised-OkOr : (v : Option ℕ) → OkOr uninitialised (initialised v)
initialised-OkOr none = inr refl
initialised-OkOr (some n) = inl (n, refl)

read_line-OkOr : (f : Af) (line : List ℕ) → OkOr uninitialised (read_line f line)
unfolding read_line
read_line-OkOr f line = elim (Bool-cases (is_nil line || first line == b'#')) [
  | inl e ↦ rw (read_line, e) (inl (f, refl))
  | inr e ↦
      let v = (extract_uint32 (stream line)).0 in
      let w = (extract_uint32 ((extract_uint32 (stream line)).1)).0 in
      rw (read_line, e)
        (bind-OkOr (initialised v) _ (initialised-OkOr v)
          (λ a. bind-OkOr (initialised w) _ (initialised-OkOr w) (λ b. inl (_, refl))))
]

-- `getline` reaches the end, or makes the input shorter.
getline-length :
    (input : List ℕ) → ((getline input).2 ≡ true) ⊎ (length (getline input).1 < length input)
unfolding getline
getline-length [] = inl refl
getline-length (c ∷ s) = elim (Bool-cases (c == newline)) [
  | inl e ↦ rw (getline, e) (inr (omega arith))
  | inr e ↦
      rw (getline, e) (elim (getline-length s) [ inl h ↦ inl h | inr h ↦ inr (omega (arith, h)) ])
]

read_lines-OkOr :
    (fuel : ℕ) (eof : Bool) (input : List ℕ) (f : Af)
    → ((eof ≡ true) ⊎ (length input < fuel))
    → OkOr uninitialised (read_lines fuel eof input f)
unfolding read_lines
read_lines-OkOr fuel true input f enough = inl (f, refl)
read_lines-OkOr zero false input f (inl h) = cc
read_lines-OkOr zero false input f (inr h) = absurd (omega (arith, h))
read_lines-OkOr (suc fuel) false input f (inl h) = cc
read_lines-OkOr (suc fuel) false input f (inr enough) =
    bind-OkOr (read_line f (getline input).0) _ (read_line-OkOr f (getline input).0) (λ f'.
      read_lines-OkOr fuel (getline input).2 (getline input).1 f'
        (elim (getline-length input) [ inl h ↦ inl h | inr h ↦ inr (omega (arith, h, enough)) ]))

-- The file can be opened, and its first byte is a p.
abbrev pub IsFramed : Option (List ℕ) → Type 0
IsFramed none = ⊥
IsFramed (some input) = first input ≡ b'p'

first-getline : (input : List ℕ) → (first (getline input).0 == b'p') ≡ (first input == b'p')
unfolding getline
first-getline [] = refl
first-getline (c ∷ s) = elim (Bool-cases (c == newline)) [
  | inl e ↦ rw (getline, e) (ground (arith, e))
  | inr e ↦ rw (getline, e) refl
]

module _ (it : Iteration) (files : Files) (f : Af) (file : String) where
  -- How `parse_af` ends.
  abbrev pub Ends : Result Af → Type 0
  Ends r =
      ((r ≡ err exited) × ¬ IsFramed (files file))
      ⊎ (IsFramed (files file) × (OkOr uninitialised r ⊎ (r ≡ err out_of_range)))

  opened-Ends : (opened : Option (List ℕ)) → files file ≡ opened → Ends (parse_af it files f file)
  unfolding parse_af parse_input
  opened-Ends none e = rw (parse_af, e) (inl (refl, λ h. h))
  opened-Ends (some input) e = elim (Bool-cases (first input == b'p')) [
    | inr no_p ↦
        rw (parse_af, e, parse_input, first-getline input ∙ no_p)
          (inl (refl, λ h. ground (arith, h, no_p)))
    | inl is_p ↦
        let line = (getline input).0 in
        let rest = (getline input).1 in
        let eof = (getline input).2 in
        let start = initialize f (to_uint32 (header line)) in
        rw (parse_af, e, parse_input, first-getline input ∙ is_p)
          (inr (
            ground (arith, is_p),
            elim (read_lines-OkOr (length rest + 1) eof rest start (inr (omega arith))) [
              | inr bad ↦ inl (inr (rw bad refl))
              | inl (f', good) ↦
                  rw good
                    (elim (finish_initilization-OkOr it f') [ inl h ↦ inl (inl h) | inr h ↦ inr h ])
            ],
          ))
  ]

  -- `parse_af` calls exit(1) exactly if the file cannot be opened or its first byte is no p.
  -- Otherwise it ends with a framework, or with an error that C++ does not notice: a line without two
  -- numbers passes a variable without a value, and an argument above the number of arguments is
  -- behind the end of the tables. It never runs out of fuel.
  pub parse_af-Ends : Ends (parse_af it files f file)
  parse_af-Ends = opened-Ends (files file) refl
