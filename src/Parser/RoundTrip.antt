-- ===== src/Parser/RoundTrip.antt =====
-- `ParserICCMA::parse_af` of src/logic/Parser_iccma.cpp on a file in the format.
use Prim.Native.String.{String}
use af_analyzer.Prelude.{
  ℕ, zero, suc, ◌+◌, ◌%◌, ◌^◌, ◌≤◌, ◌<◌, ◌≡◌, refl, sym, ap, ◌∙◌, Bool, true, false, ◌||◌, not,
  some, List, [], ◌∷◌, ◌++◌, all-append, length, length-append, get_or, map, ◌==◌, ok, arith,
}
use af_analyzer.Text.{newline, number, getline}
use af_analyzer.Text.Extraction.{getline-append, number-all}
use af_analyzer.Af.{
  Af, Iteration, empty_af, exists_attack, initialize, add_attack, resize, finish_initilization,
}
use af_analyzer.Af.Valid.{IsValid}
use af_analyzer.Af.Finish.{
  IsInitialized, initialize-IsInitialized, add_attack-exists, add_attack-distance_to_query,
  add_attack-IsInitialized, finish_initilization-IsValid,
}
use af_analyzer.Parser.{Files, parse_input, read_line, read_lines, parse_af}
use af_analyzer.Parser.Format.{
  Line, attack, comment, blank_line, render_line, render_lines, render_header, render, lists_attack,
  is_one_line, IsLine, AreLines,
}
use af_analyzer.Parser.Lines.{header-render_header, read_line-attack}

add_line : Af → Line → Af
add_line f (attack a b) = (add_attack f a b).0
add_line f (comment text) = f
add_line f blank_line = f

add_lines : Af → List Line → Af
unfolding add_line
add_lines f [] = f
add_lines f (l ∷ ls) = add_lines (add_line f l) ls

render_line-all : (n : ℕ) (l : Line) → IsLine n l → is_one_line (render_line l) ≡ true
render_line-all n (attack a b) h =
    all-append (λ c. not (c == newline)) (number a) (32 ∷ number b)
    ∙ rw (number-all a, number-all b) refl
render_line-all n (comment text) h = h
render_line-all n blank_line h = refl

read_line-render_line :
    (f : Af) (n : ℕ) (l : Line)
    → n < 2 ^ 31
    → IsLine n l
    → read_line f (render_line l) ≡ ok (add_line f l)
unfolding read_line add_line
read_line-render_line f n (attack a b) small (pa, ha, pb, hb) =
    read_line-attack f a b (omega arith) (omega arith)
read_line-render_line f n (comment text) small h = refl
read_line-render_line f n blank_line small h = refl

read_lines_step :
    (fuel : ℕ) (input line rest : List ℕ) (f f' : Af)
    → getline input ≡ (line, rest, false)
    → read_line f line ≡ ok f'
    → read_lines (suc fuel) false input f ≡ read_lines fuel false rest f'
unfolding read_lines
read_lines_step fuel input line rest f f' split read = rw (split, read) refl

-- The loop adds the lines one by one, with one round for each line and one for the end.
read_lines-render_lines :
    (n : ℕ) (ls : List Line) (fuel : ℕ) (f : Af)
    → n < 2 ^ 31
    → AreLines n ls
    → length (render_lines ls) < fuel
    → read_lines fuel false (render_lines ls) f ≡ ok (add_lines f ls)
unfolding add_lines read_lines
read_lines-render_lines n ls zero f small h enough = absurd (omega (arith, enough))
read_lines-render_lines n [] (suc fuel) f small h enough = refl
read_lines-render_lines n (l ∷ ls) (suc fuel) f small (here, later) enough =
    read_lines_step fuel (render_line l ++ newline ∷ render_lines ls) (render_line l)
      (render_lines ls) f (add_line f l)
      (getline-append (render_line l) (render_lines ls) (render_line-all n l here))
      (read_line-render_line f n l small here)
    ∙ read_lines-render_lines n ls fuel (add_line f l) small later
        (omega (arith, enough, length-append (render_line l) (newline ∷ render_lines ls)))

-- What adding lines changes.
record IsAdded (f f' : Af) (listed : ℕ → ℕ → Bool) : Type 0 where
  initialized : IsInitialized f'
  same_size : f'.num_args ≡ f.num_args
  attacks : (a b : ℕ) → exists_attack f' a b ≡ (listed a b || exists_attack f a b)
  distances : f'.distance_to_query ≡ f.distance_to_query

add_line-IsAdded :
    (f : Af) (l : Line) → IsInitialized f → IsAdded f (add_line f l) (lists_attack (l ∷ []))
unfolding add_line
add_line-IsAdded f (attack s t) init =
    let (new, fresh, size) = add_attack-exists f s t in
    record {
      initialized = add_attack-IsInitialized f s t init;
      same_size = size;
      attacks = λ a b. ground (arith, new a b);
      distances = add_attack-distance_to_query f s t;
    }
add_line-IsAdded f (comment text) init = record {
  initialized = init;
  same_size = refl;
  attacks = λ a b. refl;
  distances = refl;
}
add_line-IsAdded f blank_line init = record {
  initialized = init;
  same_size = refl;
  attacks = λ a b. refl;
  distances = refl;
}

lists_attack-cons :
    (l : Line) (ls : List Line) (a b : ℕ)
    → lists_attack (l ∷ ls) a b ≡ (lists_attack (l ∷ []) a b || lists_attack ls a b)
lists_attack-cons (attack s t) ls a b = ground arith
lists_attack-cons (comment text) ls a b = refl
lists_attack-cons blank_line ls a b = refl

add_lines-IsAdded :
    (ls : List Line) (f : Af) → IsInitialized f → IsAdded f (add_lines f ls) (lists_attack ls)
unfolding add_lines
add_lines-IsAdded [] f init = record {
  initialized = init;
  same_size = refl;
  attacks = λ a b. refl;
  distances = refl;
}
add_lines-IsAdded (l ∷ ls) f init =
    let one = add_line-IsAdded f l init in
    let all_of = add_lines-IsAdded ls (add_line f l) one.initialized in
    record {
      initialized = all_of.initialized;
      same_size = all_of.same_size ∙ one.same_size;
      attacks =
          λ a b. ground (arith, all_of.attacks a b, one.attacks a b, lists_attack-cons l ls a b);
      distances = all_of.distances ∙ one.distances;
    }

-- The arguments of a listed attack are numbers from 1 to `n`.
pub lists_attack-range :
    (n : ℕ) (ls : List Line) (a b : ℕ)
    → AreLines n ls
    → lists_attack ls a b ≡ true
    → (0 < a) × (a ≤ n) × (0 < b) × (b ≤ n)
lists_attack-range n [] a b h m = cc
lists_attack-range n (attack s t ∷ ls) a b ((ps, hs, pt, ht), later) m =
    ground (arith, lists_attack-range n ls a b later)
lists_attack-range n (comment text ∷ ls) a b (here, later) m = lists_attack-range n ls a b later m
lists_attack-range n (blank_line ∷ ls) a b (here, later) m = lists_attack-range n ls a b later m

render_header-all : (n : ℕ) → is_one_line (render_header n) ≡ true
render_header-all n = number-all n

zeros : (k a : ℕ) → get_or {A = ℕ} (map (λ _. 0) (resize {A = ℕ} k 0 [])) a 0 ≡ 0
zeros zero a = refl
zeros (suc k) zero = refl
zeros (suc k) (suc a) = zeros k a

-- What `parse_af` makes of a file with `n` arguments and the lines `ls`.
abbrev pub Parsed : ℕ → List Line → Af → Type 0
Parsed n ls f =
    IsValid f
    × (f.num_args ≡ n)
    × ((a b : ℕ) → exists_attack f a b ≡ lists_attack ls a b)
    × ((a : ℕ) → get_or f.distance_to_query a 0 ≡ 0)

module _ (it : Iteration) (n : ℕ) (ls : List Line) (small : n < 2 ^ 31)
    (lines : AreLines n ls) where
  finish :
      (f : Af) × (finish_initilization it (add_lines (initialize empty_af n) ls) ≡ ok f)
      × Parsed n ls f
  unfolding initialize exists_attack
  finish =
      let added = add_lines-IsAdded ls (initialize empty_af n) (initialize-IsInitialized n small) in
      let lists : (a b : ℕ)
          → exists_attack (add_lines (initialize empty_af n) ls) a b ≡ lists_attack ls a b =
        λ a b. ground (arith, added.attacks a b) in
      let (f, ends, valid, size, same, distances) =
        finish_initilization-IsValid it (add_lines (initialize empty_af n) ls) added.initialized
          (λ a b h.
            let (pa, ha, pb, hb) = lists_attack-range n ls a b lines (sym (lists a b) ∙ h) in
            (omega (arith, ha, added.same_size), omega (arith, hb, added.same_size))) in
      (
        f,
        ends,
        (
          valid,
          size ∙ added.same_size,
          (λ a b. same a b ∙ lists a b),
          (λ a. ap (λ l. get_or l a 0) (distances ∙ added.distances) ∙ zeros (n + 1) a),
        ),
      )

  -- A file in the format, with fewer than 2 ^ 31 arguments and the attacks and comments of `ls`, is
  -- parsed without an error: the framework is valid, has those arguments, exactly the attacks of the
  -- lines, and distances that are all 0.
  pub parse_af-render :
      (files : Files) (file : String)
      → files file ≡ some (render n ls)
      → (f : Af) × (parse_af it files empty_af file ≡ ok f) × Parsed n ls f
  unfolding parse_af parse_input
  parse_af-render files file found =
      let (f, ends, parsed) = finish in
      let whole : n % 2 ^ 32 ≡ n = omega (arith, small) in
      (
        f,
        rw (parse_af, found)
            (ap (parse_input it empty_af)
                (getline-append (render_header n) (render_lines ls) (render_header-all n))
              ∙ rw
                  (
                    header-render_header n small,
                    whole,
                    read_lines-render_lines n ls (length (render_lines ls) + 1)
                        (initialize empty_af n) small lines (omega arith),
                  )
                  ends),
        parsed,
      )
