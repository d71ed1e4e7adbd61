-- ===== src/Text/Strings.antt =====
-- What src/Main.cpp uses of `std::string`. Each character of a `String` here stands for one byte.
use Prim.Native.Char.{Char, code}
use Prim.Native.String.{String}
use af_analyzer.Prelude.{
  ℕ, zero, suc, ◌+◌, ◌-◌, ◌^◌, ◌≤◌, ◌≡◌, refl, ap, ◌∙◌, Bool, true, false, ◌&&◌, not, ltb, ◌==◌,
  if◌then◌else◌, Result, ok, err, thrown, arith,
}
use af_analyzer.Prelude.Int.{ℤ, pos, negsuc}
use af_analyzer.Text.{Extracted, untouched, no_digits, digits, codes, stream, extract_digits}

abbrev pub npos : ℕ
npos = 2 ^ 64 - 1

abbrev pub size : String → ℕ
size String.[] = 0
size (String.◌∷◌ c s) = suc (size s)

abbrev pub is_empty_string : String → Bool
is_empty_string String.[] = true
is_empty_string (String.◌∷◌ c s) = false

abbrev pub append : String → String → String
append String.[] t = t
append (String.◌∷◌ c s) t = String.◌∷◌ c (append s t)

abbrev pub take : ℕ → String → String
take zero s = String.[]
take (suc n) String.[] = String.[]
take (suc n) (String.◌∷◌ c s) = String.◌∷◌ c (take n s)

abbrev pub drop : ℕ → String → String
drop zero s = s
drop (suc n) String.[] = String.[]
drop (suc n) (String.◌∷◌ c s) = drop n s

-- `substr(start, n)`, which throws `out_of_range` from a position behind the end.
abbrev pub substr : String → ℕ → ℕ → Result String
substr s start n = if ltb (size s) start then err thrown else ok (take n (drop start s))

-- `erase(start, n)`, the string that is left.
abbrev pub erase : String → ℕ → ℕ → Result String
erase s start n =
    if ltb (size s) start then err thrown else ok (append (take start s) (drop n (drop start s)))

-- The first position of a character from `i` on, the characters from there being `s`.
abbrev pub find_from : ℕ → String → ℕ → ℕ
find_from c String.[] i = npos
find_from c (String.◌∷◌ d s) i = if code d == c then i else find_from c s (suc i)

abbrev pub find : String → ℕ → ℕ
find s c = find_from c s 0

-- The last position, or `best` if there is none from `i` on.
abbrev pub find_last_from : ℕ → String → ℕ → ℕ → ℕ
find_last_from c String.[] i best = best
find_last_from c (String.◌∷◌ d s) i best =
    find_last_from c s (suc i) (if code d == c then i else best)

abbrev pub find_last_of : String → ℕ → ℕ
find_last_of s c = find_last_from c s 0 npos

abbrev pub int_value : Extracted → Result ℤ
int_value untouched = err thrown
int_value no_digits = err thrown
int_value (digits false v) = if ltb v (2 ^ 31) then ok (pos v) else err thrown
int_value (digits true zero) = ok (pos 0)
int_value (digits true (suc v)) = if ltb v (2 ^ 31) then ok (negsuc v) else err thrown

-- `std::stoi`, which throws `invalid_argument` without a digit, and `out_of_range`.
unfoldable pub stoi : String → Result ℤ
unfolding extract_digits
stoi s = int_value (extract_digits (stream (codes s))).0

-- Does the character not occur?
abbrev pub lacks : ℕ → String → Bool
lacks c String.[] = true
lacks c (String.◌∷◌ d s) = not (code d == c) && lacks c s

pub size-append : (s t : String) → size (append s t) ≡ size s + size t
size-append String.[] t = omega arith
size-append (String.◌∷◌ c s) t = omega (arith, size-append s t)

pub take-append : (s t : String) → take (size s) (append s t) ≡ s
take-append String.[] t = refl
take-append (String.◌∷◌ c s) t = ap (String.◌∷◌ c) (take-append s t)

pub drop-append : (s t : String) → drop (size s) (append s t) ≡ t
drop-append String.[] t = refl
drop-append (String.◌∷◌ c s) t = drop-append s t

pub take_all : (s : String) (n : ℕ) → size s ≤ n → take n s ≡ s
take_all String.[] zero h = refl
take_all String.[] (suc n) h = refl
take_all (String.◌∷◌ c s) zero h = absurd (omega (arith, h))
take_all (String.◌∷◌ c s) (suc n) h = ap (String.◌∷◌ c) (take_all s n (omega (arith, h)))

add_one : (n : ℕ) → n + 1 ≡ suc n
add_one n = omega arith

drop-suc : (c : Char) (s t : String) → drop (suc (size s)) (append s (String.◌∷◌ c t)) ≡ t
drop-suc c String.[] t = refl
drop-suc c (String.◌∷◌ d s) t = drop-suc c s t

pub drop-add_one : (c : Char) (s t : String) → drop (size s + 1) (append s (String.◌∷◌ c t)) ≡ t
drop-add_one c s t =
    ap (λ n. drop n (append s (String.◌∷◌ c t))) (add_one (size s)) ∙ drop-suc c s t

pub find_from-lacks : (c : ℕ) (s : String) (i : ℕ) → lacks c s ≡ true → find_from c s i ≡ npos
find_from-lacks c String.[] i h = refl
find_from-lacks c (String.◌∷◌ d s) i h = ground (arith, h, find_from-lacks c s (suc i))

pub find_from-append :
    (d : Char) (s t : String) (i : ℕ)
    → lacks (code d) s ≡ true
    → find_from (code d) (append s (String.◌∷◌ d t)) i ≡ i + size s
find_from-append d String.[] t i h = ground arith
find_from-append d (String.◌∷◌ e s) t i h = ground (arith, h, find_from-append d s t (suc i))

pub find_last_from-lacks :
    (c : ℕ) (s : String) (i best : ℕ) → lacks c s ≡ true → find_last_from c s i best ≡ best
find_last_from-lacks c String.[] i best h = refl
find_last_from-lacks c (String.◌∷◌ d s) i best h =
    let no : (code d == c) ≡ false = ground (arith, h) in
    rw no (find_last_from-lacks c s (suc i) best (ground (arith, h)))

pub find_last_from-append :
    (d : Char) (s t : String) (i best : ℕ)
    → lacks (code d) t ≡ true
    → find_last_from (code d) (append s (String.◌∷◌ d t)) i best ≡ i + size s
find_last_from-append d String.[] t i best h =
    let same : (code d == code d) ≡ true = ground arith in
    rw (find_last_from, same) (find_last_from-lacks (code d) t (suc i) i h ∙ omega arith)
find_last_from-append d (String.◌∷◌ e s) t i best h =
    find_last_from-append d s t (suc i) (if code e == code d then i else best) h ∙ omega arith
