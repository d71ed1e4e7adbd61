-- ===== src/Text.antt =====
-- What src/logic/Parser_iccma.cpp, src/util/Printer.cpp and src/Main.cpp use of the standard streams:
-- bytes, `getline`, and the extraction and insertion of numbers and words, in the "C" locale.
pub mod Decimal
pub mod Extraction
pub mod Strings
use Prim.Native.Char.{code}
use Prim.Native.String.{String}
use af_analyzer.Prelude.{
  ℕ, zero, suc, ◌+◌, ◌-◌, ◌*◌, ◌/◌, ◌%◌, ◌^◌, ◌≡◌, refl, Bool, true, false, ◌&&◌, ◌||◌, not, Option,
  none, some, List, [], ◌∷◌, ltb, ◌==◌, if◌then◌else◌,
}
use af_analyzer.Prelude.Int.{ℤ, pos, negsuc}

-- The bytes of a literal.
abbrev pub codes : String → List ℕ
codes String.[] = []
codes (String.◌∷◌ c s) = code c ∷ codes s

abbrev pub newline : ℕ
newline = 10

abbrev pub is_space : ℕ → Bool
is_space c = c == 32 || (ltb 8 c && ltb c 14)

abbrev pub is_digit : ℕ → Bool
is_digit c = ltb 47 c && ltb c 58

abbrev pub is_nil : List ℕ → Bool
is_nil [] = true
is_nil (c ∷ s) = false

-- `s[0]`, which is the null character if `s` is empty.
abbrev pub first : List ℕ → ℕ
first [] = 0
first (c ∷ s) = c

-- The digits of a positive number, before `out`; the fuel is at least the number.
unfoldable pub emit : ℕ → ℕ → List ℕ → List ℕ
emit zero n out = out
emit (suc k) n out = elim (ltb 0 n) [ true ↦ emit k (n / 10) ((48 + n % 10) ∷ out) | false ↦ out ]

-- `cout << n`, for a number that is not negative.
unfoldable pub number : ℕ → List ℕ
unfolding emit
number n = if n == 0 then 48 ∷ [] else emit n n []

-- `getline` on a stream that is good: the line, what is left, and whether the end was reached.
unfoldable pub getline : List ℕ → List ℕ × List ℕ × Bool
getline [] = ([], [], true)
getline (c ∷ s) = elim (c == newline) [
  | true ↦ ([], s, false)
  | false ↦ let (line, rest, eof) = getline s in (c ∷ line, rest, eof)
]

-- A string stream: what is left, and whether `good()` holds.
pub record Stream : Type 0 where
  pub rest : List ℕ
  pub good : Bool

abbrev pub stream : List ℕ → Stream
stream s = record { rest = s; good = true }

abbrev pub skip_space : List ℕ → List ℕ
skip_space [] = []
skip_space (c ∷ s) = elim (is_space c) [ true ↦ skip_space s | false ↦ c ∷ s ]

abbrev pub split_word : List ℕ → List ℕ × List ℕ
split_word [] = ([], [])
split_word (c ∷ s) = elim (is_space c) [
  | true ↦ ([], c ∷ s)
  | false ↦ let (word, rest) = split_word s in (c ∷ word, rest)
]

-- `in >> word`: the value, or none if the variable is left as it is. An extraction fails if the
-- stream is not good, or ends behind the white space; to read up to the end sets `eofbit`.
unfoldable pub extract_word : Stream → Option (List ℕ) × Stream
extract_word s = elim s.good [
  | false ↦ (none, s)
  | true ↦ elim (skip_space s.rest) [
    | [] ↦ (none, record { rest = []; good = false })
    | c ∷ r ↦
        let (word, rest) = split_word (c ∷ r) in
        (some word, record { rest = rest; good = not (is_nil rest) })
  ]
]

-- The value of the leading digits, after those that gave `v`, and what follows them.
unfoldable pub scan : List ℕ → ℕ → ℕ × List ℕ
scan [] v = (v, [])
scan (c ∷ s) v = elim (is_digit c) [ true ↦ scan s (v * 10 + (c - 48)) | false ↦ (v, c ∷ s) ]

-- What `in >> n` finds: nothing, as for a word; no digit; or a sign and an absolute value.
pub data Extracted : Type 0 where
  untouched no_digits : Extracted
  digits : Bool → ℕ → Extracted

abbrev pub split_sign : List ℕ → Bool × List ℕ
split_sign [] = (false, [])
split_sign (c ∷ s) =
    if c == b'-' then (true, s) else if c == b'+' then (false, s) else (false, c ∷ s)

-- What is found at the digits behind a sign, and what at the first byte that is no space.
abbrev pub found_digits : Bool → ℕ × List ℕ → Extracted × Stream
found_digits negative (v, rest) =
    (digits negative v, record { rest = rest; good = not (is_nil rest) })

unfoldable pub signed_digits : Bool × List ℕ → Extracted × Stream
unfolding scan
signed_digits (negative, body) = elim (is_digit (first body)) [
  | false ↦ (no_digits, record { rest = body; good = false })
  | true ↦ found_digits negative (scan body 0)
]

unfoldable pub found_at : List ℕ → Extracted × Stream
unfolding signed_digits
found_at [] = (untouched, record { rest = []; good = false })
found_at (c ∷ r) = signed_digits (split_sign (c ∷ r))

unfoldable pub extract_digits : Stream → Extracted × Stream
unfolding found_at
extract_digits s = elim s.good [ false ↦ (untouched, s) | true ↦ found_at (skip_space s.rest) ]

abbrev failed : Stream → Stream
failed s = record s { good = false }

abbrev pub as_uint32 : Extracted × Stream → Option ℕ × Stream
as_uint32 (untouched, s) = (none, s)
as_uint32 (no_digits, s) = (some 0, s)
as_uint32 (digits negative v, s) =
    if ltb v (2 ^ 32)
    then (some (if negative then (2 ^ 32 - v) % 2 ^ 32 else v), s)
    else (some (2 ^ 32 - 1), failed s)

-- `in >> n` for a uint32_t: 0 without a digit, the largest value on overflow, and a minus wraps.
unfoldable pub extract_uint32 : Stream → Option ℕ × Stream
unfolding extract_digits
extract_uint32 s = as_uint32 (extract_digits s)

abbrev pub as_int32 : Extracted × Stream → Option ℤ × Stream
as_int32 (untouched, s) = (none, s)
as_int32 (no_digits, s) = (some (pos 0), s)
as_int32 (digits false v, s) =
    if ltb v (2 ^ 31) then (some (pos v), s) else (some (pos (2 ^ 31 - 1)), failed s)
as_int32 (digits true zero, s) = (some (pos 0), s)
as_int32 (digits true (suc v), s) =
    if ltb v (2 ^ 31) then (some (negsuc v), s) else (some (negsuc (2 ^ 31 - 1)), failed s)

-- `in >> n` for an int32_t: 0 without a digit, and the nearest value on overflow.
unfoldable pub extract_int32 : Stream → Option ℤ × Stream
unfolding extract_digits
extract_int32 s = as_int32 (extract_digits s)

-- The conversion to uint32_t.
abbrev pub to_uint32 : ℤ → ℕ
to_uint32 (pos n) = n % 2 ^ 32
to_uint32 (negsuc n) = 2 ^ 32 - 1 - n % 2 ^ 32
