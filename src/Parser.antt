-- ===== src/Parser.antt =====
-- src/logic/Parser_iccma.cpp: the reading of a framework from a file in the format of ICCMA 2023. The
-- files are a parameter, from a name to the bytes, or to none if the file cannot be opened.
pub mod Format
pub mod Ends
pub mod Lines
pub mod RoundTrip
use Prim.Native.String.{String}
use af_analyzer.Prelude.{
  ℕ, zero, suc, ◌+◌, Bool, true, false, ◌||◌, Option, none, some, List, [], ◌∷◌, length, ◌==◌,
  Result, ok, err, exited, uninitialised, out_of_fuel, ◌>>=◌,
}
use af_analyzer.Prelude.Int.{ℤ, pos}
use af_analyzer.Text.{
  is_nil, first, getline, Stream, stream, extract_word, extract_uint32, extract_int32, to_uint32,
}
use af_analyzer.Af.{Af, Iteration, initialize, add_attack, finish_initilization}

abbrev pub Files : Type 0
Files = String → Option (List ℕ)

-- The value of a variable that is declared without one, and then read.
abbrev pub initialised : Option ℕ → Result ℕ
initialised none = err uninitialised
initialised (some n) = ok n

-- `n_args`, which is 0 before the extraction.
abbrev pub as_n_args : Option ℤ × Stream → ℤ
as_n_args (none, s) = pos 0
as_n_args (some n_args, s) = n_args

-- `iss >> p >> af >> n_args`.
unfoldable pub header : List ℕ → ℤ
unfolding extract_word extract_int32
header line = as_n_args (extract_int32 (extract_word (extract_word (stream line)).1).1)

-- The body of the loop, behind its `getline`.
unfoldable pub read_line : Af → List ℕ → Result Af
unfolding extract_uint32 add_attack
read_line framework line = elim (is_nil line || first line == b'#') [
  | true ↦ ok framework
  | false ↦
      let (attacker, iss) = extract_uint32 (stream line) in
      let (victim, iss') = extract_uint32 iss in
      initialised attacker >>= λ a. initialised victim >>= λ b. ok (add_attack framework a b).0
]

-- The loop, on what is left of the input. Each line but the last takes a newline off it.
unfoldable pub read_lines : ℕ → Bool → List ℕ → Af → Result Af
unfolding getline read_line
read_lines fuel true input framework = ok framework
read_lines zero false input framework = err out_of_fuel
read_lines (suc fuel) false input framework =
    let (line, rest, eof) = getline input in
    read_line framework line >>= λ framework'. read_lines fuel eof rest framework'

-- From the first line on: the line, what is left of the input, and whether its end was reached.
unfoldable pub parse_input : Iteration → Af → List ℕ × List ℕ × Bool → Result Af
unfolding header read_lines initialize finish_initilization
parse_input it framework (line, rest, eof) = elim (first line == b'p') [
  | true ↦
      read_lines (length rest + 1) eof rest (initialize framework (to_uint32 (header line)))
      >>= λ f. finish_initilization it f
  | false ↦ err exited
]

unfoldable pub parse_af : Iteration → Files → Af → String → Result Af
unfolding getline parse_input
parse_af it files framework file = elim (files file) [
  | none ↦ err exited
  | some input ↦ parse_input it framework (getline input)
]
