-- ===== src/Tests/Programs.antt =====
-- Runs of the parser, the printers and the command line of src/logic/Parser_iccma.cpp,
-- src/util/Printer.cpp and src/Main.cpp, and their theorems on concrete files.
use Prim.Native.String.{String}
use text.Mathlib.Text.{◌==◌ as str_eq}
use af_analyzer.Prelude.{
  ℕ, ◌≡◌, ◌≢◌, inl, refl, false, Option, none, some, List, [], ◌∷◌, if◌then◌else◌, ok, err,
  uninitialised, out_of_range, exited, arith,
}
use af_analyzer.Text.{codes, number, emit, getline, stream, extract_uint32}
use af_analyzer.Af.{Af, empty_af}
use af_analyzer.Parser.{Files, read_line, parse_af}
use af_analyzer.Parser.Format.{Line, attack, comment, blank_line, render, AreLines}
use af_analyzer.Parser.Lines.{read_line-eq-err}
use af_analyzer.Parser.RoundTrip.{Parsed, parse_af-render}
use af_analyzer.Parser.Ends.{Ends, parse_af-Ends}
use af_analyzer.Printer.{print_list}
use af_analyzer.Printer.Reading.{read_numbers, read-print_list}
use af_analyzer.Sat.Brute.{brute_solver}
use af_analyzer.Solver.Weight.{weight}
use af_analyzer.Main.{Outcome, split_problem, file_format, respond, main}
use af_analyzer.Main.Getopt.{Longopt, Options, Event, stored, returned}
use af_analyzer.Main.Names.{split_problem-append}
use af_analyzer.Main.EndToEnd.{Answers, given_options, respond-Answers, main-Answers}
use af_analyzer.Main.OutOfRange.{main-eq-err}
use af_analyzer.Main.Supported.{respond-supported}
use af_analyzer.Text.Strings.{is_empty_string}
use af_analyzer.Tests.{in_turn, in_order, sample}

abbrev two_attacks : List Line
two_attacks = attack 4 1 ∷ comment (codes " a comment") ∷ blank_line ∷ attack 1 2 ∷ []

abbrev content : List ℕ
content = codes "p af 4\n4 1\n# a comment\n\n1 2\n"

content_renders : content ≡ render 4 two_attacks
unfolding number emit
content_renders = refl

two_attacks-AreLines : AreLines 4 two_attacks
two_attacks-AreLines = (
  (omega arith, omega arith, omega arith, omega arith),
  (refl, (tt, ((omega arith, omega arith, omega arith, omega arith), tt))),
)

abbrev files : Files
files name =
    if str_eq name "sample.i23"
    then some content
    else if str_eq name "other.i23"
    then some (codes "4 1\n")
    else none

parse_af-render_example :
    (f : Af) × (parse_af in_order files empty_af "sample.i23" ≡ ok f) × Parsed 4 two_attacks f
parse_af-render_example =
    parse_af-render in_order 4 two_attacks (omega arith) two_attacks-AreLines files "sample.i23"
      (λ i. some (content_renders i))

refused : parse_af in_order files empty_af "other.i23" ≡ err exited
unfolding parse_af getline
refused = refl

parse_af-Ends_example :
    Ends in_order files empty_af "other.i23" (parse_af in_order files empty_af "other.i23")
parse_af-Ends_example = parse_af-Ends in_order files empty_af "other.i23"

read_line-eq-err_example : read_line sample (number 7) ≡ err uninitialised
read_line-eq-err_example = read_line-eq-err sample 7 (omega arith)

read-print_list_example :
    read_numbers 2 (extract_uint32 (stream (print_list (12 ∷ 7 ∷ [])))) ≡ 12 ∷ 7 ∷ []
read-print_list_example = read-print_list (12 ∷ 7 ∷ []) refl

prints : print_list (12 ∷ 7 ∷ []) ≡ codes "12 7"
unfolding print_list number emit
prints = refl

split_problem-append_example : split_problem "DS-PR" ≡ ok ("DS", "PR")
split_problem-append_example = split_problem-append "DS" "PR" refl refl (omega arith)

-- An option of the table by its name, behind a dash.
abbrev find_option : List Longopt → String → Option Longopt
find_option [] s = none
find_option (o ∷ table) s = if str_eq s (String.◌∷◌ "-" o.name) then some o else find_option table s

-- A `getopt_long_only` for options that are written out, each with its argument behind it.
abbrev scan_options : List Longopt → List String → List Event
scan_options table [] = []
scan_options table (s ∷ []) = elim (find_option table s) [
  | none ↦ returned b'?' "" ∷ []
  | some o ↦ elim o.flag [ none ↦ returned b'?' "" ∷ [] | some flag ↦ stored flag o.val ∷ [] ]
]
scan_options table (s ∷ arg ∷ rest) = elim (find_option table s) [
  | none ↦ returned b'?' "" ∷ []
  | some o ↦ elim o.flag [
    | none ↦ returned o.val arg ∷ scan_options table rest
    | some flag ↦ stored flag o.val ∷ scan_options table (arg ∷ rest)
  ]
]

abbrev simple_getopt : List Longopt → List String → List Event
simple_getopt table [] = []
simple_getopt table (program ∷ args) = scan_options table args

abbrev call : List String
call = "solver" ∷ "-p" ∷ "DS-PR" ∷ "-f" ∷ "sample.i23" ∷ "-a" ∷ "2" ∷ []

main-Answers_example :
    (o : Outcome) × (main in_order files brute_solver in_turn (weight 5) simple_getopt call ≡ ok o)
    × (o.status ≡ 0)
    × Answers 4 two_attacks 2 o
unfolding number emit
main-Answers_example =
    main-Answers in_order files brute_solver in_turn (weight 5) simple_getopt call "sample" "2" 4 2
      two_attacks (omega arith) refl (omega arith) refl (omega arith) (omega arith) (omega arith)
      two_attacks-AreLines (λ i. some (content_renders i)) (omega arith) (λ f parsed. inl refl)

abbrev asked_options : Options
asked_options = given_options "sample.i23" "2"

-- A run on the sample that returns 0, and what it says of the options.
respond_runs :
    (o : Outcome) × (respond in_order files brute_solver in_turn
        (weight 5)
        simple_getopt
        "solver"
        asked_options
      ≡ ok o)
    × (o.status ≡ 0)
unfolding number emit
respond_runs =
    let (o, responds, fine, answers) =
      respond-Answers in_order files brute_solver in_turn (weight 5) simple_getopt "sample" "2" 4 2
        two_attacks (omega arith) refl (omega arith) (omega arith) (omega arith)
        two_attacks-AreLines (λ i. some (content_renders i)) (omega arith) (λ f parsed. inl refl) in
    (o, responds "solver", fine)

not_one : respond_runs.0.status ≢ 1
not_one e = omega (arith, e, respond_runs.2)

respond-supported_example :
    (is_empty_string asked_options.file ≡ false)
    × (file_format asked_options ≡ ok "i23")
    × (is_empty_string asked_options.query ≡ false)
    × (split_problem asked_options.problem ≡ ok ("DS", "PR"))
respond-supported_example =
    respond-supported in_order files brute_solver in_turn (weight 5) simple_getopt "solver"
      asked_options respond_runs.0 not_one (refl, refl, refl, refl) respond_runs.1

abbrev beyond : List String
beyond = "solver" ∷ "-p" ∷ "DS-PR" ∷ "-f" ∷ "sample.i23" ∷ "-a" ∷ "5" ∷ []

main-eq-err_example :
    main in_order files brute_solver in_turn 9 simple_getopt beyond ≡ err out_of_range
unfolding number emit
main-eq-err_example =
    main-eq-err in_order files brute_solver in_turn 9 simple_getopt beyond "sample" "5" 4 5
      two_attacks (omega arith) refl (omega arith) refl (omega arith) (omega arith)
      two_attacks-AreLines (λ i. some (content_renders i))
