-- ===== src/Main.antt =====
-- src/Main.cpp and include/Main.h: the command line. `getopt_long_only` is a parameter, from the table
-- of options and the arguments to what the calls return in turn, up to the -1.
use Prim.Native.String.{String}
use text.Mathlib.Text.{◌==◌ as str_eq}
use af_analyzer.Prelude.{
  ℕ, zero, suc, ◌+◌, ◌-◌, ◌%◌, ◌^◌, Bool, true, false, not, none, some, List, [], ◌∷◌, ◌++◌, length,
  ◌==◌, if◌then◌else◌, Result, ok, ◌>>=◌,
}
pub mod Getopt
pub mod Names
pub mod EndToEnd
pub mod OutOfRange
pub mod Supported
pub mod Status
pub mod Messages
use af_analyzer.Main.Getopt.{Longopt, longopts, Event, Options, no_options, read_options}
use af_analyzer.Main.Messages.{line, print_usage, print_version, print_formats, print_problems}
use af_analyzer.Text.{codes, newline, number, is_nil, to_uint32}
use af_analyzer.Text.Strings.{size, is_empty_string, substr, erase, find, find_last_of, stoi}
use af_analyzer.Af.{Af, Iteration, empty_af}
use af_analyzer.Parser.{Files, parse_af}
use af_analyzer.Sat.{SatSolver}
use af_analyzer.Solver.Solve.{Openmp, solve}
use af_analyzer.Enums.{
  Task, dc, ds, se, ee, ce, unknown_task, SemanticsName, it, uc, pr, gr, unknown_sem,
  string_to_task, string_to_sem,
}

abbrev pub num_cores : ℕ
num_cores = 0

-- What is written to `cout` and to `cerr`, and the value that is returned.
pub record Outcome : Type 0 where
  pub out : List ℕ
  pub errors : List ℕ
  pub status : ℕ

abbrev pub says : List ℕ → Outcome
says out = record { out = out; errors = []; status = 0 }

-- `cerr << argv[0] << text`, and `return 1`.
abbrev pub complains : String → List ℕ → Outcome
complains argv0 text = record { out = []; errors = codes argv0 ++ text; status = 1 }

-- The members of the extension, each with a space behind it.
abbrev pub print_members : List ℕ → List ℕ
print_members [] = []
print_members (a ∷ l) = number a ++ 32 ∷ print_members l

-- The answer, and behind a NO the extension if there is one.
unfoldable pub print_answer : Bool → List ℕ → List ℕ
print_answer true l = line "YES"
print_answer false l =
    line "NO" ++ line "w " ++ (if is_nil l then [] else print_members l ++ newline ∷ [])

-- The format: as given, or else what follows the last dot of the name of the file.
unfoldable pub file_format : Options → Result String
file_format o =
    if is_empty_string o.fileformat
    then (let dot = find_last_of o.file b'.' in
        substr o.file ((dot + 1) % 2 ^ 64) ((size o.file + 2 ^ 64 - dot - 1) % 2 ^ 64))
    else ok o.fileformat

-- The strings `task` and `sem`.
unfoldable pub split_problem : String → Result (String × String)
split_problem problem = substr problem 0 (find problem b'-') >>= λ task.
    erase problem 0 ((find problem b'-' + 1) % 2 ^ 64) >>= λ problem'.
    substr problem' 0 (find problem' b'-') >>= λ sem. ok (task, sem)

abbrev pub program : List String → String
program [] = ""
program (argv0 ∷ args) = argv0

-- A `switch` over the tasks with a case for DS, and one over the semantics with a case for PR.
abbrev pub on_ds : Task → Result Outcome → Result Outcome → Result Outcome
on_ds ds a b = a
on_ds dc a b = b
on_ds se a b = b
on_ds ee a b = b
on_ds ce a b = b
on_ds unknown_task a b = b

abbrev pub on_pr : SemanticsName → Result Outcome → Result Outcome → Result Outcome
on_pr pr a b = a
on_pr it a b = b
on_pr uc a b = b
on_pr gr a b = b
on_pr unknown_sem a b = b

module _ (order : Iteration) (files : Files) (sat : SatSolver) (omp : Openmp) (fuel : ℕ)
    (getopt_long_only : List Longopt → List String → List Event) where
  -- The case of the task DS.
  unfoldable pub run_ds : String → Options → Af → String → Result Outcome
  run_ds argv0 o framework sem =
      if is_empty_string o.query
      then ok (complains argv0 (line ": Query argument must be specified via -a flag"))
      else stoi o.query >>= λ argument.
          on_pr (string_to_sem sem)
            (solve sat omp fuel (to_uint32 argument) framework [] num_cores >>= λ r.
              ok (says (r.3 ++ print_answer r.1 r.2)))
            (ok (complains argv0 (line ": Unsupported semantics")))

  -- From the reading of the file on.
  unfoldable pub run_problem : String → Options → Result Outcome
  run_problem argv0 o = parse_af order files empty_af o.file >>= λ framework.
      split_problem o.problem >>= λ names.
      on_ds (string_to_task names.0) (run_ds argv0 o framework names.1)
        (ok (complains argv0 (line ": Problem not supported!")))

  -- Behind the loop over the options.
  unfoldable pub respond : String → Options → Result Outcome
  respond argv0 o =
      if not (o.version_flag == 0)
      then ok (says print_version)
      else if not (o.usage_flag == 0)
      then ok (says print_usage)
      else if not (o.formats_flag == 0)
      then ok (says print_formats)
      else if not (o.problems_flag == 0)
      then ok (says print_problems)
      else if is_empty_string o.problem
      then ok (complains argv0 (line ": Problem must be specified via -p flag"))
      else if is_empty_string o.file
      then ok (complains argv0 (line ": Input file must be specified via -f flag"))
      else file_format o >>= λ format.
          if str_eq format "i23"
          then run_problem argv0 o
          else ok (complains argv0 (line ": Unsupported file format"))

  unfoldable pub execute : List String → Result Outcome
  execute argv =
      if length argv == 1
      then ok (says print_version)
      else elim (read_options (getopt_long_only longopts argv) (some no_options)) [
        | none ↦ ok (record { out = []; errors = []; status = 1 })
        | some o ↦ respond (program argv) o
      ]

  -- The status of the process: `main` does not return what `execute` returns.
  unfoldable pub main : List String → Result Outcome
  main argv = execute argv >>= λ o. ok (record o { status = 0 })
