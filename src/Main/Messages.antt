-- ===== src/Main/Messages.antt =====
-- What `print_usage`, `print_version`, `print_formats` and `print_problems` of src/Main.cpp write.
use Prim.Native.String.{String}
use af_analyzer.Prelude.{ℕ, List, [], ◌∷◌, ◌++◌}
use af_analyzer.Text.{codes, newline}

-- The text and a newline.
abbrev pub line : String → List ℕ
line s = codes s ++ newline ∷ []

abbrev pub solvername : List ℕ
solvername = codes "ParallelSolver"

abbrev pub versionnumber : List ℕ
versionnumber = codes "1.15"

abbrev pub print_usage : List ℕ
print_usage =
    codes "Usage: "
    ++ solvername
    ++ line " -p <task> -f <file> -fo <format> [-a <query>]"
    ++ line ""
    ++ line
        "  <task>      computational problem; for a list of available problems use option --problems"
    ++ line "  <file>      input argumentation framework"
    ++ line
        "  <format>    file format for input AF; for a list of available formats use option --formats"
    ++ line "  <query>     query argument"
    ++ line "Options:"
    ++ line "  --help      Displays this help message."
    ++ line "  --version   Prints version and author information."
    ++ line "  --formats   Prints available file formats."
    ++ line "  --problems  Prints available computational tasks."

abbrev pub print_version : List ℕ
print_version =
    solvername
    ++ codes " (version "
    ++ versionnumber
    ++ line ")"
    ++ line "Lars Bengel, University of Hagen <lars.bengel@fernuni-hagen.de>"
    ++ line "Julian Sander, University of Hagen <julian.sander@fernuni-hagen.de>"

abbrev pub print_formats : List ℕ
print_formats = line "[i23]"

-- The inner loop of `print_problems`, on the semantics that are left.
abbrev pub print_row : String → List String → List ℕ
print_row task [] = []
print_row task (sem ∷ []) = codes task ++ codes "-" ++ codes sem
print_row task (sem ∷ next ∷ sems) =
    codes task ++ codes "-" ++ codes sem ++ codes "," ++ print_row task (next ∷ sems)

abbrev pub print_rows : List String → List String → List ℕ
print_rows [] sems = []
print_rows (task ∷ tasks) sems = print_row task sems ++ print_rows tasks sems

abbrev pub print_problems : List ℕ
print_problems = codes "[" ++ print_rows ("DS" ∷ []) ("PR" ∷ []) ++ line "]"
