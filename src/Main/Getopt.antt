-- ===== src/Main/Getopt.antt =====
-- The options of include/Main.h, and the loop over them in `execute` of src/Main.cpp.
use Prim.Native.String.{String}
use af_analyzer.Prelude.{
  ℕ, Bool, true, false, Option, none, some, List, [], ◌∷◌, ◌==◌, if◌then◌else◌,
}

-- The variables that an option can set.
pub data Flag : Type 0 where
  version usage formats problems : Flag

pub record Longopt : Type 0 where
  pub name : String
  pub required_argument : Bool
  pub flag : Option Flag
  pub val : ℕ

abbrev sets : String → Flag → Longopt
sets name flag = record { name = name; required_argument = false; flag = some flag; val = 1 }

abbrev takes : String → ℕ → Longopt
takes name val = record { name = name; required_argument = true; flag = none; val = val }

-- The table without its last row, which ends it.
abbrev pub longopts : List Longopt
longopts =
    sets "help" usage
    ∷ sets "version" version
    ∷ sets "formats" formats
    ∷ sets "problems" problems
    ∷ takes "p" b'p'
    ∷ takes "f" b'f'
    ∷ takes "fo" b'o'
    ∷ takes "a" b'a'
    ∷ []

-- A call returns 0 and has stored a value in a flag, or returns another value, with `optarg`.
pub data Event : Type 0 where
  stored : Flag → ℕ → Event
  returned : ℕ → String → Event

pub record Options : Type 0 where
  pub problem : String
  pub file : String
  pub fileformat : String
  pub query : String
  pub version_flag : ℕ
  pub usage_flag : ℕ
  pub formats_flag : ℕ
  pub problems_flag : ℕ

abbrev pub no_options : Options
no_options = record {
  problem = "";
  file = "";
  fileformat = "";
  query = "";
  version_flag = 0;
  usage_flag = 0;
  formats_flag = 0;
  problems_flag = 0;
}

abbrev pub set_flag : Flag → ℕ → Options → Options
set_flag version v o = record o { version_flag = v }
set_flag usage v o = record o { usage_flag = v }
set_flag formats v o = record o { formats_flag = v }
set_flag problems v o = record o { problems_flag = v }

-- The `switch` of the loop over the options, or none for its `return 1`.
abbrev pub set_option : Event → Options → Option Options
set_option (stored flag v) o = some (set_flag flag v o)
set_option (returned opt optarg) o =
    if opt == 0
    then some o
    else if opt == b'p'
    then some (record o { problem = optarg })
    else if opt == b'f'
    then some (record o { file = optarg })
    else if opt == b'o'
    then some (record o { fileformat = optarg })
    else if opt == b'a'
    then some (record o { query = optarg })
    else none

unfoldable pub read_options : List Event → Option Options → Option Options
read_options events none = none
read_options [] (some o) = some o
read_options (e ∷ events) (some o) = read_options events (set_option e o)
