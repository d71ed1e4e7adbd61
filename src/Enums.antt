-- ===== src/Enums.antt =====
-- include/logic/Enums.h and src/logic/Enums.cpp: the tasks and semantics of the command line.
use Prim.Native.String.{String}
use text.Mathlib.Text.{◌==◌ as str_eq}
use text.Mathlib.TextEquality.{eq_iff}
use af_analyzer.Prelude.{◌≡◌, ◌≢◌, false, Bool-cases, inl, inr, if◌then◌else◌}

pub data Task : Type 0 where
  dc ds se ee ce unknown_task : Task

pub data SemanticsName : Type 0 where
  it uc pr gr unknown_sem : SemanticsName

pub data Solvers : Type 0 where
  cms cadical : Solvers

unfoldable pub string_to_task : String → Task
string_to_task task =
    if str_eq task "DC"
    then dc
    else if str_eq task "DS"
    then ds
    else if str_eq task "SE"
    then se
    else if str_eq task "EE"
    then ee
    else if str_eq task "CE"
    then ce
    else unknown_task

unfoldable pub string_to_sem : String → SemanticsName
string_to_sem semantics =
    if str_eq semantics "IT"
    then it
    else if str_eq semantics "UC"
    then uc
    else if str_eq semantics "PR"
    then pr
    else if str_eq semantics "GR"
    then gr
    else unknown_sem

-- The abbreviations, as the enumerators spell them.
abbrev pub TaskName : Task → String → Type 0
TaskName dc s = s ≡ "DC"
TaskName ds s = s ≡ "DS"
TaskName se s = s ≡ "SE"
TaskName ee s = s ≡ "EE"
TaskName ce s = s ≡ "CE"
TaskName unknown_task s = (s ≢ "DC") × (s ≢ "DS") × (s ≢ "SE") × (s ≢ "EE") × (s ≢ "CE")

abbrev pub SemName : SemanticsName → String → Type 0
SemName it s = s ≡ "IT"
SemName uc s = s ≡ "UC"
SemName pr s = s ≡ "PR"
SemName gr s = s ≡ "GR"
SemName unknown_sem s = (s ≢ "IT") × (s ≢ "UC") × (s ≢ "PR") × (s ≢ "GR")

other : (s t : String) → str_eq s t ≡ false → s ≢ t
other s t e h = cc ((eq_iff s t).1 h)

-- A string is read as the task whose abbreviation it is, and as the unknown task if it is none.
pub string_to_task-TaskName : (s : String) → TaskName (string_to_task s) s
unfolding string_to_task
string_to_task-TaskName s = elim (Bool-cases (str_eq s "DC")) [
  | inl e ↦ rw e ((eq_iff s "DC").0 e)
  | inr e1 ↦ elim (Bool-cases (str_eq s "DS")) [
    | inl e ↦ rw (e1, e) ((eq_iff s "DS").0 e)
    | inr e2 ↦ elim (Bool-cases (str_eq s "SE")) [
      | inl e ↦ rw (e1, e2, e) ((eq_iff s "SE").0 e)
      | inr e3 ↦ elim (Bool-cases (str_eq s "EE")) [
        | inl e ↦ rw (e1, e2, e3, e) ((eq_iff s "EE").0 e)
        | inr e4 ↦ elim (Bool-cases (str_eq s "CE")) [
          | inl e ↦ rw (e1, e2, e3, e4, e) ((eq_iff s "CE").0 e)
          | inr e5 ↦
              rw (e1, e2, e3, e4, e5)
                (
                  other s "DC" e1,
                  other s "DS" e2,
                  other s "SE" e3,
                  other s "EE" e4,
                  other s "CE" e5,
                )
        ]
      ]
    ]
  ]
]

-- A string is read as the semantics whose abbreviation it is, and as the unknown one if it is none.
pub string_to_sem-SemName : (s : String) → SemName (string_to_sem s) s
unfolding string_to_sem
string_to_sem-SemName s = elim (Bool-cases (str_eq s "IT")) [
  | inl e ↦ rw e ((eq_iff s "IT").0 e)
  | inr e1 ↦ elim (Bool-cases (str_eq s "UC")) [
    | inl e ↦ rw (e1, e) ((eq_iff s "UC").0 e)
    | inr e2 ↦ elim (Bool-cases (str_eq s "PR")) [
      | inl e ↦ rw (e1, e2, e) ((eq_iff s "PR").0 e)
      | inr e3 ↦ elim (Bool-cases (str_eq s "GR")) [
        | inl e ↦ rw (e1, e2, e3, e) ((eq_iff s "GR").0 e)
        | inr e4 ↦
            rw (e1, e2, e3, e4) (other s "IT" e1, other s "UC" e2, other s "PR" e3, other s "GR" e4)
      ]
    ]
  ]
]
