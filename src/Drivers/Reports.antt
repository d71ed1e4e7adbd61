-- ===== src/Drivers/Reports.antt =====
-- What `runParallel` of src/logic/Tests.cpp prints for one argument.
use af_analyzer.Prelude.{ℕ, ◌≡◌, Bool, true, false, List, ◌++◌}
use af_analyzer.Text.{codes}
use af_analyzer.Af.{Af}

-- The text that is printed, by the answer.
abbrev pub Printed : Bool → List ℕ → Type 0
Printed true t = t ≡ codes "YES\n"
Printed false t = (rest : List ℕ) × (t ≡ codes "NO\nw " ++ rest)
