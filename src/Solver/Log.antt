-- ===== src/Solver/Log.antt =====
-- What the tasks of src/logic/Solver_DS_PR.cpp write to `cout`: a line for each task that is created.
use mathlib.Core.List.{append_assoc, append-nil}
use af_analyzer.Prelude.{ℕ, ◌≡◌, refl, ap, ◌∙◌, sym, List, [], ◌∷◌, ◌++◌}
use af_analyzer.Solver.{priority_line}

-- The lines for some sets, with their priorities.
abbrev pub log_text : List (List ℕ × ℕ) → List ℕ
log_text [] = []
log_text ((l, prio) ∷ entries) = priority_line l prio ++ log_text entries

abbrev pub IsLog : List ℕ → Type 0
IsLog out = (entries : List (List ℕ × ℕ)) × (out ≡ log_text entries)

pub silent : IsLog []
silent = ([], refl)

log_text-append : (xs ys : List (List ℕ × ℕ)) → log_text (xs ++ ys) ≡ log_text xs ++ log_text ys
log_text-append [] ys = refl
log_text-append ((l, prio) ∷ xs) ys =
    ap (λ r. priority_line l prio ++ r) (log_text-append xs ys)
    ∙ sym (append_assoc (priority_line l prio) (log_text xs) (log_text ys))

pub IsLog-append : (s t : List ℕ) → IsLog s → IsLog t → IsLog (s ++ t)
IsLog-append s t (xs, e) (ys, g) =
    (xs ++ ys, ap (λ r. r ++ t) e ∙ ap (λ r. log_text xs ++ r) g ∙ sym (log_text-append xs ys))

pub one_line : (l : List ℕ) (prio : ℕ) → IsLog (priority_line l prio)
one_line l prio = ((l, prio) ∷ [], sym (append-nil (priority_line l prio)))
