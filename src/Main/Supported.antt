-- ===== src/Main/Supported.antt =====
-- What `execute` of src/Main.cpp answers, and that it refuses everything else.
use Prim.Native.String.{String}
use text.Mathlib.Text.{◌==◌ as str_eq}
use text.Mathlib.TextEquality.{eq_iff}
use af_analyzer.Prelude.{
  ℕ, ◌≡◌, ◌≢◌, sym, refl, ap, ◌∙◌, ◌⊎◌, inl, inr, false, List, Bool-cases, if◌then◌else◌, Result,
  ok, err, Error, ◌>>=◌,
}
use af_analyzer.Text.Strings.{is_empty_string, stoi}
use af_analyzer.Af.{Af, Iteration, empty_af}
use af_analyzer.Parser.{Files, parse_af}
use af_analyzer.Sat.{SatSolver}
use af_analyzer.Solver.Solve.{Openmp}
use af_analyzer.Enums.{
  Task, dc, ds, se, ee, ce, unknown_task, SemanticsName, it, uc, pr, gr, unknown_sem,
  string_to_task, string_to_sem, TaskName, SemName, string_to_task-TaskName, string_to_sem-SemName,
}
use af_analyzer.Main.{
  Outcome, complains, on_pr, on_ds, file_format, split_problem, run_ds, run_problem, respond,
}
use af_analyzer.Main.Messages.{line}
use af_analyzer.Main.Getopt.{Longopt, Event, Options}

Result-cases : {A : Type 0} (r : Result A) → ((a : A) × (r ≡ ok a)) ⊎ ((e : Error) × (r ≡ err e))
Result-cases (ok a) = inl (a, refl)
Result-cases (err e) = inr (e, refl)

status_eq : {a b : Outcome} → ok a ≡ ok b → a.status ≡ b.status
status_eq h = cc

no_result : {A : Type 0} {e : Error} {a : A} → err e ≡ ok a → ⊥
no_result h = cc

on_pr-cases :
    (t : SemanticsName) (s : String)
    → SemName t s
    → (s ≡ "PR") ⊎ ((a b : Result Outcome) → on_pr t a b ≡ b)
on_pr-cases pr s h = inl h
on_pr-cases it s h = inr (λ a b. refl)
on_pr-cases uc s h = inr (λ a b. refl)
on_pr-cases gr s h = inr (λ a b. refl)
on_pr-cases unknown_sem s h = inr (λ a b. refl)

on_ds-cases :
    (t : Task) (s : String)
    → TaskName t s
    → ((t ≡ ds) × (s ≡ "DS")) ⊎ ((a b : Result Outcome) → on_ds t a b ≡ b)
on_ds-cases ds s h = inl (refl, h)
on_ds-cases dc s h = inr (λ a b. refl)
on_ds-cases se s h = inr (λ a b. refl)
on_ds-cases ee s h = inr (λ a b. refl)
on_ds-cases ce s h = inr (λ a b. refl)
on_ds-cases unknown_task s h = inr (λ a b. refl)

module _ (order : Iteration) (files : Files) (sat : SatSolver) (omp : Openmp) (fuel : ℕ)
    (getopt_long_only : List Longopt → List String → List Event) where
  module _ (argv0 : String) (o : Options) (result : Outcome) (fine : result.status ≢ 1) where
    refused : (text : List ℕ) → ok (complains argv0 text) ≡ ok result → ⊥
    refused text h = fine (sym (status_eq h))

    -- The case of the task DS refuses an empty query, and any semantics but PR.
    run_ds-supported :
        (f : Af) (sem : String)
        → run_ds order files sat omp fuel getopt_long_only argv0 o f sem ≡ ok result
        → (is_empty_string o.query ≡ false) × (sem ≡ "PR")
    unfolding run_ds
    run_ds-supported f sem h = elim (Bool-cases (is_empty_string o.query)) [
      | inl e ↦ absurd (refused _ (rw e at h))
      | inr e ↦ elim (Result-cases (stoi o.query)) [
        | inr (why, read) ↦ absurd (no_result (rw (e, read) at h))
        | inl (n, read) ↦ elim (on_pr-cases (string_to_sem sem) sem (string_to_sem-SemName sem)) [
          | inl name ↦ (e, name)
          | inr other ↦ absurd (refused _ (rw (e, read, other _ _) at h))
        ]
      ]
    ]

    run_problem-supported :
        run_problem order files sat omp fuel getopt_long_only argv0 o ≡ ok result
        → (is_empty_string o.query ≡ false) × (split_problem o.problem ≡ ok ("DS", "PR"))
    unfolding run_problem
    run_problem-supported h = elim (Result-cases (parse_af order files empty_af o.file)) [
      | inr (why, parsed) ↦ absurd (no_result (rw parsed at h))
      | inl (f, parsed) ↦ elim (Result-cases (split_problem o.problem)) [
        | inr (why, split) ↦ absurd (no_result (rw (parsed, split) at h))
        | inl ((task, sem), split) ↦
            elim (on_ds-cases (string_to_task task) task (string_to_task-TaskName task)) [
              | inr other ↦ absurd (refused _ (rw (parsed, split, other _ _) at h))
              | inl (is_ds, name) ↦
                  let (given, sem_name) = run_ds-supported f sem (rw (parsed, split, is_ds) at h) in
                  (given, split ∙ λ i. ok (name i, sem_name i))
            ]
      ]
    ]

    format_cases :
        (file_format o >>= λ format.
        if str_eq format "i23"
        then run_problem order files sat omp fuel getopt_long_only argv0 o
        else ok (complains argv0 (line ": Unsupported file format")))
          ≡ ok result
        → (file_format o ≡ ok "i23")
          × (is_empty_string o.query ≡ false)
          × (split_problem o.problem ≡ ok ("DS", "PR"))
    format_cases h = elim (Result-cases (file_format o)) [
      | inr (why, read) ↦ absurd (no_result (rw read at h))
      | inl (format, read) ↦ elim (Bool-cases (str_eq format "i23")) [
        | inr e ↦ absurd (refused _ (rw (read, e) at h))
        | inl e ↦
            let (given, split) = run_problem-supported (rw (read, e) at h) in
            (read ∙ ap ok ((eq_iff format "i23").0 e), given, split)
      ]
    ]

    -- If none of the flags of the options that only print a text is set and `respond` returns a status
    -- other than 1, then a file is given and its format is i23, a query is given, and the problem
    -- splits into DS and PR. So anything else that does not end with an error is refused with 1.
    pub respond-supported :
        (o.version_flag ≡ 0) × (o.usage_flag ≡ 0) × (o.formats_flag ≡ 0) × (o.problems_flag ≡ 0)
        → respond order files sat omp fuel getopt_long_only argv0 o ≡ ok result
        → (is_empty_string o.file ≡ false)
          × (file_format o ≡ ok "i23")
          × (is_empty_string o.query ≡ false)
          × (split_problem o.problem ≡ ok ("DS", "PR"))
    unfolding respond
    respond-supported (version, usage, formats, problems) h =
        elim (Bool-cases (is_empty_string o.problem)) [
          | inl e ↦ absurd (refused _ (rw (version, usage, formats, problems, e) at h))
          | inr e ↦ elim (Bool-cases (is_empty_string o.file)) [
            | inl e' ↦ absurd (refused _ (rw (version, usage, formats, problems, e, e') at h))
            | inr e' ↦
                let (known, given, split) =
                  format_cases (simp (version, usage, formats, problems, e, e') at h) in
                (e', known, given, split)
          ]
        ]
