-- ===== src/Main/EndToEnd.antt =====
-- The program of src/Main.cpp as a whole: from the arguments and the file to the answer.
use Prim.Native.String.{String}
use mathlib.Core.Path.{subst}
use af_analyzer.Prelude.{
  ℕ, ◌+◌, ◌%◌, ◌^◌, ◌≤◌, ◌<◌, ◌≡◌, refl, sym, ◌∙◌, ◌⊎◌, ◌↔◌, inl, inr, Bool, true, false, ◌&&◌,
  Bool-cases, some, List, [], ◌∷◌, ◌++◌, length, ltb, ◌==◌, contains, Result, ok, ◌>>=◌, arith,
}
use af_analyzer.Text.{codes, number}
use af_analyzer.Text.Decimal.{number-StartsDigit}
use af_analyzer.Text.Strings.{size, is_empty_string, append}
use af_analyzer.Af.{Af, Iteration, empty_af, exists_attack}
use af_analyzer.Parser.{Files, parse_af}
use af_analyzer.Parser.Format.{Line, render, lists_attack, AreLines}
use af_analyzer.Parser.RoundTrip.{lists_attack-range, parse_af-render}
use af_analyzer.Sat.{SatSolver}
use af_analyzer.Semantics.{ArgSet, AttackedBy, IsAdmissible, IsSceptical}
use af_analyzer.Semantics.Reducts.{union}
use af_analyzer.Enums.{string_to_task, string_to_sem}
use af_analyzer.Solver.Weight.{weight}
use af_analyzer.Solver.Solve.{Openmp, IsDefined, solve}
use af_analyzer.Solver.Log.{IsLog}
use af_analyzer.Solver.Correct.{solve_lem}
use af_analyzer.Main.{
  num_cores, Outcome, says, print_answer, split_problem, run_ds, run_problem, respond, execute,
  main,
}
use af_analyzer.Main.Getopt.{Longopt, longopts, Event, returned, Options, no_options, read_options}
use af_analyzer.Main.Names.{with_dot, file_format-append, stoi-number}

append-nonempty : (stem ext : String) → is_empty_string (append stem (with_dot ext)) ≡ false
append-nonempty String.[] ext = refl
append-nonempty (String.◌∷◌ c s) ext = refl

pub query-nonempty :
    (query : String) (q : ℕ) → codes query ≡ number q → is_empty_string query ≡ false
query-nonempty String.[] q h =
    let (c, r, e, d) = number-StartsDigit q in let bad : [] ≡ c ∷ r = h ∙ e in cc
query-nonempty (String.◌∷◌ c s) q h = refl

problem_splits : split_problem "DS-PR" ≡ ok ("DS", "PR")
unfolding split_problem
problem_splits = refl

-- The options -p DS-PR, -f and -a.
abbrev pub given_options : String → String → Options
given_options file query = record no_options { problem = "DS-PR"; file = file; query = query }

-- What the answer says of the query, for an attack relation on the arguments from 1 to `n`, and what
-- the list is that comes with it.
abbrev pub Judged : (ℕ → ℕ → Bool) → ℕ → ℕ → Bool → List ℕ → Type 0
Judged R n q answer l =
    ((answer ≡ true) ↔ IsSceptical R (λ a. ltb 0 a && ltb a (n + 1)) q)
    × ((l ≡ [])
        ⊎ (AttackedBy R (contains l) q
            × ((G : ArgSet) × IsAdmissible R (λ a. ltb a (n + 1)) (union G (contains l)))))

-- What the program writes, for the arguments from 1 to `n`, the attacks of `ls` and the query `q`: the
-- lines with priorities that the search writes, and the answer.
abbrev pub Answers : ℕ → List Line → ℕ → Outcome → Type 0
Answers n ls q o =
    (log : List ℕ) × IsLog log
    × (((o.out ≡ log ++ codes "YES\n")
          × IsSceptical (lists_attack ls) (λ a. ltb 0 a && ltb a (n + 1)) q)
        ⊎ ((l : List ℕ) × (o.out ≡ log ++ print_answer false l)
            × ¬ IsSceptical (lists_attack ls) (λ a. ltb 0 a && ltb a (n + 1)) q
            × ((l ≡ [])
                ⊎ (AttackedBy (lists_attack ls) (contains l) q
                    × ((G : ArgSet) × IsAdmissible (lists_attack ls) (λ a. ltb a (n + 1))
                          (union G (contains l)))))))

Judged-Answers :
    (n : ℕ) (ls : List Line) (q : ℕ) (answer : Bool) (l log : List ℕ)
    → IsLog log
    → Judged (lists_attack ls) n q answer l
    → Answers n ls q (says (log ++ print_answer answer l))
unfolding print_answer
Judged-Answers n ls q true l log lines (right, witness) = (log, lines, inl (refl, right.0 refl))
Judged-Answers n ls q false l log lines (right, witness) =
    (log, lines, inr (l, refl, (λ h. cc (right.1 h)), witness))

module _ (it : Iteration) (files : Files) (sat : SatSolver) (omp : Openmp) (fuel : ℕ)
    (getopt_long_only : List Longopt → List String → List Event) where
  run_ds_lem :
      (argv0 file query : String) (q : ℕ) (f f' : Af) (answer : Bool) (l out : List ℕ)
      → codes query ≡ number q
      → q < 2 ^ 31
      → solve sat omp fuel q f [] num_cores ≡ ok (f', answer, l, out)
      → run_ds it files sat omp fuel getopt_long_only argv0 (given_options file query) f "PR"
        ≡ ok (says (out ++ print_answer answer l))
  unfolding run_ds string_to_sem
  run_ds_lem argv0 file query q f f' answer l out h small solved =
      let whole : q % 2 ^ 32 ≡ q = omega (arith, small) in
      rw (query-nonempty query q h, stoi-number query q h small, whole, solved) refl

  pub run_problem_lem :
      (argv0 file query : String) (f : Af) (result : Result Outcome)
      → parse_af it files empty_af file ≡ ok f
      → run_ds it files sat omp fuel getopt_long_only argv0 (given_options file query) f "PR"
        ≡ result
      → run_problem it files sat omp fuel getopt_long_only argv0 (given_options file query) ≡ result
  unfolding run_problem string_to_task
  run_problem_lem argv0 file query f result parsed ran = rw (parsed, problem_splits) ran

  pub respond_lem :
      (argv0 stem query : String) (result : Result Outcome)
      → size stem < 2 ^ 62
      → run_problem it files sat omp fuel getopt_long_only argv0
          (given_options (append stem (with_dot "i23")) query)
        ≡ result
      → respond it files sat omp fuel getopt_long_only argv0
          (given_options (append stem (with_dot "i23")) query)
        ≡ result
  unfolding respond
  respond_lem argv0 stem query result fits ran =
      rw
        (
          append-nonempty stem "i23",
          file_format-append (given_options (append stem (with_dot "i23")) query) stem "i23" refl
              refl refl (omega (arith, fits)),
        )
        ran

  pub main_lem :
      (argv : List String) (o : Options) (result : Result Outcome)
      → 1 < length argv
      → read_options (getopt_long_only longopts argv) (some no_options) ≡ some o
      → ((argv0 : String) → respond it files sat omp fuel getopt_long_only argv0 o ≡ result)
      → main it files sat omp fuel getopt_long_only argv
        ≡ (result >>= λ r. ok (record r { status = 0 }))
  unfolding main execute
  main_lem argv o result many read responds =
      let e : (length argv == 1) ≡ false = ground (arith, many) in rw (e, read, responds) refl

  -- The compiler copies the shared parameters for each task, or the search for the query in the
  -- framework of the file does not read them after their call has returned.
  abbrev pub SearchIsDefined : String → ℕ → Type 0
  SearchIsDefined file q =
      (f : Af)
      → parse_af it files empty_af file ≡ ok f
      → IsDefined omp (solve sat omp fuel q f [] num_cores)

  -- What `execute` does with these options, whatever the name of the program.
  pub respond-Answers :
      (stem query : String) (n q : ℕ) (ls : List Line)
      → size stem < 2 ^ 62
      → codes query ≡ number q
      → 0 < q
      → q ≤ n
      → n < 2 ^ 30
      → AreLines n ls
      → files (append stem (with_dot "i23")) ≡ some (render n ls)
      → weight (n + 1) ≤ fuel
      → SearchIsDefined (append stem (with_dot "i23")) q
      → (o : Outcome) × ((argv0 : String)
          → respond it files sat omp fuel getopt_long_only argv0
              (given_options (append stem (with_dot "i23")) query)
            ≡ ok o)
        × (o.status ≡ 0)
        × Answers n ls q o
  respond-Answers stem query n q ls fits query_is positive hq small lines found enough defined =
      let name = append stem (with_dot "i23") in
      let (f, parsed, (valid, size_is, same, fresh)) =
        parse_af-render it n ls (omega (arith, small)) lines files name found in
      let attacks : exists_attack f ≡ lists_attack ls = λ i a b. same a b i in
      let no_zero : (b : ℕ) → exists_attack f 0 b ≡ false = λ b.
        elim (Bool-cases (lists_attack ls 0 b)) [
          | inl h ↦ absurd (omega (arith, (lists_attack-range n ls 0 b lines h).0))
          | inr h ↦ same 0 b ∙ h
        ] in
      let (f', answer, l, out, solved, changed, right, witness, log) =
        solve_lem sat omp num_cores valid q [] fuel
          (subst (λ m. weight (m + 1) ≤ fuel) (sym size_is) enough) (omega (arith, small, size_is))
          fresh no_zero positive (omega (arith, hq, size_is)) (defined f parsed) in
      let judged' : Judged (lists_attack ls) n q answer l =
        subst (λ R. Judged R n q answer l) attacks
          (subst (λ m. Judged (exists_attack f) m q answer l) size_is (right, witness)) in
      (
        says (out ++ print_answer answer l),
        (λ argv0. respond_lem argv0 stem query (ok (says (out ++ print_answer answer l))) fits (
            run_problem_lem argv0 name query f (ok (says (out ++ print_answer answer l))) parsed (
              run_ds_lem argv0 name query q f f' answer l out query_is (omega (arith, hq, small))
                solved))),
        refl,
        Judged-Answers n ls q answer l out log judged',
      )

  -- The program is called with -p DS-PR, -f and -a, as getopt_long_only reports them, on a file with
  -- the ending i23 that has the format, with fewer than 2 ^ 30 arguments, and with a query that is
  -- one of its arguments. Whatever the schedule, if the compiler copies the shared parameters for each
  -- task or the search does not read them after their call has returned, then with the weight
  -- of n + 1 as fuel it ends with the status 0. It writes lines with priorities, and behind them
  -- YES if the query is in every preferred set of the framework in the file; if it is not, it
  -- writes NO and a set: none, or one that attacks the query and that is admissible together with
  -- some set.
  pub main-Answers :
      (argv : List String) (stem query : String) (n q : ℕ) (ls : List Line)
      → 1 < length argv
      → getopt_long_only longopts argv
        ≡ returned b'p' "DS-PR"
          ∷ returned b'f' (append stem (with_dot "i23"))
          ∷ returned b'a' query
          ∷ []
      → size stem < 2 ^ 62
      → codes query ≡ number q
      → 0 < q
      → q ≤ n
      → n < 2 ^ 30
      → AreLines n ls
      → files (append stem (with_dot "i23")) ≡ some (render n ls)
      → weight (n + 1) ≤ fuel
      → SearchIsDefined (append stem (with_dot "i23")) q
      → (o : Outcome) × (main it files sat omp fuel getopt_long_only argv ≡ ok o)
        × (o.status ≡ 0)
        × Answers n ls q o
  unfolding read_options
  main-Answers argv stem query n q ls many options fits query_is positive hq small lines found
        enough defined =
      let (o, responds, fine, answers) =
        respond-Answers stem query n q ls fits query_is positive hq small lines found enough
          defined in
      (
        record o { status = 0 },
        main_lem argv (given_options (append stem (with_dot "i23")) query) (ok o) many
            (rw options refl) responds,
        refl,
        answers,
      )
