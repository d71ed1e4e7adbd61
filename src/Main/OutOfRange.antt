-- ===== src/Main/OutOfRange.antt =====
-- The program of src/Main.cpp on a query that is no argument of the framework in the file.
use Prim.Native.String.{String}
use af_analyzer.Prelude.{
  ℕ, ◌^◌, ◌%◌, ◌<◌, ◌≡◌, refl, some, List, [], ◌∷◌, length, err, out_of_range, at-eq-err, arith,
}
use af_analyzer.Text.{codes, number}
use af_analyzer.Text.Strings.{size, append}
use af_analyzer.VectorBitSet.{VectorBitSet, blank}
use af_analyzer.Af.{Af, Iteration}
use af_analyzer.Af.Valid.{IsValid}
use af_analyzer.Enums.{string_to_sem}
use af_analyzer.Parser.{Files}
use af_analyzer.Parser.Format.{Line, render, AreLines}
use af_analyzer.Parser.RoundTrip.{parse_af-render}
use af_analyzer.PreProcessor.{process}
use af_analyzer.Sat.{SatSolver}
use af_analyzer.Solver.Solve.{Openmp, solve}
use af_analyzer.Main.{run_ds, main}
use af_analyzer.Main.EndToEnd.{
  given_options, query-nonempty, run_problem_lem, respond_lem, main_lem,
}
use af_analyzer.Main.Getopt.{Longopt, longopts, Event, returned, read_options}
use af_analyzer.Main.Names.{with_dot, stoi-number}

-- The first access of `process` is to the row of the query.
process-eq-err :
    {f : Af} (valid : IsValid f) (q : ℕ) (out_reduct : VectorBitSet)
    → f.num_args < q
    → process f q out_reduct ≡ err out_of_range
unfolding process
process-eq-err {f} valid q out_reduct beyond =
    rw (at-eq-err f.victims q (omega (arith, valid.victims_size))) refl

module _ (it : Iteration) (files : Files) (sat : SatSolver) (omp : Openmp) (fuel : ℕ)
    (getopt_long_only : List Longopt → List String → List Event) where
  run_ds-eq-err :
      (argv0 file query : String) (q : ℕ) {f : Af}
      → IsValid f
      → codes query ≡ number q
      → q < 2 ^ 31
      → f.num_args < q
      → run_ds it files sat omp fuel getopt_long_only argv0 (given_options file query) f "PR"
        ≡ err out_of_range
  unfolding run_ds string_to_sem solve
  run_ds-eq-err argv0 file query q valid h small beyond =
      let whole : q % 2 ^ 32 ≡ q = omega (arith, small) in
      rw
        (
          query-nonempty query q h,
          stoi-number query q h small,
          whole,
          process-eq-err valid q blank beyond,
        )
        refl

  -- The program is called with -p DS-PR, -f and -a, as getopt_long_only reports them, on a file with
  -- the ending i23 that has the format, with n arguments, fewer than 2 ^ 31. If the query is a number
  -- above n, below 2 ^ 31, then it is not refused: a vector is accessed behind its end.
  pub main-eq-err :
      (argv : List String) (stem query : String) (n q : ℕ) (ls : List Line)
      → 1 < length argv
      → getopt_long_only longopts argv
        ≡ returned b'p' "DS-PR"
          ∷ returned b'f' (append stem (with_dot "i23"))
          ∷ returned b'a' query
          ∷ []
      → size stem < 2 ^ 62
      → codes query ≡ number q
      → n < q
      → q < 2 ^ 31
      → AreLines n ls
      → files (append stem (with_dot "i23")) ≡ some (render n ls)
      → main it files sat omp fuel getopt_long_only argv ≡ err out_of_range
  unfolding read_options
  main-eq-err argv stem query n q ls many options fits query_is beyond small lines found =
      let name = append stem (with_dot "i23") in
      let (f, parsed, (valid, size_is, same, fresh)) =
        parse_af-render it n ls (omega (arith, beyond, small)) lines files name found in
      main_lem it files sat omp fuel getopt_long_only argv (given_options name query)
        (err out_of_range) many (rw options refl)
        (λ argv0.
          respond_lem it files sat omp fuel getopt_long_only argv0 stem query (err out_of_range)
            fits
            (run_problem_lem it files sat omp fuel getopt_long_only argv0 name query f
              (err out_of_range) parsed
              (run_ds-eq-err argv0 name query q valid query_is small
                (omega (arith, beyond, size_is)))))
