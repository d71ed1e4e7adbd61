-- ===== src/Contracts/Fulfilled.antt =====
-- The parser, the priorities, the preprocessor, the solver and the printers keep their contracts.
use mathlib.Core.List.{append-nil}
use af_analyzer.Prelude.{ℕ, ◌≡◌, refl, sym, ap, ◌∙◌, ◌≤◌, false, contains, List, [], ◌∷◌, ◌++◌, ok}
use af_analyzer.Prelude.Int.{ℤ}
use af_analyzer.Text.{number}
use af_analyzer.Af.Valid.{IsValid}
use af_analyzer.Parser.{parse_af}
use af_analyzer.Parser.RoundTrip.{parse_af-render}
use af_analyzer.Af.{Af, exists_attack}
use af_analyzer.PreProcessor.{PreProcResult, accepted, rejected, unknown, process}
use af_analyzer.PreProcessor.Grounded.{VerdictHolds}
use af_analyzer.PreProcessor.Outcome.{everything}
use af_analyzer.Semantics.{ArgSet, IsPreferred, IsSceptical}
use af_analyzer.PreProcessor.Verdict.{process-VerdictHolds}
use af_analyzer.Prioritizer.{distance, calculate_priority, calculate_priority_lem}
use af_analyzer.Printer.{integer, print_list, print_set, print_vector, print_vector_int64}
use af_analyzer.Printer.Lists.{
  spaced-print_rest, flatten, spaced, print_elements-spaced, printers-print_list,
}
use af_analyzer.Sat.{SatSolver}
use af_analyzer.Solver.Solve.{Openmp, solve}
use af_analyzer.Solver.Correct.{solve_lem}
use af_analyzer.Contracts.Program.{
  ParserContract, PrioritizerContract, PreProcessorContract, SolverContract, PrinterContract,
  join_spaces,
}

pub Parser-ParserContract : ParserContract parse_af
unfolding parse_af
Parser-ParserContract = record {
  parses = λ it files file n lines small ok_lines found.
      parse_af-render it n lines small ok_lines files file found;
  needs_file = λ it files framework file missing. rw (parse_af, missing) refl;
}

pub Prioritizer-PrioritizerContract :
    {f : Af}
    → IsValid f
    → ((m : ℕ) → distance f m ≤ f.num_args)
    → PrioritizerContract f calculate_priority
Prioritizer-PrioritizerContract valid near = record {
  largest = λ m set_args range. calculate_priority_lem valid near m set_args range;
}

verdict_reads :
    (f : Af) (q : ℕ) (verdict : PreProcResult) (r : ArgSet)
    → VerdictHolds f (everything f) q verdict r
    → (verdict ≡ accepted → IsSceptical (exists_attack f) (everything f) q)
      × (verdict ≡ rejected
          → (P : ArgSet) → IsPreferred (exists_attack f) (everything f) P
          → P q ≡ false)
verdict_reads f q accepted r h = ((λ e. h), (λ e. cc))
verdict_reads f q rejected r h = ((λ e. cc), (λ e. h))
verdict_reads f q unknown r h = ((λ e. cc), (λ e. cc))

pub PreProcessor-PreProcessorContract : {f : Af} → IsValid f → PreProcessorContract f process
PreProcessor-PreProcessorContract {f} valid = record {
  decides = λ q out_reduct hq fresh.
      let (done, ends, holds) = process-VerdictHolds valid q out_reduct hq fresh in
      let (accepts, rejects) = verdict_reads f q done.verdict (contains done.reduct.vector) holds in
      (done, ends, accepts, rejects);
}

pub Solver-SolverContract :
    (sat : SatSolver) (omp : Openmp) {f : Af} → IsValid f → SolverContract f omp (solve sat omp)
Solver-SolverContract sat omp valid = record {
  answers = λ q given num_cores fuel enough small fresh no_zero positive hq defined.
      let (f', answer, l, out, ends, changed, right, witness, log) =
        solve_lem sat omp num_cores valid q given fuel enough small fresh no_zero positive hq
          defined in
      (f', answer, l, out, ends, right, witness);
}

join-spaced :
    {A : Type 0} (shown : A → List ℕ) (x : A) (l : List A)
    → shown x ++ spaced shown l ≡ join_spaces shown (x ∷ l)
join-spaced shown x [] = append-nil (shown x)
join-spaced shown x (y ∷ l) = ap (λ r. shown x ++ 32 ∷ r) (join-spaced shown y l)

join-print_list : (l : List ℕ) → print_list l ≡ join_spaces number l
unfolding print_list
join-print_list [] = refl
join-print_list (x ∷ l) =
    ap (λ r. number x ++ r) (sym (spaced-print_rest l)) ∙ join-spaced number x l

int64_written : (v : List ℤ) → print_vector_int64 v ≡ ok (join_spaces integer v)
unfolding print_vector_int64
int64_written [] = refl
int64_written (x ∷ v) = print_elements-spaced integer x v ∙ ap ok (join-spaced integer x v)

-- Each function of the class writes its elements in decimal, with a space between each two and
-- nothing else, and reads no index out of range; a set is written in the order of its buckets.
pub Printer-PrinterContract :
    PrinterContract print_list print_set print_vector print_vector_int64 flatten
Printer-PrinterContract = record {
  list_written = join-print_list;
  set_written = λ s. printers-print_list.2 s ∙ join-print_list (flatten s);
  vector_written = λ v. printers-print_list.0 v ∙ ap ok (join-print_list v);
  int64_written = int64_written;
}
