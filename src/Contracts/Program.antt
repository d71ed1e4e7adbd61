-- ===== src/Contracts/Program.antt =====
-- What include/logic/Parser_iccma.h, include/logic/Prioritizer.h, include/logic/PreProcessor_DS_PR.h,
-- include/logic/Solver_DS_PR.h and include/util/Printer.h say of the classes declared there.
use Prim.Native.String.{String}
use af_analyzer.Prelude.{
  ℕ, ◌+◌, ◌-◌, ◌^◌, ◌≤◌, ◌<◌, ◌≡◌, ◌↔◌, Bool, true, false, none, some, List, [], ◌∷◌, ◌++◌,
  contains, get_or, Result, ok, err, exited,
}
use af_analyzer.Prelude.Int.{ℤ}
use af_analyzer.VectorBitSet.{VectorBitSet}
use af_analyzer.Text.{number}
use af_analyzer.Af.{Af, Iteration, empty_af, exists_attack}
use af_analyzer.Parser.{Files}
use af_analyzer.Parser.Format.{Line, AreLines, render}
use af_analyzer.Parser.RoundTrip.{Parsed}
use af_analyzer.PreProcessor.{accepted, rejected, Processed}
use af_analyzer.PreProcessor.Outcome.{everything}
use af_analyzer.Prioritizer.{distance}
use af_analyzer.Printer.{integer}
use af_analyzer.Semantics.{IsPreferred, IsSceptical}
use af_analyzer.Solver.Correct.{arguments, IsWitness}
use af_analyzer.Solver.Solve.{Openmp, IsDefined}
use af_analyzer.Solver.Weight.{weight}

-- `parse_af` makes of a file in the format the framework that the file describes.
pub record ParserContract (parse_af : Iteration → Files → Af → String → Result Af) : Type 0 where
  pub parses :
      (it : Iteration) (files : Files) (file : String) (n : ℕ) (lines : List Line)
      → n < 2 ^ 31
      → AreLines n lines
      → files file ≡ some (render n lines)
      → (framework : Af) × (parse_af it files empty_af file ≡ ok framework)
        × Parsed n lines framework
  pub needs_file :
      (it : Iteration) (files : Files) (framework : Af) (file : String)
      → files file ≡ none
      → parse_af it files framework file ≡ err exited

-- `calculate_priority` gives a set of arguments its priority: the largest that one of them has, which
-- is the larger the closer the argument is to the query.
pub record PrioritizerContract (f : Af) (calculate_priority : Af → List ℕ → Result ℕ) : Type 0 where
  pub largest :
      (m : ℕ) (set_args : List ℕ)
      → ((k : ℕ) → contains (m ∷ set_args) k ≡ true → k ≤ f.num_args)
      → (priority : ℕ) × (calculate_priority f (m ∷ set_args) ≡ ok priority)
        × ((k : ℕ) → contains (m ∷ set_args) k ≡ true → f.num_args - distance f k ≤ priority)
        × ((k : ℕ) × (contains (m ∷ set_args) k ≡ true) × (priority ≡ f.num_args - distance f k))

-- `process` accepts only an argument that is in every preferred set, and rejects only one that is in
-- none.
pub record PreProcessorContract (f : Af) (process : Af → ℕ → VectorBitSet → Result Processed)
    : Type 0 where
  pub decides :
      (argument : ℕ) (out_reduct : VectorBitSet)
      → argument ≤ f.num_args
      → ((a : ℕ) → get_or f.distance_to_query a 0 ≡ 0)
      → (done : Processed) × (process f argument out_reduct ≡ ok done)
        × (done.verdict ≡ accepted → IsSceptical (exists_attack f) (everything f) argument)
        × (done.verdict ≡ rejected
            → (P : ℕ → Bool) → IsPreferred (exists_attack f) (everything f) P
            → P argument ≡ false)

-- `solve` returns true if and only if the argument is sceptically accepted. What it promises of
-- `proof_extension` is weaker here: see `IsWitness`.
pub record SolverContract (f : Af) (omp : Openmp)
    (solve : ℕ → ℕ → Af → List ℕ → ℕ → Result (Af × Bool × List ℕ × List ℕ)) : Type 0 where
  pub answers :
      (argument : ℕ) (proof_extension : List ℕ) (num_cores fuel : ℕ)
      → weight (f.num_args + 1) ≤ fuel
      → f.num_args < 2 ^ 30
      → ((a : ℕ) → get_or f.distance_to_query a 0 ≡ 0)
      → ((b : ℕ) → exists_attack f 0 b ≡ false)
      → 0 < argument
      → argument ≤ f.num_args
      → IsDefined omp (solve fuel argument f proof_extension num_cores)
      → (f' : Af) × (answer : Bool) × (l out : List ℕ) × (solve fuel argument f proof_extension
            num_cores
          ≡ ok (f', answer, l, out))
        × ((answer ≡ true) ↔ IsSceptical (exists_attack f) (arguments f) argument)
        × IsWitness f argument proof_extension l

-- The elements as they are shown, with a space between each two.
abbrev pub join_spaces : {A : Type 0} → (A → List ℕ) → List A → List ℕ
join_spaces shown [] = []
join_spaces shown (x ∷ []) = shown x
join_spaces shown (x ∷ y ∷ l) = shown x ++ 32 ∷ join_spaces shown (y ∷ l)

-- All functions write the elements in decimal, with a space between each two.
pub record PrinterContract (print_list : List ℕ → List ℕ) (print_set : List (List ℕ) → List ℕ)
    (print_vector : List ℕ → Result (List ℕ)) (print_vector_int64 : List ℤ → Result (List ℕ))
    (elements : List (List ℕ) → List ℕ) : Type 0 where
  pub list_written : (l : List ℕ) → print_list l ≡ join_spaces number l
  pub set_written : (s : List (List ℕ)) → print_set s ≡ join_spaces number (elements s)
  pub vector_written : (v : List ℕ) → print_vector v ≡ ok (join_spaces number v)
  pub int64_written : (v : List ℤ) → print_vector_int64 v ≡ ok (join_spaces integer v)
