-- ===== src/Solver.antt =====
-- src/logic/Solver_DS_PR.cpp: the search for a preferred extension without the query. Each call of
-- `check_rejection_parallel_recursiv` is a task; its code is cut where it reads `isRejected` and
-- where it writes what the tasks share, so that the tasks can run in any order between the cuts.
pub mod Log
pub mod Search
pub mod Extend
pub mod Built
pub mod Weight
pub mod Bounds
pub mod Invariant
pub mod Found
pub mod Loop
pub mod Start
pub mod Verdict
pub mod Solve
pub mod Ends
pub mod Correct
pub mod Agreement
use af_analyzer.Prelude.{
  ℕ, Bool, true, false, not, List, [], ◌∷◌, ◌++◌, ltb, if◌then◌else◌, length, Option, none, some,
  Result, ok, err, exited, ◌>>=◌,
}
use af_analyzer.Text.{codes, newline, number}
use af_analyzer.Printer.{print_list}
use af_analyzer.VectorBitSet.{VectorBitSet, copy}
use af_analyzer.Af.{Af}
use af_analyzer.Sat.{SatSolver}
use af_analyzer.Encoding.{add_clauses_nonempty_admissible_set, add_complement_clause}
use af_analyzer.Decoding.{get_set_from_solver}
use af_analyzer.Reduct.{is_empty, get_reduct_set}
use af_analyzer.ScepticalCheck.{check_rejection, check_terminate_extension_build}
use af_analyzer.Prioritizer.{calculate_priority}

-- `std::list::merge`: the head of the second list goes first if it is smaller.
unfoldable pub merge : List ℕ → List ℕ → List ℕ
merge [] ys = ys
merge (x ∷ xs) [] = x ∷ xs
merge (x ∷ xs) (y ∷ ys) =
    let second = merge (x ∷ xs) ys in
    let first = merge xs (y ∷ ys) in if ltb y x then y ∷ second else x ∷ first

unfoldable pub extend_extension : List ℕ → List ℕ → List ℕ
unfolding merge
extend_extension extension_build initial_set = merge extension_build initial_set

-- The variables of the do-while loop.
pub record Locals (S : Type 0) : Type 0 where
  pub extension_build : List ℕ
  pub reduct : VectorBitSet
  pub solver : S
  pub is_solved : Bool
  pub is_first_calculation : Bool

-- Where a task stands: at the first read of `isRejected`, at the second one, at the head of the
-- loop's body, at the write of `output_extension`, and at the read that ends the body.
pub data TaskState (S : Type 0) : Type 0 where
  begin : List ℕ → TaskState S
  encoded : List ℕ → VectorBitSet → S → TaskState S
  looping : Locals S → TaskState S
  rejecting : List ℕ → TaskState S
  reading : Locals S → TaskState S

-- What a task does up to its next cut: what it turns into, with the task that it creates, and what
-- it writes to `isRejected`, to `output_extension` and to `cout`.
pub record Effect (S : Type 0) : Type 0 where
  pub tasks : List (TaskState S)
  pub rejects : Bool
  pub output : Option (List ℕ)
  pub printed : List ℕ

abbrev pub become : {S : Type 0} → List (TaskState S) → Effect S
become ts = record { tasks = ts; rejects = false; output = none; printed = [] }

abbrev pub reject : {S : Type 0} → List (TaskState S) → Effect S
reject ts = record { tasks = ts; rejects = true; output = none; printed = [] }

-- What is written to `cout` before a task is created.
abbrev pub priority_line : List ℕ → ℕ → List ℕ
priority_line new_extension_build prio =
    codes "Priority calculated for:"
    ++ print_list new_extension_build
    ++ codes " Calculated Priority: "
    ++ number prio
    ++ newline ∷ []

unfoldable pub reduct_of : Af → VectorBitSet → List ℕ → Result VectorBitSet
unfolding get_reduct_set copy
reduct_of f active extension_build =
    if is_empty extension_build then copy active else get_reduct_set active f extension_build

module _ (sat : SatSolver) where
  open sat use {Solver, create, solve}

  unfoldable pub step_begin : Af → VectorBitSet → Bool → List ℕ → Result (Effect Solver)
  unfolding reduct_of add_clauses_nonempty_admissible_set
  step_begin f active is_rejected extension_build =
      if is_rejected
      then ok (become [])
      else reduct_of f active extension_build >>= λ reduct.
          if ltb (length reduct.vector) 2
          then ok (become [])
          else add_clauses_nonempty_admissible_set sat (create (length reduct.vector)) f reduct
            >>= λ solver. ok (become (encoded extension_build reduct solver ∷ []))

  unfoldable pub step_encoded : Bool → List ℕ → VectorBitSet → Solver → Result (Effect Solver)
  step_encoded is_rejected extension_build reduct solver =
      if is_rejected
      then ok (become [])
      else ok (
          become (
            looping (record {
              extension_build = extension_build;
              reduct = reduct;
              solver = solver;
              is_solved = false;
              is_first_calculation = true;
            })
            ∷ []))

  -- The body of the loop from the found set on; `l` has the solver with its model. The set's path is
  -- skipped by `continue`, which tests the value of `isRejected` that was read last, false.
  unfoldable pub step_found :
      Af → VectorBitSet → ℕ → Locals Solver → List ℕ → Result (Effect Solver)
  unfolding check_rejection check_terminate_extension_build extend_extension calculate_priority
      reduct_of
  step_found f active argument l initial_set =
      let next = record l { is_first_calculation = false } in
      let new_extension_build = extend_extension l.extension_build initial_set in
      if is_empty initial_set
      then if l.is_first_calculation then ok (reject []) else err exited
      else check_rejection argument initial_set f >>= λ rejected.
          if rejected
          then ok (reject (rejecting new_extension_build ∷ []))
          else if check_terminate_extension_build argument initial_set
          then ok (become (looping next ∷ []))
          else calculate_priority f new_extension_build >>= λ prio.
              reduct_of f active l.extension_build >>= λ reduct. ok (record {
                tasks = reading (record next { reduct = reduct }) ∷ begin new_extension_build ∷ [];
                rejects = false;
                output = none;
                printed = priority_line new_extension_build prio;
              })

  -- The solver that the body asks.
  unfoldable pub asked : Locals Solver → Solver
  unfolding add_complement_clause
  asked l = if l.is_solved then add_complement_clause sat l.solver l.reduct else l.solver

  unfoldable pub step_loop : Af → VectorBitSet → ℕ → Locals Solver → Result (Effect Solver)
  unfolding asked step_found get_set_from_solver
  step_loop f active argument l =
      let answer = solve (asked l) in
      if not answer.0
      then if l.is_first_calculation then ok (reject []) else ok (become [])
      else step_found f active argument (record l { solver = answer.1; is_solved = true })
          (get_set_from_solver sat answer.1 l.reduct)

  unfoldable pub step_task :
      Af → VectorBitSet → ℕ → Bool → TaskState Solver → Result (Effect Solver)
  unfolding step_begin step_encoded step_loop
  step_task f active argument is_rejected (begin e) = step_begin f active is_rejected e
  step_task f active argument is_rejected (encoded e r s) = step_encoded is_rejected e r s
  step_task f active argument is_rejected (looping l) = step_loop f active argument l
  step_task f active argument is_rejected (rejecting e) =
      ok (record { tasks = []; rejects = false; output = some e; printed = [] })
  step_task f active argument is_rejected (reading l) =
      ok (become (if is_rejected then [] else looping l ∷ []))
