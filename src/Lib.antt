-- ===== src/Lib.antt =====
-- AF_Analyzer decides, for an abstract argumentation framework and a query argument, whether the
-- argument is sceptically accepted under preferred semantics (the task DS-PR).
--
-- The parts, in the order in which data flows through them:
--   * include/util/VectorBitSet.h: a set of arguments as a list with a table of flags. `VectorBitSet`
--     models it, and `Denotes n p s` says that `s` is the set `p` among the arguments 0 .. n.
--   * src/logic/AF.cpp: the framework. `Af` has the record and its operations (`initialize`,
--     `add_attack`, `finish_initilization`, `exists_attack`); `Af.Valid` is what a finished
--     framework guarantees to the other parts.
--   * src/logic/PreProcessor_DS_PR.cpp: the cone of influence of the query and the reduction by
--     the grounded extension. `PreProcessor`, with its theorems in `Visits` and `Influence` for
--     the first, in `Release`, `Counted`, `Grounded`, `GroundedLoop` and `GroundedStart` for the
--     second, and in `Verdict` for both.
--   * src/logic/Reduct.cpp: reducts by an argument and by a list. `Reduct`, `Reduct.Laws`.
--   * include/logic/SatSolver.h, src/logic/SatSolver_cadical.cpp: the solver's interface, a record of
--     operations with laws (`Sat`), and the class over CaDiCaL (`Sat.Cadical`) that implements it
--     (`Sat.Cadical.Models`).
--     CaDiCaL is the parameter `Cadical`, with what lib/cadical/src/cadical.hpp documents;
--     `Sat.Brute` is a small solver that meets it, for tests.
--   * src/logic/Encoding.cpp, src/logic/Decoding.cpp: clauses from a reduct, sets from a model.
--     `Encoding` (its literals in `Literals`, its meaning in `Meaning` and `Loops`, the theorems in
--     `Admissible`, `Complement` and `Range`) and `Decoding`.
--   * src/logic/Solver_DS_PR.cpp: the search over reducts. `Solver` has one function for each part of
--     `check_rejection_parallel_recursiv` between two accesses to what the tasks share, and
--     `Solver.Search` the states of `check_rejection_parallel`; the theorems are in `Solver.Verdict`,
--     with one module for each part of a task. `Solver.Solve` runs the search by a schedule, and has
--     `solve`; `Solver.Ends` shows that it ends, `Solver.Correct` what it answers, and
--     `Solver.Agreement` that this does not depend on the run.
--   * src/logic/ScepticalCheck.cpp, src/logic/Prioritizer.cpp, src/logic/Enums.cpp: modules of the
--     same names.
--   * src/logic/Parser_iccma.cpp: `Parser`, from the bytes of a file to a framework. `Text` has
--     what the parser and the output use of the standard streams and strings, and `Parser.Format`
--     what a file in the format is.
--   * src/util/Printer.cpp: `Printer`, the bytes that are written.
--   * src/Main.cpp, include/Main.h: `Main`, from the arguments of the program to its output and
--     exit status, with `Main.EndToEnd` and `Main.OutOfRange` for the program as a whole.
--     `getopt_long_only` and the files are parameters.
--   * src/logic/Tests.cpp: `Drivers`, functions that print the answers for a range of arguments.
--   * src/util/MemoryWatchDog.c: `Watchdog`, and `Watchdog.History` for what `getrusage` measures.
--   * unitTests: `UnitTests`, the start of the unit tests over GoogleTest, which is a parameter.
--
-- `Contracts` and `Contracts.Program` have what the comments of the headers promise, as
-- interfaces that the code is shown to fill; the one of include/logic/Encoding.h (`Contracts.Solving`)
-- it fills under a condition only, and those of include/Main.h and include/util/MemoryWatchDog.h, which
-- it does not always fill, are in `Main.Status` and `Watchdog.History`. `Semantics` is the theory that the code implements: admissible and
-- preferred sets, and reducts.
--
-- OpenMP may run the tasks in any order: a step of a search picks any task that has not ended and
-- runs it to its next cut. The cuts are the reads of `isRejected`, the writes of `isRejected` and
-- `output_extension`, and the creation of a task. A write of a list is one step here, and so is what a
-- task writes to `cout` before it creates another; the bytes of two tasks do not mix. The order is a
-- parameter, which may depend on the number of threads that is asked for.
--
-- A task starts by reading `argument` and `isRejected`, which are parameters, passed by value, of the
-- call that created it, and are under `shared`. The calls are part of the state (`Solver.Search`), and
-- such a read is the error `dangling` if the call has returned. OpenMP leaves it undefined; whether
-- the compiler gives each task a copy of the two, so that it does no harm, is the parameter `captures`.
-- What is stated of whole runs has the condition `IsDefined` (`Solver.Solve`): either `captures`
-- holds, or no such read happens. What is referred to by reference, and the malloced flag, outlive all
-- tasks.
--
-- Conventions. Numbers are natural numbers; a uint32_t that may wrap has its `% 2 ^ 32` written
-- out, an index that passes through int32_t its sign extension, and an int64_t literal that CaDiCaL
-- takes as an int its conversion. An argument has two variables, so what is stated of the solver is
-- stated for fewer than 2 ^ 30 arguments; what is stated of the parser and of the framework, for
-- fewer than 2 ^ 31. Code that can fail returns
-- `Result`: an access behind the end of a vector is the error `out_of_range`, an exception is
-- `thrown`, a call of exit(1) `exited`, a read of a variable without a value `uninitialised`, and a sum that an int
-- does not hold `overflow`.
-- The loops of the preprocessor over a list that grows take num_args + 1 as fuel: every argument
-- is queued at most once. The search takes as fuel the weight of the number of active arguments
-- (`Solver.Weight`): each task has a bounded number of steps for each admissible set that is left
-- to find, and each task that it creates has fewer arguments. `for (int i ...)` loops run over
-- sizes below 2 ^ 31.
-- A hash set is a list without duplicates; the order in which a loop visits it is the parameter
-- `Iteration`, so nothing depends on it.
--
-- Not modelled: lib/cadical (a copy of another project). Task
-- priorities only hint at an order, and the memory of threads is taken to be coherent. Text is
-- bytes in the "C" locale, a stream fails only at its end or at what it extracts, and the messages
-- before a call of exit(1) are left out. Memory is taken to suffice, so the exit(1) behind a malloc
-- that fails is left out, too.
pub mod Prelude
pub mod VectorBitSet
pub mod Text
pub mod Af
pub mod Parser
pub mod Printer
pub mod Sat
pub mod Semantics
pub mod Encoding
pub mod Decoding
pub mod Reduct
pub mod ScepticalCheck
pub mod Solver
pub mod Prioritizer
pub mod Enums
pub mod PreProcessor
pub mod Main
pub mod Drivers
pub mod Contracts
pub mod Watchdog
pub mod UnitTests
pub mod Tests
