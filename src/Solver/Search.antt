-- ===== src/Solver/Search.antt =====
-- `check_rejection_parallel` of src/logic/Solver_DS_PR.cpp: the tasks that have not ended, with what
-- they share. OpenMP may run them in any order, the priorities are hints.
--
-- A task starts with a read of `argument` and `isRejected`, which are parameters of the call that created
-- it, under `shared`. Nothing makes that call wait for the task, so that it may have returned by then:
-- this is the error `dangling`, unless the compiler copies the two parameters for the task.
use af_analyzer.Prelude.{
  ℕ, zero, suc, ◌+◌, ◌≡◌, Bool, true, false, ◌||◌, ◌==◌, if◌then◌else◌, List, [], ◌∷◌, ◌++◌, any,
  length, get_or, Option, none, some, Result, ok, err, dangling,
}
use af_analyzer.VectorBitSet.{VectorBitSet}
use af_analyzer.Af.{Af}
use af_analyzer.Sat.{SatSolver}
use af_analyzer.Solver.{TaskState, Effect, begin, encoded, looping, rejecting, reading, step_task}

-- The call of a task, and the call that created the task: 0 for `check_rejection_parallel`, which
-- waits for all tasks.
pub record Frame : Type 0 where
  pub own : ℕ
  pub creator : ℕ

-- `frames` has the calls of `tasks`, in the same order; `fresh` is a number that none has had.
pub record Search (S : Type 0) : Type 0 where
  pub is_rejected : Bool
  pub output_extension : List ℕ
  pub out : List ℕ
  pub tasks : List (TaskState S)
  pub frames : List Frame
  pub fresh : ℕ

-- What `output_extension` is after the write, if there is one.
abbrev pub latest : List ℕ → Option (List ℕ) → List ℕ
latest old none = old
latest old (some l) = l

abbrev pub children : {S : Type 0} → ℕ → ℕ → List (TaskState S) → List Frame
children creator fresh [] = []
children creator fresh (t ∷ created) =
    record { own = fresh; creator = creator } ∷ children creator (fresh + 1) created

-- The calls of the tasks that a task leaves: itself first, if it has not ended.
abbrev pub left_frames : {S : Type 0} → ℕ → List (TaskState S) → Frame → List Frame
left_frames fresh [] call = []
left_frames fresh (t ∷ created) call = call ∷ children call.own fresh created

-- The calls, with those that the one at a place leaves.
abbrev pub step_frames : ℕ → (Frame → List Frame) → List Frame → List Frame
step_frames k leaves [] = []
step_frames zero leaves (call ∷ calls) = leaves call ++ calls
step_frames (suc k) leaves (call ∷ calls) = call ∷ step_frames k leaves calls

abbrev pub root : Frame
root = record { own = 1; creator = 0 }

-- Has the creator of the call at a place not returned?
abbrev pub creator_lives : List Frame → ℕ → Bool
creator_lives calls k =
    let creator = (get_or calls k root).creator in
    creator == 0 || any (λ call. call.own == creator) calls

-- Does the task read variables that are alive? All tasks but one that starts read their own.
abbrev pub may_run : {S : Type 0} → Bool → List Frame → ℕ → TaskState S → Bool
may_run captures calls k (begin e) = captures || creator_lives calls k
may_run captures calls k (encoded e r s) = true
may_run captures calls k (looping l) = true
may_run captures calls k (rejecting e) = true
may_run captures calls k (reading l) = true

-- The effect of a task that stands between `before` and `after`.
abbrev pub perform :
    {S : Type 0} → Search S → List (TaskState S) → Effect S → List (TaskState S) → Search S
perform s before e after = record {
  is_rejected = s.is_rejected || e.rejects;
  output_extension = latest s.output_extension e.output;
  out = s.out ++ e.printed;
  tasks = before ++ (e.tasks ++ after);
  frames = step_frames (length before) (left_frames s.fresh e.tasks) s.frames;
  fresh = s.fresh + length e.tasks;
}

-- The state at the start of the parallel region.
abbrev pub initial : {S : Type 0} → List ℕ → Search S
initial proof_extension = record {
  is_rejected = false;
  output_extension = proof_extension;
  out = [];
  tasks = begin [] ∷ [];
  frames = root ∷ [];
  fresh = 2;
}

module _ (sat : SatSolver) (captures : Bool) (f : Af) (active : VectorBitSet) (argument : ℕ) where
  open sat use {Solver}

  -- A run of the task behind `before`, up to its next cut.
  abbrev pub run_task :
      Search Solver → List (TaskState Solver) → TaskState Solver → Result (Effect Solver)
  run_task s before t =
      if may_run captures s.frames (length before) t
      then step_task sat f active argument s.is_rejected t
      else err dangling

  -- The states that some order of the tasks leads to.
  pub data Reachable (proof_extension : List ℕ) : Search Solver → Type 0 where
    starts : Reachable proof_extension (initial proof_extension)
    runs :
        (s : Search Solver) (before after : List (TaskState Solver)) (t : TaskState Solver)
        (e : Effect Solver)
        → Reachable proof_extension s
        → s.tasks ≡ before ++ t ∷ after
        → run_task s before t ≡ ok e
        → Reachable proof_extension (perform s before e after)
