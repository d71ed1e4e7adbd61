-- ===== src/Contracts/Kept.antt =====
-- The classes of src/logic/Reduct.cpp, src/logic/ScepticalCheck.cpp and src/logic/Enums.cpp keep what
-- their headers promise.
use Prim.Native.String.{String}
use mathlib.Core.Path.{subst}
use af_analyzer.Prelude.{
  ℕ, ◌≤◌, ◌≡◌, ◌≢◌, refl, sym, ap, ◌∙◌, true, ◌&&◌, [], ◌∷◌, any, any_intro, any_elim, contains,
  some, all, arith,
}
use af_analyzer.VectorBitSet.{Denotes-eq}
use af_analyzer.Af.{Af, exists_attack}
use af_analyzer.Af.Valid.{IsValid}
use af_analyzer.Reduct.{get_reduct, get_reduct_set}
use af_analyzer.Reduct.Laws.{kept, get_reduct-Denotes, get_reduct_set-Denotes}
use af_analyzer.ScepticalCheck.{
  check_rejection, check_terminate_extension_build, check_rejection_lem, check_terminate_lem,
}
use af_analyzer.Enums.{
  Task, dc, ds, se, ee, ce, unknown_task, SemanticsName, it, uc, pr, gr, unknown_sem,
  string_to_task, string_to_sem, TaskName, SemName, string_to_task-TaskName, string_to_sem-SemName,
}
use af_analyzer.Contracts.{
  ReductContract, ScepticalCheckContract, EnumsContract, task_abbreviation, semantics_abbreviation,
}

single : (m k : ℕ) → contains (m ∷ []) k ≡ true → m ≡ k
single m k h = ground (arith, h)

-- On a valid framework, `get_reduct` and `get_reduct_set` return the reduct of the active arguments by
-- the argument, and by the set, without an access out of range.
pub Reduct-ReductContract : {f : Af} → IsValid f → ReductContract f get_reduct get_reduct_set
Reduct-ReductContract {f} valid = record {
  by_argument = λ m {p} {active} hm d.
      let (r, ends, d') = get_reduct-Denotes valid m hm d in
      let (r', ends', d'', reduct) =
        get_reduct_set-Denotes valid m [] (λ k h. subst (λ x. x ≤ f.num_args) (single m k h) hm)
          d in
      (
        r,
        (λ a. p a && all (λ k. kept f k a) (m ∷ [])),
        ends,
        Denotes-eq d' (λ a. ground arith),
        reduct,
      );
  by_set = λ m l {p} {active} range d.
      let (r, ends, d', reduct) = get_reduct_set-Denotes valid m l range d in
      (r, (λ a. p a && all (λ k. kept f k a) (m ∷ l)), ends, d', reduct);
}

-- On a valid framework, for arguments of it, `check_rejection` returns true if and only if a member of
-- the set attacks the argument, and `check_terminate_extension_build` if and only if the argument is
-- a member.
pub ScepticalCheck-ScepticalCheckContract :
    {f : Af} → IsValid f → ScepticalCheckContract f check_rejection check_terminate_extension_build
ScepticalCheck-ScepticalCheckContract {f} valid = record {
  rejects = λ q l hq range. (
    any (λ m. exists_attack f m q) l,
    check_rejection_lem valid q l hq range,
    (
      λ h. any_elim (λ m. exists_attack f m q) l h,
      λ (m, h, k). any_intro (λ m. exists_attack f m q) l m h k,
    ),
  );
  terminates = λ q l. (λ h. sym (check_terminate_lem q l) ∙ h, λ h. check_terminate_lem q l ∙ h);
}

same_name : {a b : String} → some a ≡ some b → a ≡ b
same_name e = cc

task_read : (t : Task) (s : String) → task_abbreviation t ≡ some s → string_to_task s ≡ t
unfolding string_to_task
task_read dc s e = subst (λ x. string_to_task x ≡ dc) (same_name e) refl
task_read ds s e = subst (λ x. string_to_task x ≡ ds) (same_name e) refl
task_read se s e = subst (λ x. string_to_task x ≡ se) (same_name e) refl
task_read ee s e = subst (λ x. string_to_task x ≡ ee) (same_name e) refl
task_read ce s e = subst (λ x. string_to_task x ≡ ce) (same_name e) refl
task_read unknown_task s e = cc

sem_read :
    (t : SemanticsName) (s : String) → semantics_abbreviation t ≡ some s → string_to_sem s ≡ t
unfolding string_to_sem
sem_read it s e = subst (λ x. string_to_sem x ≡ it) (same_name e) refl
sem_read uc s e = subst (λ x. string_to_sem x ≡ uc) (same_name e) refl
sem_read pr s e = subst (λ x. string_to_sem x ≡ pr) (same_name e) refl
sem_read gr s e = subst (λ x. string_to_sem x ≡ gr) (same_name e) refl
sem_read unknown_sem s e = cc

task_unknown :
    (s : String) (t : Task)
    → TaskName t s
    → ((u : Task) → task_abbreviation u ≢ some s)
    → t ≡ unknown_task
task_unknown s dc h no_task = absurd (no_task dc (ap some (sym h)))
task_unknown s ds h no_task = absurd (no_task ds (ap some (sym h)))
task_unknown s se h no_task = absurd (no_task se (ap some (sym h)))
task_unknown s ee h no_task = absurd (no_task ee (ap some (sym h)))
task_unknown s ce h no_task = absurd (no_task ce (ap some (sym h)))
task_unknown s unknown_task h no_task = refl

sem_unknown :
    (s : String) (t : SemanticsName)
    → SemName t s
    → ((u : SemanticsName) → semantics_abbreviation u ≢ some s)
    → t ≡ unknown_sem
sem_unknown s it h no_sem = absurd (no_sem it (ap some (sym h)))
sem_unknown s uc h no_sem = absurd (no_sem uc (ap some (sym h)))
sem_unknown s pr h no_sem = absurd (no_sem pr (ap some (sym h)))
sem_unknown s gr h no_sem = absurd (no_sem gr (ap some (sym h)))
sem_unknown s unknown_sem h no_sem = refl

-- Each abbreviation of the enums is converted into its value, and any other string into the unknown
-- task and the unknown semantics.
pub Enums-EnumsContract : EnumsContract string_to_task string_to_sem
Enums-EnumsContract = record {
  task_read = task_read;
  task_unknown = λ s h. task_unknown s (string_to_task s) (string_to_task-TaskName s) h;
  sem_read = sem_read;
  sem_unknown = λ s h. sem_unknown s (string_to_sem s) (string_to_sem-SemName s) h;
}
