-- ===== src/Watchdog.antt =====
-- src/util/MemoryWatchDog.c: measurements of the program itself. `getrusage` is a parameter.
pub mod History
use af_analyzer.Prelude.{ℕ}

-- The members of `struct rusage` that are read.
pub record Rusage : Type 0 where
  pub ru_maxrss : ℕ
  pub ru_nvcsw : ℕ
  pub ru_nivcsw : ℕ

pub data Who : Type 0 where
  rusage_self rusage_children : Who

module _ (getrusage : Who → Rusage) where
  unfoldable pub get_mem_usage : ℕ
  get_mem_usage = (getrusage rusage_self).ru_maxrss

  unfoldable pub get_ctxt_switches_volun : ℕ
  get_ctxt_switches_volun = (getrusage rusage_self).ru_nvcsw

  unfoldable pub get_ctxt_switches_involun : ℕ
  get_ctxt_switches_involun = (getrusage rusage_self).ru_nivcsw
