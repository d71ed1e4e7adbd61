-- ===== src/Watchdog/History.antt =====
-- What the comments of include/util/MemoryWatchDog.h promise, against what `getrusage` measures. A
-- history lists what happened to the program, the latest first.
use Prim.Native.Nat.{max}
use af_analyzer.Prelude.{ℕ, ◌+◌, ◌≤◌, ◌≡◌, refl, ◌↔◌, ◌⊎◌, inl, inr, List, [], ◌∷◌, arith}
use af_analyzer.Watchdog.{
  Rusage, Who, rusage_self, get_mem_usage, get_ctxt_switches_volun, get_ctxt_switches_involun,
}

-- The memory became of this size, in kB, or the CPU was given up, or taken away.
pub data Usage : Type 0 where
  resident : ℕ → Usage
  voluntary involuntary : Usage

abbrev pub current : List Usage → ℕ
current [] = 0
current (resident size ∷ h) = size
current (voluntary ∷ h) = current h
current (involuntary ∷ h) = current h

abbrev pub peak : List Usage → ℕ
peak [] = 0
peak (resident size ∷ h) = max size (peak h)
peak (voluntary ∷ h) = peak h
peak (involuntary ∷ h) = peak h

abbrev pub voluntaries : List Usage → ℕ
voluntaries [] = 0
voluntaries (resident size ∷ h) = voluntaries h
voluntaries (voluntary ∷ h) = voluntaries h + 1
voluntaries (involuntary ∷ h) = voluntaries h

abbrev pub involuntaries : List Usage → ℕ
involuntaries [] = 0
involuntaries (resident size ∷ h) = involuntaries h
involuntaries (voluntary ∷ h) = involuntaries h
involuntaries (involuntary ∷ h) = involuntaries h + 1

-- Was the memory ever of this size?
abbrev pub HadSize : List Usage → ℕ → Type 0
HadSize [] size = ⊥
HadSize (resident s ∷ h) size = (s ≡ size) ⊎ HadSize h size
HadSize (voluntary ∷ h) size = HadSize h size
HadSize (involuntary ∷ h) size = HadSize h size

-- What the manual says of `getrusage`, for the program itself.
pub record GetrusageLaws (getrusage : List Usage → Who → Rusage) : Type 0 where
  pub maximum : (h : List Usage) → (getrusage h rusage_self).ru_maxrss ≡ peak h
  pub gave_up : (h : List Usage) → (getrusage h rusage_self).ru_nvcsw ≡ voluntaries h
  pub taken : (h : List Usage) → (getrusage h rusage_self).ru_nivcsw ≡ involuntaries h

-- The currently used memory, and the numbers of context switches during the runtime.
pub record WatchdogContract (h : List Usage) (memory volun involun : ℕ) : Type 0 where
  pub memory_now : memory ≡ current h
  pub volun_number : volun ≡ voluntaries h
  pub involun_number : involun ≡ involuntaries h

le_peak : (h : List Usage) (size : ℕ) → HadSize h size → size ≤ peak h
le_peak [] size had = elim had [ ]
le_peak (resident s ∷ h) size (inl e) = omega (arith, e)
le_peak (resident s ∷ h) size (inr had) = omega (arith, le_peak h size had)
le_peak (voluntary ∷ h) size had = le_peak h size had
le_peak (involuntary ∷ h) size had = le_peak h size had

peak_le : (h : List Usage) (m : ℕ) → ((size : ℕ) → HadSize h size → size ≤ m) → peak h ≤ m
peak_le [] m all = omega arith
peak_le (resident s ∷ h) m all =
    omega (arith, all s (inl refl), peak_le h m (λ size had. all size (inr had)))
peak_le (voluntary ∷ h) m all = peak_le h m all
peak_le (involuntary ∷ h) m all = peak_le h m all

current-le_peak : (h : List Usage) → current h ≤ peak h
current-le_peak [] = omega arith
current-le_peak (resident s ∷ h) = omega arith
current-le_peak (voluntary ∷ h) = current-le_peak h
current-le_peak (involuntary ∷ h) = current-le_peak h

-- With a `getrusage` that does what its manual says, the functions keep what MemoryWatchDog.h
-- promises exactly as long as the memory has never been larger than it is now: the switches are
-- always counted, but `get_mem_usage` returns the largest memory so far.
pub watchdog_iff :
    (getrusage : List Usage → Who → Rusage)
    → GetrusageLaws getrusage
    → (h : List Usage)
    → WatchdogContract h
        (get_mem_usage (getrusage h))
        (get_ctxt_switches_volun (getrusage h))
        (get_ctxt_switches_involun (getrusage h))
      ↔ ((size : ℕ) → HadSize h size → size ≤ current h)
unfolding get_mem_usage get_ctxt_switches_volun get_ctxt_switches_involun
watchdog_iff getrusage laws h = (
  λ kept size had. omega (arith, le_peak h size had, laws.maximum h, kept.memory_now),
  λ all. record {
    memory_now = omega (arith, laws.maximum h, current-le_peak h, peak_le h (current h) all);
    volun_number = laws.gave_up h;
    involun_number = laws.taken h;
  },
)
