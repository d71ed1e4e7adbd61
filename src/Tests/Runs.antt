-- ===== src/Tests/Runs.antt =====
-- Runs of the code of src/logic on the framework of rsc/examples/example1.i23.
use af_analyzer.Prelude.{◌≡◌, refl, true, false, [], ◌∷◌, Result, ok, ◌>>=◌}
use af_analyzer.Reduct.{get_reduct_set}
use af_analyzer.VectorBitSet.{blank}
use af_analyzer.PreProcessor.{process, accepted, rejected, Processed, PreProcResult}
use af_analyzer.Tests.{sample, active}

reduct_runs :
    get_reduct_set active sample (4 ∷ [])
    ≡ ok (record { vector = 2 ∷ []; bitset = false ∷ false ∷ true ∷ false ∷ false ∷ [] })
unfolding get_reduct_set
reduct_runs = refl

abbrev verdict : Result Processed → Result PreProcResult
verdict r = r >>= λ p. ok p.verdict

-- 4 defends 2 against 1.
defended_accepted : verdict (process sample 2 blank) ≡ ok accepted
unfolding process
defended_accepted = refl

attacked_rejected : verdict (process sample 1 blank) ≡ ok rejected
unfolding process
attacked_rejected = refl
