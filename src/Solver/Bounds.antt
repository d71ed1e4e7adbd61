-- ===== src/Solver/Bounds.antt =====
-- The weights of the tasks of src/logic/Solver_DS_PR.cpp before and after a run to the next cut.
use mathlib.Core.List.{Memᴰ}
use af_analyzer.Prelude.{
  ℕ, zero, suc, ◌+◌, ◌-◌, ◌≤◌, ◌<◌, ◌≡◌, refl, sym, ap, ◌∙◌, true, false, List, [], ◌∷◌, length,
  contains, filter_by, all, arith,
}
use af_analyzer.Prelude.Int.{pos}
use af_analyzer.VectorBitSet.{VectorBitSet, Denotes}
use af_analyzer.VectorBitSet.Count.{count_by-sub, count_by-lt}
use af_analyzer.Af.{Af}
use af_analyzer.Sat.{SatSolver, formula_true}
use af_analyzer.Semantics.{ArgSet}
use af_analyzer.Semantics.Reducts.{minus}
use af_analyzer.Encoding.Complement.{complement_excludes}
use af_analyzer.Decoding.{get_set_from_solver, get_set_from_solver_lem}
use af_analyzer.Encoding.Literals.{HasVariables}
use af_analyzer.Solver.{
  Locals, TaskState, begin, encoded, looping, rejecting, reading, extend_extension, asked,
}
use af_analyzer.Solver.Weight.{
  subsets, subsets-le, loop_weight, loop_weight-le, weight, weight-le, remaining, sublists,
  length-sublists, length-le-count_by, mem-filter_by-sublists, without, length-without, mem-without,
  all-filter_by,
}
use af_analyzer.Solver.Built.{IsReductOf}
use af_analyzer.Solver.Extend.{contains-extend_extension}
use af_analyzer.Solver.Invariant.{IsRunning, Covers, Loops, IsBounded, AreBounded}
use af_analyzer.Solver.Found.{reduct-HasVariables, in_reduct, S-IsNonempty}

loop_weight-pos : (k w : ℕ) → 2 ≤ loop_weight k w
loop_weight-pos zero w = omega arith
loop_weight-pos (suc k) w = omega arith

weight-pos : (m : ℕ) → 1 ≤ weight m
weight-pos zero = omega arith
weight-pos (suc m) = omega arith

module _ (sat : SatSolver) (f : Af) {p : ArgSet} {active : VectorBitSet}
    (d : Denotes f.num_args p active) (q : ℕ) where
  open sat use {Solver, formula, check_var_model}

  -- A task that ends has some weight left.
  pub ends_bounds :
      (t : TaskState Solver) (b : ℕ)
      → IsBounded sat f p active q t b
      → (c : ℕ) × AreBounded sat f p active q [] c × (c + 1 ≤ b)
  ends_bounds (begin e) b h = (0, refl, omega (arith, h, weight-pos (remaining p active.vector e)))
  ends_bounds (encoded e r s) b (m, h, g) = (0, refl, omega (arith, g))
  ends_bounds (looping l) b h =
      (0, refl, omega (arith, h.bound, loop_weight-pos (length h.sets) (weight h.size)))
  ends_bounds (rejecting e) b h = (0, refl, omega (arith, h))
  ends_bounds (reading l) b (c, h, g) = (0, refl, omega (arith, g))

  -- The reduct is among the remaining arguments.
  length-le-remaining :
      (e : List ℕ) (r : VectorBitSet)
      → IsReductOf f p active e r
      → length r.vector ≤ remaining p active.vector e
  length-le-remaining e r red = omega (
    arith,
    length-le-count_by r.vector active.vector red.denotes.distinct
        (λ a m. d.items a ∙ red.is_reduct.within a m),
    count_by-sub {p = minus p (contains e)} {q = contains r.vector} active.vector
        (λ a m. ground (arith, red.is_reduct.within a m, red.is_reduct.outside a m)),
  )

  pub begin_bounds :
      (e : List ℕ) (r : VectorBitSet) (s : Solver)
      → IsReductOf f p active e r
      → 2 ≤ length r.vector
      → (b : ℕ) → IsBounded sat f p active q (begin e) b
      → (c : ℕ) × AreBounded sat f p active q (encoded e r s ∷ []) c × (c + 1 ≤ b)
  begin_bounds e r s red many b h =
      let some_left = length-le-remaining e r red in
      let m : ℕ = remaining p active.vector e - 1 in
      let split : remaining p active.vector e ≡ suc m = omega (arith, some_left) in
      let w : ℕ = 1 + loop_weight (subsets (suc m)) (weight m) in
      (w, (w, 0, (m, split, refl), refl, omega arith), omega (arith, h, ap weight split))

  pub encoded_bounds :
      (e : List ℕ) (r : VectorBitSet) (s : Solver) (l : Locals Solver)
      → IsReductOf f p active e r
      → l.extension_build ≡ e
      → l.reduct ≡ r
      → (b : ℕ) → IsBounded sat f p active q (encoded e r s) b
      → (c : ℕ) × AreBounded sat f p active q (looping l ∷ []) c × (c + 1 ≤ b)
  encoded_bounds e r s l red same_e same_r b (m, split, h) =
      let w : ℕ = loop_weight (length (sublists l.reduct.vector)) (weight m) in
      let size : length r.vector ≤ suc m = omega (arith, split, length-le-remaining e r red) in
      (
        w,
        (
          w,
          0,
          record {
            size = m;
            sets = sublists l.reduct.vector;
            fits = omega (arith, split, ap (remaining p active.vector) same_e);
            covers = λ v k. mem-filter_by-sublists v l.reduct.vector;
            bound = refl;
          },
          refl,
          omega arith,
        ),
        omega (
          arith,
          h,
          loop_weight-le (length (sublists l.reduct.vector)) (subsets (suc m)) (weight m) (weight m)
              (omega (
                arith,
                length-sublists l.reduct.vector,
                ap (λ (x : VectorBitSet). length x.vector) same_r,
                subsets-le (length l.reduct.vector) (suc m)
                    (omega (arith, ap (λ (x : VectorBitSet). length x.vector) same_r)),
              ))
              (omega arith),
        ),
      )

  pub reject_bounds :
      (l : Locals Solver) (e : List ℕ) (b : ℕ)
      → IsBounded sat f p active q (looping l) b
      → (c : ℕ) × AreBounded sat f p active q (rejecting e ∷ []) c × (c + 1 ≤ b)
  reject_bounds l e b h = (
    1,
    (1, 0, refl, refl, omega arith),
    omega (arith, h.bound, loop_weight-pos (length h.sets) (weight h.size)),
  )

  pub reading_bounds :
      (l : Locals Solver) (b : ℕ)
      → IsBounded sat f p active q (reading l) b
      → (c : ℕ) × AreBounded sat f p active q (looping l ∷ []) c × (c + 1 ≤ b)
  reading_bounds l b (w, h, g) = (w, (w, 0, h, refl, omega arith), omega (arith, g))

  -- The body with an answer.
  module _ (proper : HasVariables f.num_args p) (l : Locals Solver) (s : Solver)
      (run : IsRunning sat f p active q l.extension_build l.reduct s)
      (same : formula s ≡ formula (asked sat l))
      (model : formula_true (λ n. check_var_model (pos n) s) (formula s) ≡ true) where
    abbrev S : List ℕ
    S = get_set_from_solver sat s l.reduct

    abbrev next : Locals Solver
    next = record l { solver = s; is_solved = true; is_first_calculation = false }

    abbrev found : ArgSet
    found n = check_var_model (pos n) s

    found_set :
        {sets : List (List ℕ)}
        → Covers sat f p active q l sets
        → Memᴰ (filter_by found l.reduct.vector) sets
    found_set covers = covers found (ap (formula_true found) (sym same) ∙ model)

    -- The found set is not found again.
    next-Covers :
        (sets : List (List ℕ)) (covers : Covers sat f p active q l sets)
        → Covers sat f p active q next (without sets (found_set covers))
    unfolding asked
    next-Covers sets covers v h =
        let (ready, meaning) =
          complement_excludes sat run.reduct.denotes (reduct-HasVariables sat proper q run.reduct) s
            run.sound.ready in
        let old : formula_true v (formula s) ≡ true = ground (arith, meaning v, h) in
        let missed : all v S ≡ false = ground (arith, meaning v, h) in
        mem-without sets (found_set covers) (covers v (ap (formula_true v) (sym same) ∙ old)) (λ e.
          let again : all v S ≡ true =
            ap (all v) (get_set_from_solver_lem sat s l.reduct ∙ sym e)
            ∙ all-filter_by v l.reduct.vector in
          cc (missed, again))

    next-Loops :
        (b : ℕ) (h : Loops sat f p active q l b)
        → (c : ℕ) × Loops sat f p active q next c × (2 + weight h.size + c ≡ b)
    next-Loops b h =
        let left = without h.sets (found_set h.covers) in
        (
          loop_weight (length left) (weight h.size),
          record {
            size = h.size;
            sets = left;
            fits = h.fits;
            covers = next-Covers h.sets h.covers;
            bound = refl;
          },
          sym (
              h.bound
              ∙ ap (λ k. loop_weight k (weight h.size))
                  (length-without h.sets (found_set h.covers))),
        )

    pub skip_bounds :
        (b : ℕ)
        → IsBounded sat f p active q (looping l) b
        → (c : ℕ) × AreBounded sat f p active q (looping next ∷ []) c × (c + 1 ≤ b)
    skip_bounds b h =
        let (c, loops, less) = next-Loops b h in
        (c, (c, 0, loops, refl, omega arith), omega (arith, less))

    -- The new extension leaves fewer arguments.
    remaining-lt :
        remaining p active.vector (extend_extension l.extension_build S)
        < remaining p active.vector l.extension_build
    remaining-lt =
        let (a, member) = S-IsNonempty sat proper q l s run same model in
        let inside = in_reduct sat proper q l s run same model a member in
        let active_a = run.reduct.is_reduct.within a inside in
        count_by-lt {p = minus p (contains l.extension_build)}
          {q = minus p (contains (extend_extension l.extension_build S))} active.vector a
          (λ b k. ground (arith, contains-extend_extension l.extension_build S b, k))
          (d.items a ∙ active_a) (ground (arith, active_a, run.reduct.is_reduct.outside a inside))
          (ground (arith, contains-extend_extension l.extension_build S a, member))

    pub spawn_bounds :
        (b : ℕ)
        → IsBounded sat f p active q (looping l) b
        → (c : ℕ) × AreBounded sat f p active q
            (reading next ∷ begin (extend_extension l.extension_build S) ∷ [])
            c
          × (c + 1 ≤ b)
    spawn_bounds b h =
        let (c, loops, less) = next-Loops b h in
        let e : List ℕ = extend_extension l.extension_build S in
        let w : ℕ = weight (remaining p active.vector e) in
        (
          1 + c + w,
          (1 + c, w, (c, loops, refl), (w, 0, refl, refl, omega arith), refl),
          omega (
            arith,
            less,
            weight-le (remaining p active.vector e) h.size (omega (arith, remaining-lt, h.fits)),
          ),
        )
