-- ===== src/Main/Names.antt =====
-- How `execute` of src/Main.cpp takes a problem and the name of a file apart.
use Prim.Native.String.{String}
use mathlib.Core.List.{append-nil}
use af_analyzer.Prelude.{
  ℕ, ◌+◌, ◌-◌, ◌%◌, ◌^◌, ◌≤◌, ◌<◌, ◌≡◌, refl, sym, ap, ◌∙◌, true, false, [], ◌++◌, ltb, ok, arith,
}
use af_analyzer.Prelude.Int.{pos}
use af_analyzer.Text.{codes, number, stream, extract_digits}
use af_analyzer.Text.Extraction.{skip_space-number, extract_digits-number}
use af_analyzer.Text.Strings.{
  npos, size, append, take, drop, substr, find, find_last_of, lacks, int_value, stoi, size-append,
  take-append, take_all, drop-add_one, find_from-lacks, find_from-append, find_last_from-append,
}
use af_analyzer.Main.{file_format, split_problem}
use af_analyzer.Main.Getopt.{Options}

abbrev pub with_dash : String → String
with_dash sem = String.◌∷◌ "-" sem

abbrev pub with_dot : String → String
with_dot ext = String.◌∷◌ "." ext

substr-ok :
    (s : String) (start n : ℕ) → start ≤ size s → substr s start n ≡ ok (take n (drop start s))
substr-ok s start n h = let e : ltb (size s) start ≡ false = ground (arith, h) in rw e refl

-- A problem is split at its dash, if neither part has one.
pub split_problem-append :
    (task sem : String)
    → lacks b'-' task ≡ true
    → lacks b'-' sem ≡ true
    → size task + size sem < 2 ^ 63
    → split_problem (append task (with_dash sem)) ≡ ok (task, sem)
unfolding split_problem
split_problem-append task sem in_task in_sem fits =
    let place : find (append task (with_dash sem)) b'-' ≡ size task =
      find_from-append "-" task sem 0 in_task ∙ omega arith in
    let z : ltb (size (append task (with_dash sem))) 0 ≡ false = ground arith in
    let z' : ltb (size sem) 0 ≡ false = ground arith in
    let next : (size task + 1) % 2 ^ 64 ≡ size task + 1 = omega (arith, fits) in
    rw
      (
        place,
        next,
        z,
        take-append task (with_dash sem),
        drop-add_one "-" task sem,
        z',
        find_from-lacks b'-' sem 0 in_sem,
        take_all sem npos (omega (arith, fits)),
      )
      refl

-- Without the option -fo, the format of a file is what follows the last dot of its name.
pub file_format-append :
    (o : Options) (stem ext : String)
    → o.fileformat ≡ ""
    → o.file ≡ append stem (with_dot ext)
    → lacks b'.' ext ≡ true
    → size stem + size ext < 2 ^ 63
    → file_format o ≡ ok ext
unfolding file_format
file_format-append o stem ext none_given name in_ext fits =
    let place : find_last_of (append stem (with_dot ext)) b'.' ≡ size stem =
      find_last_from-append "." stem ext 0 npos in_ext ∙ omega arith in
    let whole : size (append stem (with_dot ext)) ≡ size stem + (size ext + 1) =
      size-append stem (with_dot ext) ∙ omega arith in
    let next : (size stem + 1) % 2 ^ 64 ≡ size stem + 1 = omega (arith, fits) in
    let rest : (size stem + (size ext + 1) + 2 ^ 64 - size stem - 1) % 2 ^ 64 ≡ size ext =
      omega (arith, fits) in
    let inside : ltb (size stem + (size ext + 1)) (size stem + 1) ≡ false = ground arith in
    rw
      (
        none_given,
        name,
        place,
        whole,
        next,
        rest,
        inside,
        drop-add_one "." stem ext,
        take_all ext (size ext) (omega arith),
      )
      refl

-- A query that is a printed number is read as that number.
pub stoi-number :
    (query : String) (q : ℕ) → codes query ≡ number q → q < 2 ^ 31 → stoi query ≡ ok (pos q)
unfolding stoi
stoi-number query q h small =
    let e : ltb q (2 ^ 31) ≡ true = ground arith in
    ap (λ s. int_value (extract_digits (stream s)).0) (h ∙ sym (append-nil (number q)))
    ∙ ap (λ r. int_value r.0)
        (extract_digits-number (number q ++ []) q [] (skip_space-number q []) refl)
    ∙ rw e refl
