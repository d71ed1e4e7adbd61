-- ===== src/Parser/Lines.antt =====
-- Single lines in `ParserICCMA::parse_af` of src/logic/Parser_iccma.cpp.
use af_analyzer.Prelude.{
  ℕ, ◌^◌, ◌<◌, ◌≡◌, refl, sym, ap, ◌∙◌, false, ◌||◌, List, [], ◌∷◌, ◌++◌, ◌==◌, ok, err,
  uninitialised, arith,
}
use mathlib.Core.List.{append-nil}
use mathlib.Core.Path.{subst}
use af_analyzer.Prelude.Int.{pos}
use af_analyzer.Text.{is_nil, first, number, skip_space}
use af_analyzer.Text.Decimal.{number-StartsDigit}
use af_analyzer.Text.Extraction.{skip_space-number, extract_uint32-number, extract_int32-number}
use af_analyzer.Af.{Af, add_attack}
use af_analyzer.Parser.{as_n_args, header, read_line}
use af_analyzer.Parser.Format.{render_header}

-- The header that gives a number of arguments.
pub header-render_header : (n : ℕ) → n < 2 ^ 31 → header (render_header n) ≡ pos n
unfolding header
header-render_header n small = ap as_n_args (
    extract_int32-number (32 ∷ number n) n []
      (subst (λ l. skip_space l ≡ l) (append-nil (number n)) (skip_space-number n [])
        ∙ sym (append-nil (number n)))
      refl small)

-- A line that begins with a digit is neither empty nor a comment.
is_read :
    (n : ℕ) (rest : List ℕ)
    → (is_nil (number n ++ rest) || first (number n ++ rest) == b'#') ≡ false
is_read n rest =
    let (c, r, e, d) = number-StartsDigit n in
    subst (λ l. (is_nil (l ++ rest) || first (l ++ rest) == b'#') ≡ false) (sym e)
      (ground (arith, d))

-- A line with two numbers below 2 ^ 32 and a space between them adds the attack of the first on the
-- second.
pub read_line-attack :
    (f : Af) (a b : ℕ)
    → a < 2 ^ 32
    → b < 2 ^ 32
    → read_line f (number a ++ 32 ∷ number b) ≡ ok (add_attack f a b).0
unfolding read_line
read_line-attack f a b ha hb =
    rw
      (
        read_line,
        is_read a (32 ∷ number b),
        extract_uint32-number (number a ++ 32 ∷ number b) a (32 ∷ number b)
            (skip_space-number a (32 ∷ number b)) refl ha,
        extract_uint32-number (32 ∷ number b) b []
            (subst (λ l. skip_space l ≡ l) (append-nil (number b)) (skip_space-number b [])
              ∙ sym (append-nil (number b)))
            refl hb,
      )
      refl

-- A line with a single number makes the loop pass a variable without a value to `add_attack`.
pub read_line-eq-err : (f : Af) (a : ℕ) → a < 2 ^ 32 → read_line f (number a) ≡ err uninitialised
unfolding read_line
read_line-eq-err f a ha =
    subst (λ l. read_line f l ≡ err uninitialised) (append-nil (number a))
      (rw
        (
          read_line,
          is_read a [],
          extract_uint32-number (number a ++ []) a [] (skip_space-number a []) refl ha,
        )
        refl)
