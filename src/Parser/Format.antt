-- ===== src/Parser/Format.antt =====
-- The format that src/logic/Parser_iccma.cpp reads: a header with the number of arguments, and lines
-- with an attack, with a comment, or with nothing.
use af_analyzer.Prelude.{
  ℕ, ◌<◌, ◌≤◌, ◌≡◌, Bool, true, false, ◌&&◌, ◌||◌, not, List, [], ◌∷◌, ◌++◌, all, ◌==◌,
}
use af_analyzer.Text.{codes, newline, number}

pub data Line : Type 0 where
  attack : ℕ → ℕ → Line
  comment : List ℕ → Line
  blank_line : Line

abbrev pub render_line : Line → List ℕ
render_line (attack a b) = number a ++ 32 ∷ number b
render_line (comment text) = b'#' ∷ text
render_line blank_line = []

abbrev pub render_lines : List Line → List ℕ
render_lines [] = []
render_lines (l ∷ ls) = render_line l ++ newline ∷ render_lines ls

abbrev pub render_header : ℕ → List ℕ
render_header n = codes "p af " ++ number n

abbrev pub render : ℕ → List Line → List ℕ
render n ls = render_header n ++ newline ∷ render_lines ls

-- Is the attack on one of the lines?
abbrev pub lists_attack : List Line → ℕ → ℕ → Bool
lists_attack [] a b = false
lists_attack (attack s t ∷ ls) a b = (s == a && t == b) || lists_attack ls a b
lists_attack (comment text ∷ ls) a b = lists_attack ls a b
lists_attack (blank_line ∷ ls) a b = lists_attack ls a b

-- No newline in it.
abbrev pub is_one_line : List ℕ → Bool
is_one_line s = all (λ c. not (c == newline)) s

-- The arguments are the numbers from 1 to `n`, and a comment is one line.
abbrev pub IsLine : ℕ → Line → Type 0
IsLine n (attack a b) = (0 < a) × (a ≤ n) × (0 < b) × (b ≤ n)
IsLine n (comment text) = is_one_line text ≡ true
IsLine n blank_line = Unit {0}

abbrev pub AreLines : ℕ → List Line → Type 0
AreLines n [] = Unit {0}
AreLines n (l ∷ ls) = IsLine n l × AreLines n ls
