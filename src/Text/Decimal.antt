-- ===== src/Text/Decimal.antt =====
-- Numbers in decimal, as the standard streams print and read them.
use af_analyzer.Prelude.{
  ℕ, zero, suc, ◌+◌, ◌-◌, ◌*◌, ◌/◌, ◌%◌, ◌≤◌, ◌<◌, ◌≡◌, refl, ap, ◌∙◌, inl, inr, true, false, List,
  [], ◌∷◌, ◌++◌, ltb, ◌==◌, Bool-cases, arith,
}
use af_analyzer.Text.{is_digit, first, emit, number, scan}

emit-append : (k n : ℕ) (out rest : List ℕ) → emit k n out ++ rest ≡ emit k n (out ++ rest)
unfolding emit
emit-append zero n out rest = refl
emit-append (suc k) n out rest = elim (Bool-cases (ltb 0 n)) [
  | inl e ↦ rw (emit, e) (emit-append k (n / 10) ((48 + n % 10) ∷ out) rest)
  | inr e ↦ rw (emit, e) refl
]

scan_digit : (n : ℕ) (out : List ℕ) → scan ((48 + n % 10) ∷ out) (n / 10) ≡ scan out n
unfolding scan
scan_digit n out =
    let d : is_digit (48 + n % 10) ≡ true = ground arith in
    let e : n / 10 * 10 + (48 + n % 10 - 48) ≡ n = omega arith in rw (scan, d, e) refl

scan-emit : (k n : ℕ) (out : List ℕ) → n ≤ k → scan (emit k n out) 0 ≡ scan out n
unfolding emit
scan-emit zero n out h = ap (scan out) (omega (arith, h))
scan-emit (suc k) n out h = elim (Bool-cases (ltb 0 n)) [
  | inl e ↦
      let p : 0 < n = ground (arith, e) in
      rw (emit, e)
        (scan-emit k (n / 10) ((48 + n % 10) ∷ out) (omega (arith, h, p)) ∙ scan_digit n out)
  | inr e ↦ rw (emit, e) (ap (scan out) (ground (arith, e)))
]

scan_stop : (v : ℕ) (rest : List ℕ) → is_digit (first rest) ≡ false → scan rest v ≡ (v, rest)
unfolding scan
scan_stop v [] h = refl
scan_stop v (c ∷ s) h = rw (scan, h) refl

-- A printed number is read back, with what follows it, if that does not begin with a digit.
pub scan-number :
    (n : ℕ) (rest : List ℕ) → is_digit (first rest) ≡ false → scan (number n ++ rest) 0 ≡ (n, rest)
unfolding number scan
scan-number n rest h = elim (Bool-cases (n == 0)) [
  | inl e ↦ let z : n ≡ 0 = ground (arith, e) in rw z (scan_stop 0 rest h)
  | inr e ↦ rw e (
      ap (λ s. scan s 0) (emit-append n n [] rest)
      ∙ scan-emit n n rest (omega arith)
      ∙ scan_stop n rest h)
]

-- The list begins with a digit.
abbrev StartsDigit : List ℕ → Type 0
StartsDigit s = (c : ℕ) × (r : List ℕ) × (s ≡ c ∷ r) × (is_digit c ≡ true)

emit-StartsDigit : (k n : ℕ) (out : List ℕ) → StartsDigit out → StartsDigit (emit k n out)
unfolding emit
emit-StartsDigit zero n out h = h
emit-StartsDigit (suc k) n out h = elim (Bool-cases (ltb 0 n)) [
  | inl e ↦ rw (emit, e) (emit-StartsDigit k (n / 10) _ (48 + n % 10, out, refl, ground arith))
  | inr e ↦ rw (emit, e) h
]

nonzero : (n : ℕ) → 0 < n → StartsDigit (emit n n [])
unfolding emit
nonzero zero h = absurd (omega (arith, h))
nonzero (suc n) h =
    let e : ltb 0 (suc n) ≡ true = ground arith in
    rw (emit, e) (emit-StartsDigit n (suc n / 10) _ (48 + suc n % 10, [], refl, ground arith))

pub number-StartsDigit : (n : ℕ) → (c : ℕ) × (r : List ℕ) × (number n ≡ c ∷ r) × (is_digit c ≡ true)
unfolding number emit
number-StartsDigit n = elim (Bool-cases (n == 0)) [
  | inl e ↦ (48, [], rw e refl, refl)
  | inr e ↦ rw e (nonzero n (ground (arith, e)))
]
