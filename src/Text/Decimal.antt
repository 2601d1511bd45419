-- ===== src/Text/Decimal.antt =====
-- A printed number reads back.
use tm4c123gxl_ota.Base.{
  ℕ, zero, suc, ◌+◌, ◌-◌, ◌*◌, ◌/◌, ◌%◌, ◌≤◌, ◌<◌, ◌^◌, ◌≡◌, refl, ap, ◌∙◌, arith, [], ◌∷◌, ◌++◌,
  append_assoc, All, length, ◌==◌, Bool-cases, inl, inr, ◌≢◌,
}
use tm4c123gxl_ota.Text.{Text, digits, decimal}

-- The value of a text of digits behind a number.
abbrev pub value_from : ℕ → Text → ℕ
value_from n [] = n
value_from n (c ∷ s) = value_from (n * 10 + (c - b'0')) s

abbrev pub IsDigit : ℕ → Type 0
IsDigit c = (b'0' ≤ c) × (c ≤ b'9')

digits-All : (rounds n : ℕ) (out : Text) → All IsDigit out → All IsDigit (digits rounds n out)
unfolding digits
digits-All zero n out h = h
digits-All (suc rounds) n out h = ground (arith, digits-All rounds (n / 10) ((b'0' + n % 10) ∷ out))

digits-value :
    (rounds n : ℕ) (out : Text) → n ≤ rounds → value_from 0 (digits rounds n out) ≡ value_from n out
unfolding digits
digits-value zero n out h = ap (λ k. value_from k out) (omega arith)
digits-value (suc rounds) n out h =
    let step : value_from 0 (digits rounds (n / 10) ((b'0' + n % 10) ∷ out)) ≡ value_from n out =
      digits-value rounds (n / 10) ((b'0' + n % 10) ∷ out) (omega arith)
      ∙ ap (λ k. value_from k out) (omega arith) in
    elim (Bool-cases (n == 0)) [
      | inl e ↦ rw e (ap (λ k. value_from k out) (ground arith))
      | inr e ↦ rw e step
    ]

digits-append : (rounds n : ℕ) (out : Text) → digits rounds n out ≡ digits rounds n [] ++ out
unfolding digits
digits-append zero n out = refl
digits-append (suc rounds) n out =
    let here = digits-append rounds (n / 10) ((b'0' + n % 10) ∷ out) in
    let alone = digits-append rounds (n / 10) ((b'0' + n % 10) ∷ []) in
    elim (Bool-cases (n == 0)) [ inl e ↦ rw e | inr e ↦ rw (e, here, alone, append_assoc) ]

-- Every printed character is a digit, the first is there, and they spell the number.
pub decimal-All : (n : ℕ) → All IsDigit (decimal n)
unfolding decimal
decimal-All n = ground (arith, digits-All n n [])

pub decimal-value : (n : ℕ) → value_from 0 (decimal n) ≡ n
unfolding decimal
decimal-value n = elim (Bool-cases (n == 0)) [
  | inl e ↦ rw e (ground arith)
  | inr e ↦ rw e (digits-value n n [] (omega arith))
]

digits-ne-nil : (rounds n : ℕ) (out : Text) → out ≢ [] → digits rounds n out ≢ []
unfolding digits
digits-ne-nil zero n out h = h
digits-ne-nil (suc rounds) n out h =
    ground (arith, digits-ne-nil rounds (n / 10) ((b'0' + n % 10) ∷ out))

pub decimal-ne-nil : (n : ℕ) → decimal n ≢ []
unfolding decimal digits
decimal-ne-nil zero = ground arith
decimal-ne-nil (suc n) = ground (arith, digits-ne-nil n (suc n / 10) ((b'0' + suc n % 10) ∷ []))

pub value_from-ge : (n : ℕ) (s : Text) → n ≤ value_from n s
value_from-ge n [] = omega arith
value_from-ge n (c ∷ s) = omega (arith, value_from-ge (n * 10 + (c - b'0')) s)

digits_length :
    (rounds n : ℕ) (out : Text) (k : ℕ) → n < 10 ^ k → length (digits rounds n out) ≤ k + length out
unfolding digits
digits_length zero n out k h = omega arith
digits_length (suc rounds) n out zero h = ground arith
digits_length (suc rounds) n out (suc k) h =
    ground (arith, digits_length rounds (n / 10) ((b'0' + n % 10) ∷ out) k)

-- A number below a power of ten takes no more digits than that.
pub decimal_length : (n k : ℕ) → n < 10 ^ suc k → length (decimal n) ≤ suc k
unfolding decimal
decimal_length n k h = ground (arith, digits_length n n [] (suc k))
