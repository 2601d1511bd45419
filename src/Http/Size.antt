-- ===== src/Http/Size.antt =====
-- The size that the modem prints is the size that is read.
use tm4c123gxl_ota.Base.{
  ℕ, ◌+◌, ◌-◌, ◌*◌, ◌^◌, ◌<◌, ◌≡◌, ◌≢◌, refl, sym, ap, ◌∙◌, arith, append-nil, [], ◌∷◌, ◌++◌, some,
  true, false, All, u32,
}
use tm4c123gxl_ota.Text.{Text, head_char, is_digit, starts_with, decimal}
use tm4c123gxl_ota.Text.Decimal.{
  value_from, IsDigit, decimal-All, decimal-value, decimal-ne-nil, value_from-ge,
}
use tm4c123gxl_ota.Http.{parse_digits, parse_positive_size, parse_size, size_prefix}

-- The loop reads digits up to a character that is none, if their value fits in 32 bits.
pub parse_digits-digits :
    (ds rest : Text) (n : ℕ)
    → All IsDigit ds
    → is_digit (head_char rest) ≡ false
    → value_from n ds < 2 ^ 32
    → parse_digits (ds ++ rest) n ≡ some (value_from n ds, rest)
unfolding parse_digits
parse_digits-digits [] [] n h e l = refl
parse_digits-digits [] (c ∷ s) n h e l = ground arith
parse_digits-digits (d ∷ ds) rest n h e l = ground (
  arith,
  parse_digits-digits ds rest (u32 (n * 10 + (d - b'0'))),
  value_from-ge (n * 10 + (d - b'0')) ds,
)

pub starts_with-append : (s t : Text) → starts_with s (s ++ t) ≡ true
unfolding starts_with
starts_with-append [] t = refl
starts_with-append (c ∷ s) t = ground (arith, starts_with-append s t)

head_char-digit :
    (ds rest : Text) → All IsDigit ds → ds ≢ [] → is_digit (head_char (ds ++ rest)) ≡ true
head_char-digit [] rest h ne = absurd (ne refl)
head_char-digit (d ∷ ds) rest h ne = ground arith

-- A positive 32-bit number in front of the terminator is read.
pub parse_positive_size-decimal :
    (n terminator : ℕ) (rest : Text)
    → 0 < n
    → n < 2 ^ 32
    → is_digit (head_char rest) ≡ false
    → head_char rest ≡ terminator
    → parse_positive_size (decimal n ++ rest) terminator ≡ some n
unfolding parse_positive_size
parse_positive_size-decimal n terminator rest p h e t =
    rw
      (
        head_char-digit (decimal n) rest (decimal-All n) (decimal-ne-nil n),
        parse_digits-digits (decimal n) rest 0 (decimal-All n) e (omega (arith, decimal-value n)),
        decimal-value n,
      )
      (ground arith)

-- The size line that is printed with a positive 32-bit size reads as that size.
pub parse_size-decimal :
    (n : ℕ) → 0 < n → n < 2 ^ 32 → parse_size (size_prefix ++ decimal n) ≡ some n
unfolding parse_size starts_with
parse_size-decimal n p h =
    ap (λ s. parse_positive_size s 0) (sym (append-nil (decimal n)))
    ∙ parse_positive_size-decimal n 0 [] p h refl refl
