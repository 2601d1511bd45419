-- ===== src/Crc32/Detect.antt =====
-- No two messages that differ in one byte have the same checksum.
use tm4c123gxl_ota.Base.{
  ℕ, zero, suc, ◌/◌, ◌^◌, ◌<◌, List, [], ◌∷◌, ◌++◌, All, IsByte, arith, ◌≡◌, ◌≢◌, refl, sym, ◌∙◌,
  bit_xor, bit_xor-lt, bit_xor_top, bit_xor_cancel, bit_xor_comm,
}
use tm4c123gxl_ota.Config.{crc32_reflected_polynomial, crc32_final_xor}
use tm4c123gxl_ota.Crc32.{init, bit_step, bit_loop, byte_step, update, finish, crc32, update-append}
use tm4c123gxl_ota.Crc32.Range.{bit_step-lt, byte_step-lt, update-lt, init-lt}

-- The polynomial's top bit tells the two branches of a round apart.
bit_step_injective : (a b : ℕ) → a < 2 ^ 32 → b < 2 ^ 32 → bit_step a ≡ bit_step b → a ≡ b
unfolding bit_step
bit_step_injective a b ha hb e = ground (
  arith,
  bit_xor_top 31 (a / 2) crc32_reflected_polynomial (omega arith) (omega arith),
  bit_xor_top 31 (b / 2) crc32_reflected_polynomial (omega arith) (omega arith),
  bit_xor_cancel (a / 2) (b / 2) crc32_reflected_polynomial,
)

bit_loop_injective : (n a b : ℕ) → a < 2 ^ 32 → b < 2 ^ 32 → bit_loop n a ≡ bit_loop n b → a ≡ b
unfolding bit_loop
bit_loop_injective zero a b ha hb e = e
bit_loop_injective (suc n) a b ha hb e =
    bit_step_injective a b ha hb
      (bit_loop_injective n (bit_step a) (bit_step b) (bit_step-lt a ha) (bit_step-lt b hb) e)

byte_step_injective :
    (c d byte : ℕ)
    → c < 2 ^ 32
    → d < 2 ^ 32
    → IsByte byte
    → byte_step c byte ≡ byte_step d byte
    → c ≡ d
unfolding byte_step
byte_step_injective c d byte hc hd hb e = bit_xor_cancel c d byte (
    bit_loop_injective 8 _ _ (bit_xor-lt 32 c byte hc (omega arith))
      (bit_xor-lt 32 d byte hd (omega arith)) e)

byte_step_byte_injective :
    (crc a b : ℕ) → crc < 2 ^ 32 → IsByte a → IsByte b → byte_step crc a ≡ byte_step crc b → a ≡ b
unfolding byte_step
byte_step_byte_injective crc a b hc ha hb e =
    bit_xor_cancel a b crc (bit_xor_comm a crc ∙ states ∙ bit_xor_comm crc b)
  where
    states : bit_xor crc a ≡ bit_xor crc b
    states =
        bit_loop_injective 8 _ _ (bit_xor-lt 32 crc a hc (omega arith))
          (bit_xor-lt 32 crc b hc (omega arith)) e

update_injective :
    (c d : ℕ) (bytes : List ℕ)
    → c < 2 ^ 32
    → d < 2 ^ 32
    → All IsByte bytes
    → update c bytes ≡ update d bytes
    → c ≡ d
unfolding update
update_injective c d [] hc hd h e = e
update_injective c d (b ∷ bs) hc hd h e = byte_step_injective c d b hc hd h.0 (
    update_injective (byte_step c b) (byte_step d b) bs (byte_step-lt c b hc h.0)
      (byte_step-lt d b hd h.0) h.1 e)

finish_injective : (c d : ℕ) → finish c ≡ finish d → c ≡ d
unfolding finish
finish_injective c d e = bit_xor_cancel c d crc32_final_xor e

update-cons :
    (crc byte : ℕ) (rest : List ℕ) → update crc (byte ∷ rest) ≡ update (byte_step crc byte) rest
unfolding update
update-cons crc byte rest = refl

-- Changing one byte of a message, at any position, to another byte always changes its checksum.
pub crc32_detects_byte :
    (before after : List ℕ) (a b : ℕ)
    → All IsByte before
    → All IsByte after
    → IsByte a
    → IsByte b
    → a ≢ b
    → crc32 (before ++ a ∷ after) ≢ crc32 (before ++ b ∷ after)
unfolding crc32
crc32_detects_byte before after a b hx hy ha hb ne e = ne (
    byte_step_byte_injective (update init before) a b mid ha hb (
      update_injective _ _ after (byte_step-lt _ a mid ha) (byte_step-lt _ b mid hb) hy
        (sym (split a) ∙ finish_injective _ _ e ∙ split b)))
  where
    mid : update init before < 2 ^ 32
    mid = update-lt init before init-lt hx

    split :
        (c : ℕ)
        → update init (before ++ c ∷ after) ≡ update (byte_step (update init before) c) after
    split c = update-append init before (c ∷ after) ∙ update-cons (update init before) c after
