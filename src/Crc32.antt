-- ===== src/Crc32.antt =====
-- tm4c123gxl/common/src/ota_crc32.c and the inline `ota_crc32` of ota_crc32.h: the reflected
-- CRC-32, bit by bit. `crc & 1` is `crc % 2` and `crc >> 1` is `crc / 2`.
pub mod Range
pub mod Detect
mod Tests
use tm4c123gxl_ota.Base.{
  ℕ, zero, suc, ◌/◌, ◌%◌, List, [], ◌∷◌, ◌++◌, ◌≡◌, refl, ◌!=◌, if◌then◌else◌, bit_xor,
}
use tm4c123gxl_ota.Config.{crc32_initial_value, crc32_final_xor, crc32_reflected_polynomial}

unfoldable pub init : ℕ
init = crc32_initial_value

-- One round of the inner loop.
unfoldable pub bit_step : ℕ → ℕ
bit_step crc = if crc % 2 != 0 then bit_xor (crc / 2) crc32_reflected_polynomial else crc / 2

-- The inner loop, with `n` rounds left.
unfoldable pub bit_loop : ℕ → ℕ → ℕ
bit_loop zero crc = crc
bit_loop (suc n) crc = bit_loop n (bit_step crc)

unfoldable pub byte_step : ℕ → ℕ → ℕ
byte_step crc byte = bit_loop 8 (bit_xor crc byte)

unfoldable pub update : ℕ → List ℕ → ℕ
update crc [] = crc
update crc (byte ∷ rest) = update (byte_step crc byte) rest

unfoldable pub finish : ℕ → ℕ
finish crc = bit_xor crc crc32_final_xor

unfoldable pub crc32 : List ℕ → ℕ
crc32 bytes = finish (update init bytes)

-- Data may be fed in pieces: the checksum state after both pieces is that of the whole.
pub update-append : (crc : ℕ) (xs ys : List ℕ) → update crc (xs ++ ys) ≡ update (update crc xs) ys
unfolding update
update-append crc [] ys = refl
update-append crc (x ∷ xs) ys = update-append (byte_step crc x) xs ys
