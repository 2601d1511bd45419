-- ===== src/Crc32/Range.antt =====
-- The checksum stays a 32-bit number.
use tm4c123gxl_ota.Base.{ℕ, zero, suc, ◌/◌, ◌^◌, ◌<◌, List, [], ◌∷◌, All, IsByte, arith, bit_xor-lt}
use tm4c123gxl_ota.Config.{crc32_reflected_polynomial}
use tm4c123gxl_ota.Crc32.{init, bit_step, bit_loop, byte_step, update, finish, crc32}

pub bit_step-lt : (crc : ℕ) → crc < 2 ^ 32 → bit_step crc < 2 ^ 32
unfolding bit_step
bit_step-lt crc h =
    ground (arith, bit_xor-lt 32 (crc / 2) crc32_reflected_polynomial (omega arith) (omega arith))

pub bit_loop-lt : (n crc : ℕ) → crc < 2 ^ 32 → bit_loop n crc < 2 ^ 32
unfolding bit_loop
bit_loop-lt zero crc h = h
bit_loop-lt (suc n) crc h = bit_loop-lt n (bit_step crc) (bit_step-lt crc h)

pub byte_step-lt : (crc byte : ℕ) → crc < 2 ^ 32 → IsByte byte → byte_step crc byte < 2 ^ 32
unfolding byte_step
byte_step-lt crc byte h k = bit_loop-lt 8 _ (bit_xor-lt 32 crc byte h (omega arith))

pub update-lt :
    (crc : ℕ) (bytes : List ℕ) → crc < 2 ^ 32 → All IsByte bytes → update crc bytes < 2 ^ 32
unfolding update
update-lt crc [] h k = h
update-lt crc (b ∷ bs) h k = update-lt (byte_step crc b) bs (byte_step-lt crc b h k.0) k.1

pub finish-lt : (crc : ℕ) → crc < 2 ^ 32 → finish crc < 2 ^ 32
unfolding finish
finish-lt crc h = bit_xor-lt 32 crc _ h (omega arith)

pub init-lt : init < 2 ^ 32
unfolding init
init-lt = omega arith

pub crc32-lt : (bytes : List ℕ) → All IsByte bytes → crc32 bytes < 2 ^ 32
unfolding crc32
crc32-lt bytes h = finish-lt _ (update-lt init bytes init-lt h)
