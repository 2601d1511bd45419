-- ===== src/Crc32/Tests.antt =====
-- The checks of tests/c/test_crc32.c.
use tm4c123gxl_ota.Base.{ℕ, List, [], ◌∷◌, ◌≡◌, refl}
use tm4c123gxl_ota.Crc32.{init, bit_step, bit_loop, byte_step, update, finish, crc32}

abbrev digits_text : List ℕ
digits_text = b'1' ∷ b'2' ∷ b'3' ∷ b'4' ∷ b'5' ∷ b'6' ∷ b'7' ∷ b'8' ∷ b'9' ∷ []

crc32_check_value : crc32 digits_text ≡ 0xcbf4_3926
unfolding crc32 init update byte_step bit_loop bit_step finish
crc32_check_value = refl
