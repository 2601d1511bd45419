-- ===== src/Hal.antt =====
-- tm4c123gxl/bootloader/src/bl_hal_tm4c.c: the guard of every erase and program of the flash, and
-- the routines that stand behind it. The flash is the memory of a page-erasable device, whose
-- registers and ROM routine are arguments.
pub mod Guard
pub mod Flash
pub mod Protect
pub mod Requests
pub mod Copies
use tm4c123gxl_ota.Base.{
  ℕ, ◌+◌, ◌-◌, ◌*◌, ◌/◌, ◌%◌, ◌^◌, Bool, true, false, ◌&&◌, ◌||◌, not, ltb, leb, ◌==◌, ◌!=◌,
  if◌then◌else◌, u32,
}
use tm4c123gxl_ota.Config.{
  slot_a_start, slot_b_start, slot_size, metadata_copy0_start, flash_end, flash_page_size,
}
use tm4c123gxl_ota.Types.{slot_a}

-- `bl_flash_operation_t`
pub data FlashOperation : Type 0 where
  flash_erase flash_program : FlashOperation

abbrev pub is_erase : FlashOperation → Bool
is_erase flash_erase = true
is_erase flash_program = false

abbrev pub uint32_max : ℕ
uint32_max = 2 ^ 32 - 1

-- `range`
unfoldable pub range : ℕ → ℕ → ℕ → ℕ → Bool
range start end address length =
    if (length == 0)
      || ltb uint32_max length
      || ltb address start
      || ltb (u32 (uint32_max - u32 length)) address
    then false
    else leb (u32 (address + u32 length)) end

-- `bl_flash_range_allowed`
unfoldable pub flash_range_allowed : ℕ → ℕ → ℕ → FlashOperation → Bool
unfolding range
flash_range_allowed address length active operation =
    let target = if active == slot_a then slot_b_start else slot_a_start in
    let target_end = u32 (target + slot_size) in
    let metadata = range metadata_copy0_start flash_end address length in
    if is_erase operation && ((address % flash_page_size != 0) || (length % flash_page_size != 0))
    then false
    else range target target_end address length || metadata

-- `bl_hal_flash_program_padded_length`, for a `size_t` of 32 bits; `n & ~3` is `n - n % 4`.
unfoldable pub padded_length : ℕ → ℕ
padded_length length =
    if (length == 0) || ltb (uint32_max - 3) length
    then 0
    else let n = u32 (length + 3) in n - n % 4
