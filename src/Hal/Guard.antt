-- ===== src/Hal/Guard.antt =====
-- What the guard lets through.
use tm4c123gxl_ota.Base.{
  ℕ, ◌+◌, ◌%◌, ◌≤◌, ◌<◌, ◌^◌, ◌≡◌, ◌↔◌, ◌⊎◌, arith, true, if◌then◌else◌, ◌==◌,
}
use tm4c123gxl_ota.Config.{
  bootloader_size, slot_a_start, slot_b_start, slot_size, metadata_copy0_start, flash_end,
  flash_page_size,
}
use tm4c123gxl_ota.Types.{slot_a, slot_b}
use tm4c123gxl_ota.Hal.{FlashOperation, flash_program, flash_range_allowed, padded_length}

abbrev pub Inside : ℕ → ℕ → ℕ → ℕ → Type 0
Inside start end address length = (0 < length) × (start ≤ address) × (address + length ≤ end)

-- The start of the slot that may be written while `active` runs.
abbrev pub target_start : ℕ → ℕ
target_start active = if active == slot_a then slot_b_start else slot_a_start

-- With a 32-bit address and any length, the guard allows exactly the nonempty ranges that lie
-- whole in the inactive slot or whole in the metadata pages; for an erase, both the address and the
-- length are also multiples of the page size. No sum wraps.
pub flash_range_allowed_iff :
    (address length active : ℕ) (operation : FlashOperation)
    → address < 2 ^ 32
    → (flash_range_allowed address length active operation ≡ true) ↔ (
        (Inside (target_start active) (target_start active + slot_size) address length
          ⊎ Inside metadata_copy0_start flash_end address length)
        × ((operation ≡ flash_program)
            ⊎ ((address % flash_page_size ≡ 0) × (length % flash_page_size ≡ 0))))
unfolding flash_range_allowed
flash_range_allowed_iff address length active operation h = ground arith

abbrev pub running_start : ℕ → ℕ
running_start active = if active == slot_a then slot_a_start else slot_b_start

-- While slot A or B runs, no allowed range reaches the bootloader or the running slot.
pub flash_range_protects :
    (address length active : ℕ) (operation : FlashOperation)
    → address < 2 ^ 32
    → (active ≡ slot_a) ⊎ (active ≡ slot_b)
    → flash_range_allowed address length active operation ≡ true
    → (bootloader_size ≤ address)
      × ((address + length ≤ running_start active) ⊎ (running_start active + slot_size ≤ address))
unfolding flash_range_allowed
flash_range_protects address length active operation h running e = ground arith

-- The padded length of a write is the least multiple of four that covers it.
pub padded_length_lem :
    (length : ℕ)
    → 0 < length
    → length + 3 < 2 ^ 32
    → (padded_length length % 4 ≡ 0)
      × (length ≤ padded_length length)
      × (padded_length length < length + 4)
unfolding padded_length
padded_length_lem length pos h = ground arith
