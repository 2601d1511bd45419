-- ===== src/Hal/Flash.antt =====
-- tm4c123gxl/bootloader/src/bl_hal_tm4c.c and bl_main.c: the flash functions behind the guard, and
-- the services that the bootloader makes of them. The device is an argument: the bytes of its
-- flash at their addresses, its erase command and the ROM's `ROM_FlashProgram`, over a state of the
-- type `D`.
use tm4c123gxl_ota.Base.{
  ℕ, zero, suc, ◌+◌, ◌-◌, List, ◌++◌, Option, none, some, Bool, true, false, ◌||◌, not, ltb, ◌==◌,
  if◌then◌else◌, u32, length, take, replicate,
}
use tm4c123gxl_ota.Config.{
  flash_page_size, metadata_copy0_start, metadata_copy1_start, metadata_copy_size,
  protocol_max_payload_size,
}
use tm4c123gxl_ota.Types.{MetadataRecord, metadata_bytes, slot_none}
use tm4c123gxl_ota.Types.Layout.{metadata_of_bytes}
use tm4c123gxl_ota.Image.Loop.{slice}
use tm4c123gxl_ota.Update.{Services}
use tm4c123gxl_ota.Hal.{flash_erase, flash_program, flash_range_allowed, padded_length}

-- `cell d a` is the byte at `a`. `erase_page d p` is the erase command with the address `p`, which
-- says whether none of the error bits is set when it is done, and `program d words a count` the call
-- `ROM_FlashProgram(words, a, count)`, which says whether it returns 0. `reset` is the reset of the
-- target.
pub record Device (D : Type 0) : Type 0 where
  pub cell : D → ℕ → ℕ
  pub erase_page : D → ℕ → Bool × D
  pub program : D → List ℕ → ℕ → ℕ → Bool × D
  pub reset : D → D

-- `sizeof(ota_metadata_record_t)`
abbrev pub metadata_record_size : ℕ
metadata_record_size = 80

abbrev pub copy_start : ℕ → ℕ
copy_start copy = if copy == 0 then metadata_copy0_start else metadata_copy1_start

-- The buffer of `bl_hal_flash_program`: the bytes, and 0xff behind them.
abbrev pub padded_words : List ℕ → List ℕ
padded_words bytes = bytes ++ replicate (protocol_max_payload_size - length bytes) 0xff

module _ {D : Type 0} (device : Device D) where
  -- `bl_hal_flash_read`, which always succeeds.
  unfoldable pub hal_flash_read : D → ℕ → ℕ → List ℕ
  hal_flash_read d address size = slice (device.cell d) address size

  -- The loop of `bl_hal_flash_erase` from the page `p` on, for so many rounds; none if they are not
  -- enough.
  unfoldable pub erase_loop : ℕ → D → ℕ → ℕ → Option (Bool × D)
  erase_loop zero d p end = if ltb p end then none else some (true, d)
  erase_loop (suc rounds) d p end =
      let (erased, after) = device.erase_page d p in
      let rest = erase_loop rounds after (u32 (p + flash_page_size)) end in
      if not (ltb p end) then some (true, d) else if erased then rest else some (false, after)

  -- `bl_hal_flash_erase`
  unfoldable pub hal_flash_erase : D → ℕ → ℕ → ℕ → Option (Bool × D)
  hal_flash_erase d address size active =
      if not (flash_range_allowed address size active flash_erase)
      then some (false, d)
      else erase_loop size d address (u32 (address + size))

  -- `bl_hal_flash_program`
  unfoldable pub hal_flash_program : D → ℕ → List ℕ → ℕ → Bool × D
  hal_flash_program d address bytes active =
      let padded = padded_length (length bytes) in
      if (padded == 0)
        || ltb protocol_max_payload_size padded
        || not (flash_range_allowed address padded active flash_program)
      then (false, d)
      else device.program d (padded_words bytes) address padded

  -- `flash_erase`; the loop always ends (Hal.Protect).
  unfoldable pub service_erase : D → ℕ → ℕ → ℕ → Bool × D
  service_erase d address size active = elim (hal_flash_erase d address size active) [
    | none ↦ (false, d)
    | some outcome ↦ outcome
  ]

  -- `metadata_read`
  unfoldable pub metadata_read : D → ℕ → Option MetadataRecord
  metadata_read d copy =
      some (metadata_of_bytes (hal_flash_read d (copy_start copy) metadata_record_size))

  -- `metadata_erase`
  unfoldable pub metadata_erase : D → ℕ → Bool × D
  metadata_erase d copy = service_erase d (copy_start copy) metadata_copy_size slot_none

  -- `metadata_program`
  unfoldable pub metadata_program : D → ℕ → MetadataRecord → Bool × D
  metadata_program d copy r =
      hal_flash_program d (copy_start copy) (take metadata_record_size (metadata_bytes r)) slot_none

  -- `bl_services_init`, with `flash_read` and `flash_program`, and `reset_target`, which waits for the
  -- serial link and resets.
  abbrev pub services : Services D
  services = record {
    read = λ d address size. some (hal_flash_read d address size);
    erase = service_erase;
    program = hal_flash_program;
    metadata_io = record {
      read = metadata_read;
      erase = metadata_erase;
      program = metadata_program;
    };
    reset = device.reset;
  }
