-- ===== src/Hal/Protect.antt =====
-- What the flash functions leave alone, whatever they are asked to do.
use tm4c123gxl_ota.Base.{
  ℕ, zero, suc, ◌+◌, ◌-◌, ◌%◌, ◌^◌, ◌≡◌, ◌≢◌, ◌≤◌, ◌<◌, ◌⊎◌, inl, inr, refl, arith, List, [], ◌∷◌,
  ◌++◌, none, some, Option-cases, Bool, false, u32, get_or, length, take, replicate,
}
use tm4c123gxl_ota.Config.{
  flash_page_size, flash_end, metadata_copy0_start, metadata_copy_size, protocol_max_payload_size,
}
use tm4c123gxl_ota.Types.{MetadataRecord, metadata_bytes, slot_none}
use tm4c123gxl_ota.Update.Isolation.{StaysInRange}
use tm4c123gxl_ota.Hal.{flash_erase, flash_program, flash_range_allowed, padded_length}
use tm4c123gxl_ota.Hal.Guard.{padded_length_lem}
use tm4c123gxl_ota.Hal.Flash.{
  Device, hal_flash_erase, erase_loop, hal_flash_program, padded_words, service_erase,
  metadata_erase, metadata_program, metadata_record_size, copy_start, services,
}

-- What the data sheet says of the device: its cells hold bytes; erasing a page, successfully or not,
-- changes only its 1024 bytes; programming changes only the bytes at its addresses, and by clearing
-- bits, so that 0xff leaves a byte alone; a reset changes none.
pub record DeviceLaws {D : Type 0} (device : Device D) : Type 0 where
  pub byte : (d : D) (x : ℕ) → device.cell d x < 256
  pub erase_page :
      (d : D) (p x : ℕ)
      → p % flash_page_size ≡ 0
      → (x < p) ⊎ (p + flash_page_size ≤ x)
      → device.cell (device.erase_page d p).1 x ≡ device.cell d x
  pub program :
      (d : D) (words : List ℕ) (a count x : ℕ)
      → (x < a) ⊎ (a + count ≤ x) ⊎ (get_or words (x - a) 0 ≡ 0xff)
      → device.cell (device.program d words a count).1 x ≡ device.cell d x
  pub reset : (d : D) (x : ℕ) → device.cell (device.reset d) x ≡ device.cell d x

get_or-padded :
    (bytes : List ℕ) (n i : ℕ)
    → length bytes ≤ i
    → i < length bytes + n
    → get_or (bytes ++ replicate n 0xff) i 0 ≡ 0xff
get_or-padded [] zero i h l = absurd (omega arith)
get_or-padded [] (suc n) zero h l = refl
get_or-padded [] (suc n) (suc i) h l = get_or-padded [] n i (omega arith) (omega arith)
get_or-padded (b ∷ bytes) n zero h l = absurd (omega arith)
get_or-padded (b ∷ bytes) n (suc i) h l = get_or-padded bytes n i (omega arith) (omega arith)

module _ {D : Type 0} (device : Device D) where
  -- With a round for each page, the loop over the pages ends.
  erase_loop_ends :
      (rounds : ℕ) (d : D) (p end : ℕ)
      → end ≤ flash_end
      → end ≤ p + rounds
      → erase_loop device rounds d p end ≢ none
  unfolding erase_loop
  erase_loop_ends zero d p end h e = ground arith
  erase_loop_ends (suc rounds) d p end h e =
      ground
        (arith, erase_loop_ends rounds (device.erase_page d p).1 (u32 (p + flash_page_size)) end)

  -- Erasing any range from a 32-bit address on, with any active slot, ends, and with a result.
  pub hal_flash_erase_ends :
      (d : D) (address size active : ℕ)
      → address < 2 ^ 32
      → hal_flash_erase device d address size active ≢ none
  unfolding hal_flash_erase flash_range_allowed
  hal_flash_erase_ends d address size active h =
      ground (arith, erase_loop_ends size d address (u32 (address + size)))

module _ {D : Type 0} (device : Device D) (laws : DeviceLaws device) where
  erase_loop-keeps :
      (rounds : ℕ) (d : D) (p end x : ℕ) (outcome : Bool × D)
      → p % flash_page_size ≡ 0
      → end % flash_page_size ≡ 0
      → end ≤ flash_end
      → (x < p) ⊎ (end ≤ x)
      → erase_loop device rounds d p end ≡ some outcome
      → device.cell outcome.1 x ≡ device.cell d x
  unfolding erase_loop
  erase_loop-keeps zero d p end x outcome a b h k e = ground arith
  erase_loop-keeps (suc rounds) d p end x outcome a b h k e = ground (
    arith,
    laws.erase_page d p x a,
    erase_loop-keeps rounds (device.erase_page d p).1 (u32 (p + flash_page_size)) end x outcome,
  )

  hal_flash_erase-keeps :
      (d : D) (address size active x : ℕ) (outcome : Bool × D)
      → (flash_range_allowed address size active flash_erase ≡ false)
        ⊎ (x < address)
        ⊎ (address + size ≤ x)
      → hal_flash_erase device d address size active ≡ some outcome
      → device.cell outcome.1 x ≡ device.cell d x
  unfolding hal_flash_erase flash_range_allowed
  hal_flash_erase-keeps d address size active x outcome k e =
      ground (arith, erase_loop-keeps size d address (u32 (address + size)) x outcome)

  -- Erasing changes nothing outside its range, and nothing at all where the guard refuses.
  pub service_erase-keeps :
      (d : D) (address size active x : ℕ)
      → (flash_range_allowed address size active flash_erase ≡ false)
        ⊎ (x < address)
        ⊎ (address + size ≤ x)
      → device.cell (service_erase device d address size active).1 x ≡ device.cell d x
  unfolding service_erase
  service_erase-keeps d address size active x k =
      elim (Option-cases (hal_flash_erase device d address size active)) [
        | inl gone ↦ ground arith
        | inr (outcome, e) ↦ ground (arith, hal_flash_erase-keeps d address size active x outcome k)
      ]

  -- Programming changes nothing outside the bytes that it is given, although it writes whole words,
  -- and nothing at all where the guard refuses.
  pub hal_flash_program-keeps :
      (d : D) (address : ℕ) (bytes : List ℕ) (active x : ℕ)
      → (flash_range_allowed address (padded_length (length bytes)) active flash_program ≡ false)
        ⊎ (x < address)
        ⊎ (address + length bytes ≤ x)
      → device.cell (hal_flash_program device d address bytes active).1 x ≡ device.cell d x
  unfolding hal_flash_program
  hal_flash_program-keeps d address bytes active x k = ground (
    arith,
    laws.program d (padded_words bytes) address (padded_length (length bytes)) x,
    padded_length_lem (length bytes),
    get_or-padded bytes (protocol_max_payload_size - length bytes) (x - address),
  )

  -- The services of the bootloader change only what they are asked to change, over a device that
  -- keeps to its data sheet.
  pub services-StaysInRange : StaysInRange (services device) device.cell
  services-StaysInRange = record {
    erase = λ d address size active x h. service_erase-keeps d address size active x (inr h);
    program =
        λ d address bytes active x h. hal_flash_program-keeps d address bytes active x (inr h);
    metadata_erase = metadata_erase-keeps;
    metadata_program = metadata_program-keeps;
    reset = laws.reset;
  }
    where
      metadata_erase-keeps :
          (d : D) (copy x : ℕ)
          → x < metadata_copy0_start
          → device.cell (metadata_erase device d copy).1 x ≡ device.cell d x
      metadata_erase-keeps d copy x h =
          unfold metadata_erase in
          service_erase-keeps d (copy_start copy) metadata_copy_size slot_none x (ground arith)

      metadata_program-keeps :
          (d : D) (copy : ℕ) (r : MetadataRecord) (x : ℕ)
          → x < metadata_copy0_start
          → device.cell (metadata_program device d copy r).1 x ≡ device.cell d x
      metadata_program-keeps d copy r x h =
          unfold metadata_program in
          hal_flash_program-keeps d (copy_start copy) (take metadata_record_size (metadata_bytes r))
            slot_none x (ground arith)
