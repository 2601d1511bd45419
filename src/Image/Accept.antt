-- ===== src/Image/Accept.antt =====
-- Which images are accepted, said without the order of the tests.
use tm4c123gxl_ota.Base.{
  ℕ, ◌+◌, ◌%◌, ◌≤◌, ◌<◌, List, [], ◌∷◌, none, some, ◌≡◌, ◌⊎◌, ◌↔◌, refl, arith, ◌==◌, if◌then◌else◌,
  true, All,
}
use tm4c123gxl_ota.Config.{slot_payload_size, slot_a_start, slot_b_start, sram_start, sram_end}
use tm4c123gxl_ota.Types.{FirmwareHeader, slot_a, slot_b, firmware_header_size}
use tm4c123gxl_ota.Types.Layout.{header_of_bytes}
use tm4c123gxl_ota.Crc32
use tm4c123gxl_ota.Image.{
  Reader, ok, bad_header, firmware_magic, firmware_schema_version, slot_payload_start, header_crc32,
  all_zero, header_validate, vector_validate, payload_validate, image_validate, vector_msp,
  vector_reset, vector_size,
}
use tm4c123gxl_ota.Image.Loop.{slice, Reads, crc_loop_lem}

all_zero_iff : (bs : List ℕ) → (all_zero bs ≡ true) ↔ All (λ b. b ≡ 0) bs
unfolding all_zero
all_zero_iff [] = (λ _. tt, λ _. refl)
all_zero_iff (b ∷ bs) = ground (arith, all_zero_iff bs)

-- A header for the slot: right magic and schema, the slot itself as its target, cleared reserved
-- bytes, a payload that fits, and its own checksum.
pub record HeaderFits (h : FirmwareHeader) (slot : ℕ) : Type 0 where
  pub a_slot : (slot ≡ slot_a) ⊎ (slot ≡ slot_b)
  pub magic : h.magic ≡ firmware_magic
  pub schema : h.schema_version ≡ firmware_schema_version
  pub target : h.target_slot ≡ slot
  pub reserved0 : h.reserved0 ≡ 0
  pub some_payload : 0 < h.payload_size
  pub payload_fits : h.payload_size ≤ slot_payload_size
  pub checksum : h.header_crc32 ≡ header_crc32 h
  pub reserved : All (λ b. b ≡ 0) h.reserved

-- `ota_header_validate` accepts exactly the headers for the slot, and refuses the others with
-- BAD_HEADER.
pub header_validate_iff :
    (h : FirmwareHeader) (slot : ℕ)
    → ((header_validate h slot ≡ ok) ↔ HeaderFits h slot)
      × ((header_validate h slot ≡ ok) ⊎ (header_validate h slot ≡ bad_header))
unfolding header_validate
header_validate_iff h slot = ground (arith, all_zero_iff h.reserved)

-- A vector table for the slot: the stack pointer is a word address in the SRAM or its end, and the
-- reset vector is a Thumb address of the slot's payload.
pub record VectorFits (initial_msp reset_vector slot : ℕ) : Type 0 where
  pub a_slot : (slot ≡ slot_a) ⊎ (slot ≡ slot_b)
  pub aligned : initial_msp % 4 ≡ 0
  pub sram_low : sram_start ≤ initial_msp
  pub sram_high : initial_msp ≤ sram_end
  pub thumb : reset_vector % 2 ≡ 1
  pub payload_low : slot_payload_start slot < reset_vector
  pub payload_high : reset_vector ≤ slot_payload_start slot + slot_payload_size

-- `ota_vector_validate` accepts exactly the vector tables for the slot.
pub vector_validate_iff :
    (initial_msp reset_vector slot : ℕ)
    → (vector_validate initial_msp reset_vector slot ≡ ok)
      ↔ VectorFits initial_msp reset_vector slot
unfolding vector_validate
vector_validate_iff initial_msp reset_vector slot = ground arith

abbrev pub image_start : ℕ → ℕ
image_start slot = if slot == slot_a then slot_a_start else slot_b_start

-- The header that the flash holds for a slot.
abbrev pub stored_header : (ℕ → ℕ) → ℕ → FirmwareHeader
stored_header mem slot = header_of_bytes (slice mem (image_start slot) firmware_header_size)

abbrev pub stored_vector : (ℕ → ℕ) → ℕ → List ℕ
stored_vector mem slot = slice mem (slot_payload_start slot) vector_size

-- The flash holds an image that may be booted from the slot.
pub record IsBootable (mem : ℕ → ℕ) (slot : ℕ) : Type 0 where
  pub header : HeaderFits (stored_header mem slot) slot
  pub vector :
      VectorFits (vector_msp (stored_vector mem slot)) (vector_reset (stored_vector mem slot)) slot
  pub payload :
      Crc32.crc32 (slice mem (slot_payload_start slot) (stored_header mem slot).payload_size)
      ≡ (stored_header mem slot).payload_crc32

payload_validate_iff :
    (read : Reader) (mem : ℕ → ℕ) (slot : ℕ) (h : FirmwareHeader)
    → Reads read mem
    → h.payload_size ≤ slot_payload_size
    → (payload_validate read slot h ≡ ok) ↔ (
        VectorFits
          (vector_msp (stored_vector mem slot))
          (vector_reset (stored_vector mem slot))
          slot
        × (Crc32.crc32 (slice mem (slot_payload_start slot) h.payload_size) ≡ h.payload_crc32))
unfolding payload_validate Crc32.crc32
payload_validate_iff read mem slot h reads fits = ground (
  arith,
  reads (slot_payload_start slot) vector_size,
  vector_validate_iff (vector_msp (stored_vector mem slot)) (vector_reset (stored_vector mem slot))
      slot,
  crc_loop_lem h.payload_size read mem (slot_payload_start slot) h.payload_size Crc32.init reads,
)

-- Over a reader that copies the flash, `ota_image_validate` accepts a slot exactly if the flash
-- holds a bootable image there, and then reports the stored header and the payload's address, and
-- otherwise nothing. Its loop ends.
pub image_validate_iff :
    (read : Reader) (mem : ℕ → ℕ) (slot : ℕ)
    → Reads read mem
    → (((image_validate read slot).0 ≡ ok) ↔ IsBootable mem slot)
      × ((image_validate read slot).1 ≡ elim (image_validate read slot).0 [
        | ok ↦
            some (record {
              header = stored_header mem slot;
              payload_address = slot_payload_start slot;
            })
        | _ ↦ none
      ])
unfolding image_validate
image_validate_iff read mem slot reads = ground (
  arith,
  reads (image_start slot) firmware_header_size,
  header_validate_iff (stored_header mem slot) slot,
  payload_validate_iff read mem slot (stored_header mem slot) reads,
)
