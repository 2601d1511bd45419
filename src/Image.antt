-- ===== src/Image.antt =====
-- tm4c123gxl/common/src/ota_image.c: which image in a slot may be booted. The reader is an
-- argument: `read a n` is the `n` bytes that it copies from the address `a`, or none if it fails.
pub mod Loop
pub mod Accept
pub mod Agree
use tm4c123gxl_ota.Base.{
  ℕ, zero, suc, ◌+◌, ◌-◌, ◌*◌, ◌/◌, ◌%◌, ◌^◌, List, [], ◌∷◌, ◌++◌, Option, none, some, Bool, true,
  false, ◌&&◌, ◌||◌, not, ltb, ◌==◌, ◌!=◌, if◌then◌else◌, u32, join32, get_or, take, drop,
  replicate,
}
use tm4c123gxl_ota.Config.{
  sram_start, sram_end, slot_a_start, slot_b_start, slot_a_payload_start, slot_b_payload_start,
  slot_payload_size,
}
use tm4c123gxl_ota.Types.{FirmwareHeader, header_bytes, firmware_header_size, slot_a, slot_b}
use tm4c123gxl_ota.Types.Layout.{header_of_bytes}
use tm4c123gxl_ota.Crc32

abbrev pub firmware_magic : ℕ
firmware_magic = 0x3141_544f

abbrev pub firmware_schema_version : ℕ
firmware_schema_version = 1

-- `ota_image_result_t`
pub data ImageResult : Type 0 where
  ok bad_header bad_msp bad_reset bad_payload_crc read_error : ImageResult

-- `ota_reader_t`
abbrev pub Reader : Type 0
Reader = ℕ → ℕ → Option (List ℕ)

-- `ota_image_info_t`
pub record ImageInfo : Type 0 where
  pub header : FirmwareHeader
  pub payload_address : ℕ

abbrev pub header_crc_offset : ℕ
header_crc_offset = 22

abbrev pub vector_size : ℕ
vector_size = 8

abbrev pub crc_buffer_size : ℕ
crc_buffer_size = 256

abbrev pub is_slot : ℕ → Bool
is_slot slot = (slot == slot_a) || (slot == slot_b)

abbrev pub slot_payload_start : ℕ → ℕ
slot_payload_start slot = if slot == slot_a then slot_a_payload_start else slot_b_payload_start

-- `ota_header_crc32`: over the header's bytes with those of its own checksum cleared.
unfoldable pub header_crc32 : FirmwareHeader → ℕ
header_crc32 h =
    let bytes = header_bytes h in
    Crc32.crc32
      (take header_crc_offset bytes ++ replicate 4 0 ++ drop (header_crc_offset + 4) bytes)

-- The loop over `reserved`.
unfoldable pub all_zero : List ℕ → Bool
all_zero [] = true
all_zero (b ∷ bs) = if b != 0 then false else all_zero bs

-- `ota_header_validate`
unfoldable pub header_validate : FirmwareHeader → ℕ → ImageResult
header_validate h slot =
    if not (is_slot slot)
      || (h.magic != firmware_magic)
      || (h.schema_version != firmware_schema_version)
      || (h.target_slot != slot)
      || (h.reserved0 != 0)
      || (h.payload_size == 0)
      || ltb slot_payload_size h.payload_size
      || (h.header_crc32 != header_crc32 h)
    then bad_header
    else if all_zero h.reserved
    then ok
    else bad_header

-- `ota_vector_validate`; `v & 3` is `v % 4`, and `v & ~1` is `v - v % 2`.
unfoldable pub vector_validate : ℕ → ℕ → ℕ → ImageResult
vector_validate initial_msp reset_vector slot =
    let payload_start = slot_payload_start slot in
    let reset_address = reset_vector - reset_vector % 2 in
    if (initial_msp % 4 != 0) || ltb initial_msp sram_start || ltb sram_end initial_msp
    then bad_msp
    else if not (is_slot slot)
        || (reset_vector % 2 == 0)
        || ltb reset_address payload_start
        || not (ltb reset_address (payload_start + slot_payload_size))
    then bad_reset
    else ok

-- The two words of a vector table.
abbrev pub vector_msp : List ℕ → ℕ
vector_msp v = join32 (get_or v 0 0) (get_or v 1 0) (get_or v 2 0) (get_or v 3 0)

abbrev pub vector_reset : List ℕ → ℕ
vector_reset v = join32 (get_or v 4 0) (get_or v 5 0) (get_or v 6 0) (get_or v 7 0)

-- The loop of `ota_image_validate` over the payload, in pieces of at most 256 bytes. A round
-- takes at least a byte, so `remaining` rounds are enough; none is a failed read.
unfoldable pub crc_loop : ℕ → Reader → ℕ → ℕ → ℕ → Option ℕ
crc_loop zero read address remaining crc = if remaining == 0 then some crc else none
crc_loop (suc fuel) read address remaining crc =
    let size = if ltb crc_buffer_size remaining then crc_buffer_size else remaining in
    let rest = λ (buffer : List ℕ).
      crc_loop fuel read (u32 (address + size)) (remaining - size) (Crc32.update crc buffer) in
    if remaining == 0
    then some crc
    else elim (read address size) [ none ↦ none | some buffer ↦ rest buffer ]

-- The part of `ota_image_validate` behind the header's check.
unfoldable pub payload_validate : Reader → ℕ → FirmwareHeader → ImageResult
payload_validate read slot h = elim (read (slot_payload_start slot) vector_size) [
  | none ↦ read_error
  | some vector ↦ elim (vector_validate (vector_msp vector) (vector_reset vector) slot) [
    | ok ↦ elim (crc_loop h.payload_size read (slot_payload_start slot) h.payload_size Crc32.init) [
      | none ↦ read_error
      | some crc ↦ if Crc32.finish crc != h.payload_crc32 then bad_payload_crc else ok
    ]
    | other ↦ other
  ]
]

-- `ota_image_validate`: its result, and what it stores at `*info`.
unfoldable pub image_validate : Reader → ℕ → ImageResult × Option ImageInfo
image_validate read slot =
    if not (is_slot slot)
    then (read_error, none)
    else elim (read (if slot == slot_a then slot_a_start else slot_b_start) firmware_header_size) [
      | none ↦ (read_error, none)
      | some bytes ↦
          let h = header_of_bytes bytes in
          elim (header_validate h slot) [
            | ok ↦ elim (payload_validate read slot h) [
              | ok ↦ (ok, some (record { header = h; payload_address = slot_payload_start slot }))
              | other ↦ (other, none)
            ]
            | other ↦ (bad_header, none)
          ]
    ]
