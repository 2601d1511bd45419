-- ===== src/Types.antt =====
-- tm4c123gxl/common/inc/ota_types.h: the packed structures. A slot and a slot state are the
-- numbers that the enumerations name, since the code casts any stored byte to them. Each structure
-- has its bytes in memory, in order and little-endian as on the target.
pub mod Layout
use tm4c123gxl_ota.Base.{ℕ, List, ◌++◌, ◌∷◌, le16, le32}

-- `ota_slot_t`
abbrev pub slot_a : ℕ
slot_a = 0

abbrev pub slot_b : ℕ
slot_b = 1

abbrev pub slot_none : ℕ
slot_none = 0xff

-- `ota_slot_state_t`
abbrev pub slot_empty : ℕ
slot_empty = 0

abbrev pub slot_valid : ℕ
slot_valid = 1

abbrev pub slot_active : ℕ
slot_active = 2

abbrev pub slot_pending : ℕ
slot_pending = 3

abbrev pub slot_confirmed : ℕ
slot_confirmed = 4

abbrev pub slot_failed : ℕ
slot_failed = 5

-- `ota_version_t`
pub record Version : Type 0 where
  pub major : ℕ
  pub minor : ℕ
  pub patch : ℕ

abbrev pub version_bytes : Version → List ℕ
version_bytes v = le16 v.major ++ le16 v.minor ++ le16 v.patch

-- `ota_firmware_header_t`
pub record FirmwareHeader : Type 0 where
  pub magic : ℕ
  pub schema_version : ℕ
  pub target_slot : ℕ
  pub reserved0 : ℕ
  pub version : Version
  pub payload_size : ℕ
  pub payload_crc32 : ℕ
  pub header_crc32 : ℕ
  pub reserved : List ℕ

abbrev pub firmware_header_size : ℕ
firmware_header_size = 32

abbrev pub header_bytes : FirmwareHeader → List ℕ
header_bytes h =
    le32 h.magic
    ++ le16 h.schema_version
    ++ (h.target_slot ∷ h.reserved0 ∷ version_bytes h.version)
    ++ le32 h.payload_size
    ++ le32 h.payload_crc32
    ++ le32 h.header_crc32
    ++ h.reserved

-- `ota_slot_record_t`
pub record SlotRecord : Type 0 where
  pub state : ℕ
  pub reserved0 : List ℕ
  pub version : Version
  pub reserved1 : ℕ
  pub payload_size : ℕ
  pub payload_crc32 : ℕ
  pub boot_count : ℕ

abbrev pub slot_record_bytes : SlotRecord → List ℕ
slot_record_bytes s =
    (s.state ∷ s.reserved0)
    ++ version_bytes s.version
    ++ le16 s.reserved1
    ++ le32 s.payload_size
    ++ le32 s.payload_crc32
    ++ le32 s.boot_count

-- `ota_metadata_record_t`
pub record MetadataRecord : Type 0 where
  pub magic : ℕ
  pub schema_version : ℕ
  pub reserved0 : ℕ
  pub generation : ℕ
  pub slot_a : SlotRecord
  pub slot_b : SlotRecord
  pub active_slot : ℕ
  pub pending_slot : ℕ
  pub last_error : ℕ
  pub record_crc32 : ℕ
  pub reserved : List ℕ

abbrev pub metadata_bytes : MetadataRecord → List ℕ
metadata_bytes m =
    le32 m.magic
    ++ le16 m.schema_version
    ++ le16 m.reserved0
    ++ le32 m.generation
    ++ slot_record_bytes m.slot_a
    ++ slot_record_bytes m.slot_b
    ++ (m.active_slot ∷ m.pending_slot ∷ le16 m.last_error)
    ++ le32 m.record_crc32
    ++ m.reserved
