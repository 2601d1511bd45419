-- ===== src/Examples.antt =====
-- Concrete values for the tests: a packet, a firmware image, and flash memories.
mod Link
mod Flash
mod Storage
mod Engine
mod Mailboxes
mod Starts
mod Restarts
mod Guarded
mod Modem
mod Texts
mod Apps
use tm4c123gxl_ota.Base.{
  ℕ, ◌+◌, ◌-◌, ◌≤◌, List, [], ◌∷◌, ◌++◌, Option, none, some, Bool, true, false, ◌&&◌, ltb, leb,
  if◌then◌else◌, u8, u16, u32, le32, get_or, replicate,
}
use tm4c123gxl_ota.Config.{slot_a_start, slot_a_payload_start}
use tm4c123gxl_ota.Types.{
  Version, FirmwareHeader, SlotRecord, MetadataRecord, header_bytes, slot_a, slot_b, slot_none,
  slot_active, slot_pending,
}
use tm4c123gxl_ota.Crc32
use tm4c123gxl_ota.Protocol.{Packet, cmd_get_info}
use tm4c123gxl_ota.Image.{firmware_magic, firmware_schema_version, header_crc32}
use tm4c123gxl_ota.Metadata.{metadata_magic, metadata_schema_version, finalize}

abbrev pub info_request : Packet
info_request = record {
  command = cmd_get_info;
  sequence = 7;
  length = 0;
  payload = replicate 256 0;
}

abbrev pub version_1 : Version
version_1 = record { major = 1; minor = 0; patch = 2 }

abbrev pub version_2 : Version
version_2 = record { major = 2; minor = 3; patch = 0 }

-- A vector table for slot A: the stack's end, and a reset vector 257 bytes into the payload.
abbrev pub vector_a : List ℕ
vector_a = le32 0x2000_8000 ++ le32 (slot_a_payload_start + 257)

abbrev pub unsigned_header : FirmwareHeader
unsigned_header = record {
  magic = firmware_magic;
  schema_version = firmware_schema_version;
  target_slot = slot_a;
  reserved0 = 0;
  version = version_1;
  payload_size = 8;
  payload_crc32 = Crc32.crc32 vector_a;
  header_crc32 = 0;
  reserved = replicate 6 0;
}

abbrev pub header_a : FirmwareHeader
header_a = record unsigned_header { header_crc32 = header_crc32 unsigned_header }

-- A flash that holds the image of the vector table in slot A, and is erased elsewhere.
abbrev pub flash_a : ℕ → ℕ
flash_a x =
    if ltb x slot_a_payload_start
    then (if ltb x slot_a_start then 255 else get_or (header_bytes header_a) (x - slot_a_start) 255)
    else get_or vector_a (x - slot_a_payload_start) 255

abbrev pub slot_record_of : ℕ → Version → ℕ → SlotRecord
slot_record_of state version boot_count = record {
  state = state;
  reserved0 = replicate 3 0;
  version = version;
  reserved1 = 0;
  payload_size = 8;
  payload_crc32 = 0x1234_5678;
  boot_count = boot_count;
}

-- Slot A runs, and slot B is pending after one attempt.
abbrev pub pending_b : MetadataRecord
pending_b = record {
  magic = metadata_magic;
  schema_version = metadata_schema_version;
  reserved0 = 0;
  generation = 0xffff_ffff;
  slot_a = slot_record_of slot_active version_1 0;
  slot_b = slot_record_of slot_pending version_2 1;
  active_slot = slot_a;
  pending_slot = slot_b;
  last_error = 0;
  record_crc32 = 0;
  reserved = replicate 12 0;
}
