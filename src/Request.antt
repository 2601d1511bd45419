-- ===== src/Request.antt =====
-- tm4c123gxl/common/src/ota_request.c: the mailbox in RAM through which the application asks the
-- bootloader for an update. The global mailbox is an argument and a result. Its two bytes between
-- the version and the checksum, which align the latter, are the field `gap`.
pub mod Laws
use tm4c123gxl_ota.Base.{
  ℕ, ◌^◌, ◌-◌, List, ◌++◌, Option, none, some, Bool, true, false, ◌&&◌, ◌||◌, ◌==◌, ◌!=◌,
  if◌then◌else◌, le16, le32, replicate,
}
use tm4c123gxl_ota.Types.{Version, version_bytes}
use tm4c123gxl_ota.Crc32

abbrev pub request_magic : ℕ
request_magic = 0x4f54_4152

abbrev pub request_schema : ℕ
request_schema = 1

-- `ota_request_mailbox_t`
pub record RequestMailbox : Type 0 where
  pub magic : ℕ
  pub schema : ℕ
  pub reserved : ℕ
  pub version : Version
  pub gap : List ℕ
  pub crc32 : ℕ
  pub padding : List ℕ

abbrev pub mailbox_bytes : RequestMailbox → List ℕ
mailbox_bytes m =
    le32 m.magic
    ++ le16 m.schema
    ++ le16 m.reserved
    ++ version_bytes m.version
    ++ m.gap
    ++ le32 m.crc32
    ++ m.padding

abbrev pub is_zero_version : Version → Bool
is_zero_version v = (v.major == 0) && (v.minor == 0) && (v.patch == 0)

-- `request_crc`
unfoldable pub request_crc : RequestMailbox → ℕ
request_crc m = Crc32.crc32 (mailbox_bytes (record m { crc32 = 0 }))

-- `ota_request_validate`: the version if the mailbox is valid.
unfoldable pub request_validate : RequestMailbox → Option Version
request_validate m =
    if (m.magic != request_magic)
      || (m.schema != request_schema)
      || (m.reserved != 0)
      || is_zero_version m.version
      || (request_crc m != m.crc32)
    then none
    else some m.version

-- All bytes cleared, and all bytes set.
abbrev pub zero_mailbox : RequestMailbox
zero_mailbox = record {
  magic = 0;
  schema = 0;
  reserved = 0;
  version = record { major = 0; minor = 0; patch = 0 };
  gap = replicate 2 0;
  crc32 = 0;
  padding = replicate 12 0;
}

-- `ota_request_clear`
abbrev pub request_clear : RequestMailbox
request_clear = record {
  magic = 0xffff_ffff;
  schema = 0xffff;
  reserved = 0xffff;
  version = record { major = 0xffff; minor = 0xffff; patch = 0xffff };
  gap = replicate 2 0xff;
  crc32 = 0xffff_ffff;
  padding = replicate 12 0xff;
}

-- `ota_request_store`
unfoldable pub request_store : Version → RequestMailbox → Bool × RequestMailbox
request_store version global =
    if is_zero_version version
    then (false, global)
    else let m = record zero_mailbox {
      magic = request_magic;
      schema = request_schema;
      version = version;
    } in
      (true, record m { crc32 = request_crc m })

-- `ota_request_consume`
unfoldable pub request_consume : RequestMailbox → Option Version × RequestMailbox
request_consume global = (request_validate global, request_clear)
