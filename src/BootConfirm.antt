-- ===== src/BootConfirm.antt =====
-- tm4c123gxl/application/src/boot_confirm.c: the mailbox in RAM through which a started image
-- confirms itself. The global mailbox is an argument and a result. Its two bytes between the
-- version and the checksum, which align the latter, are the field `gap`.
pub mod Laws
use tm4c123gxl_ota.Base.{
  ℕ, List, ◌++◌, ◌∷◌, Option, none, some, Bool, true, false, ◌&&◌, ◌||◌, ltb, ◌==◌, ◌!=◌, eq_bytes,
  if◌then◌else◌, u8, le16, le32, replicate,
}
use tm4c123gxl_ota.Types.{Version, version_bytes, slot_b}
use tm4c123gxl_ota.Crc32

abbrev pub confirm_magic : ℕ
confirm_magic = 0x434f_4e46

abbrev pub confirmed_magic : ℕ
confirmed_magic = 0x434f_4e44

abbrev pub confirm_schema : ℕ
confirm_schema = 1

-- `boot_confirmation_mailbox_t`
pub record ConfirmMailbox : Type 0 where
  pub magic : ℕ
  pub schema : ℕ
  pub slot : ℕ
  pub reserved : ℕ
  pub version : Version
  pub gap : List ℕ
  pub crc32 : ℕ
  pub padding : List ℕ

abbrev pub mailbox_bytes : ConfirmMailbox → List ℕ
mailbox_bytes m =
    le32 m.magic
    ++ le16 m.schema
    ++ (m.slot ∷ m.reserved ∷ version_bytes m.version)
    ++ m.gap
    ++ le32 m.crc32
    ++ m.padding

-- `mailbox_crc`
unfoldable pub mailbox_crc : ConfirmMailbox → ℕ
mailbox_crc m = Crc32.crc32 (mailbox_bytes (record m { crc32 = 0 }))

-- `boot_confirmation_validate`: the slot and the version if the mailbox is valid.
unfoldable pub confirmation_validate : ConfirmMailbox → Option (ℕ × Version)
confirmation_validate m =
    if (m.magic != confirm_magic)
      || (m.schema != confirm_schema)
      || (m.reserved != 0)
      || ltb slot_b m.slot
    then none
    else if mailbox_crc m != m.crc32
    then none
    else some (m.slot, m.version)

-- `boot_confirmation_clear`
abbrev pub confirmation_clear : ConfirmMailbox
confirmation_clear = record {
  magic = 0xffff_ffff;
  schema = 0xffff;
  slot = 0xff;
  reserved = 0xff;
  version = record { major = 0xffff; minor = 0xffff; patch = 0xffff };
  gap = replicate 2 0xff;
  crc32 = 0xffff_ffff;
  padding = replicate 44 0xff;
}

-- `boot_confirmation_consume`
unfoldable pub confirmation_consume : ConfirmMailbox → Option (ℕ × Version) × ConfirmMailbox
confirmation_consume global = elim (confirmation_validate global) [
  | some found ↦ (some found, record global { magic = confirmed_magic; crc32 = 0 })
  | none ↦ (none, if global.magic != confirmed_magic then confirmation_clear else global)
]

abbrev pub zero_mailbox : ConfirmMailbox
zero_mailbox = record {
  magic = 0;
  schema = 0;
  slot = 0;
  reserved = 0;
  version = record { major = 0; minor = 0; patch = 0 };
  gap = replicate 2 0;
  crc32 = 0;
  padding = replicate 44 0;
}

-- `boot_confirm`: the mailbox after it, and whether it goes on to reset the target.
unfoldable pub boot_confirm : ℕ → Version → ConfirmMailbox → ConfirmMailbox × Bool
boot_confirm slot version global =
    if (global.magic == confirmed_magic)
      && (global.slot == u8 slot)
      && eq_bytes (version_bytes global.version) (version_bytes version)
    then (global, false)
    else let m = record zero_mailbox {
      magic = confirm_magic;
      schema = confirm_schema;
      slot = u8 slot;
      version = version;
    } in
      (record m { crc32 = mailbox_crc m }, true)
