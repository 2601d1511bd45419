-- ===== src/Startup.antt =====
-- tm4c123gxl/bootloader/src/bl_main.c: what the bootloader does with the metadata between a reset
-- and its loop. The flash reader, the storage of the metadata and the confirmation mailbox are
-- arguments; the store and the mailbox are results too.
pub mod Rebuild
pub mod Loop
pub mod Trials
use tm4c123gxl_ota.Base.{
  ℕ, ◌+◌, ◌%◌, ◌^◌, List, Option, none, some, Bool, true, false, ◌&&◌, ◌==◌, ◌!=◌, if◌then◌else◌,
  u32, replicate,
}
use tm4c123gxl_ota.Types.{
  Version, SlotRecord, MetadataRecord, slot_a, slot_b, slot_none, slot_active, slot_valid,
}
use tm4c123gxl_ota.Image.{Reader, ImageResult, ImageInfo, image_validate}
use tm4c123gxl_ota.Metadata.{
  MetadataIo, MetadataResult, metadata_magic, metadata_schema_version, finalize, load, commit,
}
use tm4c123gxl_ota.Boot.{Confirmation, BootResult, boot_decide}
use tm4c123gxl_ota.BootConfirm.{ConfirmMailbox, confirmation_consume}

-- `image_probe`
unfoldable pub image_probe : Reader → ℕ → Bool
image_probe read slot = elim (image_validate read slot).0 [ ImageResult.ok ↦ true | other ↦ false ]

abbrev pub zero_slot_record : SlotRecord
zero_slot_record = record {
  state = 0;
  reserved0 = replicate 3 0;
  version = record { major = 0; minor = 0; patch = 0 };
  reserved1 = 0;
  payload_size = 0;
  payload_crc32 = 0;
  boot_count = 0;
}

-- `set_slot_from_image`
unfoldable pub slot_from_image : ImageInfo → ℕ → SlotRecord
slot_from_image info state = record zero_slot_record {
  state = state;
  version = info.header.version;
  payload_size = info.header.payload_size;
  payload_crc32 = info.header.payload_crc32;
}

-- `valid_a` with `a`, and `valid_b` with `b`: the image's information if it is accepted.
unfoldable pub accepted_image : Reader → ℕ → Option ImageInfo
accepted_image read slot = elim (image_validate read slot).0 [
  | ImageResult.ok ↦ (image_validate read slot).1
  | other ↦ none
]

abbrev pub empty_metadata : MetadataRecord
empty_metadata = record {
  magic = metadata_magic;
  schema_version = metadata_schema_version;
  reserved0 = 0;
  generation = 0;
  slot_a = zero_slot_record;
  slot_b = zero_slot_record;
  active_slot = slot_none;
  pending_slot = slot_none;
  last_error = 0;
  record_crc32 = 0;
  reserved = replicate 12 0;
}

-- The record that `reconstruct_metadata` makes of the images found in the two slots.
unfoldable pub rebuilt : Option ImageInfo → Option ImageInfo → MetadataRecord
rebuilt none none = finalize empty_metadata
rebuilt none (some b) =
    finalize
      (record empty_metadata { slot_b = slot_from_image b slot_active; active_slot = slot_b })
rebuilt (some a) none =
    finalize
      (record empty_metadata { slot_a = slot_from_image a slot_active; active_slot = slot_a })
rebuilt (some a) (some b) = finalize (record empty_metadata {
  slot_a = slot_from_image a slot_active;
  slot_b = slot_from_image b slot_valid;
  active_slot = slot_a;
})

-- What the start knows: the metadata, the number of their copy, and the store.
abbrev pub Loaded : Type 0 → Type 0
Loaded S = MetadataRecord × ℕ × S

-- `read` reads the flash as it is in a store.
module _ {S : Type 0} (io : MetadataIo S) (read : S → Reader) where
  -- `reconstruct_metadata`: it commits over copy 1, so that the record goes to copy 0.
  unfoldable pub reconstruct : S → Loaded S
  reconstruct s =
      let m = rebuilt (accepted_image (read s) slot_a) (accepted_image (read s) slot_b) in
      let (result, t) = commit io s m 1 in
      elim result [
        | MetadataResult.ok ↦ (finalize (record m { generation = u32 (m.generation + 1) }), 0, t)
        | other ↦ (m, 0, t)
      ]

  -- The metadata are loaded, or reconstructed if no copy is valid.
  unfoldable pub load_or_reconstruct : S → Loaded S
  load_or_reconstruct s = elim (load io s).1 [
    | none ↦ reconstruct s
    | some (m, copy) ↦ (m, copy, s)
  ]

  -- The start of `bl_main` up to its loop: the decision, the metadata and the number of their copy,
  -- the store, and the confirmation mailbox.
  unfoldable pub start : S → ConfirmMailbox → BootResult × Loaded S × ConfirmMailbox
  start s mailbox =
      let (m, copy, t) = load_or_reconstruct s in
      let (found, consumed) = confirmation_consume mailbox in
      let confirmation : Option Confirmation = elim found [
        | none ↦ none
        | some (slot, version) ↦ some (record { slot = slot; version = version })
      ] in
      let (result, decided) = boot_decide m confirmation (some (image_probe (read t))) in
      (
        result,
        if result.commit_required
            then (finalize decided, copy, (commit io t (finalize decided) copy).1)
            else (decided, copy, t),
        consumed,
      )
