-- ===== src/Startup/Rebuild.antt =====
-- A start boots accepted images only, and without valid metadata it finds them again.
use tm4c123gxl_ota.Base.{ℕ, ◌≡◌, ◌≢◌, ◌↔◌, ◌⊎◌, inl, inr, arith, Option, none, some, true}
use tm4c123gxl_ota.Types.{MetadataRecord, slot_a, slot_b, slot_none}
use tm4c123gxl_ota.Image.{Reader, ImageInfo, ok, image_validate}
use tm4c123gxl_ota.Image.Loop.{Reads}
use tm4c123gxl_ota.Image.Accept.{IsBootable, image_validate_iff}
use tm4c123gxl_ota.Metadata.{MetadataIo, MetadataResult, finalize, commit, next_record}
use tm4c123gxl_ota.Metadata.Select.{IsWellFormed}
use tm4c123gxl_ota.Boot.{boot_slot_a, boot_slot_b, stay, boot_decide, Confirmation}
use tm4c123gxl_ota.Boot.Decide.{boot_decide_safe}
use tm4c123gxl_ota.BootConfirm.{ConfirmMailbox, confirmation_consume}
use tm4c123gxl_ota.Startup.{
  image_probe, slot_from_image, accepted_image, rebuilt, reconstruct, load_or_reconstruct, start,
}

image_probe_ok :
    (read : Reader) (slot : ℕ) → image_probe read slot ≡ true → (image_validate read slot).0 ≡ ok
unfolding image_probe
image_probe_ok read slot e = ground arith

image_probe-IsBootable :
    (read : Reader) (mem : ℕ → ℕ) (slot : ℕ)
    → Reads read mem
    → image_probe read slot ≡ true
    → IsBootable mem slot
image_probe-IsBootable read mem slot reads e =
    let v : ((image_validate read slot).0 ≡ ok) ↔ IsBootable mem slot =
      (image_validate_iff read mem slot reads).0 in
    v.0 (image_probe_ok read slot e)

decision_safe :
    (m : MetadataRecord) (c : Option Confirmation) (read : Reader) (mem : ℕ → ℕ)
    → Reads read mem
    → let d = (boot_decide m c (some (image_probe read))).0.decision in
      (d ≡ stay)
      ⊎ ((d ≡ boot_slot_a) × IsBootable mem slot_a)
      ⊎ ((d ≡ boot_slot_b) × IsBootable mem slot_b)
decision_safe m c read mem reads = elim (boot_decide_safe m c (image_probe read)) [
  | inl e ↦ inl e
  | inr (inl (e, p)) ↦ inr (inl (e, image_probe-IsBootable read mem slot_a reads p))
  | inr (inr (e, p)) ↦ inr (inr (e, image_probe-IsBootable read mem slot_b reads p))
]

-- Over a reader that copies the flash, a start decides for a slot only if the flash holds a bootable
-- image there once the metadata have been loaded or reconstructed, whatever the metadata and the
-- mailbox hold.
pub start_safe :
    {S : Type 0} (io : MetadataIo S) (read : S → Reader) (mem : S → ℕ → ℕ) (s : S)
    (mailbox : ConfirmMailbox)
    → ((t : S) → Reads (read t) (mem t))
    → let d = (start io read s mailbox).0.decision in
      let flash = mem (load_or_reconstruct io read s).2 in
      (d ≡ stay)
      ⊎ ((d ≡ boot_slot_a) × IsBootable flash slot_a)
      ⊎ ((d ≡ boot_slot_b) × IsBootable flash slot_b)
unfolding start
start_safe io read mem s mailbox reads =
    let confirmation : Option Confirmation = elim (confirmation_consume mailbox).0 [
      | none ↦ none
      | some found ↦ some (record { slot = found.0; version = found.1 })
    ] in
    let loaded = load_or_reconstruct io read s in
    let t = loaded.2 in decision_safe loaded.0 confirmation (read t) (mem t) (reads t)

-- The rebuilt record is well-formed, no slot is pending, and its active slot is A if A's image is
-- accepted, otherwise B if B's is, and otherwise none.
pub rebuilt_lem :
    (a b : Option ImageInfo)
    → let m = rebuilt a b in
      IsWellFormed m
      × (m.pending_slot ≡ slot_none)
      × (((m.active_slot ≡ slot_a) × (a ≢ none))
          ⊎ ((m.active_slot ≡ slot_b) × (a ≡ none) × (b ≢ none))
          ⊎ ((m.active_slot ≡ slot_none) × (a ≡ none) × (b ≡ none)))
unfolding rebuilt finalize slot_from_image
rebuilt_lem none none = ground arith
rebuilt_lem none (some b) = ground arith
rebuilt_lem (some a) none = ground arith
rebuilt_lem (some a) (some b) = ground arith

-- What `reconstruct_metadata` leaves in memory once its commit has succeeded is the record that it
-- wrote to copy 0, and 0 is the copy in use.
pub reconstruct-commit :
    {S : Type 0} (io : MetadataIo S) (read : S → Reader) (s : S)
    → let m = rebuilt (accepted_image (read s) slot_a) (accepted_image (read s) slot_b) in
      (commit io s m 1).0 ≡ MetadataResult.ok
      → reconstruct io read s ≡ (next_record m, 0, (commit io s m 1).1)
unfolding reconstruct next_record
reconstruct-commit io read s e = ground arith
