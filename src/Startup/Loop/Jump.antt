-- ===== src/Startup/Loop/Jump.antt =====
-- What the loop jumps to.
use tm4c123gxl_ota.Base.{
  ℕ, ◌+◌, ◌≡◌, ◌≤◌, ◌<◌, ◌⊎◌, inl, inr, refl, sym, ◌∙◌, subst, arith, List, [], ◌∷◌, Option, none,
  some, Bool, true, Option-cases,
}
use tm4c123gxl_ota.Config.{
  slot_size, slot_a_payload_start, slot_b_payload_start, metadata_copy0_start,
}
use tm4c123gxl_ota.Types.{Version, slot_a, slot_b}
use tm4c123gxl_ota.Image.{Reader, slot_payload_start}
use tm4c123gxl_ota.Image.Loop.{Reads}
use tm4c123gxl_ota.Image.Accept.{IsBootable, image_start}
use tm4c123gxl_ota.Image.Agree.{IsBootable-agree}
use tm4c123gxl_ota.Metadata.{load, finalize}
use tm4c123gxl_ota.Boot.{BootDecision, stay, boot_slot_a, boot_slot_b, boot_decide, Confirmation}
use tm4c123gxl_ota.BootConfirm.{ConfirmMailbox, confirmation_consume}
use tm4c123gxl_ota.Request.{RequestMailbox, request_consume}
use tm4c123gxl_ota.Update.Isolation.{commit_keeps_outside}
use tm4c123gxl_ota.Hal.Flash.{Device, hal_flash_read, services}
use tm4c123gxl_ota.Hal.Protect.{DeviceLaws, services-StaysInRange}
use tm4c123gxl_ota.Hal.Requests.{is_kept}
use tm4c123gxl_ota.Controller.{AtConfig}
use tm4c123gxl_ota.Startup.{
  start, load_or_reconstruct, reconstruct, rebuilt, accepted_image, image_probe,
}
use tm4c123gxl_ota.Startup.Rebuild.{start_safe}
use tm4c123gxl_ota.Startup.Loop.{
  Main, Input, jumps, main_round, run_main, begin_loop, is_cloud_enabled, bl_main,
  confirmation_accepted,
}
use tm4c123gxl_ota.Startup.Loop.Protect.{run_main_protects, run_main_active}

module _ {D : Type 0} (device : Device D) where
  -- The reader that the start gives to the image checks.
  abbrev pub reader : D → Reader
  reader d address size = some (hal_flash_read device d address size)

  pub reader-Reads : (d : D) → Reads (reader d) (device.cell d)
  unfolding hal_flash_read
  reader-Reads d a n h = refl

  run_main-jumps :
      (cloud : Bool) (decision : BootDecision) (m : Main D) (inputs : List Input) (address : ℕ)
      → (run_main (services device) cloud decision m inputs).0 ≡ jumps address
      → ((decision ≡ boot_slot_a) × (address ≡ slot_a_payload_start))
        ⊎ ((decision ≡ boot_slot_b) × (address ≡ slot_b_payload_start))
  unfolding run_main main_round
  run_main-jumps cloud decision m [] address e = ground arith
  run_main-jumps cloud decision m (input ∷ inputs) address e = ground (
    arith,
    run_main-jumps cloud decision (main_round (services device) cloud decision m input).1 inputs
        address,
  )

module _ {D : Type 0} (device : Device D) (laws : DeviceLaws device) where
  reconstruct_keeps :
      (read : D → Reader) (d : D) (x : ℕ)
      → x < metadata_copy0_start
      → device.cell (reconstruct (services device).metadata_io read d).2 x ≡ device.cell d x
  unfolding reconstruct
  reconstruct_keeps read d x h = ground (
    arith,
    commit_keeps_outside (services device) device.cell (services-StaysInRange device laws) d
        (rebuilt (accepted_image (read d) slot_a) (accepted_image (read d) slot_b)) 1 x h,
  )

  pub load_keeps :
      (read : D → Reader) (d : D) (x : ℕ)
      → x < metadata_copy0_start
      → device.cell (load_or_reconstruct (services device).metadata_io read d).2 x ≡ device.cell d x
  unfolding load_or_reconstruct
  load_keeps read d x h = elim (Option-cases (load (services device).metadata_io d).1) [
    | inl gone ↦ ground (arith, reconstruct_keeps read d x h)
    | inr (found, e) ↦ ground arith
  ]

  start_keeps :
      (read : D → Reader) (d : D) (mailbox : ConfirmMailbox) (x : ℕ)
      → x < metadata_copy0_start
      → device.cell (start (services device).metadata_io read d mailbox).1.2 x ≡ device.cell d x
  unfolding start
  start_keeps read d mailbox x h =
      let loaded = load_or_reconstruct (services device).metadata_io read d in
      let confirmation : Option Confirmation = elim (confirmation_consume mailbox).0 [
        | none ↦ none
        | some found ↦ some (record { slot = found.0; version = found.1 })
      ] in
      ground (
        arith,
        load_keeps read d x h,
        commit_keeps_outside (services device) device.cell (services-StaysInRange device laws)
            loaded.2
            (finalize (boot_decide loaded.0 confirmation (some (image_probe (read loaded.2)))).1)
            loaded.1 x h,
      )

  -- The memory at the end of any rounds, in the active slot, is the one at the start.
  rounds_keep :
      (d : D) (mailbox : ConfirmMailbox) (config : AtConfig) (requested : Option Version)
      (confirmed : Bool) (now : ℕ) (inputs : List Input) (x : ℕ)
      → let (result, (metadata, copy, t), consumed) =
          start (services device).metadata_io (reader device) d mailbox in
        is_kept metadata.active_slot x ≡ true
        → x < metadata_copy0_start
        → device.cell d x
          ≡ device.cell
              (run_main
                (services device)
                (is_cloud_enabled config)
                result.decision
                (begin_loop config metadata copy t consumed requested confirmed now)
                inputs).1.machine.store
              x
  unfolding begin_loop
  rounds_keep d mailbox config requested confirmed now inputs x k h =
      let (result, loaded, consumed) =
        start (services device).metadata_io (reader device) d mailbox in
      ground (
        arith,
        start_keeps (reader device) d mailbox x h,
        run_main_protects device laws x (is_cloud_enabled config) result.decision
            (begin_loop config loaded.0 loaded.1 loaded.2 consumed requested confirmed now) inputs,
      )

  jump-IsBootable :
      (d : D) (mailbox : ConfirmMailbox) (config : AtConfig) (requested : Option Version)
      (confirmed : Bool) (now : ℕ) (inputs : List Input) (slot : ℕ)
      → let (result, (metadata, copy, t), consumed) =
          start (services device).metadata_io (reader device) d mailbox in
        let (outcome, after) =
          run_main
            (services device)
            (is_cloud_enabled config)
            result.decision
            (begin_loop config metadata copy t consumed requested confirmed now)
            inputs in
        (slot ≡ slot_a) ⊎ (slot ≡ slot_b)
        → metadata.active_slot ≡ slot
        → outcome ≡ jumps (slot_payload_start slot)
        → IsBootable (device.cell after.machine.store) slot
  jump-IsBootable d mailbox config requested confirmed now inputs slot s active e =
      IsBootable-agree (device.cell t) (device.cell after) slot same bootable
    where
      t : D
      t = (load_or_reconstruct (services device).metadata_io (reader device) d).2

      result : BootDecision
      result = (start (services device).metadata_io (reader device) d mailbox).0.decision

      m : Main D
      m =
          let (r, loaded, consumed) =
            start (services device).metadata_io (reader device) d mailbox in
          begin_loop config loaded.0 loaded.1 loaded.2 consumed requested confirmed now

      after : D
      after = (run_main (services device) (is_cloud_enabled config) result m inputs).1.machine.store

      same :
          (x : ℕ)
          → image_start slot ≤ x
          → x < image_start slot + slot_size
          → device.cell t x ≡ device.cell after x
      same x l u =
          load_keeps (reader device) d x (ground arith)
          ∙ rounds_keep d mailbox config requested confirmed now inputs x (ground arith)
              (ground arith)

      choose :
          (result ≡ stay)
            ⊎ ((result ≡ boot_slot_a) × IsBootable (device.cell t) slot_a)
            ⊎ ((result ≡ boot_slot_b) × IsBootable (device.cell t) slot_b)
          → ((result ≡ boot_slot_a) × (slot_payload_start slot ≡ slot_a_payload_start))
            ⊎ ((result ≡ boot_slot_b) × (slot_payload_start slot ≡ slot_b_payload_start))
          → IsBootable (device.cell t) slot
      choose (inl none_chosen) j = absurd (ground arith)
      choose (inr (inl (chosen, b))) j = subst (IsBootable (device.cell t)) (ground arith) b
      choose (inr (inr (chosen, b))) j = subst (IsBootable (device.cell t)) (ground arith) b

      bootable : IsBootable (device.cell t) slot
      bootable =
          choose
            (start_safe (services device).metadata_io (reader device) device.cell d mailbox
              (reader-Reads device))
            (run_main-jumps device (is_cloud_enabled config) result m inputs
              (slot_payload_start slot) e)

-- From a reset on any flash, with any mailboxes: if the bootloader, after any rounds with any bytes
-- from the host and the modem, jumps to the payload of the slot, A or B, that is then the active one, the
-- flash holds a bootable image in that slot at that time, if the device keeps to its data sheet.
pub bl_main-IsBootable :
    {D : Type 0} (device : Device D) (laws : DeviceLaws device) (config : AtConfig) (d : D)
    (mailbox : ConfirmMailbox) (requests : RequestMailbox) (now : ℕ) (inputs : List Input)
    (slot : ℕ)
    → let (outcome, after) =
        bl_main (services device) (reader device) config d mailbox requests now inputs in
      (slot ≡ slot_a) ⊎ (slot ≡ slot_b)
      → after.machine.update.metadata.active_slot ≡ slot
      → outcome ≡ jumps (slot_payload_start slot)
      → IsBootable (device.cell after.machine.store) slot
unfolding bl_main begin_loop
bl_main-IsBootable device laws config d mailbox requests now inputs slot s active e =
    let requested = (request_consume requests).0 in
    let (result, loaded, consumed) =
      start (services device).metadata_io (reader device) d mailbox in
    let confirmed = confirmation_accepted (confirmation_consume mailbox).0 loaded.0 in
    jump-IsBootable device laws d mailbox config requested confirmed now inputs slot s
      (sym (
          run_main_active device laws (is_cloud_enabled config) result.decision
            (begin_loop config loaded.0 loaded.1 loaded.2 consumed requested confirmed now) inputs)
        ∙ active)
      e
