-- ===== src/Startup/Loop/Boots.antt =====
-- That the bootloader boots: an image that is there is started when no byte arrives.
use tm4c123gxl_ota.Base.{
  ℕ, ◌≡◌, ◌≢◌, ◌≤◌, ◌<◌, ◌⊎◌, ◌↔◌, inl, inr, refl, sym, arith, List, [], ◌∷◌, ◌++◌, All, Option,
  none, some, true, false, sub32,
}
use tm4c123gxl_ota.Config.{slot_a_payload_start, slot_b_payload_start}
use tm4c123gxl_ota.Types.{slot_a, slot_b}
use tm4c123gxl_ota.Image.{Reader, ok, image_validate}
use tm4c123gxl_ota.Image.Loop.{Reads}
use tm4c123gxl_ota.Image.Accept.{IsBootable, image_validate_iff}
use tm4c123gxl_ota.Image.Agree.{IsBootable-agree}
use tm4c123gxl_ota.Metadata.{load, finalize}
use tm4c123gxl_ota.Boot.{BootDecision, stay, boot_slot_a, boot_slot_b, Confirmation}
use tm4c123gxl_ota.Boot.Decide.{boot_decide_live}
use tm4c123gxl_ota.BootConfirm.{ConfirmMailbox, confirmation_consume}
use tm4c123gxl_ota.Request.{RequestMailbox, request_consume}
use tm4c123gxl_ota.Update.{Services, idle, poll}
use tm4c123gxl_ota.Hal.Flash.{Device, services}
use tm4c123gxl_ota.Hal.Protect.{DeviceLaws}
use tm4c123gxl_ota.Controller.{AtConfig}
use tm4c123gxl_ota.Startup.{
  start, load_or_reconstruct, reconstruct, rebuilt, accepted_image, image_probe,
}
use tm4c123gxl_ota.Startup.Rebuild.{rebuilt_lem}
use tm4c123gxl_ota.Startup.Loop.{
  Main, Input, next, jumps, jump_for, update_window, take_byte, round_work, main_round, run_main,
  begin_loop, is_cloud_enabled, bl_main, confirmation_accepted,
}
use tm4c123gxl_ota.Startup.Loop.Jump.{reader, reader-Reads, load_keeps}

module _ (read : Reader) (mem : ℕ → ℕ) (reads : Reads read mem) where
  bootable_ok : (slot : ℕ) → IsBootable mem slot → (image_validate read slot).0 ≡ ok
  bootable_ok slot b =
      let v : ((image_validate read slot).0 ≡ ok) ↔ IsBootable mem slot =
        (image_validate_iff read mem slot reads).0 in
      v.1 b

  bootable_probe : (slot : ℕ) → IsBootable mem slot → image_probe read slot ≡ true
  unfolding image_probe
  bootable_probe slot b = ground (arith, bootable_ok slot b)

  bootable_accepted : (slot : ℕ) → IsBootable mem slot → accepted_image read slot ≢ none
  unfolding accepted_image
  bootable_accepted slot b e =
      ground (arith, bootable_ok slot b, (image_validate_iff read mem slot reads).1)

module _ {D : Type 0} (device : Device D) (laws : DeviceLaws device) where
  abbrev Image : D → Type 0
  Image d = IsBootable (device.cell d) slot_a ⊎ IsBootable (device.cell d) slot_b

  reconstruct_active :
      (d : D)
      → (reconstruct (services device).metadata_io (reader device) d).0.active_slot
        ≡ (rebuilt
            (accepted_image (reader device d) slot_a)
            (accepted_image (reader device d) slot_b)).active_slot
  unfolding reconstruct finalize
  reconstruct_active d = ground arith

  -- Without valid metadata, the slot of an image that is accepted becomes the active one.
  load_active :
      (d : D)
      → Image d
      → (load (services device).metadata_io d).1 ≡ none
      → let m = (load_or_reconstruct (services device).metadata_io (reader device) d).0 in
        (m.active_slot ≡ slot_a) ⊎ (m.active_slot ≡ slot_b)
  unfolding load_or_reconstruct
  load_active d some_image gone =
      let read = reader device d in
      let mem = device.cell d in
      let reads : Reads read mem = reader-Reads device d in
      ground (
        arith,
        reconstruct_active d,
        (rebuilt_lem (accepted_image read slot_a) (accepted_image read slot_b)).2,
        bootable_accepted read mem reads slot_a,
        bootable_accepted read mem reads slot_b,
      )

  -- The image is still there when the metadata have been loaded or reconstructed.
  load_image :
      (d : D) (slot : ℕ)
      → (slot ≡ slot_a) ⊎ (slot ≡ slot_b)
      → let t = (load_or_reconstruct (services device).metadata_io (reader device) d).2 in
        IsBootable (device.cell d) slot → image_probe (reader device t) slot ≡ true
  load_image d slot s b =
      let t = (load_or_reconstruct (services device).metadata_io (reader device) d).2 in
      bootable_probe (reader device t) (device.cell t) (reader-Reads device t) slot (
        IsBootable-agree (device.cell d) (device.cell t) slot
          (λ x l u. sym (load_keeps device laws (reader device) d x (ground arith))) b)

  start_live :
      (d : D) (mailbox : ConfirmMailbox)
      → Image d
      → let found = load_or_reconstruct (services device).metadata_io (reader device) d in
        ((load (services device).metadata_io d).1 ≡ none)
          ⊎ (found.0.active_slot ≡ slot_a)
          ⊎ (found.0.active_slot ≡ slot_b)
        → (start (services device).metadata_io (reader device) d mailbox).0.decision ≢ stay
  unfolding start
  start_live d mailbox some_image active =
      let found = load_or_reconstruct (services device).metadata_io (reader device) d in
      let confirmation : Option Confirmation = elim (confirmation_consume mailbox).0 [
        | none ↦ none
        | some found ↦ some (record { slot = found.0; version = found.1 })
      ] in
      boot_decide_live found.0 confirmation (image_probe (reader device found.2))
        (elim some_image [
          | inl a ↦ inl (load_image d slot_a (inl refl) a)
          | inr b ↦ inr (load_image d slot_b (inr refl) b)
        ])
        (elim active [ inl gone ↦ load_active d some_image gone | inr known ↦ known ])

module _ {S : Type 0} (services : Services S) where
  -- A round without a byte of a loop that serves the host, while the update is idle.
  quiet_round :
      (decision : BootDecision) (m : Main S) (input : Input)
      → m.machine.update.state ≡ idle
      → input.byte ≡ none
      → let (outcome, after) = main_round services false decision m input in
        (outcome ≡ jump_for decision)
        ⊎ ((outcome ≡ next)
            × (after.machine.update.state ≡ idle)
            × (sub32 input.now m.update_window_start < update_window)
            × (after.update_window_start ≡ m.update_window_start))
  unfolding main_round round_work take_byte poll
  quiet_round decision m input i q = ground arith

  quiet_rounds :
      (decision : BootDecision) (m : Main S) (inputs : List Input) (last : Input)
      → decision ≢ stay
      → m.machine.update.state ≡ idle
      → All (λ input. input.byte ≡ none) inputs
      → last.byte ≡ none
      → update_window ≤ sub32 last.now m.update_window_start
      → (run_main services false decision m (inputs ++ last ∷ [])).0 ≡ jump_for decision
  unfolding run_main
  quiet_rounds stay m inputs last n i q l t = absurd (n refl)
  quiet_rounds boot_slot_a m [] last n i q l t = ground (arith, quiet_round boot_slot_a m last i l)
  quiet_rounds boot_slot_b m [] last n i q l t = ground (arith, quiet_round boot_slot_b m last i l)
  quiet_rounds boot_slot_a m (input ∷ inputs) last n i q l t = ground (
    arith,
    quiet_round boot_slot_a m input i q.0,
    quiet_rounds boot_slot_a (main_round services false boot_slot_a m input).1 inputs last n,
  )
  quiet_rounds boot_slot_b m (input ∷ inputs) last n i q l t = ground (
    arith,
    quiet_round boot_slot_b m input i q.0,
    quiet_rounds boot_slot_b (main_round services false boot_slot_b m input).1 inputs last n,
  )

-- From a reset on a flash with a bootable image in some slot, where the metadata either name slot A
-- or B as the active one or cannot be loaded, and with no network configured: if no byte arrives from
-- the host and a round comes 60000 ms or more after the set-up, the bootloader jumps to the payload
-- of a slot, if the device keeps to its data sheet.
pub bl_main_boots :
    {D : Type 0} (device : Device D) (laws : DeviceLaws device) (config : AtConfig) (d : D)
    (mailbox : ConfirmMailbox) (requests : RequestMailbox) (now : ℕ) (inputs : List Input)
    (last : Input)
    → IsBootable (device.cell d) slot_a ⊎ IsBootable (device.cell d) slot_b
    → let io = (services device).metadata_io in
      let found = load_or_reconstruct io (reader device) d in
      ((load io d).1 ≡ none) ⊎ (found.0.active_slot ≡ slot_a) ⊎ (found.0.active_slot ≡ slot_b)
      → is_cloud_enabled config ≡ false
      → All (λ input. input.byte ≡ none) inputs
      → last.byte ≡ none
      → update_window ≤ sub32 last.now now
      → let outcome =
          (bl_main
            (services device)
            (reader device)
            config
            d
            mailbox
            requests
            now
            (inputs ++ last ∷ [])).0 in
        (outcome ≡ jumps slot_a_payload_start) ⊎ (outcome ≡ jumps slot_b_payload_start)
unfolding bl_main begin_loop
bl_main_boots device laws config d mailbox requests now inputs last image active offline q l t =
    let io = (services device).metadata_io in
    let requested = (request_consume requests).0 in
    let (result, loaded, consumed) = start io (reader device) d mailbox in
    let confirmed = confirmation_accepted (confirmation_consume mailbox).0 loaded.0 in
    let begun : Main _ =
      begin_loop config loaded.0 loaded.1 loaded.2 consumed requested confirmed now in
    ground (
      arith,
      start_live device laws d mailbox image active,
      quiet_rounds (services device) result.decision begun inputs last,
    )
