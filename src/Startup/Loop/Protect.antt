-- ===== src/Startup/Loop/Protect.antt =====
-- What the loop leaves alone, over the guarded flash.
use tm4c123gxl_ota.Base.{
  ℕ, ◌≡◌, refl, ap, arith, List, [], ◌∷◌, Bool, true, Option-cases, inl, inr, if◌then◌else◌,
}
use tm4c123gxl_ota.Protocol.{consume}
use tm4c123gxl_ota.Boot.{BootDecision}
use tm4c123gxl_ota.Update.{Update, poll, note_activity}
use tm4c123gxl_ota.Controller.Unattached.{no_start}
use tm4c123gxl_ota.Controller.Keeps.{tick-keeps}
use tm4c123gxl_ota.Controller.Keeps.Events.{receive-keeps}
use tm4c123gxl_ota.Hal.Flash.{Device, services}
use tm4c123gxl_ota.Hal.Protect.{DeviceLaws}
use tm4c123gxl_ota.Hal.Requests.{is_kept, kept_view, handle_view}
use tm4c123gxl_ota.Startup.Loop.{
  Main, Input, is_busy, host_byte, take_byte, round_work, main_round, run_main,
}

poll_metadata : (u : Update) (now : ℕ) → (poll u now).metadata ≡ u.metadata
unfolding poll
poll_metadata u now = ground arith

module _ {D : Type 0} (device : Device D) (laws : DeviceLaws device) (x : ℕ) where
  abbrev main_view : Main D → ℕ × ℕ
  main_view m = kept_view device x m.machine.update m.machine.store

  host_byte-view :
      (m : Main D) (byte now later : ℕ)
      → main_view (host_byte (services device) m byte now later).1 ≡ main_view m
  unfolding host_byte note_activity
  host_byte-view m byte now later = elim (Option-cases (consume m.parser byte now).2) [
    | inl gone ↦ ground arith
    | inr (request, e) ↦
        ground (arith, handle_view device laws x m.machine.update m.machine.store request)
  ]

  take_byte-view :
      (cloud : Bool) (m : Main D) (input : Input)
      → main_view (take_byte (services device) cloud m input).1 ≡ main_view m
  unfolding take_byte
  take_byte-view cloud m input = elim (Option-cases input.byte) [
    | inl gone ↦ ground arith
    | inr (byte, e) ↦ ground (
      arith,
      host_byte-view m byte input.now input.later,
      receive-keeps (services device) (kept_view device x) (handle_view device laws x) no_start
          (λ v u s. refl) m.machine byte input.now,
    )
  ]

  round_work-view :
      (cloud : Bool) (m : Main D) (input : Input)
      → main_view (round_work (services device) cloud m input).1 ≡ main_view m
  unfolding round_work
  round_work-view cloud m input =
      let polled : Main D =
        if is_busy cloud m.machine
        then m
        else record m { machine = record m.machine { update = poll m.machine.update input.now } } in
      let fed : Main D = (take_byte (services device) cloud polled input).1 in
      ground (
        arith,
        poll_metadata m.machine.update input.now,
        take_byte-view cloud polled input,
        tick-keeps (services device) (kept_view device x) (handle_view device laws x) fed.machine
            input.now,
      )

  main_round-view :
      (cloud : Bool) (decision : BootDecision) (m : Main D) (input : Input)
      → main_view (main_round (services device) cloud decision m input).1 ≡ main_view m
  unfolding main_round
  main_round-view cloud decision m input =
      let worked : Main D = (round_work (services device) cloud m input).1 in
      ground (arith, round_work-view cloud m input, laws.reset worked.machine.store x)

  run_main-view :
      (cloud : Bool) (decision : BootDecision) (m : Main D) (inputs : List Input)
      → main_view (run_main (services device) cloud decision m inputs).1 ≡ main_view m
  unfolding run_main
  run_main-view cloud decision m [] = refl
  run_main-view cloud decision m (input ∷ inputs) = ground (
    arith,
    main_round-view cloud decision m input,
    run_main-view cloud decision (main_round (services device) cloud decision m input).1 inputs,
  )

pub run_main_active :
    {D : Type 0} (device : Device D) (laws : DeviceLaws device) (cloud : Bool)
    (decision : BootDecision) (m : Main D) (inputs : List Input)
    → (run_main (services device) cloud decision m inputs).1.machine.update.metadata.active_slot
      ≡ m.machine.update.metadata.active_slot
run_main_active device laws cloud decision m inputs =
    ap (λ v. v.0) (run_main-view device laws 0 cloud decision m inputs)

-- Whatever bytes arrive from the host or the modem, and at whatever times, with the cloud or
-- without: the loop leaves every byte of the bootloader and of the active slot as it is, and does
-- not change which slot is active, if slot A or B is active and the device keeps to its data sheet.
pub run_main_protects :
    {D : Type 0} (device : Device D) (laws : DeviceLaws device) (x : ℕ) (cloud : Bool)
    (decision : BootDecision) (m : Main D) (inputs : List Input)
    → is_kept m.machine.update.metadata.active_slot x ≡ true
    → let after = (run_main (services device) cloud decision m inputs).1.machine in
      (device.cell after.store x ≡ device.cell m.machine.store x)
      × (after.update.metadata.active_slot ≡ m.machine.update.metadata.active_slot)
run_main_protects device laws x cloud decision m inputs k =
    ground (arith, run_main-view device laws x cloud decision m inputs)
