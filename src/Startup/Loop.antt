-- ===== src/Startup/Loop.antt =====
-- tm4c123gxl/bootloader/src/bl_main.c: the loop of the bootloader, built with the cloud update, and
-- what is set up in front of it. The services of the flash are an argument; a round is given the
-- time at its start, the byte that arrived at the link that it reads, and the time at the end of a
-- request. The bootloader gives the controller no callback.
pub mod Protect
pub mod Jump
pub mod Boots
use tm4c123gxl_ota.Base.{
  ℕ, ◌+◌, ◌-◌, ◌^◌, ◌%◌, List, [], ◌∷◌, ◌++◌, Option, none, some, Bool, true, false, ◌&&◌, ◌||◌,
  not, leb, ◌==◌, ◌!=◌, eq_bytes, if◌then◌else◌, u8, sub32, length,
}
use tm4c123gxl_ota.Config.{slot_a_payload_start, slot_b_payload_start}
use tm4c123gxl_ota.Types.{Version, MetadataRecord, version_bytes, slot_a, slot_b, slot_none}
use tm4c123gxl_ota.Text.{codes}
use tm4c123gxl_ota.Protocol.{
  Packet, Parser, EncodeResult, parser_init, consume, encode, zero_packet, cmd_reset,
}
use tm4c123gxl_ota.Boot.{BootDecision, stay, boot_slot_a, boot_slot_b}
use tm4c123gxl_ota.BootConfirm.{ConfirmMailbox, confirmation_clear, confirmation_consume}
use tm4c123gxl_ota.Request.{RequestMailbox, request_consume}
use tm4c123gxl_ota.Image.{Reader}
use tm4c123gxl_ota.Startup.{start}
use tm4c123gxl_ota.Update.{
  Update, UpdateState, Services, idle, receiving, ready_to_boot, update_init, handle, poll,
  note_activity,
}
use tm4c123gxl_ota.CloudOta.{zero_cloud}
use tm4c123gxl_ota.Controller.{
  AtConfig, Controller, Machine, controller_init, attach_update, set_boot_confirmed, ota_active,
  with_controller,
}
use tm4c123gxl_ota.Controller.Calls.{request_ota}
use tm4c123gxl_ota.Controller.Retry.{tick}
use tm4c123gxl_ota.Controller.Receive.{receive}
use tm4c123gxl_ota.Controller.Unattached.{no_start}

-- The variables of `bl_main`. `machine` holds the update and the store of its services, with the
-- controller, which counts only if the cloud is enabled; `written` holds the bytes that have gone to
-- the host, latest frame first.
pub record Main (S : Type 0) : Type 0 where
  pub machine : Machine S
  pub parser : Parser
  pub mailbox : ConfirmMailbox
  pub update_window_start : ℕ
  pub written : List (List ℕ)

-- What a round is given.
pub record Input : Type 0 where
  pub now : ℕ
  pub byte : Option ℕ
  pub later : ℕ

-- How a round ends: with the next one, with the reset, or with the jump to an image.
pub data Outcome : Type 0 where
  next resets : Outcome
  jumps : ℕ → Outcome

abbrev pub update_window : ℕ
update_window = 60000

abbrev pub is_ready : UpdateState → Bool
is_ready ready_to_boot = true
is_ready other = false

abbrev pub is_idle : UpdateState → Bool
is_idle idle = true
is_idle other = false

-- `uart_response`: the frame that it writes.
unfoldable pub response_frame : Packet → List ℕ
response_frame response =
    let (result, frame, size) = encode response 268 in
    elim result [ EncodeResult.ok ↦ frame | other ↦ [] ]

-- The tests of `confirmation_accepted`, of the metadata that the decision leaves.
unfoldable pub confirmation_accepted : Option (ℕ × Version) → MetadataRecord → Bool
confirmation_accepted none metadata = false
confirmation_accepted (some (slot, version)) metadata =
    (metadata.pending_slot == slot_none)
    && (metadata.active_slot == u8 slot)
    && (((slot == slot_a)
          && eq_bytes (version_bytes metadata.slot_a.version) (version_bytes version))
        || ((slot == slot_b)
            && eq_bytes (version_bytes metadata.slot_b.version) (version_bytes version)))

-- `cloud_enabled`
abbrev pub is_cloud_enabled : AtConfig → Bool
is_cloud_enabled config = (length config.wifi_ssid != 0) && (length config.thingsboard_token != 0)

-- The controller that the set-up makes: attached, with a consumed request taken over if it is
-- accepted, and with the confirmation noted.
unfoldable pub cloud_controller : AtConfig → MetadataRecord → Option Version → Bool → ℕ → Controller
cloud_controller config metadata requested confirmed now =
    let fresh = attach_update (controller_init config true now).0 true in
    let asked : Controller = elim requested [
      | none ↦ fresh
      | some version ↦ (request_ota fresh metadata version).1
    ] in
    set_boot_confirmed asked confirmed

-- The set-up between the start (Startup.start) and the loop.
unfoldable pub begin_loop :
    {S : Type 0}
    → AtConfig
    → MetadataRecord
    → ℕ
    → S
    → ConfirmMailbox
    → Option Version
    → Bool
    → ℕ
    → Main S
begin_loop config metadata copy s mailbox requested confirmed now = record {
  machine = record {
    controller =
        if is_cloud_enabled config
        then cloud_controller config metadata requested confirmed now
        else (controller_init config true now).0;
    cloud = zero_cloud;
    update = update_init metadata copy;
    store = s;
    out = [];
  };
  parser = parser_init;
  mailbox = mailbox;
  update_window_start = now;
  written = [];
}

-- Whether a download holds the machine.
abbrev pub is_busy : {S : Type 0} → Bool → Machine S → Bool
is_busy cloud m = cloud && ota_active m.controller

-- The jump for a decision at the end of the window.
abbrev pub jump_for : BootDecision → Outcome
jump_for boot_slot_a = jumps slot_a_payload_start
jump_for boot_slot_b = jumps slot_b_payload_start
jump_for stay = next

module _ {S : Type 0} (services : Services S) where
  -- A byte from the host, without the cloud, and whether the target resets in its course: the reset
  -- that a RESET packet asks for does not return, so that nothing after it is done.
  unfoldable pub host_byte : Main S → ℕ → ℕ → ℕ → Bool × Main S
  host_byte m byte now later =
      let (parser, result, packet) = consume m.parser byte now in
      let parsed = record m { parser = parser } in
      elim packet [
        | none ↦ (false, parsed)
        | some request ↦
            let (update, s, response) = handle services m.machine.update m.machine.store request in
            if request.command == cmd_reset
            then (true, record parsed { machine = record m.machine { update = update; store = s } })
            else (
              false,
              record parsed {
                machine = record m.machine { update = note_activity update later; store = s };
                written = response_frame response ∷ m.written;
              },
            )
      ]

  -- The byte of a round, from the link that it reads, and whether the target resets.
  unfoldable pub take_byte : Bool → Main S → Input → Bool × Main S
  take_byte cloud m input = elim input.byte [
    | none ↦ (false, m)
    | some byte ↦
        if cloud
        then (false, record m { machine = receive services no_start m.machine byte input.now })
        else host_byte m byte input.now input.later
  ]

  -- The first part of a round: the poll, the byte and the tick, unless the byte resets the target.
  unfoldable pub round_work : Bool → Main S → Input → Bool × Main S
  round_work cloud m input =
      let polled =
        if is_busy cloud m.machine
        then m
        else record m { machine = record m.machine { update = poll m.machine.update input.now } } in
      let (is_reset, fed) = take_byte cloud polled input in
      (
        is_reset,
        if cloud && not is_reset
            then record fed { machine = tick services fed.machine input.now }
            else fed,
      )

  -- A round of the loop.
  unfoldable pub main_round : Bool → BootDecision → Main S → Input → Outcome × Main S
  main_round cloud decision m input =
      let (is_reset, worked) = round_work cloud m input in
      let update = worked.machine.update in
      if is_reset
      then (resets, worked)
      else if is_ready update.state
      then (
        resets,
        record worked {
          mailbox = confirmation_clear;
          machine = record worked.machine { store = services.reset worked.machine.store };
        },
      )
      else if is_idle update.state
          && not (is_busy cloud worked.machine)
          && leb update_window (sub32 input.now worked.update_window_start)
      then elim decision [
        | stay ↦ (next, record worked { update_window_start = input.now })
        | other ↦ (jump_for other, worked)
      ]
      else (next, worked)

  -- The rounds of the loop up to one that resets or jumps, if there is one.
  unfoldable pub run_main : Bool → BootDecision → Main S → List Input → Outcome × Main S
  run_main cloud decision m [] = (next, m)
  run_main cloud decision m (input ∷ inputs) =
      let (outcome, after) = main_round cloud decision m input in
      let rest = run_main cloud decision after inputs in
      elim outcome [ next ↦ rest | other ↦ (other, after) ]

-- `bl_main`, on the flash and the mailboxes that it finds, from the time `now` on.
unfoldable pub bl_main :
    {S : Type 0}
    → Services S
    → (S → Reader)
    → AtConfig
    → S
    → ConfirmMailbox
    → RequestMailbox
    → ℕ
    → List Input
    → Outcome × Main S
bl_main services read config s mailbox requests now inputs =
    let (result, (metadata, copy, t), consumed) = start services.metadata_io read s mailbox in
    let confirmed = confirmation_accepted (confirmation_consume mailbox).0 metadata in
    run_main services (is_cloud_enabled config) result.decision
      (begin_loop config metadata copy t consumed (request_consume requests).0 confirmed now) inputs
