-- ===== src/Controller/Sound/Runs.antt =====
-- Every byte of the modem and every tick keep the bounds of the controller's fields, from any set-up.
use tm4c123gxl_ota.Base.{
  ℕ, ◌+◌, ◌≤◌, ◌<◌, ◌≡◌, ◌⊎◌, refl, ap, ◌∙◌, arith, List, [], ◌∷◌, Option, none, some, Bool, true,
  length,
}
use tm4c123gxl_ota.Types.{Version}
use tm4c123gxl_ota.Text.{Text, c_string}
use tm4c123gxl_ota.Http.{parse_size}
use tm4c123gxl_ota.Rpc.{parse}
use tm4c123gxl_ota.Update.{Services}
use tm4c123gxl_ota.Controller.{Controller, Machine, ota_range_header, ota_download, literal}
use tm4c123gxl_ota.Controller.Command.{error_message}
use tm4c123gxl_ota.Controller.Retry.{tick}
use tm4c123gxl_ota.Controller.Calls.{handle_rpc, prepare_ota_request}
use tm4c123gxl_ota.Controller.Lines.{process_line}
use tm4c123gxl_ota.Controller.Receive.{receive_end, receive}
use tm4c123gxl_ota.Config.{slot_header_size, slot_payload_size, max_retries}
use tm4c123gxl_ota.Controller.{AtConfig, controller_init, line_size}
use tm4c123gxl_ota.Controller.Range.{http_chunk_size}
use tm4c123gxl_ota.Controller.Chunks.{next_chunk_size_lem}
use tm4c123gxl_ota.Controller.Diagram.Bytes.{Event, received, ticked, run_events}
use tm4c123gxl_ota.Controller.Sound.{
  is_sound, is_bounded, is_sound-is_bounded, enter_retry-is_sound, tick-is_sound,
  advance_state-is_sound,
}
use tm4c123gxl_ota.Controller.Sound.Answers.{size_answer-is_sound, ok_line-is_sound}
use tm4c123gxl_ota.Base.{◌≢◌}
use tm4c123gxl_ota.Types.{MetadataRecord}
use tm4c123gxl_ota.Controller.{attach_update, set_ota_start, set_boot_confirmed}
use tm4c123gxl_ota.Controller.Calls.{request_ota}
use tm4c123gxl_ota.Controller.Sound.Events.{
  prepare_ota_request-is_sound, is_sound-cleared, handle_request-is_sound, receive_body-is_sound,
  receive_char-is_sound, receive_prompt-is_sound,
}

-- A controller as the bootloader and the application set it up: with an update or not, with a
-- callback or not, and with a request that was left for it or none.
abbrev pub set_up :
    AtConfig → Bool → ℕ → Bool → Bool → Option Version → MetadataRecord → Bool → Controller
set_up config has_log start_ms attached has_start requested metadata confirmed =
    let fresh =
      set_ota_start (attach_update (controller_init config has_log start_ms).0 attached)
        has_start in
    let asked : Controller = elim requested [
      | none ↦ fresh
      | some version ↦ (request_ota fresh metadata version).1
    ] in
    set_boot_confirmed asked confirmed

is_sound-asked : (c : Controller) → is_sound (record c { ota_requested = true }) ≡ is_sound c
unfolding is_sound is_bounded
is_sound-asked c = refl

request_ota-is_sound :
    (c : Controller) (metadata : MetadataRecord) (version : Version)
    → is_sound (request_ota c metadata version).1 ≡ is_sound c
unfolding request_ota
request_ota-is_sound c metadata version = ground (
  arith,
  prepare_ota_request-is_sound c version,
  is_sound-asked (prepare_ota_request c version).1,
)

set_up-is_sound :
    (config : AtConfig) (has_log : Bool) (start_ms : ℕ) (attached has_start : Bool)
    (requested : Option Version) (metadata : MetadataRecord) (confirmed : Bool)
    → is_sound (set_up config has_log start_ms attached has_start requested metadata confirmed)
      ≡ true
unfolding is_sound
set_up-is_sound config has_log start_ms attached has_start none metadata confirmed = refl
set_up-is_sound config has_log start_ms attached has_start (some version) metadata confirmed =
    request_ota-is_sound
      (set_ota_start (attach_update (controller_init config has_log start_ms).0 attached) has_start)
      metadata version

sound_bounds :
    (c : Controller)
    → is_sound c ≡ true
    → (length c.line < line_size)
      × (c.retry_count ≤ max_retries)
      × (((c.state ≢ ota_range_header) × (c.state ≢ ota_download))
          ⊎ ((0 < c.ota_chunk_size)
              × (c.ota_chunk_size ≤ http_chunk_size)
              × (c.ota_offset + c.ota_chunk_size ≤ c.remote_size)
              × (c.remote_size ≤ slot_header_size + slot_payload_size)))
unfolding is_sound is_bounded
sound_bounds c h = ground (arith, next_chunk_size_lem c.remote_size c.ota_offset)

module _ {S : Type 0} (services : Services S) (ota_start : Version → S → Bool × S) where
  process_line-is_sound :
      (m : Machine S) (line : Text) (now_ms : ℕ)
      → is_sound m.controller ≡ true
      → is_sound (process_line services ota_start m line now_ms).controller ≡ true
  unfolding process_line handle_rpc
  process_line-is_sound m line now_ms h = ground (
    arith,
    is_sound-is_bounded m.controller h,
    size_answer-is_sound services m (parse_size line) now_ms,
    handle_request-is_sound ota_start m (parse line).1 now_ms,
    advance_state-is_sound services m now_ms,
    enter_retry-is_sound services m now_ms (error_message m.controller.state),
    enter_retry-is_sound services m now_ms (literal "AT_DISCONNECTED_ONLINE"),
    ok_line-is_sound services m now_ms,
  )

  receive-is_sound :
      (m : Machine S) (byte now_ms : ℕ)
      → is_sound m.controller ≡ true
      → is_sound (receive services ota_start m byte now_ms).controller ≡ true
  unfolding receive receive_end
  receive-is_sound m byte now_ms h =
      let line = c_string m.controller.line in
      ground (
        arith,
        receive_prompt-is_sound services m now_ms h,
        receive_body-is_sound services m byte now_ms h,
        process_line-is_sound m line now_ms h,
        is_sound-cleared (process_line services ota_start m line now_ms).controller,
        receive_char-is_sound services m byte now_ms h,
      )

  run_events-is_sound :
      (m : Machine S) (events : List Event)
      → is_sound m.controller ≡ true
      → is_sound (run_events services ota_start m events).controller ≡ true
  unfolding run_events
  run_events-is_sound m [] h = h
  run_events-is_sound m (received b now_ms ∷ events) h =
      run_events-is_sound (receive services ota_start m b now_ms) events
        (receive-is_sound m b now_ms h)
  run_events-is_sound m (ticked now_ms ∷ events) h =
      run_events-is_sound (tick services m now_ms) events (tick-is_sound services m now_ms h)

  -- From a controller that the bootloader or the application has set up, whatever the modem sends
  -- and whenever the timer ticks: the line leaves room for its zero in its buffer, no more than three
  -- retries are counted, and while a range is requested or downloaded, it is not empty, has at most
  -- 256 bytes and ends inside the package, whose size is one that fits a slot.
  pub run_events_bounds :
      (m : Machine S) (events : List Event) (config : AtConfig) (has_log : Bool) (start_ms : ℕ)
      (attached has_start : Bool) (requested : Option Version) (metadata : MetadataRecord)
      (confirmed : Bool)
      → m.controller
        ≡ set_up config has_log start_ms attached has_start requested metadata confirmed
      → let c = (run_events services ota_start m events).controller in
        (length c.line < line_size)
        × (c.retry_count ≤ max_retries)
        × (((c.state ≢ ota_range_header) × (c.state ≢ ota_download))
            ⊎ ((0 < c.ota_chunk_size)
                × (c.ota_chunk_size ≤ http_chunk_size)
                × (c.ota_offset + c.ota_chunk_size ≤ c.remote_size)
                × (c.remote_size ≤ slot_header_size + slot_payload_size)))
  run_events_bounds m events config has_log start_ms attached has_start requested metadata confirmed
        e =
      sound_bounds (run_events services ota_start m events).controller (
        run_events-is_sound m events (
          ap is_sound e
          ∙ set_up-is_sound config has_log start_ms attached has_start requested metadata
              confirmed))
