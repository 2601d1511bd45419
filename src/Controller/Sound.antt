-- ===== src/Controller/Sound.antt =====
-- The bounds of the controller's fields, which every event keeps.
pub mod Answers
pub mod Events
pub mod Runs
use tm4c123gxl_ota.Base.{
  ℕ, zero, suc, ◌+◌, ◌-◌, ◌*◌, ◌^◌, ◌≤◌, ◌<◌, ◌≡◌, ◌≢◌, ◌⊎◌, inl, inr, refl, sym, ap, ◌∙◌, arith,
  List, [], ◌∷◌, ◌++◌, Option, none, some, Bool, true, false, not, ◌&&◌, ◌||◌, length,
  length-append, if◌then◌else◌, ltb, leb, ◌==◌, ◌!=◌, sub32, u32,
}
use tm4c123gxl_ota.Config.{slot_header_size, slot_payload_size, max_retries}
use tm4c123gxl_ota.Types.{Version}
use tm4c123gxl_ota.Text.{Text}
use tm4c123gxl_ota.Http.{parse_size}
use tm4c123gxl_ota.Http.Keeps.{stream_feed-keeps}
use tm4c123gxl_ota.CloudOta.{CloudResult, begin, write, finish}
use tm4c123gxl_ota.Update.{Services}
use tm4c123gxl_ota.Controller.{
  AtState, online, ota_clear_header, Controller, Machine, ota_range_header, ota_download, sync,
  literal, line_size, is_state, state_code, mqtt_announce, with_controller, with_session,
  session_of, zero_stream,
}
use tm4c123gxl_ota.Controller.Command.{timeout_message, send_state_command, format_and_send}
use tm4c123gxl_ota.Controller.Retry.{next_state, enter_retry, tick_command, tick, advance_state}
use tm4c123gxl_ota.Controller.Range.{next_chunk_size, start_range_request}
use tm4c123gxl_ota.Controller.Diagram.{send_state_command-keeps}
use tm4c123gxl_ota.Controller.Chunks.{next_chunk_size_lem}
use tm4c123gxl_ota.Controller.Lines.{
  request_range, ok_cleared, ok_range, ok_chunk, ok_size, ok_line, begin_download, size_answer,
}
use tm4c123gxl_ota.Controller.Receive.{cloud_data, feed}

-- A package that `cloud_ota_begin` accepts.
abbrev pub is_package_size : ℕ → Bool
is_package_size n = ltb slot_header_size n && leb n (slot_header_size + slot_payload_size)

abbrev pub is_ranging : AtState → Bool
is_ranging s = is_state s ota_range_header || is_state s ota_download

-- The range at hand is the next one of the package, and none is due besides.
abbrev pub is_range : Controller → Bool
is_range c =
    is_package_size c.remote_size
    && not c.ota_body_pending
    && ltb c.ota_offset c.remote_size
    && (c.ota_chunk_size == next_chunk_size c.remote_size c.ota_offset)

-- The line leaves room for its zero in the buffer, no more than three retries are counted, and a
-- package whose ranges are due is at its start and has an accepted size.
unfoldable pub is_bounded : Controller → Bool
is_bounded c =
    ltb (length c.line) line_size
    && leb c.retry_count max_retries
    && (not c.ota_body_pending || (is_package_size c.remote_size && (c.ota_offset == 0)))

-- Besides, in the states of a range the range is the next one of a package of an accepted size.
unfoldable pub is_sound : Controller → Bool
unfolding is_bounded
is_sound c = is_bounded c && (not (is_ranging c.state) || is_range c)

pub is_sound-is_bounded : (c : Controller) → is_sound c ≡ true → is_bounded c ≡ true
unfolding is_sound
is_sound-is_bounded c h = ground arith

is_sound-sent :
    (c : Controller) (now_ms : ℕ)
    → is_sound (record c { command_sent = true; state_started_ms = now_ms }) ≡ is_sound c
unfolding is_sound
is_sound-sent c now_ms = refl

is_sound-restarted :
    (c : Controller) (now_ms : ℕ)
    → is_sound c ≡ true
    → is_sound (record c { state = sync; command_sent = false; state_started_ms = now_ms }) ≡ true
unfolding is_sound
is_sound-restarted c now_ms h = ground arith

is_sound-next :
    (c : Controller) (now_ms : ℕ)
    → ltb (state_code c.state) (state_code mqtt_announce) ≡ true
    → is_sound c ≡ true
    → is_sound
        (record c { state = next_state c.state; command_sent = false; state_started_ms = now_ms })
      ≡ true
unfolding is_sound
is_sound-next c now_ms e h = ground arith

is_sound-announced :
    (c : Controller) (now_ms : ℕ)
    → is_sound c ≡ true
    → (is_sound (record c {
      state = ota_clear_header;
      command_sent = true;
      state_started_ms = now_ms;
      ota_size_pending = false;
      ota_body_pending = false;
      ota_error_pending = 0;
    })
        ≡ true)
      × (is_sound (record c {
        state = online;
        command_sent = false;
        state_started_ms = now_ms;
        retry_count = 0;
      })
          ≡ true)
unfolding is_sound
is_sound-announced c now_ms h = ground arith

module _ {S : Type 0} (services : Services S) where
  pub enter_retry-is_sound :
      (m : Machine S) (now_ms : ℕ) (reason : Text)
      → is_bounded m.controller ≡ true
      → is_sound (enter_retry services m now_ms reason).controller ≡ true
  unfolding enter_retry is_sound
  enter_retry-is_sound m now_ms reason h = ground arith

  tick_command-is_sound :
      (m : Machine S) (now_ms : ℕ)
      → is_sound m.controller ≡ true
      → is_sound (tick_command services m now_ms).controller ≡ true
  unfolding tick_command
  tick_command-is_sound m now_ms h = ground (
    arith,
    is_sound-is_bounded m.controller,
    send_state_command-keeps services m,
    is_sound-sent m.controller now_ms,
    enter_retry-is_sound m now_ms (timeout_message m.controller.state),
    enter_retry-is_sound (send_state_command m).1 now_ms (literal "AT_COMMAND_FAILED"),
  )

  pub tick-is_sound :
      (m : Machine S) (now_ms : ℕ)
      → is_sound m.controller ≡ true
      → is_sound (tick services m now_ms).controller ≡ true
  unfolding tick
  tick-is_sound m now_ms h =
      let c = m.controller in
      ground (
        arith,
        is_sound-restarted c now_ms,
        tick_command-is_sound m now_ms,
        tick_command-is_sound
            (with_controller m
              (record c { state = sync; command_sent = false; state_started_ms = now_ms }))
            now_ms,
      )

  pub advance_state-is_sound :
      (m : Machine S) (now_ms : ℕ)
      → is_sound m.controller ≡ true
      → is_sound (advance_state services m now_ms).controller ≡ true
  unfolding advance_state
  advance_state-is_sound m now_ms h =
      let c = m.controller in
      ground (
        arith,
        is_sound-next c now_ms,
        is_sound-announced c now_ms,
        tick-is_sound
            (with_controller m (record c {
              state = next_state c.state;
              command_sent = false;
              state_started_ms = now_ms;
            }))
            now_ms,
      )
