-- ===== src/Controller/Diagram.antt =====
-- The diagram of the controller's states, which the timer and the setup follow.
pub mod Answers
pub mod Requests
pub mod Bytes
use tm4c123gxl_ota.Base.{
  ℕ, zero, suc, ◌+◌, ◌-◌, ◌*◌, ◌^◌, ◌≤◌, ◌<◌, ◌≡◌, ◌≢◌, ◌⊎◌, inl, inr, refl, sym, ap, ◌∙◌, arith,
  List, [], ◌∷◌, ◌++◌, Option, none, some, Bool, true, false, not, ◌&&◌, ◌||◌, length,
  if◌then◌else◌, ltb, leb, ◌==◌, ◌!=◌, sub32, u32, subst,
}
use tm4c123gxl_ota.Types.{Version}
use tm4c123gxl_ota.Text.{Text, c_string}
use tm4c123gxl_ota.Http.{parse_size}
use tm4c123gxl_ota.Http.Keeps.{stream_feed-keeps}
use tm4c123gxl_ota.CloudOta.{CloudResult, write, begin, finish}
use tm4c123gxl_ota.Rpc.{RpcRequest, parse, start_ota, get_info}
use tm4c123gxl_ota.Update.{Services}
use tm4c123gxl_ota.Controller.{
  AtState, Controller, Machine, sync, echo_off, syslog, wifi_mode, wifi_join, mqtt_clean,
  mqtt_config, mqtt_connect, mqtt_subscribe, mqtt_announce, online, ota_clear_header, ota_size,
  ota_range_header, ota_download, retry, state_code, is_state, literal, with_controller,
  with_session, session_of,
}
use tm4c123gxl_ota.Controller.Command.{
  timeout_message, cloud_failure_message, error_message, format_and_send, send_state_command,
}
use tm4c123gxl_ota.Controller.Retry.{next_state, enter_retry, tick_command, tick, advance_state}
use tm4c123gxl_ota.Controller.Range.{start_range_request, send_range_header}
use tm4c123gxl_ota.Controller.Calls.{
  built, respond, begin_ota, handle_start_ota, handle_request, handle_rpc, prepare_ota_request,
}
use tm4c123gxl_ota.Controller.Lines.{
  size_answer, request_range, ok_cleared, ok_range, ok_chunk, ok_size, begin_download, ok_line,
  process_line,
}
use tm4c123gxl_ota.Controller.Receive.{
  cloud_data, feed, receive_prompt, receive_body, receive_char, receive_end, receive,
}

-- The diagram of the states: staying, failing into RETRY, which restarts at SYNC, the setup in the
-- order of the enumeration up to the announcement, from there ONLINE or, for a pending update, the
-- download, and the states of a download in their order.
abbrev pub may_move : AtState → AtState → Bool
may_move s t =
    is_state s t
    || is_state t retry
    || (is_state s retry && is_state t sync)
    || (ltb (state_code s) (state_code mqtt_announce) && (state_code t == state_code s + 1))
    || (is_state s mqtt_announce && (is_state t online || is_state t ota_clear_header))
    || (is_state s online && is_state t ota_size)
    || (is_state s ota_size && (is_state t ota_clear_header || is_state t ota_range_header))
    || (is_state s ota_clear_header && is_state t ota_size)
    || (is_state s ota_range_header && is_state t ota_download)
    || (is_state s ota_download && (is_state t ota_range_header || is_state t online))

module _ {S : Type 0} (services : Services S) where
  pub send_state_command-keeps :
      (m : Machine S) → (send_state_command m).1.controller ≡ m.controller
  unfolding send_state_command format_and_send
  send_state_command-keeps m = ground arith

  pub enter_retry-state :
      (m : Machine S) (now_ms : ℕ) (reason : Text)
      → (enter_retry services m now_ms reason).controller.state ≡ retry
  unfolding enter_retry
  enter_retry-state m now_ms reason = ground arith

  tick_command-state :
      (m : Machine S) (now_ms : ℕ)
      → ((tick_command services m now_ms).controller.state ≡ m.controller.state)
        ⊎ ((tick_command services m now_ms).controller.state ≡ retry)
  unfolding tick_command
  tick_command-state m now_ms = ground (
    arith,
    send_state_command-keeps m,
    enter_retry-state m now_ms (timeout_message m.controller.state),
    enter_retry-state (send_state_command m).1 now_ms (literal "AT_COMMAND_FAILED"),
  )

  pub tick-may_move :
      (m : Machine S) (now_ms : ℕ)
      → may_move m.controller.state (tick services m now_ms).controller.state ≡ true
  unfolding tick
  tick-may_move m now_ms =
      let c = m.controller in
      ground (
        arith,
        tick_command-state m now_ms,
        tick_command-state
            (with_controller m
              (record c { state = sync; command_sent = false; state_started_ms = now_ms }))
            now_ms,
      )

  tick-setup :
      (m : Machine S) (now_ms : ℕ)
      → is_state m.controller.state retry ≡ false
      → ((tick services m now_ms).controller.state ≡ m.controller.state)
        ⊎ ((tick services m now_ms).controller.state ≡ retry)
  unfolding tick
  tick-setup m now_ms h = ground (arith, tick_command-state m now_ms)

  pub advance_state-may_move :
      (m : Machine S) (now_ms : ℕ)
      → may_move m.controller.state (advance_state services m now_ms).controller.state ≡ true
  unfolding advance_state
  advance_state-may_move m now_ms =
      let c = m.controller in
      ground (
        arith,
        tick-setup
            (with_controller m (record c {
              state = next_state c.state;
              command_sent = false;
              state_started_ms = now_ms;
            }))
            now_ms,
      )

  cloud_data-keeps :
      (m : Machine S) (b : List ℕ)
      → (cloud_data services m b).1.controller.state ≡ m.controller.state
  unfolding cloud_data
  cloud_data-keeps m b = ground arith

  pub feed-keeps :
      (m : Machine S) (b : List ℕ) → (feed services m b).1.controller.state ≡ m.controller.state
  unfolding feed
  feed-keeps m b =
      stream_feed-keeps (λ (n : Machine S). n.controller.state) (cloud_data services)
        m.controller.http_stream m b (cloud_data-keeps m)
