-- ===== src/Controller/Keeps.antt =====
-- What every request to the update leaves alone, every event of the controller leaves alone.
pub mod Events
use tm4c123gxl_ota.Base.{
  ℕ, ◌≡◌, arith, List, [], ◌∷◌, ◌++◌, Option, none, some, Option-cases, inl, inr, Bool, false, u32,
  ◌+◌,
}
use tm4c123gxl_ota.Types.{Version}
use tm4c123gxl_ota.Text.{Text}
use tm4c123gxl_ota.Http.Keeps.{stream_feed-keeps}
use tm4c123gxl_ota.Protocol.{Packet}
use tm4c123gxl_ota.CloudOta.{CloudResult, Session, write, begin, finish}
use tm4c123gxl_ota.CloudOta.Keeps.{write-keeps, finish-keeps, abort-keeps}
use tm4c123gxl_ota.Update.{Update, Services, handle}
use tm4c123gxl_ota.Controller.{
  AtState, Controller, Machine, sync, literal, with_controller, with_session, session_of,
}
use tm4c123gxl_ota.Controller.Command.{timeout_message, format_and_send, send_state_command}
use tm4c123gxl_ota.Controller.Retry.{next_state, enter_retry, tick_command, tick, advance_state}
use tm4c123gxl_ota.Controller.Range.{start_range_request, send_range_header}
use tm4c123gxl_ota.Controller.Lines.{
  size_answer, request_range, ok_cleared, ok_range, ok_chunk, ok_size, begin_download, ok_line,
}
use tm4c123gxl_ota.Controller.Receive.{cloud_data, feed}

module _ {S A : Type 0} (services : Services S) (view : Update → S → A)
    (keep : (u : Update) (s : S) (request : Packet)
      → view (handle services u s request).0 (handle services u s request).1 ≡ view u s) where
  pub enter_retry-keeps :
      (m : Machine S) (now_ms : ℕ) (reason : Text)
      → let n = enter_retry services m now_ms reason in
        view n.update n.store ≡ view m.update m.store
  unfolding enter_retry
  enter_retry-keeps m now_ms reason =
      ground (arith, abort-keeps services view keep m.cloud m.update m.store)

  send_state_command-keeps :
      (m : Machine S)
      → let n = (send_state_command m).1 in view n.update n.store ≡ view m.update m.store
  unfolding send_state_command format_and_send
  send_state_command-keeps m = ground arith

  tick_command-keeps :
      (m : Machine S) (now_ms : ℕ)
      → let n = tick_command services m now_ms in view n.update n.store ≡ view m.update m.store
  unfolding tick_command
  tick_command-keeps m now_ms = ground (
    arith,
    send_state_command-keeps m,
    enter_retry-keeps m now_ms (timeout_message m.controller.state),
    enter_retry-keeps (send_state_command m).1 now_ms (literal "AT_COMMAND_FAILED"),
  )

  pub tick-keeps :
      (m : Machine S) (now_ms : ℕ)
      → let n = tick services m now_ms in view n.update n.store ≡ view m.update m.store
  unfolding tick
  tick-keeps m now_ms =
      let c = m.controller in
      ground (
        arith,
        tick_command-keeps m now_ms,
        tick_command-keeps
            (with_controller m
              (record c { state = sync; command_sent = false; state_started_ms = now_ms }))
            now_ms,
      )

  pub advance_state-keeps :
      (m : Machine S) (now_ms : ℕ)
      → let n = advance_state services m now_ms in view n.update n.store ≡ view m.update m.store
  unfolding advance_state
  advance_state-keeps m now_ms =
      let c = m.controller in
      ground (
        arith,
        tick-keeps
            (with_controller m (record c {
              state = next_state c.state;
              command_sent = false;
              state_started_ms = now_ms;
            }))
            now_ms,
      )

  request_range-keeps :
      (m : Machine S) (now_ms : ℕ)
      → let n = request_range services m now_ms in view n.update n.store ≡ view m.update m.store
  unfolding request_range start_range_request
  request_range-keeps m now_ms =
      ground (arith, enter_retry-keeps m now_ms (literal "OTA_RANGE_COMMAND_FAILED"))

  ok_cleared-keeps :
      (m : Machine S) (now_ms : ℕ)
      → let n = ok_cleared services m now_ms in view n.update n.store ≡ view m.update m.store
  unfolding ok_cleared
  ok_cleared-keeps m now_ms =
      ground (arith, enter_retry-keeps m now_ms (literal "OTA_SIZE_COMMAND_FAILED"))

  ok_range-keeps :
      (m : Machine S) (now_ms : ℕ)
      → let n = ok_range services m now_ms in view n.update n.store ≡ view m.update m.store
  unfolding ok_range
  ok_range-keeps m now_ms =
      ground (arith, enter_retry-keeps m now_ms (literal "OTA_BODY_COMMAND_FAILED"))

  ok_chunk-keeps :
      (m : Machine S) (now_ms : ℕ)
      → let n = ok_chunk services m now_ms in view n.update n.store ≡ view m.update m.store
  unfolding ok_chunk
  ok_chunk-keeps m now_ms =
      let c = m.controller in
      let moved =
        with_controller m (record c { ota_offset = u32 (c.ota_offset + c.ota_chunk_size) }) in
      let finished = with_session moved (finish services (session_of moved)).1 in
      ground (
        arith,
        finish-keeps services view keep m.cloud m.update m.store,
        request_range-keeps moved now_ms,
        enter_retry-keeps finished now_ms (literal "OTA_VERIFY_FAILED"),
      )

  ok_size-keeps :
      (m : Machine S) (now_ms : ℕ)
      → let n = ok_size services m now_ms in view n.update n.store ≡ view m.update m.store
  unfolding ok_size
  ok_size-keeps m now_ms = ground (
    arith,
    request_range-keeps (with_controller m (record m.controller { ota_body_pending = false }))
        now_ms,
  )

  pub ok_line-keeps :
      (m : Machine S) (now_ms : ℕ)
      → let n = ok_line services m now_ms in view n.update n.store ≡ view m.update m.store
  unfolding ok_line
  ok_line-keeps m now_ms = ground (
    arith,
    ok_size-keeps m now_ms,
    ok_cleared-keeps m now_ms,
    ok_range-keeps m now_ms,
    ok_chunk-keeps m now_ms,
    advance_state-keeps m now_ms,
  )

  begin_download-keeps :
      (m : Machine S) (remote_size now_ms : ℕ)
      → let n = begin_download services m remote_size now_ms in
        view n.update n.store ≡ view m.update m.store
  unfolding begin_download
  begin_download-keeps m remote_size now_ms = ground (
    arith,
    enter_retry-keeps m now_ms (literal "OTA_SIZE_REJECTED"),
    enter_retry-keeps (record m { cloud = (begin remote_size m.controller.requested_version).1 })
        now_ms (literal "OTA_SIZE_REJECTED"),
  )

  pub size_answer-keeps :
      (m : Machine S) (answer : Option ℕ) (now_ms : ℕ)
      → let n = size_answer services m answer now_ms in
        view n.update n.store ≡ view m.update m.store
  unfolding size_answer
  size_answer-keeps m none now_ms = enter_retry-keeps m now_ms (literal "OTA_SIZE_REJECTED")
  size_answer-keeps m (some remote_size) now_ms = begin_download-keeps m remote_size now_ms

  cloud_data-keeps :
      (m : Machine S) (b : List ℕ)
      → let n = (cloud_data services m b).1 in view n.update n.store ≡ view m.update m.store
  unfolding cloud_data
  cloud_data-keeps m b = elim (Option-cases (write services (session_of m) b)) [
    | inl gone ↦ ground arith
    | inr ((result, after), e) ↦
        ground (arith, write-keeps services view keep m.cloud m.update m.store b result after e)
  ]

  pub feed-keeps :
      (m : Machine S) (b : List ℕ)
      → let n = (feed services m b).1 in view n.update n.store ≡ view m.update m.store
  unfolding feed
  feed-keeps m b =
      stream_feed-keeps (λ (n : Machine S). view n.update n.store) (cloud_data services)
        m.controller.http_stream m b (cloud_data-keeps m)
