-- ===== src/Controller/Keeps/Events.antt =====
-- Every byte of the modem and every tick leave alone what every request to the update leaves alone.
use tm4c123gxl_ota.Base.{
  ℕ, ◌≡◌, refl, arith, List, [], ◌∷◌, ◌++◌, Option, none, some, Bool, false, ◌∙◌,
}
use tm4c123gxl_ota.Types.{Version}
use tm4c123gxl_ota.Text.{Text, c_string}
use tm4c123gxl_ota.Http.{parse_size}
use tm4c123gxl_ota.Rpc.{RpcRequest, parse}
use tm4c123gxl_ota.Protocol.{Packet}
use tm4c123gxl_ota.Update.{Update, Services, handle}
use tm4c123gxl_ota.Controller.{Machine, literal, with_controller}
use tm4c123gxl_ota.Controller.Command.{cloud_failure_message, error_message}
use tm4c123gxl_ota.Controller.Retry.{tick}
use tm4c123gxl_ota.Controller.Range.{send_range_header}
use tm4c123gxl_ota.Controller.Calls.{
  respond, begin_ota, handle_start_ota, handle_request, handle_rpc,
}
use tm4c123gxl_ota.Controller.Lines.{process_line}
use tm4c123gxl_ota.Controller.Receive.{
  feed, receive_prompt, receive_body, begin_body, receive_char, receive_end, receive,
}
use tm4c123gxl_ota.Controller.Diagram.Bytes.{Event, received, ticked, run_events}
use tm4c123gxl_ota.Controller.Keeps.{
  enter_retry-keeps, tick-keeps, advance_state-keeps, ok_line-keeps, size_answer-keeps, feed-keeps,
}

module _ {S A : Type 0} (services : Services S) (view : Update → S → A)
    (keep : (u : Update) (s : S) (request : Packet)
      → view (handle services u s request).0 (handle services u s request).1 ≡ view u s) where
  receive_prompt-keeps :
      (m : Machine S) (now_ms : ℕ)
      → let n = receive_prompt services m now_ms in view n.update n.store ≡ view m.update m.store
  unfolding receive_prompt send_range_header
  receive_prompt-keeps m now_ms =
      ground
        (arith, enter_retry-keeps services view keep m now_ms (literal "OTA_RANGE_HEADER_FAILED"))

  receive_body-keeps :
      (m : Machine S) (b now_ms : ℕ)
      → let n = receive_body services m b now_ms in view n.update n.store ≡ view m.update m.store
  unfolding receive_body
  receive_body-keeps m b now_ms =
      let fed = (feed services m (b ∷ [])).1 in
      ground (
        arith,
        feed-keeps services view keep m (b ∷ []),
        enter_retry-keeps services view keep
            (with_controller fed (record fed.controller { http_binary = false })) now_ms
            (cloud_failure_message fed.controller.cloud_result),
      )

  begin_body-keeps :
      (m : Machine S) (now_ms : ℕ)
      → let n = begin_body services m now_ms in view n.update n.store ≡ view m.update m.store
  unfolding begin_body
  begin_body-keeps m now_ms =
      let fed = (feed services m m.controller.line).1 in
      ground (
        arith,
        feed-keeps services view keep m m.controller.line,
        enter_retry-keeps services view keep
            (with_controller fed (record fed.controller { line = [] })) now_ms
            (literal "OTA_STREAM_FAILED"),
      )

  receive_char-keeps :
      (m : Machine S) (b now_ms : ℕ)
      → let n = receive_char services m b now_ms in view n.update n.store ≡ view m.update m.store
  unfolding receive_char
  receive_char-keeps m b now_ms =
      let c = m.controller in
      ground (
        arith,
        begin_body-keeps (with_controller m (record c { line = c.line ++ b ∷ [] })) now_ms,
        enter_retry-keeps services view keep m now_ms (literal "AT_LINE_TOO_LONG"),
      )

  module _ (ota_start : Version → S → Bool × S)
      (start : (v : Version) (u : Update) (s : S) → view u (ota_start v s).1 ≡ view u s) where
    handle_request-keeps :
        (m : Machine S) (request : Option RpcRequest) (now_ms : ℕ)
        → let n = handle_request ota_start m request now_ms in
          view n.update n.store ≡ view m.update m.store
    unfolding handle_request handle_start_ota begin_ota respond
    handle_request-keeps m none now_ms = ground arith
    handle_request-keeps m (some request) now_ms =
        ground (arith, start request.version m.update m.store)

    process_line-keeps :
        (m : Machine S) (line : Text) (now_ms : ℕ)
        → let n = process_line services ota_start m line now_ms in
          view n.update n.store ≡ view m.update m.store
    unfolding process_line handle_rpc
    process_line-keeps m line now_ms = ground (
      arith,
      size_answer-keeps services view keep m (parse_size line) now_ms,
      handle_request-keeps m (parse line).1 now_ms,
      advance_state-keeps services view keep m now_ms,
      enter_retry-keeps services view keep m now_ms (error_message m.controller.state),
      enter_retry-keeps services view keep m now_ms (literal "AT_DISCONNECTED_ONLINE"),
      ok_line-keeps services view keep m now_ms,
    )

    pub receive-keeps :
        (m : Machine S) (b now_ms : ℕ)
        → let n = receive services ota_start m b now_ms in
          view n.update n.store ≡ view m.update m.store
    unfolding receive receive_end
    receive-keeps m b now_ms = ground (
      arith,
      receive_prompt-keeps m now_ms,
      receive_body-keeps m b now_ms,
      process_line-keeps m (c_string m.controller.line) now_ms,
      receive_char-keeps m b now_ms,
    )

    -- Whatever the modem sends and whenever the timer ticks, what every request to the update and
    -- the callback leave alone is as before.
    pub run_events-keeps :
        (m : Machine S) (events : List Event)
        → let n = run_events services ota_start m events in
          view n.update n.store ≡ view m.update m.store
    unfolding run_events
    run_events-keeps m [] = refl
    run_events-keeps m (received b now_ms ∷ events) =
        run_events-keeps (receive services ota_start m b now_ms) events ∙ receive-keeps m b now_ms
    run_events-keeps m (ticked now_ms ∷ events) =
        run_events-keeps (tick services m now_ms) events ∙ tick-keeps services view keep m now_ms
