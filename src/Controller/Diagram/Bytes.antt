-- ===== src/Controller/Diagram/Bytes.antt =====
-- Every byte of the modem and every tick move the controller along the diagram.
use tm4c123gxl_ota.Base.{ℕ, ◌≡◌, arith, List, [], ◌∷◌, ◌++◌, Bool, true, false}
use tm4c123gxl_ota.Types.{Version}
use tm4c123gxl_ota.Text.{Text, c_string}
use tm4c123gxl_ota.Http.{parse_size}
use tm4c123gxl_ota.Rpc.{parse}
use tm4c123gxl_ota.Update.{Services}
use tm4c123gxl_ota.Controller.{AtState, Machine, literal, with_controller}
use tm4c123gxl_ota.Controller.Command.{cloud_failure_message, error_message}
use tm4c123gxl_ota.Controller.Retry.{tick}
use tm4c123gxl_ota.Controller.Range.{send_range_header}
use tm4c123gxl_ota.Controller.Calls.{handle_rpc}
use tm4c123gxl_ota.Controller.Lines.{process_line}
use tm4c123gxl_ota.Controller.Receive.{
  feed, receive_prompt, receive_body, begin_body, receive_char, receive_end, receive,
}
use tm4c123gxl_ota.Controller.Diagram.{
  may_move, enter_retry-state, tick-may_move, advance_state-may_move, feed-keeps,
}
use tm4c123gxl_ota.Controller.Diagram.Answers.{ok_line-may_move, size_answer-may_move}
use tm4c123gxl_ota.Controller.Diagram.Requests.{handle_request-may_move}

module _ {S : Type 0} (services : Services S) (ota_start : Version → S → Bool × S) where
  process_line-may_move :
      (m : Machine S) (line : Text) (now_ms : ℕ)
      → may_move m.controller.state (process_line services ota_start m line now_ms).controller.state
        ≡ true
  unfolding process_line handle_rpc
  process_line-may_move m line now_ms = ground (
    arith,
    size_answer-may_move services m (parse_size line) now_ms,
    handle_request-may_move ota_start m (parse line).1 now_ms,
    advance_state-may_move services m now_ms,
    enter_retry-state services m now_ms (error_message m.controller.state),
    enter_retry-state services m now_ms (literal "AT_DISCONNECTED_ONLINE"),
    ok_line-may_move services m now_ms,
  )

  receive_end-may_move :
      (m : Machine S) (now_ms : ℕ)
      → may_move m.controller.state (receive_end services ota_start m now_ms).controller.state
        ≡ true
  unfolding receive_end
  receive_end-may_move m now_ms =
      ground (arith, process_line-may_move m (c_string m.controller.line) now_ms)

  receive_prompt-may_move :
      (m : Machine S) (now_ms : ℕ)
      → may_move m.controller.state (receive_prompt services m now_ms).controller.state ≡ true
  unfolding receive_prompt send_range_header
  receive_prompt-may_move m now_ms =
      ground (arith, enter_retry-state services m now_ms (literal "OTA_RANGE_HEADER_FAILED"))

  receive_body-may_move :
      (m : Machine S) (byte now_ms : ℕ)
      → may_move m.controller.state (receive_body services m byte now_ms).controller.state ≡ true
  unfolding receive_body
  receive_body-may_move m byte now_ms =
      let fed = (feed services m (byte ∷ [])).1 in
      ground (
        arith,
        feed-keeps services m (byte ∷ []),
        enter_retry-state services
            (with_controller fed (record fed.controller { http_binary = false })) now_ms
            (cloud_failure_message fed.controller.cloud_result),
      )

  begin_body-may_move :
      (m : Machine S) (now_ms : ℕ)
      → may_move m.controller.state (begin_body services m now_ms).controller.state ≡ true
  unfolding begin_body
  begin_body-may_move m now_ms =
      let fed = (feed services m m.controller.line).1 in
      ground (
        arith,
        feed-keeps services m m.controller.line,
        enter_retry-state services (with_controller fed (record fed.controller { line = [] }))
            now_ms (literal "OTA_STREAM_FAILED"),
      )

  receive_char-may_move :
      (m : Machine S) (byte now_ms : ℕ)
      → may_move m.controller.state (receive_char services m byte now_ms).controller.state ≡ true
  unfolding receive_char
  receive_char-may_move m byte now_ms =
      let c = m.controller in
      ground (
        arith,
        begin_body-may_move (with_controller m (record c { line = c.line ++ byte ∷ [] })) now_ms,
        enter_retry-state services m now_ms (literal "AT_LINE_TOO_LONG"),
      )

  receive-may_move :
      (m : Machine S) (byte now_ms : ℕ)
      → may_move m.controller.state (receive services ota_start m byte now_ms).controller.state
        ≡ true
  unfolding receive
  receive-may_move m byte now_ms = ground (
    arith,
    receive_prompt-may_move m now_ms,
    receive_body-may_move m byte now_ms,
    receive_end-may_move m now_ms,
    receive_char-may_move m byte now_ms,
  )

-- What happens to the controller: a byte of the modem, or a tick of the timer, at a time.
pub data Event : Type 0 where
  received : ℕ → ℕ → Event
  ticked : ℕ → Event

-- From a state, each state of the list is reached from the one before it by a move of the diagram.
abbrev pub IsWalk : AtState → List AtState → Type 0
IsWalk s [] = Unit
IsWalk s (t ∷ states) = (may_move s t ≡ true) × IsWalk t states

module _ {S : Type 0} (services : Services S) (ota_start : Version → S → Bool × S) where
  unfoldable pub run_events : Machine S → List Event → Machine S
  run_events m [] = m
  run_events m (received b now_ms ∷ events) =
      run_events (receive services ota_start m b now_ms) events
  run_events m (ticked now_ms ∷ events) = run_events (tick services m now_ms) events

  -- The states after each of the events.
  unfoldable pub states_of : Machine S → List Event → List AtState
  states_of m [] = []
  states_of m (event ∷ events) =
      let after = run_events m (event ∷ []) in after.controller.state ∷ states_of after events

  -- Whatever the modem sends and whenever the timer ticks, each byte and each tick moves the
  -- controller's state by one move of the diagram from the state before it, or leaves it.
  pub states_of-IsWalk :
      (m : Machine S) (events : List Event) → IsWalk m.controller.state (states_of m events)
  unfolding states_of run_events
  states_of-IsWalk m [] = tt
  states_of-IsWalk m (received b now_ms ∷ events) =
      let after = receive services ota_start m b now_ms in
      (receive-may_move services ota_start m b now_ms, states_of-IsWalk after events)
  states_of-IsWalk m (ticked now_ms ∷ events) =
      (tick-may_move services m now_ms, states_of-IsWalk (tick services m now_ms) events)
