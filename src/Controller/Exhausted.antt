-- ===== src/Controller/Exhausted.antt =====
-- A controller that has used up its retries stays in the RETRY state.
use tm4c123gxl_ota.Base.{ℕ, ◌≡◌, arith, List, [], ◌∷◌, Bool, true, false, ◌&&◌, not, leb}
use tm4c123gxl_ota.Config.{max_retries}
use tm4c123gxl_ota.Types.{Version}
use tm4c123gxl_ota.Text.{Text, c_string}
use tm4c123gxl_ota.Http.Keeps.{stream_feed-keeps}
use tm4c123gxl_ota.Update.{Services}
use tm4c123gxl_ota.Controller.{Controller, Machine, retry, is_state, literal, with_controller}
use tm4c123gxl_ota.Controller.Command.{cloud_failure_message, error_message}
use tm4c123gxl_ota.Controller.Retry.{enter_retry, tick}
use tm4c123gxl_ota.Controller.Lines.{process_line}
use tm4c123gxl_ota.Controller.Receive.{
  cloud_data, feed, receive_body, receive_char, receive_end, receive,
}
use tm4c123gxl_ota.Controller.Diagram.Bytes.{Event, received, ticked, run_events}

-- In RETRY, with no command sent and no retry left.
abbrev pub is_exhausted : Controller → Bool
is_exhausted c = is_state c.state retry && not c.command_sent && leb max_retries c.retry_count

module _ {S : Type 0} (services : Services S) where
  enter_retry-is_exhausted :
      (m : Machine S) (now_ms : ℕ) (reason : Text)
      → leb max_retries m.controller.retry_count ≡ true
      → is_exhausted (enter_retry services m now_ms reason).controller ≡ true
  unfolding enter_retry
  enter_retry-is_exhausted m now_ms reason h = ground arith

  cloud_data-is_exhausted :
      (m : Machine S) (b : List ℕ)
      → is_exhausted (cloud_data services m b).1.controller ≡ is_exhausted m.controller
  unfolding cloud_data
  cloud_data-is_exhausted m b = ground arith

  feed-is_exhausted :
      (m : Machine S) (b : List ℕ)
      → is_exhausted (feed services m b).1.controller ≡ is_exhausted m.controller
  unfolding feed
  feed-is_exhausted m b =
      stream_feed-keeps (λ (n : Machine S). is_exhausted n.controller) (cloud_data services)
        m.controller.http_stream m b (cloud_data-is_exhausted m)

  receive_body-is_exhausted :
      (m : Machine S) (b now_ms : ℕ)
      → is_exhausted m.controller ≡ true
      → is_exhausted (receive_body services m b now_ms).controller ≡ true
  unfolding receive_body
  receive_body-is_exhausted m b now_ms h =
      let fed = (feed services m (b ∷ [])).1 in
      ground (
        arith,
        feed-is_exhausted m (b ∷ []),
        enter_retry-is_exhausted
            (with_controller fed (record fed.controller { http_binary = false })) now_ms
            (cloud_failure_message fed.controller.cloud_result),
      )

  receive_char-is_exhausted :
      (m : Machine S) (b now_ms : ℕ)
      → is_exhausted m.controller ≡ true
      → is_exhausted (receive_char services m b now_ms).controller ≡ true
  unfolding receive_char
  receive_char-is_exhausted m b now_ms h =
      ground (arith, enter_retry-is_exhausted m now_ms (literal "AT_LINE_TOO_LONG"))

module _ {S : Type 0} (services : Services S) (ota_start : Version → S → Bool × S) where
  process_line-is_exhausted :
      (m : Machine S) (line : Text) (now_ms : ℕ)
      → is_exhausted m.controller ≡ true
      → is_exhausted (process_line services ota_start m line now_ms).controller ≡ true
  unfolding process_line
  process_line-is_exhausted m line now_ms h =
      ground (arith, enter_retry-is_exhausted services m now_ms (error_message m.controller.state))

  receive-is_exhausted :
      (m : Machine S) (b now_ms : ℕ)
      → is_exhausted m.controller ≡ true
      → is_exhausted (receive services ota_start m b now_ms).controller ≡ true
  unfolding receive receive_end
  receive-is_exhausted m b now_ms h = ground (
    arith,
    receive_body-is_exhausted services m b now_ms h,
    process_line-is_exhausted m (c_string m.controller.line) now_ms h,
    receive_char-is_exhausted services m b now_ms h,
  )

  tick-exhausted :
      (m : Machine S) (now_ms : ℕ) → is_exhausted m.controller ≡ true → tick services m now_ms ≡ m
  unfolding tick
  tick-exhausted m now_ms h = ground arith

  -- Once the third failure has brought the controller to RETRY, nothing that the modem sends and no
  -- tick of the timer brings it out again: it stays in RETRY, with no command sent.
  pub run_events-is_exhausted :
      (m : Machine S) (events : List Event)
      → is_exhausted m.controller ≡ true
      → is_exhausted (run_events services ota_start m events).controller ≡ true
  unfolding run_events
  run_events-is_exhausted m [] h = h
  run_events-is_exhausted m (received b now_ms ∷ events) h =
      run_events-is_exhausted (receive services ota_start m b now_ms) events
        (receive-is_exhausted m b now_ms h)
  run_events-is_exhausted m (ticked now_ms ∷ events) h =
      run_events-is_exhausted (tick services m now_ms) events
        (ground (arith, tick-exhausted m now_ms h))
