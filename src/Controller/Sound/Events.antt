-- ===== src/Controller/Sound/Events.antt =====
-- The parts of a byte's and of a request's work keep the bounds of the controller's fields.
use tm4c123gxl_ota.Base.{
  ℕ, ◌+◌, ◌≡◌, arith, List, [], ◌∷◌, ◌++◌, Option, none, some, Bool, true, false, length,
  if◌then◌else◌, leb,
}
use tm4c123gxl_ota.Types.{Version}
use tm4c123gxl_ota.Http.Keeps.{stream_feed-keeps}
use tm4c123gxl_ota.Rpc.{RpcRequest}
use tm4c123gxl_ota.Update.{Services}
use tm4c123gxl_ota.Controller.{Controller, Machine, ota_size, literal, with_controller}
use tm4c123gxl_ota.Controller.Command.{cloud_failure_message}
use tm4c123gxl_ota.Controller.Range.{send_range_header}
use tm4c123gxl_ota.Controller.Calls.{
  respond, begin_ota, handle_start_ota, handle_request, prepare_ota_request,
}
use tm4c123gxl_ota.Controller.Receive.{
  cloud_data, feed, receive_prompt, receive_body, begin_body, receive_char,
}
use tm4c123gxl_ota.Base.{length-append}
use tm4c123gxl_ota.Controller.{line_size}
use tm4c123gxl_ota.Controller.Diagram.Requests.{respond-keeps}
use tm4c123gxl_ota.Controller.Sound.{is_sound, is_sound-is_bounded, enter_retry-is_sound}

pub prepare_ota_request-is_sound :
    (c : Controller) (version : Version) → is_sound (prepare_ota_request c version).1 ≡ is_sound c
unfolding prepare_ota_request is_sound
prepare_ota_request-is_sound c version = ground arith

is_sound-requested :
    (c : Controller) (now_ms : ℕ)
    → is_sound c ≡ true
    → is_sound (record c {
      state = ota_size;
      state_started_ms = now_ms;
      command_sent = true;
      ota_size_pending = true;
      ota_telemetry_pending = true;
      ota_requested = true;
    })
      ≡ true
unfolding is_sound
is_sound-requested c now_ms h = ground arith

-- What the receiver changes besides.
is_sound-stored :
    (c : Controller) (byte : ℕ)
    → leb line_size (length c.line + 1) ≡ false
    → is_sound c ≡ true
    → is_sound (record c { line = c.line ++ byte ∷ [] }) ≡ true
unfolding is_sound
is_sound-stored c byte l h = ground (arith, length-append c.line (byte ∷ []))

is_sound-flags :
    (c : Controller) (now_ms stage : ℕ)
    → is_sound c ≡ true
    → (is_sound (record c { range_header_stage = stage; state_started_ms = now_ms }) ≡ true)
      × (is_sound (record c { http_binary = false }) ≡ true)
      × (is_sound
            (record c { http_binary = false; ota_chunk_complete = true; state_started_ms = now_ms })
          ≡ true)
      × (is_sound (record c { line = []; http_binary = true }) ≡ true)
unfolding is_sound
is_sound-flags c now_ms stage h = ground arith

pub is_sound-cleared :
    (c : Controller) → is_sound c ≡ true → is_sound (record c { line = [] }) ≡ true
unfolding is_sound
is_sound-cleared c h = ground arith

module _ {S : Type 0} where
  begin_ota-is_sound :
      (m : Machine S) (request : RpcRequest) (now_ms : ℕ)
      → is_sound m.controller ≡ true
      → is_sound (begin_ota m request now_ms).controller ≡ true
  unfolding begin_ota respond
  begin_ota-is_sound m request now_ms h = ground (
    arith,
    prepare_ota_request-is_sound m.controller request.version,
    is_sound-requested (prepare_ota_request m.controller request.version).1 now_ms,
  )

  pub handle_request-is_sound :
      (ota_start : Version → S → Bool × S) (m : Machine S) (request : Option RpcRequest)
      (now_ms : ℕ)
      → is_sound m.controller ≡ true
      → is_sound (handle_request ota_start m request now_ms).controller ≡ true
  unfolding handle_request handle_start_ota
  handle_request-is_sound ota_start m none now_ms h = ground arith
  handle_request-is_sound ota_start m (some request) now_ms h =
      let (accepted, store) =
        if m.controller.has_ota_start then ota_start request.version m.store else (true, m.store) in
      let called = record m { store = store } in
      ground (
        arith,
        begin_ota-is_sound called request now_ms,
        respond-keeps called request,
        respond-keeps m request,
      )

module _ {S : Type 0} (services : Services S) where
  cloud_data-is_sound :
      (m : Machine S) (b : List ℕ)
      → is_sound (cloud_data services m b).1.controller ≡ is_sound m.controller
  unfolding cloud_data is_sound
  cloud_data-is_sound m b = ground arith

  feed-is_sound :
      (m : Machine S) (b : List ℕ)
      → is_sound (feed services m b).1.controller ≡ is_sound m.controller
  unfolding feed is_sound
  feed-is_sound m b =
      stream_feed-keeps (λ (n : Machine S). is_sound n.controller) (cloud_data services)
        m.controller.http_stream m b (cloud_data-is_sound m)

  pub receive_body-is_sound :
      (m : Machine S) (byte now_ms : ℕ)
      → is_sound m.controller ≡ true
      → is_sound (receive_body services m byte now_ms).controller ≡ true
  unfolding receive_body
  receive_body-is_sound m byte now_ms h =
      let fed = (feed services m (byte ∷ [])).1 in
      let plain = with_controller fed (record fed.controller { http_binary = false }) in
      ground (
        arith,
        feed-is_sound m (byte ∷ []),
        is_sound-flags fed.controller now_ms 0,
        is_sound-is_bounded plain.controller,
        enter_retry-is_sound services plain now_ms
            (cloud_failure_message fed.controller.cloud_result),
      )

  begin_body-is_sound :
      (m : Machine S) (now_ms : ℕ)
      → is_sound m.controller ≡ true
      → is_sound (begin_body services m now_ms).controller ≡ true
  unfolding begin_body
  begin_body-is_sound m now_ms h =
      let fed = (feed services m m.controller.line).1 in
      let plain = with_controller fed (record fed.controller { line = [] }) in
      ground (
        arith,
        feed-is_sound m m.controller.line,
        is_sound-flags fed.controller now_ms 0,
        is_sound-cleared fed.controller,
        is_sound-is_bounded plain.controller,
        enter_retry-is_sound services plain now_ms (literal "OTA_STREAM_FAILED"),
      )

  pub receive_char-is_sound :
      (m : Machine S) (byte now_ms : ℕ)
      → is_sound m.controller ≡ true
      → is_sound (receive_char services m byte now_ms).controller ≡ true
  unfolding receive_char
  receive_char-is_sound m byte now_ms h =
      let c = m.controller in
      ground (
        arith,
        is_sound-is_bounded c h,
        is_sound-stored c byte,
        begin_body-is_sound (with_controller m (record c { line = c.line ++ byte ∷ [] })) now_ms,
        enter_retry-is_sound services m now_ms (literal "AT_LINE_TOO_LONG"),
      )

  pub receive_prompt-is_sound :
      (m : Machine S) (now_ms : ℕ)
      → is_sound m.controller ≡ true
      → is_sound (receive_prompt services m now_ms).controller ≡ true
  unfolding receive_prompt send_range_header
  receive_prompt-is_sound m now_ms h = ground (
    arith,
    is_sound-is_bounded m.controller h,
    is_sound-flags m.controller now_ms 2,
    enter_retry-is_sound services m now_ms (literal "OTA_RANGE_HEADER_FAILED"),
  )
