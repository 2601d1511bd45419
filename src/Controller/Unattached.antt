-- ===== src/Controller/Unattached.antt =====
-- A controller without an update and without a callback, as the bridge runs it, downloads nothing.
use tm4c123gxl_ota.Base.{
  ℕ, ◌≡◌, ◌≢◌, refl, arith, List, [], ◌∷◌, ◌++◌, Option, none, some, Bool, true, false, ◌&&◌, not,
}
use tm4c123gxl_ota.Types.{Version}
use tm4c123gxl_ota.Text.{Text, c_string}
use tm4c123gxl_ota.Http.Keeps.{stream_feed-keeps}
use tm4c123gxl_ota.Rpc.{RpcRequest, parse}
use tm4c123gxl_ota.Update.{Services}
use tm4c123gxl_ota.Controller.{
  Controller, Machine, ota_active, literal, with_controller, sync, online, ota_size,
  ota_clear_header, ota_range_header, ota_download,
}
use tm4c123gxl_ota.Controller.Command.{
  cloud_failure_message, error_message, timeout_message, send_state_command,
}
use tm4c123gxl_ota.Controller.Retry.{next_state, enter_retry, tick_command, tick, advance_state}
use tm4c123gxl_ota.Controller.Calls.{handle_request, handle_start_ota, handle_rpc}
use tm4c123gxl_ota.Controller.Lines.{process_line, ok_line}
use tm4c123gxl_ota.Controller.Receive.{
  cloud_data, feed, receive_body, receive_char, receive_end, receive,
}
use tm4c123gxl_ota.Controller.Diagram.{send_state_command-keeps}
use tm4c123gxl_ota.Controller.Diagram.Requests.{respond-keeps}
use tm4c123gxl_ota.Controller.Diagram.Bytes.{Event, received, ticked, run_events}

-- A controller without an update calls no service.
abbrev pub no_services : {S : Type 0} → Services S
no_services = record {
  read = λ s address size. none;
  erase = λ s address size active. (false, s);
  program = λ s address bytes active. (false, s);
  metadata_io = record {
    read = λ s copy. none;
    erase = λ s copy. (false, s);
    program = λ s copy r. (false, s);
  };
  reset = λ s. s;
}

-- The callback that is not set.
abbrev pub no_start : {S : Type 0} → Version → S → Bool × S
no_start version s = (false, s)

-- No update, no callback, no request, and no download under way.
unfoldable pub is_unattached : Controller → Bool
unfolding ota_active
is_unattached c = not c.attached && not c.has_ota_start && not c.ota_requested && not (ota_active c)

pub unattached_facts :
    (c : Controller)
    → is_unattached c ≡ true
    → (c.attached ≡ false)
      × (c.has_ota_start ≡ false)
      × (c.ota_requested ≡ false)
      × (ota_active c ≡ false)
      × (c.state ≢ ota_size)
      × (c.state ≢ ota_clear_header)
      × (c.state ≢ ota_range_header)
      × (c.state ≢ ota_download)
unfolding is_unattached
unattached_facts c h = ground arith

unattached_stored :
    (c : Controller) (now_ms : ℕ) (line : List ℕ)
    → is_unattached c ≡ true
    → (is_unattached (record c { line = line }) ≡ true)
      × (is_unattached (record c { http_binary = false }) ≡ true)
      × (is_unattached
            (record c { http_binary = false; ota_chunk_complete = true; state_started_ms = now_ms })
          ≡ true)
unfolding is_unattached
unattached_stored c now_ms line h = ground arith

-- What the setup changes besides.
unattached_onward :
    (c : Controller) (now_ms : ℕ)
    → is_unattached c ≡ true
    → (is_unattached
          (record c { state = next_state c.state; command_sent = false; state_started_ms = now_ms })
        ≡ true)
      × (is_unattached (record c {
        state = online;
        command_sent = false;
        state_started_ms = now_ms;
        retry_count = 0;
      })
          ≡ true)
unfolding is_unattached
unattached_onward c now_ms h = ground arith

module _ {S : Type 0} (services : Services S) where
  enter_retry-is_unattached :
      (m : Machine S) (now_ms : ℕ) (reason : Text)
      → is_unattached m.controller ≡ true
      → is_unattached (enter_retry services m now_ms reason).controller ≡ true
  unfolding enter_retry is_unattached
  enter_retry-is_unattached m now_ms reason h = ground arith

  tick_command-is_unattached :
      (m : Machine S) (now_ms : ℕ)
      → is_unattached m.controller ≡ true
      → is_unattached (tick_command services m now_ms).controller ≡ true
  unfolding tick_command
  tick_command-is_unattached m now_ms h = ground (
    arith,
    send_state_command-keeps services m,
    sent m.controller now_ms,
    enter_retry-is_unattached m now_ms (timeout_message m.controller.state),
    enter_retry-is_unattached (send_state_command m).1 now_ms (literal "AT_COMMAND_FAILED"),
  )
    where
      sent :
          (c : Controller) (now : ℕ)
          → is_unattached (record c { command_sent = true; state_started_ms = now })
            ≡ is_unattached c
      sent c now = unfold is_unattached in refl

  pub tick-is_unattached :
      (m : Machine S) (now_ms : ℕ)
      → is_unattached m.controller ≡ true
      → is_unattached (tick services m now_ms).controller ≡ true
  unfolding tick
  tick-is_unattached m now_ms h =
      let c = m.controller in
      let restarted : Controller = record c {
        state = sync;
        command_sent = false;
        state_started_ms = now_ms;
      } in
      ground (
        arith,
        restart c now_ms,
        tick_command-is_unattached m now_ms,
        tick_command-is_unattached (with_controller m restarted) now_ms,
      )
    where
      restart :
          (c : Controller) (now : ℕ)
          → is_unattached c ≡ true
          → is_unattached (record c { state = sync; command_sent = false; state_started_ms = now })
            ≡ true
      restart c now e = unfold is_unattached in ground arith

  advance_state-is_unattached :
      (m : Machine S) (now_ms : ℕ)
      → is_unattached m.controller ≡ true
      → is_unattached (advance_state services m now_ms).controller ≡ true
  unfolding advance_state
  advance_state-is_unattached m now_ms h =
      let c = m.controller in
      let onward : Controller = record c {
        state = next_state c.state;
        command_sent = false;
        state_started_ms = now_ms;
      } in
      ground (
        arith,
        unattached_facts c h,
        unattached_onward c now_ms h,
        tick-is_unattached (with_controller m onward) now_ms,
      )

  ok_line-is_unattached :
      (m : Machine S) (now_ms : ℕ)
      → is_unattached m.controller ≡ true
      → is_unattached (ok_line services m now_ms).controller ≡ true
  unfolding ok_line
  ok_line-is_unattached m now_ms h =
      ground (arith, unattached_facts m.controller h, advance_state-is_unattached m now_ms h)

  feed-is_unattached :
      (m : Machine S) (b : List ℕ)
      → is_unattached (feed services m b).1.controller ≡ is_unattached m.controller
  unfolding feed is_unattached
  feed-is_unattached m b =
      stream_feed-keeps (λ (n : Machine S). is_unattached n.controller) (cloud_data services)
        m.controller.http_stream m b (cloud_kept m)
    where
      cloud_kept :
          (n : Machine S) (bs : List ℕ)
          → is_unattached (cloud_data services n bs).1.controller ≡ is_unattached n.controller
      cloud_kept n bs = unfold cloud_data in unfold is_unattached in ground arith

  receive_body-is_unattached :
      (m : Machine S) (byte now_ms : ℕ)
      → is_unattached m.controller ≡ true
      → is_unattached (receive_body services m byte now_ms).controller ≡ true
  unfolding receive_body
  receive_body-is_unattached m byte now_ms h =
      let fed = (feed services m (byte ∷ [])).1 in
      let plain = with_controller fed (record fed.controller { http_binary = false }) in
      ground (
        arith,
        feed-is_unattached m (byte ∷ []),
        unattached_stored fed.controller now_ms [],
        enter_retry-is_unattached plain now_ms (cloud_failure_message fed.controller.cloud_result),
      )

  receive_char-is_unattached :
      (m : Machine S) (byte now_ms : ℕ)
      → is_unattached m.controller ≡ true
      → is_unattached (receive_char services m byte now_ms).controller ≡ true
  unfolding receive_char
  receive_char-is_unattached m byte now_ms h =
      let c = m.controller in
      ground (
        arith,
        unattached_facts c h,
        unattached_stored c now_ms (c.line ++ byte ∷ []) h,
        enter_retry-is_unattached m now_ms (literal "AT_LINE_TOO_LONG"),
      )

module _ {S : Type 0} (services : Services S) (ota_start : Version → S → Bool × S) where
  handle_request_unattached :
      (m : Machine S) (request : Option RpcRequest) (now_ms : ℕ)
      → is_unattached m.controller ≡ true
      → (handle_request ota_start m request now_ms).controller ≡ m.controller
  unfolding handle_request handle_start_ota
  handle_request_unattached m none now_ms h = ground arith
  handle_request_unattached m (some request) now_ms h =
      ground (arith, unattached_facts m.controller h, respond-keeps m request)

  process_line-is_unattached :
      (m : Machine S) (line : Text) (now_ms : ℕ)
      → is_unattached m.controller ≡ true
      → is_unattached (process_line services ota_start m line now_ms).controller ≡ true
  unfolding process_line handle_rpc
  process_line-is_unattached m line now_ms h = ground (
    arith,
    unattached_facts m.controller h,
    handle_request_unattached m (parse line).1 now_ms h,
    advance_state-is_unattached services m now_ms h,
    enter_retry-is_unattached services m now_ms (error_message m.controller.state) h,
    enter_retry-is_unattached services m now_ms (literal "AT_DISCONNECTED_ONLINE") h,
    ok_line-is_unattached services m now_ms h,
  )

  pub receive-is_unattached :
      (m : Machine S) (byte now_ms : ℕ)
      → is_unattached m.controller ≡ true
      → is_unattached (receive services ota_start m byte now_ms).controller ≡ true
  unfolding receive receive_end
  receive-is_unattached m byte now_ms h =
      let line = c_string m.controller.line in
      ground (
        arith,
        unattached_facts m.controller h,
        receive_body-is_unattached services m byte now_ms h,
        process_line-is_unattached m line now_ms h,
        unattached_stored (process_line services ota_start m line now_ms).controller now_ms [],
        receive_char-is_unattached services m byte now_ms h,
      )

  -- A controller without an update, a callback and a request stays so, and no download is ever under
  -- way, whatever the modem sends and whenever the timer ticks.
  pub run_events-is_unattached :
      (m : Machine S) (events : List Event)
      → is_unattached m.controller ≡ true
      → is_unattached (run_events services ota_start m events).controller ≡ true
  unfolding run_events
  run_events-is_unattached m [] h = h
  run_events-is_unattached m (received b now_ms ∷ events) h =
      run_events-is_unattached (receive services ota_start m b now_ms) events
        (receive-is_unattached m b now_ms h)
  run_events-is_unattached m (ticked now_ms ∷ events) h =
      run_events-is_unattached (tick services m now_ms) events
        (tick-is_unattached services m now_ms h)
