-- ===== src/Examples/Apps.antt =====
-- The application at a request for version 2.3.0, and the bridge.
use tm4c123gxl_ota.Base.{
  ℕ, ◌≡◌, ◌⊎◌, refl, arith, List, [], ◌∷◌, ◌++◌, some, Bool, true, false, replicate,
}
use tm4c123gxl_ota.Types.{Version}
use tm4c123gxl_ota.Text.{Text, codes, digits, decimal, same_text, starts_with, has_part, split_at}
use tm4c123gxl_ota.Request.{request_clear, request_consume, request_store, is_zero_version}
use tm4c123gxl_ota.Handoff.{handoff_init, handoff_accept, handoff_should_reset, same_version}
use tm4c123gxl_ota.Update.{update_init}
use tm4c123gxl_ota.Rpc.{
  parse, parse_topic, parse_length, length_digits, parse_payload, payload_is_get_info, compact_json,
  compact, payload_looks_like_start_ota, payload_parse_start_ota, version_fields, version_component,
  component_digits, build_response,
}
use tm4c123gxl_ota.Rpc.Message.{start_ota_payload, request_line}
use tm4c123gxl_ota.CloudOta.{zero_cloud}
use tm4c123gxl_ota.Bridge.{begin_bridge, run_bridge, bridge_downloads_nothing}
use tm4c123gxl_ota.Controller.{controller_init, ota_active, AtConfig, Machine, online, literal}
use tm4c123gxl_ota.Controller.Calls.{
  handle_rpc, handle_request, handle_start_ota, respond, is_active_version, escape_at_parameter,
  escape_from,
}
use tm4c123gxl_ota.Controller.Command.{send_state_command, format_and_send, command_timeout_ms}
use tm4c123gxl_ota.Controller.Retry.{tick, tick_command, advance_state}
use tm4c123gxl_ota.Controller.Lines.{process_line, ok_line}
use tm4c123gxl_ota.Controller.Receive.{receive, receive_end, receive_char}
use tm4c123gxl_ota.Controller.Unattached.{no_services}
use tm4c123gxl_ota.Application.{AppStore, app_start_ota, begin_app, drain, app_round, run_app}
use tm4c123gxl_ota.Application.Accept.{start_ota_line}
use tm4c123gxl_ota.Application.Reset.{reset_leaves_request}
use tm4c123gxl_ota.Examples.{pending_b, version_1, version_2}

abbrev home : AtConfig
home = record {
  wifi_ssid = codes "ssid";
  wifi_password = codes "password";
  thingsboard_token = codes "token";
  mqtt_host = codes "host";
  mqtt_port = 1883;
  client_id = codes "model";
}

abbrev begun : Machine AppStore
begun = begin_app home version_1 request_clear (update_init pending_b 0)

abbrev request_id : Text
request_id = codes "42"

-- The setup is done, and nothing has been asked for yet.
abbrev ready : Machine AppStore
ready = record begun { controller = record begun.controller { state = online } }

start_ota_line_example :
    let after =
      process_line no_services app_start_ota ready
        (request_line request_id (start_ota_payload version_2))
        70 in
    ((ready.store.handoff.pending ≡ false)
      × (is_zero_version version_2 ≡ false)
      × (same_version version_2 ready.store.handoff.current_version ≡ false)
      × (after.store.handoff.pending ≡ true)
      × (after.store.handoff.accepted_at_ms ≡ ready.store.millis)
      × ((request_consume after.store.requests).0 ≡ some version_2))
    ⊎ (((ready.store.handoff.pending ≡ true)
          ⊎ (is_zero_version version_2 ≡ true)
          ⊎ (same_version version_2 ready.store.handoff.current_version ≡ true))
        × (after.store ≡ ready.store))
start_ota_line_example =
    start_ota_line ready request_id version_2 70 (omega arith, omega arith, ground arith)
      (omega arith, omega arith, omega arith) refl refl refl

-- The modem answers each command of the setup, hands over the request, and is quiet.
abbrev ok_bytes : List ℕ
ok_bytes = codes "OK\r\n"

abbrev rounds : List (List ℕ × Bool)
rounds =
    ([], true) ∷ replicate 10 (ok_bytes, true)
    ++ ((request_line request_id (start_ota_payload version_2) ++ codes "\r\n", true)
        ∷ replicate 500 ([], false))

app_resets : (run_app begun rounds).0 ≡ true
unfolding run_app app_round drain receive receive_end receive_char process_line ok_line tick
    tick_command advance_state send_state_command format_and_send command_timeout_ms handle_rpc
    handle_request handle_start_ota respond is_active_version app_start_ota handoff_init
    handoff_accept handoff_should_reset request_store parse parse_topic parse_length length_digits
    parse_payload payload_is_get_info compact_json compact payload_looks_like_start_ota
    payload_parse_start_ota version_fields version_component component_digits build_response
    escape_at_parameter escape_from literal same_text starts_with has_part split_at decimal digits
app_resets = refl

reset_leaves_request_example :
    (v : Version) × ((request_consume (run_app begun rounds).1.store.requests).0 ≡ some v)
    × (is_zero_version v ≡ false)
    × (same_version v version_1 ≡ false)
reset_leaves_request_example =
    reset_leaves_request home version_1 request_clear (update_init pending_b 0) rounds app_resets

-- The bridge goes through the setup and ignores the request.
abbrev bridge : Machine ℕ
bridge = record {
  controller = (controller_init home true 0).0;
  cloud = zero_cloud;
  update = update_init pending_b 0;
  store = 0;
  out = [];
}

abbrev bridge_rounds : List (List ℕ)
bridge_rounds =
    [] ∷ replicate 10 ok_bytes
    ++ (request_line request_id (start_ota_payload version_2) ++ codes "\r\n") ∷ []

bridge_downloads_nothing_example :
    let c = (run_bridge bridge bridge_rounds).controller in
    (ota_active c ≡ false) × (c.attached ≡ false) × (c.has_ota_start ≡ false)
bridge_downloads_nothing_example =
    bridge_downloads_nothing home (update_init pending_b 0) bridge bridge_rounds begun_bridge
  where
    begun_bridge : begin_bridge home (update_init pending_b 0) ≡ some bridge
    begun_bridge = unfold begin_bridge in refl
