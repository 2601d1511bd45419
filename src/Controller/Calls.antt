-- ===== src/Controller/Calls.antt =====
-- tm4c_uart_esp32_bridge/esp_at_controller.c: requests for an update, from the network or from the
-- bridge. The callback of the source is an argument; it says whether it accepts the version.
use tm4c123gxl_ota.Base.{
  ℕ, ◌+◌, [], ◌∷◌, ◌++◌, Option, none, some, Bool, true, false, ◌&&◌, ◌||◌, not, leb, ◌==◌,
  if◌then◌else◌,
}
use tm4c123gxl_ota.Types.{Version, MetadataRecord, slot_a}
use tm4c123gxl_ota.Text.{Text, decimal, fits}
use tm4c123gxl_ota.Http.{HttpResult, get_size, build_url, build_command}
use tm4c123gxl_ota.Rpc.{
  RpcResult, RpcMethod, RpcRequest, start_ota, get_info, parse, build_response,
}
use tm4c123gxl_ota.Controller.{
  Controller, Machine, ota_size, literal, log_message, send_text, with_controller, url_size,
  line_size,
}

abbrev pub is_special : ℕ → Bool
is_special c = (c == b'"') || (c == b'\\') || (c == b',')

-- The loop of `escape_at_parameter`, with `used` bytes stored: the bytes that it stores behind them,
-- or none where they do not fit.
unfoldable pub escape_from : ℕ → ℕ → Text → Option Text
escape_from output_size used [] = some []
escape_from output_size used (c ∷ s) =
    let width = if is_special c then 2 else 1 in
    let rest = escape_from output_size (used + width) s in
    if leb output_size (used + width) then none else elim rest [
      | none ↦ none
      | some text ↦ some (if is_special c then b'\\' ∷ c ∷ text else c ∷ text)
    ]

-- `escape_at_parameter`; none for a failure. Its result 0 is that or the empty text.
unfoldable pub escape_at_parameter : Text → ℕ → Option Text
escape_at_parameter input output_size = escape_from output_size 0 input

-- A command that has been built.
abbrev pub built : HttpResult × Option Text → Option Text
built (HttpResult.ok, text) = text
built (other, text) = none

-- `prepare_ota_request`
unfoldable pub prepare_ota_request : Controller → Version → Bool × Controller
prepare_ota_request c version =
    let version_text =
      decimal version.major
      ++ literal "."
      ++ decimal version.minor
      ++ literal "."
      ++ decimal version.patch in
    let (result, url) =
      build_url c.config.mqtt_host c.config.thingsboard_token c.config.client_id version_text
        url_size in
    let stored = record c {
      firmware_url = elim url [ none ↦ c.firmware_url | some text ↦ text ];
    } in
    if not (fits 24 version_text) then (false, c) else elim result [
      | HttpResult.ok ↦ (true, record stored { requested_version = version })
      | other ↦ (false, stored)
    ]

-- `is_active_version`, of the metadata of the update.
unfoldable pub is_active_version : Controller → MetadataRecord → Version → Bool
is_active_version c metadata version =
    let active = if metadata.active_slot == slot_a then metadata.slot_a else metadata.slot_b in
    c.attached
    && (active.version.major == version.major)
    && (active.version.minor == version.minor)
    && (active.version.patch == version.patch)

-- `esp_at_controller_request_ota`
unfoldable pub request_ota : Controller → MetadataRecord → Version → Bool × Controller
request_ota c metadata version =
    let (prepared, after) = prepare_ota_request c version in
    if not c.attached || ((version.major == 0) && (version.minor == 0) && (version.patch == 0))
    then (false, c)
    else if is_active_version c metadata version
    then (false, c)
    else if not prepared
    then (false, after)
    else (true, record after { ota_requested = true })

abbrev pub done_message : RpcMethod → Text
done_message start_ota = literal "RPC_START_OTA_ACCEPTED"
done_message get_info = literal "RPC_GET_INFO_RESPONSE_SENT"

module _ {S : Type 0} where
  -- The part of `handle_rpc` behind the tests of the method.
  unfoldable pub respond : Machine S → RpcRequest → Machine S
  respond m request =
      let (result, response) = build_response request 128 in
      let ignored = log_message m (literal "RPC_IGNORED") in
      elim result [
        | RpcResult.ok ↦ elim (escape_at_parameter response 256) [
          | none ↦ ignored
          | some [] ↦ ignored
          | some (c ∷ s) ↦
              let command =
                literal "AT+MQTTPUB=0,\""
                ++ request.response_topic
                ++ literal "\",\""
                ++ (c ∷ s)
                ++ literal "\",0,0\r\n" in
              if fits line_size command
              then log_message (send_text m command) (done_message request.method)
              else log_message m (literal "RPC_RESPONSE_TOO_LONG")
        ]
        | other ↦ ignored
      ]

  -- The part of `handle_rpc` for a START_OTA request that the callback has accepted.
  unfoldable pub begin_ota : Machine S → RpcRequest → ℕ → Machine S
  begin_ota m request now_ms =
      let (prepared, c) = prepare_ota_request m.controller request.version in
      let rejected = log_message (with_controller m c) (literal "RPC_START_OTA_REJECTED") in
      if not prepared
      then rejected
      else elim (built (build_command get_size c.firmware_url line_size)) [
        | none ↦ rejected
        | some command ↦
            respond
              (with_controller m (record c {
                state = ota_size;
                state_started_ms = now_ms;
                command_sent = true;
                ota_size_pending = true;
                ota_telemetry_pending = true;
                ota_requested = true;
              }))
              request
      ]

module _ {S : Type 0} (ota_start : Version → S → Bool × S) where
  -- The part of `handle_rpc` for a START_OTA request.
  unfoldable pub handle_start_ota : Machine S → RpcRequest → ℕ → Machine S
  handle_start_ota m request now_ms =
      let c = m.controller in
      let (accepted, store) =
        if c.has_ota_start then ota_start request.version m.store else (true, m.store) in
      let called = record m { store = store } in
      if not c.attached && not c.has_ota_start
      then log_message m (literal "RPC_START_OTA_REJECTED")
      else if is_active_version c m.update.metadata request.version
      then log_message m (literal "RPC_START_OTA_CURRENT_VERSION")
      else if not accepted
      then log_message called (literal "RPC_START_OTA_REJECTED")
      else if c.attached
      then begin_ota called request now_ms
      else respond called request

  -- The part of `handle_rpc` behind the parser, which has a request exactly if its result is OK.
  unfoldable pub handle_request : Machine S → Option RpcRequest → ℕ → Machine S
  handle_request m none now_ms = log_message m (literal "RPC_IGNORED")
  handle_request m (some request) now_ms = elim request.method [
    | start_ota ↦ handle_start_ota m request now_ms
    | get_info ↦ respond m request
  ]

  -- `handle_rpc`
  unfoldable pub handle_rpc : Machine S → Text → ℕ → Machine S
  handle_rpc m line now_ms = handle_request m (parse line).1 now_ms
