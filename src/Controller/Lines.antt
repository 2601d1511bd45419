-- ===== src/Controller/Lines.antt =====
-- tm4c_uart_esp32_bridge/esp_at_controller.c: what a line of the modem does.
use tm4c123gxl_ota.Base.{
  ℕ, ◌+◌, Option, none, some, Bool, true, false, ◌&&◌, ltb, ◌==◌, ◌!=◌, if◌then◌else◌, u32,
}
use tm4c123gxl_ota.Types.{Version}
use tm4c123gxl_ota.Text.{Text, same_text, starts_with, has_part}
use tm4c123gxl_ota.Http.{get_size, get_body, build_command, parse_size, stream_init}
use tm4c123gxl_ota.CloudOta.{CloudResult, begin, finish, ready_to_reboot}
use tm4c123gxl_ota.Update.{Services}
use tm4c123gxl_ota.Controller.{
  Machine, mqtt_clean, online, ota_clear_header, ota_size, ota_range_header, ota_download, literal,
  log_message, send_text, with_controller, with_session, session_of, is_state, line_size,
}
use tm4c123gxl_ota.Controller.Command.{error_message, downloading_telemetry, rebooting_telemetry}
use tm4c123gxl_ota.Controller.Retry.{enter_retry, advance_state}
use tm4c123gxl_ota.Controller.Range.{start_range_request}
use tm4c123gxl_ota.Controller.Calls.{built, handle_rpc}

module _ {S : Type 0} (services : Services S) where
  -- The size of the package is known.
  unfoldable pub begin_download : Machine S → ℕ → ℕ → Machine S
  begin_download m remote_size now_ms =
      let c = m.controller in
      let (result, cloud) =
        if c.attached
        then begin remote_size c.requested_version
        else (CloudResult.invalid, m.cloud) in
      let begun = record m { cloud = cloud } in
      elim result [
        | CloudResult.ok ↦
            with_controller begun
              (record c { remote_size = remote_size; ota_offset = 0; ota_body_pending = true })
        | other ↦ enter_retry services begun now_ms (literal "OTA_SIZE_REJECTED")
      ]

  -- The line with the size of the package, if it parses.
  unfoldable pub size_answer : Machine S → Option ℕ → ℕ → Machine S
  size_answer m none now_ms = enter_retry services m now_ms (literal "OTA_SIZE_REJECTED")
  size_answer m (some remote_size) now_ms = begin_download m remote_size now_ms

  -- The next range, or the way into RETRY.
  unfoldable pub request_range : Machine S → ℕ → Machine S
  request_range m now_ms =
      let (sent, after) = start_range_request m now_ms in
      if sent then after else enter_retry services after now_ms (literal "OTA_RANGE_COMMAND_FAILED")

  -- An OK in the state OTA_CLEAR_HEADER.
  unfoldable pub ok_cleared : Machine S → ℕ → Machine S
  ok_cleared m now_ms =
      let c = m.controller in
      elim (built (build_command get_size c.firmware_url line_size)) [
        | none ↦ enter_retry services m now_ms (literal "OTA_SIZE_COMMAND_FAILED")
        | some command ↦
            send_text (with_controller m (record c { state = ota_size; state_started_ms = now_ms }))
              command
      ]

  -- An OK in the state OTA_RANGE_HEADER.
  unfoldable pub ok_range : Machine S → ℕ → Machine S
  ok_range m now_ms =
      let c = m.controller in
      let failed = enter_retry services m now_ms (literal "OTA_BODY_COMMAND_FAILED") in
      if c.range_header_stage == 0
      then with_controller m (record c { range_header_stage = 1 })
      else if c.range_header_stage != 2
      then failed
      else elim (built (build_command get_body c.firmware_url line_size)) [
        | none ↦ failed
        | some command ↦
            send_text
              (with_controller m (record c {
                http_stream = stream_init c.ota_chunk_size;
                state = ota_download;
                state_started_ms = now_ms;
              }))
              command
      ]

  -- An OK behind a complete chunk.
  unfoldable pub ok_chunk : Machine S → ℕ → Machine S
  ok_chunk m now_ms =
      let c = m.controller in
      let offset = u32 (c.ota_offset + c.ota_chunk_size) in
      let moved = with_controller m (record c { ota_offset = offset }) in
      let (result, session) = finish services (session_of moved) in
      let finished = with_session moved session in
      if ltb offset c.remote_size then request_range moved now_ms else elim result [
        | ready_to_reboot ↦
            log_message
              (send_text
                (with_controller finished (record finished.controller {
                  ota_requested = false;
                  state = online;
                  command_sent = false;
                }))
                rebooting_telemetry)
              (literal "OTA_REBOOTING")
        | other ↦ enter_retry services finished now_ms (literal "OTA_VERIFY_FAILED")
      ]

  -- An OK in the state OTA_SIZE.
  unfoldable pub ok_size : Machine S → ℕ → Machine S
  ok_size m now_ms =
      let c = m.controller in
      if c.ota_telemetry_pending
      then send_text (with_controller m (record c { ota_telemetry_pending = false }))
          downloading_telemetry
      else if c.ota_size_pending
      then send_text
          (with_controller m (record c {
            ota_size_pending = false;
            state = ota_clear_header;
            state_started_ms = now_ms;
          }))
          (literal "AT+HTTPCHEAD=0\r\n")
      else if c.ota_body_pending
      then request_range (with_controller m (record c { ota_body_pending = false })) now_ms
      else m

  -- An OK behind a command.
  unfoldable pub ok_line : Machine S → ℕ → Machine S
  ok_line m now_ms = elim m.controller.state [
    | ota_size ↦ ok_size m now_ms
    | ota_clear_header ↦ ok_cleared m now_ms
    | ota_range_header ↦ ok_range m now_ms
    | ota_download ↦ if m.controller.ota_chunk_complete then ok_chunk m now_ms else m
    | other ↦ advance_state services m now_ms
  ]

module _ {S : Type 0} (services : Services S) (ota_start : Version → S → Bool × S) where
  -- `process_line`
  unfoldable pub process_line : Machine S → Text → ℕ → Machine S
  process_line m line now_ms =
      let c = m.controller in
      if starts_with (literal "ERR CODE:") line
      then log_message m line
      else if is_state c.state ota_size && starts_with (literal "+HTTPGETSIZE:") line
      then size_answer services m (parse_size line) now_ms
      else if starts_with (literal "+MQTTSUBRECV:") line
      then (if is_state c.state online then handle_rpc ota_start m line now_ms else m)
      else if same_text line (literal "ERROR")
      then (if is_state c.state mqtt_clean && c.command_sent
          then advance_state services m now_ms
          else enter_retry services m now_ms (error_message c.state))
      else if is_state c.state online && has_part (literal "DISCONNECTED") line
      then enter_retry services m now_ms (literal "AT_DISCONNECTED_ONLINE")
      else if same_text line (literal "OK") && c.command_sent
      then ok_line services m now_ms
      else m
