-- ===== src/Controller/Receive.antt =====
-- tm4c_uart_esp32_bridge/esp_at_controller.c: a byte of the modem. A body goes to the download's
-- `CloudOta.write`, which has an outcome for every body (CloudOta.Loop).
use tm4c123gxl_ota.Base.{
  ℕ, ◌+◌, List, [], ◌∷◌, ◌++◌, none, some, Bool, true, false, ◌&&◌, leb, ◌==◌, ◌!=◌, if◌then◌else◌,
  length,
}
use tm4c123gxl_ota.Types.{Version}
use tm4c123gxl_ota.Text.{c_string, decimal, same_text}
use tm4c123gxl_ota.Http.{HttpResult, more, done, stream_feed}
use tm4c123gxl_ota.CloudOta.{CloudResult, write}
use tm4c123gxl_ota.Update.{Services}
use tm4c123gxl_ota.Controller.{
  Machine, ota_range_header, ota_download, literal, log_message, with_controller, with_session,
  session_of, is_state, line_size,
}
use tm4c123gxl_ota.Controller.Command.{cloud_failure_message}
use tm4c123gxl_ota.Controller.Retry.{enter_retry}
use tm4c123gxl_ota.Controller.Range.{send_range_header}
use tm4c123gxl_ota.Controller.Lines.{process_line}

abbrev pub is_ok : CloudResult → Bool
is_ok CloudResult.ok = true
is_ok other = false

module _ {S : Type 0} (services : Services S) where
  -- `cloud_data`
  unfoldable pub cloud_data : Machine S → List ℕ → Bool × Machine S
  cloud_data m data_bytes = elim (write services (session_of m) data_bytes) [
    | none ↦ (false, m)
    | some (result, session) ↦
        let after = with_session m session in
        (is_ok result, with_controller after (record after.controller { cloud_result = result }))
  ]

  -- What the stream makes of bytes.
  unfoldable pub feed : Machine S → List ℕ → HttpResult × Machine S
  feed m bytes =
      let (result, stream, after) = stream_feed cloud_data m.controller.http_stream m bytes in
      (result, with_controller after (record after.controller { http_stream = stream }))

  -- A byte of a body.
  unfoldable pub receive_body : Machine S → ℕ → ℕ → Machine S
  receive_body m byte now_ms =
      let (result, fed) = feed m (byte ∷ []) in
      let c = fed.controller in
      elim result [
        | done ↦
            log_message
              (with_controller fed (record c {
                http_binary = false;
                ota_chunk_complete = true;
                state_started_ms = now_ms;
              }))
              (literal "OTA_CHUNK_DONE_" ++ decimal c.ota_offset)
        | more ↦ fed
        | other ↦
            enter_retry services (with_controller fed (record c { http_binary = false })) now_ms
              (cloud_failure_message c.cloud_result)
      ]

  -- The line is the prefix of a body.
  unfoldable pub begin_body : Machine S → ℕ → Machine S
  begin_body m now_ms =
      let (result, fed) = feed m m.controller.line in
      let c = fed.controller in
      elim result [
        | more ↦ with_controller fed (record c { line = []; http_binary = true })
        | other ↦
            enter_retry services (with_controller fed (record c { line = [] })) now_ms
              (literal "OTA_STREAM_FAILED")
      ]

  -- A byte that belongs to a line.
  unfoldable pub receive_char : Machine S → ℕ → ℕ → Machine S
  receive_char m byte now_ms =
      let c = m.controller in
      let line = c.line ++ byte ∷ [] in
      let stored = with_controller m (record c { line = line }) in
      if leb line_size (length c.line + 1)
      then enter_retry services m now_ms (literal "AT_LINE_TOO_LONG")
      else if is_state c.state ota_download && same_text line (literal "+HTTPCGET:")
      then begin_body stored now_ms
      else stored

  -- The modem asks for the header of a range.
  unfoldable pub receive_prompt : Machine S → ℕ → Machine S
  receive_prompt m now_ms =
      let (sent, after) = send_range_header m in
      if sent
      then with_controller after
          (record after.controller { range_header_stage = 2; state_started_ms = now_ms })
      else enter_retry services after now_ms (literal "OTA_RANGE_HEADER_FAILED")

module _ {S : Type 0} (services : Services S) (ota_start : Version → S → Bool × S) where
  -- The end of a line.
  unfoldable pub receive_end : Machine S → ℕ → Machine S
  receive_end m now_ms =
      let processed = process_line services ota_start m (c_string m.controller.line) now_ms in
      if length m.controller.line != 0
      then with_controller processed (record processed.controller { line = [] })
      else m

  -- `esp_at_controller_receive`
  unfoldable pub receive : Machine S → ℕ → ℕ → Machine S
  receive m byte now_ms =
      let c = m.controller in
      if is_state c.state ota_range_header && (byte == b'>') && (c.range_header_stage == 1)
      then receive_prompt services m now_ms
      else if c.http_binary
      then receive_body services m byte now_ms
      else if byte == b'\r'
      then m
      else if byte == b'\n'
      then receive_end m now_ms
      else receive_char services m byte now_ms
