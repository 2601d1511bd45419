-- ===== src/Controller/Range.antt =====
-- tm4c_uart_esp32_bridge/esp_at_controller.c: the requests for ranges of the package.
use tm4c123gxl_ota.Base.{
  ℕ, ◌+◌, ◌-◌, ◌++◌, Bool, true, false, ◌&&◌, ◌||◌, not, ltb, ◌==◌, if◌then◌else◌, sub32, u32,
  length,
}
use tm4c123gxl_ota.Config.{slot_header_size}
use tm4c123gxl_ota.Types.{firmware_header_size}
use tm4c123gxl_ota.Text.{Text, decimal, printed, fits}
use tm4c123gxl_ota.Controller.{
  Machine, ota_range_header, literal, log_message, send_text, with_controller,
}

abbrev pub http_chunk_size : ℕ
http_chunk_size = 256

-- The size of the next range; `size_t` has 32 bits.
unfoldable pub next_chunk_size : ℕ → ℕ → ℕ
next_chunk_size remote_size ota_offset =
    let remaining = sub32 remote_size ota_offset in
    let wanted = if ota_offset == 0 then firmware_header_size else http_chunk_size in
    let limited = if ltb remaining wanted then remaining else wanted in
    if ltb ota_offset slot_header_size && ltb (slot_header_size - ota_offset) limited
    then slot_header_size - ota_offset
    else limited

-- `Range: bytes=%u-%u`
unfoldable pub range_text : ℕ → ℕ → Text
range_text ota_offset chunk_size =
    literal "Range: bytes="
    ++ decimal ota_offset
    ++ literal "-"
    ++ decimal (sub32 (u32 (ota_offset + chunk_size)) 1)

module _ {S : Type 0} where
  -- `start_range_request`
  unfoldable pub start_range_request : Machine S → ℕ → Bool × Machine S
  start_range_request m now_ms =
      let c = m.controller in
      let chunk_size = next_chunk_size c.remote_size c.ota_offset in
      let header = range_text c.ota_offset chunk_size in
      let command = literal "AT+HTTPCHEAD=" ++ decimal (length header) ++ literal "\r\n" in
      let diagnostic =
        literal "OTA_RANGE_" ++ decimal c.ota_offset ++ literal "_" ++ decimal chunk_size in
      if not (fits 48 header) || not (fits 48 command) then (false, m) else (
        true,
        log_message
            (send_text
              (with_controller m (record c {
                ota_chunk_size = chunk_size;
                range_header_stage = 0;
                ota_chunk_complete = false;
                state = ota_range_header;
                state_started_ms = now_ms;
                command_sent = true;
              }))
              command)
            (printed 48 diagnostic),
      )

  -- `send_range_header`
  unfoldable pub send_range_header : Machine S → Bool × Machine S
  send_range_header m =
      let header = range_text m.controller.ota_offset m.controller.ota_chunk_size in
      if fits 48 header then (true, send_text m header) else (false, m)
