-- ===== src/Controller/Command.antt =====
-- tm4c_uart_esp32_bridge/esp_at_controller.c: the messages for a state, and the command that a
-- state sends to the modem.
use tm4c123gxl_ota.Base.{ℕ, ◌++◌, Bool, true, false, ◌||◌, ◌==◌, ◌!=◌, if◌then◌else◌}
use tm4c123gxl_ota.Types.{Version, MetadataRecord, slot_b}
use tm4c123gxl_ota.Text.{Text, decimal, fits}
use tm4c123gxl_ota.CloudOta.{CloudResult, Cloud, header, engine, size, progress}
use tm4c123gxl_ota.Controller.{
  AtState, Controller, Machine, sync, echo_off, syslog, wifi_mode, wifi_join, mqtt_clean,
  mqtt_config, mqtt_connect, mqtt_subscribe, mqtt_announce, online, ota_clear_header, ota_size,
  ota_range_header, ota_download, retry, literal, log_message, send_text, line_size, is_state,
  command_timeout,
}

-- `cloud_failure_message`
unfoldable pub cloud_failure_message : CloudResult → Text
cloud_failure_message header = literal "OTA_HEADER_FAILED"
cloud_failure_message engine = literal "OTA_ENGINE_FAILED"
cloud_failure_message size = literal "OTA_SIZE_FAILED"
cloud_failure_message other = literal "OTA_STREAM_FAILED"

-- `timeout_message`
unfoldable pub timeout_message : AtState → Text
timeout_message sync = literal "AT_TIMEOUT_SYNC"
timeout_message echo_off = literal "AT_TIMEOUT_ECHO_OFF"
timeout_message syslog = literal "AT_TIMEOUT_SYSLOG"
timeout_message wifi_mode = literal "AT_TIMEOUT_WIFI_MODE"
timeout_message wifi_join = literal "AT_TIMEOUT_WIFI_JOIN"
timeout_message mqtt_clean = literal "AT_TIMEOUT_MQTT_CLEAN"
timeout_message mqtt_config = literal "AT_TIMEOUT_MQTT_CONFIG"
timeout_message mqtt_connect = literal "AT_TIMEOUT_MQTT_CONNECT"
timeout_message mqtt_subscribe = literal "AT_TIMEOUT_MQTT_SUBSCRIBE"
timeout_message mqtt_announce = literal "AT_TIMEOUT_MQTT_ANNOUNCE"
timeout_message ota_clear_header = literal "AT_TIMEOUT_OTA_CLEAR_HEADER"
timeout_message ota_size = literal "AT_TIMEOUT_OTA_SIZE"
timeout_message ota_range_header = literal "AT_TIMEOUT_OTA_RANGE_HEADER"
timeout_message ota_download = literal "AT_TIMEOUT_OTA_DOWNLOAD"
timeout_message other = literal "AT_TIMEOUT_UNKNOWN"

-- `error_message`
unfoldable pub error_message : AtState → Text
error_message sync = literal "AT_ERROR_SYNC"
error_message echo_off = literal "AT_ERROR_ECHO_OFF"
error_message syslog = literal "AT_ERROR_SYSLOG"
error_message wifi_mode = literal "AT_ERROR_WIFI_MODE"
error_message wifi_join = literal "AT_ERROR_WIFI_JOIN"
error_message mqtt_clean = literal "AT_ERROR_MQTT_CLEAN"
error_message mqtt_config = literal "AT_ERROR_MQTT_CONFIG"
error_message mqtt_connect = literal "AT_ERROR_MQTT_CONNECT"
error_message mqtt_subscribe = literal "AT_ERROR_MQTT_SUBSCRIBE"
error_message mqtt_announce = literal "AT_ERROR_MQTT_ANNOUNCE"
error_message online = literal "AT_ERROR_ONLINE"
error_message ota_clear_header = literal "AT_ERROR_OTA_CLEAR_HEADER"
error_message ota_size = literal "AT_ERROR_OTA_SIZE"
error_message ota_range_header = literal "AT_ERROR_OTA_RANGE_HEADER"
error_message ota_download = literal "AT_ERROR_OTA_DOWNLOAD"
error_message retry = literal "AT_ERROR_UNKNOWN"

-- `command_timeout_ms`
unfoldable pub command_timeout_ms : AtState → ℕ
command_timeout_ms state =
    if is_state state wifi_join || is_state state ota_download then 30000 else command_timeout

abbrev pub telemetry : Text
telemetry = literal "AT+MQTTPUB=0,\"v1/devices/me/telemetry\",\""

unfoldable pub downloading_telemetry : Text
downloading_telemetry =
    telemetry
    ++ literal
        "{\\\"ota_state\\\":\\\"DOWNLOADING\\\"\\,\\\"ota_progress\\\":0\\,\\\"ota_error\\\":0}\",0,0\r\n"

unfoldable pub rebooting_telemetry : Text
rebooting_telemetry =
    telemetry
    ++ literal
        "{\\\"ota_state\\\":\\\"REBOOTING\\\"\\,\\\"ota_progress\\\":100\\,\\\"ota_error\\\":0}\",0,0\r\n"

unfoldable pub online_telemetry : Text
online_telemetry =
    telemetry
    ++ literal
        "{\\\"ota_state\\\":\\\"IDLE\\\"\\,\\\"ota_progress\\\":0\\,\\\"app_version\\\":\\\"1.0.0\\\"\\,\\\"bootloader_version\\\":\\\"1.0.0\\\"\\,\\\"active_slot\\\":\\\"A\\\"\\,\\\"ota_error\\\":0}"
    ++ literal "\",0,0\r\n"

-- `%u.%u.%u`
abbrev pub version_print : Version → Text
version_print v =
    decimal v.major ++ literal "." ++ decimal v.minor ++ literal "." ++ decimal v.patch

-- The announcement of an attached update.
unfoldable pub announcement : Controller → Cloud → MetadataRecord → Text
announcement c cloud metadata =
    let active = if metadata.active_slot == slot_b then metadata.slot_b else metadata.slot_a in
    telemetry
    ++ literal "{\\\"ota_state\\\":\\\""
    ++ (if c.ota_error_pending != 0
        then literal "ERROR"
        else if c.boot_confirmed
        then literal "SUCCESS"
        else literal "IDLE")
    ++ literal "\\\"\\,\\\"ota_progress\\\":"
    ++ decimal
        (if c.ota_error_pending != 0 then progress cloud else if c.boot_confirmed then 100 else 0)
    ++ literal "\\,\\\"app_version\\\":\\\""
    ++ version_print active.version
    ++ literal "\\\"\\,\\\"bootloader_version\\\":\\\"1.0.0\\\"\\,\\\"active_slot\\\":\\\""
    ++ (if metadata.active_slot == slot_b then literal "B" else literal "A")
    ++ literal "\\\"\\,\\\"ota_error\\\":"
    ++ decimal c.ota_error_pending
    ++ literal "}\",0,0\r\n"

module _ {S : Type 0} where
  -- `format_and_send`, with the text that its format prints.
  unfoldable pub format_and_send : Machine S → Text → Bool × Machine S
  format_and_send m command =
      if fits line_size command
      then (true, send_text m command)
      else (false, log_message m (literal "AT_COMMAND_TOO_LONG"))

  -- `send_state_command`
  unfoldable pub send_state_command : Machine S → Bool × Machine S
  send_state_command m =
      let c = m.controller in
      elim c.state [
        | sync ↦ (true, send_text m (literal "AT\r\n"))
        | echo_off ↦ (true, send_text m (literal "ATE0\r\n"))
        | syslog ↦ (true, send_text m (literal "AT+SYSLOG=1\r\n"))
        | wifi_mode ↦ (true, send_text m (literal "AT+CWMODE=1\r\n"))
        | wifi_join ↦ format_and_send m (
            literal "AT+CWJAP=\""
            ++ c.config.wifi_ssid
            ++ literal "\",\""
            ++ c.config.wifi_password
            ++ literal "\"\r\n")
        | mqtt_clean ↦ (true, send_text m (literal "AT+MQTTCLEAN=0\r\n"))
        | mqtt_config ↦ format_and_send m (
            literal "AT+MQTTUSERCFG=0,1,\""
            ++ c.config.client_id
            ++ literal "\",\""
            ++ c.config.thingsboard_token
            ++ literal "\",\"\",0,0,\"\"\r\n")
        | mqtt_connect ↦ format_and_send m (
            literal "AT+MQTTCONN=0,\""
            ++ c.config.mqtt_host
            ++ literal "\","
            ++ decimal c.config.mqtt_port
            ++ literal ",0\r\n")
        | mqtt_subscribe ↦
            (true, send_text m (literal "AT+MQTTSUB=0,\"v1/devices/me/rpc/request/+\",0\r\n"))
        | mqtt_announce ↦
            if c.attached
            then format_and_send m (announcement c m.cloud m.update.metadata)
            else (true, send_text m online_telemetry)
        | other ↦ (false, m)
      ]
