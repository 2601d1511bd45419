-- ===== src/Controller/Retry.antt =====
-- tm4c_uart_esp32_bridge/esp_at_controller.c: the way into the RETRY state, the timer's tick, and
-- the step to the next state of the setup.
use tm4c123gxl_ota.Base.{ℕ, ◌+◌, [], true, false, ◌&&◌, not, ltb, leb, if◌then◌else◌, sub32}
use tm4c123gxl_ota.Config.{max_retries}
use tm4c123gxl_ota.Text.{Text}
use tm4c123gxl_ota.CloudOta.{abort}
use tm4c123gxl_ota.Update.{Services}
use tm4c123gxl_ota.Controller.{
  AtState, Machine, sync, echo_off, syslog, wifi_mode, wifi_join, mqtt_clean, mqtt_config,
  mqtt_connect, mqtt_subscribe, mqtt_announce, online, ota_clear_header, retry, literal,
  log_message, send_text, is_state, state_code, session_of, with_session, with_controller,
  retry_delay,
}
use tm4c123gxl_ota.Controller.Command.{timeout_message, command_timeout_ms, send_state_command}

-- `state + 1`, for the states in front of MQTT_ANNOUNCE.
abbrev pub next_state : AtState → AtState
next_state sync = echo_off
next_state echo_off = syslog
next_state syslog = wifi_mode
next_state wifi_mode = wifi_join
next_state wifi_join = mqtt_clean
next_state mqtt_clean = mqtt_config
next_state mqtt_config = mqtt_connect
next_state mqtt_connect = mqtt_subscribe
next_state mqtt_subscribe = mqtt_announce
next_state other = other

module _ {S : Type 0} (services : Services S) where
  -- `enter_retry`
  unfoldable pub enter_retry : Machine S → ℕ → Text → Machine S
  enter_retry m now_ms reason =
      let c = m.controller in
      let count = if ltb c.retry_count max_retries then c.retry_count + 1 else c.retry_count in
      let aborted = with_session m (abort services (session_of m)) in
      let failed = with_controller aborted (record c {
        ota_error_pending = if c.ota_requested then 1 else c.ota_error_pending;
        state = retry;
        state_started_ms = now_ms;
        command_sent = false;
        line = [];
        retry_count = count;
      }) in
      let logged = log_message failed reason in
      if leb max_retries count then log_message logged (literal "AT_RETRY_EXHAUSTED") else logged

  -- The part of `esp_at_controller_tick` behind the first test.
  unfoldable pub tick_command : Machine S → ℕ → Machine S
  tick_command m now_ms =
      let c = m.controller in
      let (sent, after) = send_state_command m in
      if not (is_state c.state online)
        && c.command_sent
        && ltb (command_timeout_ms c.state) (sub32 now_ms c.state_started_ms)
      then enter_retry m now_ms (timeout_message c.state)
      else if not (is_state c.state online) && not c.command_sent
      then (if sent
          then with_controller after
              (record after.controller { command_sent = true; state_started_ms = now_ms })
          else enter_retry after now_ms (literal "AT_COMMAND_FAILED"))
      else m

  -- `esp_at_controller_tick`
  unfoldable pub tick : Machine S → ℕ → Machine S
  tick m now_ms =
      let c = m.controller in
      let restarted =
        with_controller m
          (record c { state = sync; command_sent = false; state_started_ms = now_ms }) in
      if is_state c.state retry
      then (if leb max_retries c.retry_count
          then m
          else if ltb (sub32 now_ms c.state_started_ms) retry_delay
          then m
          else tick_command restarted now_ms)
      else tick_command m now_ms

  -- `advance_state`
  unfoldable pub advance_state : Machine S → ℕ → Machine S
  advance_state m now_ms =
      let c = m.controller in
      let onward =
        tick
          (with_controller m (record c {
            state = next_state c.state;
            command_sent = false;
            state_started_ms = now_ms;
          }))
          now_ms in
      if ltb (state_code c.state) (state_code mqtt_announce)
      then onward
      else if is_state c.state mqtt_announce
      then (if c.ota_requested
          then log_message
              (send_text
                (with_controller m (record c {
                  state = ota_clear_header;
                  command_sent = true;
                  state_started_ms = now_ms;
                  ota_size_pending = false;
                  ota_body_pending = false;
                  ota_error_pending = 0;
                }))
                (literal "AT+HTTPCHEAD=0\r\n"))
              (literal "OTA_RETRY_FROM_ZERO")
          else log_message
              (with_controller m (record c {
                state = online;
                command_sent = false;
                state_started_ms = now_ms;
                retry_count = 0;
              }))
              (literal "MQTT_RPC_READY"))
      else m
