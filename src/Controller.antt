-- ===== src/Controller.antt =====
-- tm4c_uart_esp32_bridge/esp_at_controller.h: the state of the controller that drives the modem,
-- and what its operations write and log. The children hold the operations of esp_at_controller.c.
-- The update that the source reaches through a pointer, and the store of its services, are in the
-- machine; `attached` says whether the pointer is set, and `has_ota_start` whether the callback is.
pub mod Command
pub mod Retry
pub mod Range
pub mod Calls
pub mod Lines
pub mod Receive
pub mod Diagram
pub mod Chunks
pub mod Tiling
pub mod Sound
pub mod Escape
pub mod Keeps
pub mod Exhausted
pub mod Reboot
pub mod Unattached
use Prim.Native.String.{String}
use tm4c123gxl_ota.Base.{
  ℕ, zero, suc, ◌+◌, ◌-◌, ◌*◌, ◌/◌, ◌%◌, ◌^◌, List, [], ◌∷◌, ◌++◌, Bool, true, false, ◌&&◌, ◌||◌,
  not, ltb, leb, ◌==◌, if◌then◌else◌, length, take,
}
use tm4c123gxl_ota.Types.{Version}
use tm4c123gxl_ota.Text.{Text, codes}
use tm4c123gxl_ota.Http.{Stream}
use tm4c123gxl_ota.CloudOta.{CloudResult, Cloud, Session, zero_cloud}
use tm4c123gxl_ota.Update.{Update}

abbrev pub command_timeout : ℕ
command_timeout = 5000

abbrev pub retry_delay : ℕ
retry_delay = 2000

abbrev pub line_size : ℕ
line_size = 384

abbrev pub url_size : ℕ
url_size = 256

-- `esp_at_state_t`
pub data AtState : Type 0 where
  sync echo_off syslog wifi_mode wifi_join mqtt_clean mqtt_config mqtt_connect mqtt_subscribe
        mqtt_announce online ota_clear_header ota_size ota_range_header ota_download retry :
      AtState

-- The numbers of the enumeration.
abbrev pub state_code : AtState → ℕ
state_code sync = 0
state_code echo_off = 1
state_code syslog = 2
state_code wifi_mode = 3
state_code wifi_join = 4
state_code mqtt_clean = 5
state_code mqtt_config = 6
state_code mqtt_connect = 7
state_code mqtt_subscribe = 8
state_code mqtt_announce = 9
state_code online = 10
state_code ota_clear_header = 11
state_code ota_size = 12
state_code ota_range_header = 13
state_code ota_download = 14
state_code retry = 15

abbrev pub is_state : AtState → AtState → Bool
is_state s t = state_code s == state_code t

-- `esp_at_controller_config_t`
pub record AtConfig : Type 0 where
  pub wifi_ssid : Text
  pub wifi_password : Text
  pub thingsboard_token : Text
  pub mqtt_host : Text
  pub mqtt_port : ℕ
  pub client_id : Text

-- `esp_at_controller_t`, without the session, which the machine holds; `line` holds the bytes
-- stored so far, `line_length` of them, and `firmware_url` the text in its buffer.
pub record Controller : Type 0 where
  pub config : AtConfig
  pub has_log : Bool
  pub has_ota_start : Bool
  pub state : AtState
  pub state_started_ms : ℕ
  pub command_sent : Bool
  pub http_binary : Bool
  pub ota_size_pending : Bool
  pub ota_body_pending : Bool
  pub range_header_stage : ℕ
  pub ota_chunk_complete : Bool
  pub ota_telemetry_pending : Bool
  pub ota_requested : Bool
  pub boot_confirmed : Bool
  pub ota_error_pending : ℕ
  pub retry_count : ℕ
  pub attached : Bool
  pub cloud_result : CloudResult
  pub http_stream : Stream
  pub firmware_url : Text
  pub remote_size : ℕ
  pub ota_offset : ℕ
  pub ota_chunk_size : ℕ
  pub requested_version : Version
  pub line : List ℕ

-- What the controller hands to its two sinks.
pub data Output : Type 0 where
  tx : Text → Output
  log : Text → Output

-- The controller, its session with the update that it points to and the store of the services, and
-- the outputs, latest first.
pub record Machine (S : Type 0) : Type 0 where
  pub controller : Controller
  pub cloud : Cloud
  pub update : Update
  pub store : S
  pub out : List Output

abbrev pub session_of : {S : Type 0} → Machine S → Session S
session_of m = (m.cloud, m.update, m.store)

abbrev pub with_session : {S : Type 0} → Machine S → Session S → Machine S
with_session m (c, u, s) = record m { cloud = c; update = u; store = s }

abbrev pub with_controller : {S : Type 0} → Machine S → Controller → Machine S
with_controller m c = record m { controller = c }

-- A message or a command that the source writes as a literal.
unfoldable pub literal : String → Text
literal s = codes s

-- `log_message`
abbrev pub log_message : {S : Type 0} → Machine S → Text → Machine S
log_message m message = record m {
  out = if m.controller.has_log then log message ∷ m.out else m.out;
}

-- `send_text`
abbrev pub send_text : {S : Type 0} → Machine S → Text → Machine S
send_text m text = record m { out = tx text ∷ m.out }

abbrev pub zero_stream : Stream
zero_stream = record {
  expected_size = 0;
  remaining = 0;
  frame = [];
  has_data = false;
  body_mode = false;
}

-- `esp_at_controller_init`: the controller, and its session.
abbrev pub controller_init : AtConfig → Bool → ℕ → Controller × Cloud
controller_init config has_log now_ms = (
  record {
    config = config;
    has_log = has_log;
    has_ota_start = false;
    state = sync;
    state_started_ms = now_ms;
    command_sent = false;
    http_binary = false;
    ota_size_pending = false;
    ota_body_pending = false;
    range_header_stage = 0;
    ota_chunk_complete = false;
    ota_telemetry_pending = false;
    ota_requested = false;
    boot_confirmed = false;
    ota_error_pending = 0;
    retry_count = 0;
    attached = false;
    cloud_result = CloudResult.ok;
    http_stream = zero_stream;
    firmware_url = [];
    remote_size = 0;
    ota_offset = 0;
    ota_chunk_size = 0;
    requested_version = record { major = 0; minor = 0; patch = 0 };
    line = [];
  },
  zero_cloud,
)

-- `esp_at_controller_ota_active`
unfoldable pub ota_active : Controller → Bool
ota_active c =
    is_state c.state ota_clear_header
    || is_state c.state ota_size
    || is_state c.state ota_range_header
    || is_state c.state ota_download

-- `esp_at_controller_state`
abbrev pub controller_state : Controller → AtState
controller_state c = c.state

-- `esp_at_controller_set_ota_start`
abbrev pub set_ota_start : Controller → Bool → Controller
set_ota_start c given = record c { has_ota_start = given }

-- `esp_at_controller_attach_update`
abbrev pub attach_update : Controller → Bool → Controller
attach_update c given = record c { attached = given }

-- `esp_at_controller_set_boot_confirmed`
abbrev pub set_boot_confirmed : Controller → Bool → Controller
set_boot_confirmed c confirmed = record c { boot_confirmed = confirmed }
