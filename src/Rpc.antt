-- ===== src/Rpc.antt =====
-- tm4c_uart_esp32_bridge/esp_at_rpc.c and esp_at_rpc.h: the requests that arrive over MQTT as lines
-- of the modem, and the answers. A line is the text in front of its terminating zero.
pub mod Compact
pub mod Bounds
pub mod Message
pub mod Line
use Prim.Native.String.{String}
use tm4c123gxl_ota.Base.{
  ℕ, zero, suc, ◌+◌, ◌-◌, ◌*◌, ◌/◌, ◌%◌, ◌^◌, List, [], ◌∷◌, ◌++◌, Option, none, some, Bool, true,
  false, ◌&&◌, ◌||◌, not, ltb, leb, ◌==◌, ◌!=◌, if◌then◌else◌, length, take, drop,
}
use tm4c123gxl_ota.Types.{Version}
use tm4c123gxl_ota.Text.{
  Text, codes, head_char, is_digit, same_text, starts_with, split_at, printed, fits,
}

abbrev pub request_id_size : ℕ
request_id_size = 16

abbrev pub topic_size : ℕ
topic_size = 96

-- `esp_at_rpc_result_t`
pub data RpcResult : Type 0 where
  ok invalid too_large unsupported : RpcResult

-- `esp_at_rpc_method_t`
pub data RpcMethod : Type 0 where
  get_info start_ota : RpcMethod

-- `esp_at_rpc_request_t`; the version's type has the fields of `ota_version_t`.
pub record RpcRequest : Type 0 where
  pub request_id : Text
  pub response_topic : Text
  pub method : RpcMethod
  pub version : Version

abbrev pub receive_prefix : Text
receive_prefix = codes "+MQTTSUBRECV:"

abbrev pub request_topic_prefix : Text
request_topic_prefix = codes "v1/devices/me/rpc/request/"

abbrev pub start_ota_prefix : Text
start_ota_prefix = codes "{\"method\":\"START_OTA\",\"params\":{\"version\":\""

abbrev pub is_blank : ℕ → Bool
is_blank byte = (byte == b' ') || (byte == b'\t') || (byte == b'\r') || (byte == b'\n')

-- Whether the loop of `compact_json` is in a string behind a byte that it keeps, and whether the
-- next byte is escaped there.
abbrev pub next_mode : Bool → Bool → ℕ → Bool × Bool
next_mode true true byte = (true, false)
next_mode true false byte =
    if byte == b'\\' then (true, true) else if byte == b'"' then (false, false) else (true, false)
next_mode false escaped byte = (byte == b'"', escaped)

-- The loop of `compact_json`: the bytes that it stores, and its two flags behind them.
unfoldable pub compact : Bool → Bool → Text → Text × Bool × Bool
compact in_string escaped [] = ([], in_string, escaped)
compact in_string escaped (byte ∷ rest) =
    let skipped = compact in_string escaped rest in
    let mode = next_mode in_string escaped byte in
    let (out, i, e) = compact mode.0 mode.1 rest in
    if not in_string && is_blank byte then skipped else (byte ∷ out, i, e)

-- `compact_json`: the text that it stores, if it succeeds.
unfoldable pub compact_json : Text → ℕ → Option Text
compact_json payload output_size =
    let (out, in_string, escaped) = compact false false payload in
    if ltb output_size (length payload + 1)
    then none
    else if not in_string && not escaped
    then some out
    else none

-- `payload_is_get_info`
unfoldable pub payload_is_get_info : Text → Bool
payload_is_get_info payload =
    if leb 96 (length payload) then false else elim (compact_json payload 96) [
      | none ↦ false
      | some copy ↦
          same_text copy (codes "{\"method\":\"GET_INFO\",\"params\":{}}")
          || same_text copy (codes "{\"command\":\"GET_INFO\"}")
    ]

-- The loop of `parse_version_component`: the value and the text behind the digits, or none where
-- the value exceeds 16 bits.
unfoldable pub component_digits : Text → ℕ → Option (ℕ × Text)
component_digits [] value = some (value, [])
component_digits (c ∷ s) value =
    let next = value * 10 + (c - b'0') in
    if not (is_digit c)
    then some (value, c ∷ s)
    else if ltb 65535 next
    then none
    else component_digits s next

-- `parse_version_component`: the component and where the cursor stands behind its terminator.
unfoldable pub version_component : Text → ℕ → Option (ℕ × Text)
version_component text terminator =
    if not (is_digit (head_char text)) then none else elim (component_digits text 0) [
      | none ↦ none
      | some (value, rest) ↦
          if head_char rest != terminator then none else some (value, drop 1 rest)
    ]

-- The three components, and the closing braces behind them.
unfoldable pub version_fields : Text → Option Version
version_fields field = elim (version_component field b'.') [
  | none ↦ none
  | some (major, field1) ↦ elim (version_component field1 b'.') [
    | none ↦ none
    | some (minor, field2) ↦ elim (version_component field2 b'"') [
      | none ↦ none
      | some (patch, field3) ↦
          if same_text field3 (codes "}}")
          then some (record { major = major; minor = minor; patch = patch })
          else none
    ]
  ]
]

-- `payload_parse_start_ota`
unfoldable pub payload_parse_start_ota : Text → Option Version
payload_parse_start_ota payload =
    if leb 128 (length payload) then none else elim (compact_json payload 128) [
      | none ↦ none
      | some copy ↦
          if not (starts_with start_ota_prefix copy)
          then none
          else version_fields (drop (length start_ota_prefix) copy)
    ]

-- `payload_looks_like_start_ota`
unfoldable pub payload_looks_like_start_ota : Text → Bool
payload_looks_like_start_ota payload = elim (compact_json payload 128) [
  | none ↦ false
  | some copy ↦ starts_with (codes "{\"method\":\"START_OTA\",") copy
]

-- The method of a payload, and the version if it carries one.
unfoldable pub parse_payload : Text → RpcResult × Option (RpcMethod × Version)
parse_payload payload =
    if payload_is_get_info payload
    then (ok, some (get_info, record { major = 0; minor = 0; patch = 0 }))
    else if payload_looks_like_start_ota payload
    then elim (payload_parse_start_ota payload) [
      | none ↦ (invalid, none)
      | some version ↦ (ok, some (start_ota, version))
    ]
    else (unsupported, none)

-- The loop over the declared length, which stops where a fifth digit has been read.
unfoldable pub length_digits : Text → ℕ → Option (ℕ × Text)
length_digits [] declared = some (declared, [])
length_digits (c ∷ s) declared =
    if not (is_digit c)
    then some (declared, c ∷ s)
    else if ltb 9999 declared
    then none
    else length_digits s (declared * 10 + (c - b'0'))

-- The part of `esp_at_rpc_parse` behind the topic: the payload, if it has the declared length.
unfoldable pub parse_length : Text → RpcResult × Text
parse_length tail =
    if (head_char tail != b',') || not (is_digit (head_char (drop 1 tail)))
    then (invalid, [])
    else elim (length_digits (drop 1 tail) 0) [
      | none ↦ (too_large, [])
      | some (declared, rest) ↦
          if (head_char rest != b',') || (length (drop 1 rest) != declared)
          then (invalid, [])
          else (ok, drop 1 rest)
    ]

-- The part of `esp_at_rpc_parse` at the topic: the request's id, and the text behind the topic.
unfoldable pub parse_topic : Text → RpcResult × Text × Text
parse_topic line = elim (split_at b'"' line) [
  | none ↦ (invalid, [], [])
  | some (before, behind) ↦ elim (split_at b'"' behind) [
    | none ↦ (invalid, [], [])
    | some (topic, tail) ↦
        let request_id = drop (length request_topic_prefix) topic in
        if leb (length topic) (length request_topic_prefix)
          || not (starts_with request_topic_prefix behind)
        then (invalid, [], [])
        else if leb request_id_size (length request_id)
        then (too_large, [], [])
        else (ok, request_id, tail)
  ]
]

abbrev pub response_topic_of : Text → Text
response_topic_of request_id = codes "v1/devices/me/rpc/response/" ++ request_id

-- `esp_at_rpc_parse`: the result, and the request where it is OK.
unfoldable pub parse : Text → RpcResult × Option RpcRequest
parse line =
    if not (starts_with receive_prefix line)
    then (invalid, none)
    else let (found, request_id, tail) = parse_topic line in
      let (sized, payload) = parse_length tail in
      let (read, method) = parse_payload payload in
      elim found [
        | ok ↦ elim sized [
          | ok ↦ elim method [
            | none ↦ (read, none)
            | some (what, version) ↦
                if not (fits topic_size (response_topic_of request_id))
                then (too_large, none)
                else (
                  ok,
                  some (record {
                    request_id = request_id;
                    response_topic = response_topic_of request_id;
                    method = what;
                    version = version;
                  }),
                )
          ]
          | other ↦ (other, none)
        ]
        | other ↦ (other, none)
      ]

abbrev pub response_body : RpcMethod → Text
response_body start_ota = codes "{\"accepted\":true}"
response_body get_info =
    codes "{\"app_version\":\"1.0.0\",\"bootloader_version\":\"1.0.0\",\"active_slot\":\"A\"}"

-- `esp_at_rpc_build_response`: the body, if it fits.
unfoldable pub build_response : RpcRequest → ℕ → RpcResult × Text
build_response request output_size =
    if head_char request.request_id == 0
    then (invalid, [])
    else if ltb output_size (length (response_body request.method) + 1)
    then (too_large, [])
    else (ok, response_body request.method)
