-- ===== src/Http.antt =====
-- tm4c_uart_esp32_bridge/esp_at_http.c and esp_at_http.h: the commands of the modem's HTTP client,
-- the size that it reports, and the stream of a body that it hands over. The consumer of the body
-- is an argument, over a state of the type `T`; it says whether it accepted the bytes.
pub mod Size
pub mod Body
pub mod Deliver
pub mod Keeps
use Prim.Native.String.{String}
use tm4c123gxl_ota.Base.{
  ℕ, zero, suc, ◌+◌, ◌-◌, ◌*◌, ◌/◌, ◌%◌, ◌^◌, List, [], ◌∷◌, ◌++◌, Option, none, some, Bool, true,
  false, ◌&&◌, ◌||◌, not, ltb, leb, ◌==◌, ◌!=◌, if◌then◌else◌, u32, length, take, drop,
}
use tm4c123gxl_ota.Text.{Text, codes, c_string, head_char, is_digit, starts_with, printed, fits}

abbrev pub frame_size : ℕ
frame_size = 32

-- `esp_at_http_result_t`
pub data HttpResult : Type 0 where
  ok more done invalid too_large sink_error : HttpResult

-- `esp_at_http_command_t`
pub data HttpCommand : Type 0 where
  get_size get_body : HttpCommand

abbrev pub size_prefix : Text
size_prefix = codes "+HTTPGETSIZE:"

abbrev pub body_prefix : Text
body_prefix = codes "+HTTPCGET:"

abbrev pub is_safe_byte : ℕ → Bool
is_safe_byte byte = not (
    leb byte 0x20
    || (byte == b'"')
    || (byte == b'\\')
    || (byte == b'?')
    || (byte == b'&')
    || (byte == b'#'))

unfoldable pub all_safe : Text → Bool
all_safe [] = true
all_safe (byte ∷ rest) = if not (is_safe_byte byte) then false else all_safe rest

-- `component_is_safe`
unfoldable pub component_is_safe : Text → Bool
component_is_safe [] = false
component_is_safe (byte ∷ rest) = all_safe (byte ∷ rest)

abbrev pub url_text : Text → Text → Text → Text → Text
url_text host token title version =
    codes "https://"
    ++ host
    ++ codes "/api/v1/"
    ++ token
    ++ codes "/firmware?title="
    ++ title
    ++ codes "&version="
    ++ version

-- `esp_at_http_build_url`, with what it stores at `output`, if anything.
unfoldable pub build_url : Text → Text → Text → Text → ℕ → HttpResult × Option Text
build_url host token title version output_size =
    if (output_size == 0)
      || not (component_is_safe host)
      || not (component_is_safe token)
      || not (component_is_safe title)
      || not (component_is_safe version)
    then (invalid, none)
    else let url = url_text host token title version in
      (if fits output_size url then ok else too_large, some (printed output_size url))

abbrev pub command_name : HttpCommand → Text
command_name get_size = codes "HTTPGETSIZE"
command_name get_body = codes "HTTPCGET"

-- `esp_at_http_build_command`, with what it stores at `output`, if anything.
unfoldable pub build_command : HttpCommand → Text → ℕ → HttpResult × Option Text
build_command command url output_size =
    if (output_size == 0) || leb 256 (length url)
    then (invalid, none)
    else let text = codes "AT+" ++ command_name command ++ codes "=\"" ++ url ++ codes "\"\r\n" in
      (if fits output_size text then ok else too_large, some (printed output_size text))

abbrev pub size_max : ℕ
size_max = 2 ^ 32 - 1

-- The loop of `parse_positive_size`: the value and the text behind the digits, or none where the
-- value would wrap.
unfoldable pub parse_digits : Text → ℕ → Option (ℕ × Text)
parse_digits [] parsed = some (parsed, [])
parse_digits (c ∷ s) parsed =
    let digit = c - b'0' in
    if not (is_digit c)
    then some (parsed, c ∷ s)
    else if ltb ((size_max - digit) / 10) parsed
    then none
    else parse_digits s (u32 (parsed * 10 + digit))

-- `parse_positive_size`
unfoldable pub parse_positive_size : Text → ℕ → Option ℕ
parse_positive_size text terminator =
    if not (is_digit (head_char text)) then none else elim (parse_digits text 0) [
      | none ↦ none
      | some (parsed, rest) ↦
          if (head_char rest != terminator) || (parsed == 0) then none else some parsed
    ]

-- `esp_at_http_parse_size`; none for INVALID.
unfoldable pub parse_size : Text → Option ℕ
parse_size line =
    if not (starts_with size_prefix line)
    then none
    else parse_positive_size (drop (length size_prefix) line) 0

-- `esp_at_http_stream_t`; `frame` holds the bytes stored so far, `frame_length` of them, and
-- `has_data` says whether there is a consumer.
pub record Stream : Type 0 where
  pub expected_size : ℕ
  pub remaining : ℕ
  pub frame : List ℕ
  pub has_data : Bool
  pub body_mode : Bool

-- `esp_at_http_stream_init`
abbrev pub stream_init : ℕ → Stream
stream_init expected_size = record {
  expected_size = expected_size;
  remaining = 0;
  frame = [];
  has_data = true;
  body_mode = false;
}

-- `accept_frame`
unfoldable pub accept_frame : Stream → HttpResult × Stream
accept_frame stream =
    let text = c_string stream.frame in
    if not (starts_with body_prefix text)
    then (invalid, stream)
    else elim (parse_positive_size (drop (length body_prefix) text) b',') [
      | none ↦ (invalid, stream)
      | some declared ↦
          if declared != stream.expected_size
          then (invalid, stream)
          else (more, record stream { remaining = declared; body_mode = true })
    ]

-- The loop of `esp_at_http_stream_feed`: its result if it returns, and the bytes behind the frame.
unfoldable pub feed_frame : Stream → List ℕ → HttpResult × Stream × List ℕ
feed_frame stream [] = (more, stream, [])
feed_frame stream (byte ∷ rest) =
    if stream.body_mode
    then (more, stream, byte ∷ rest)
    else if leb frame_size (length stream.frame + 1)
    then (too_large, stream, byte ∷ rest)
    else let stored = record stream { frame = stream.frame ++ byte ∷ [] } in
      let (result, accepted) = accept_frame stored in
      let onward = feed_frame stored rest in
      let behind = feed_frame accepted rest in
      if byte != b','
      then onward
      else elim result [ more ↦ behind | other ↦ (other, accepted, rest) ]

-- The part behind the loop.
unfoldable pub feed_body :
    {T : Type 0} → (T → List ℕ → Bool × T) → Stream → T → List ℕ → HttpResult × Stream × T
feed_body sink stream t bytes =
    let accepted = take stream.remaining bytes in
    let (took, after) = if length accepted != 0 then sink t accepted else (true, t) in
    let left = record stream { remaining = stream.remaining - length accepted } in
    if not stream.body_mode || (length bytes == 0)
    then (if stream.body_mode && (stream.remaining == 0) then done else more, stream, t)
    else if not took
    then (sink_error, stream, after)
    else (if left.remaining == 0 then done else more, left, after)

-- `esp_at_http_stream_feed`
unfoldable pub stream_feed :
    {T : Type 0} → (T → List ℕ → Bool × T) → Stream → T → List ℕ → HttpResult × Stream × T
stream_feed sink stream t bytes =
    let (result, framed, rest) = feed_frame stream bytes in
    if not stream.has_data || (stream.expected_size == 0)
    then (invalid, stream, t)
    else elim result [ more ↦ feed_body sink framed t rest | other ↦ (other, framed, t) ]
