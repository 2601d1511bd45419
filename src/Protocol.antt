-- ===== src/Protocol.antt =====
-- tm4c123gxl/common/src/ota_protocol.c: the framing of packets on the serial link. A frame is
-- 55 AA, then the body (version, command, sequence, length, payload), then the body's CRC-32.
pub mod Frame
pub mod Stages
pub mod Steps
pub mod Advance
pub mod Sound
pub mod Runs
pub mod Complete
pub mod Safe
use tm4c123gxl_ota.Base.{
  ℕ, ◌+◌, ◌-◌, ◌*◌, ◌/◌, ◌%◌, ◌^◌, List, [], ◌∷◌, ◌++◌, Option, none, some, Bool, true, false, ◌&&◌,
  ◌||◌, ltb, ◌==◌, ◌!=◌, if◌then◌else◌, u8, u16, sub32, le16, le32, join16, join32, get_or, set,
  take, replicate, length,
}
use tm4c123gxl_ota.Config.{
  protocol_sof0, protocol_sof1, protocol_version, protocol_max_payload_size, packet_timeout_ms,
}
use tm4c123gxl_ota.Crc32

-- `ota_command_t`
abbrev pub cmd_get_info : ℕ
cmd_get_info = 1

abbrev pub cmd_start_update : ℕ
cmd_start_update = 2

abbrev pub cmd_data : ℕ
cmd_data = 3

abbrev pub cmd_end_update : ℕ
cmd_end_update = 4

abbrev pub cmd_abort : ℕ
cmd_abort = 5

abbrev pub cmd_ack : ℕ
cmd_ack = 6

abbrev pub cmd_nack : ℕ
cmd_nack = 7

abbrev pub cmd_reset : ℕ
cmd_reset = 8

-- `ota_packet_t`; `payload` is the whole array of 256 bytes.
pub record Packet : Type 0 where
  pub command : ℕ
  pub sequence : ℕ
  pub length : ℕ
  pub payload : List ℕ

-- `ota_protocol_result_t` without the refusal of null pointers.
pub data EncodeResult : Type 0 where
  ok bad_length no_space : EncodeResult

-- `ota_parse_result_t`
pub data ParseResult : Type 0 where
  more packet bad_crc bad_length timeout : ParseResult

-- `ota_parser_state_t`
pub data ParserState : Type 0 where
  sof0 sof1 header payload crc : ParserState

-- `ota_parser_t`
pub record Parser : Type 0 where
  pub state : ParserState
  pub header : List ℕ
  pub crc_bytes : List ℕ
  pub index : ℕ
  pub payload_length : ℕ
  pub running_crc : ℕ
  pub last_byte_ms : ℕ
  pub packet : Packet

-- The bytes that `ota_packet_encode` stores at `output[2]`, up to the checksum.
unfoldable pub body : Packet → List ℕ
body p =
    (protocol_version ∷ p.command ∷ le16 p.sequence) ++ le16 p.length ++ take p.length p.payload

-- `ota_packet_encode` with its result, the bytes that it stores at `output`, and `*written`.
unfoldable pub encode : Packet → ℕ → EncodeResult × List ℕ × Option ℕ
encode p capacity =
    if ltb protocol_max_payload_size p.length
    then (EncodeResult.bad_length, [], none)
    else let frame_size = 12 + p.length in
      if ltb capacity frame_size
      then (no_space, [], none)
      else let sum = Crc32.crc32 (body p) in
        (ok, (protocol_sof0 ∷ protocol_sof1 ∷ body p) ++ le32 sum, some frame_size)

abbrev pub zero_packet : Packet
zero_packet = record { command = 0; sequence = 0; length = 0; payload = replicate 256 0 }

-- `ota_parser_init`
abbrev pub parser_init : Parser
parser_init = record {
  state = sof0;
  header = replicate 6 0;
  crc_bytes = replicate 4 0;
  index = 0;
  payload_length = 0;
  running_crc = 0;
  last_byte_ms = 0;
  packet = zero_packet;
}

-- `parser_restart`
unfoldable pub parser_restart : Parser → ℕ → Parser
parser_restart p byte = record p { state = if byte == protocol_sof0 then sof1 else sof0; index = 0 }

-- What a call of `ota_parser_consume` gives: the parser after it, the result, and what it stores
-- at `*packet`, if anything.
abbrev pub Consumed : Type 0
Consumed = Parser × ParseResult × Option Packet

-- The sixth byte of the header is in.
unfoldable pub header_complete : Parser → ℕ → Consumed
header_complete p byte =
    let payload_length : ℕ = join16 (get_or p.header 4 0) (get_or p.header 5 0) in
    let q = record p { payload_length = payload_length } in
    if ltb protocol_max_payload_size payload_length
    then (parser_restart q byte, ParseResult.bad_length, none)
    else (
      record q {
        packet = record p.packet {
          command = get_or p.header 1 0;
          sequence = join16 (get_or p.header 2 0) (get_or p.header 3 0);
          length = payload_length;
        };
        running_crc = Crc32.update Crc32.init p.header;
        index = 0;
        state = if payload_length == 0 then crc else payload;
      },
      more,
      none,
    )

-- The fourth byte of the checksum is in.
unfoldable pub crc_complete : Parser → ℕ → Consumed
crc_complete p byte =
    let expected = Crc32.finish p.running_crc in
    let received : ℕ =
      join32 (get_or p.crc_bytes 0 0) (get_or p.crc_bytes 1 0) (get_or p.crc_bytes 2 0)
        (get_or p.crc_bytes 3 0) in
    let completed = p.packet in
    let q = parser_restart p byte in
    if (get_or q.header 0 0 != protocol_version) || (expected != received)
    then (q, bad_crc, none)
    else (q, ParseResult.packet, some completed)

-- The `switch`. The enumeration has no other value, so its `default` is not reached.
unfoldable pub dispatch : ParserState → Parser → ℕ → Consumed
dispatch sof0 p byte = (if byte == protocol_sof0 then record p { state = sof1 } else p, more, none)
dispatch sof1 p byte = (
  if byte == protocol_sof1 then record p { state = header; index = 0 } else parser_restart p byte,
  more,
  none,
)
dispatch header p byte =
    let q = record p { header = set p.header p.index byte; index = u16 (p.index + 1) } in
    if q.index == 6 then header_complete q byte else (q, more, none)
dispatch payload p byte =
    let q = record p {
      packet = record p.packet { payload = set p.packet.payload p.index byte };
      index = u16 (p.index + 1);
      running_crc = Crc32.update p.running_crc (byte ∷ []);
    } in
    (if q.index == q.payload_length then record q { index = 0; state = crc } else q, more, none)
dispatch crc p byte =
    let q = record p { crc_bytes = set p.crc_bytes p.index byte; index = u16 (p.index + 1) } in
    if q.index == 4 then crc_complete q byte else (q, more, none)

abbrev pub is_sof0 : ParserState → Bool
is_sof0 sof0 = true
is_sof0 _ = false

unfoldable pub is_late : Parser → ℕ → Bool
is_late p now_ms =
    if is_sof0 p.state then false else ltb packet_timeout_ms (sub32 now_ms p.last_byte_ms)

-- `ota_parser_consume`
unfoldable pub consume : Parser → ℕ → ℕ → Consumed
consume p byte now_ms =
    if is_late p now_ms
    then (record (parser_restart p byte) { last_byte_ms = now_ms }, timeout, none)
    else dispatch p.state (record p { last_byte_ms = now_ms }) byte

-- A byte and the time of its arrival, for each call in turn; the packets that the calls report.
unfoldable pub feed : Parser → List (ℕ × ℕ) → Parser × List Packet
feed p [] = (p, [])
feed p ((byte, now_ms) ∷ rest) =
    let (q, result, out) = consume p byte now_ms in
    let (r, later) = feed q rest in (r, elim out [ none ↦ later | some one ↦ one ∷ later ])
