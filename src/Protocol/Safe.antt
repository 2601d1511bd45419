-- ===== src/Protocol/Safe.antt =====
-- The parser writes inside its arrays, whatever arrives.
use tm4c123gxl_ota.Base.{ℕ, ◌≤◌, ◌<◌, ◌≢◌, ◌⊎◌, arith, length-set}
use tm4c123gxl_ota.Config.{protocol_max_payload_size}
use tm4c123gxl_ota.Protocol.{
  Parser, ParserState, parser_init, consume, dispatch, is_late, header_complete, crc_complete,
  parser_restart,
}
use tm4c123gxl_ota.Protocol.Stages.{Shape}

-- The arrays have their sizes, and the next write is inside the array that the state writes to.
pub record IsValid (p : Parser) : Type 0 where
  pub shape : Shape p
  pub header_in : (p.state ≢ ParserState.header) ⊎ (p.index < 6)
  pub payload_in : (p.state ≢ ParserState.payload) ⊎ (p.index < p.payload_length)
  pub payload_fits :
      (p.state ≢ ParserState.payload) ⊎ (p.payload_length ≤ protocol_max_payload_size)
  pub crc_in : (p.state ≢ ParserState.crc) ⊎ (p.index < 4)

pub parser_init-IsValid : IsValid parser_init
parser_init-IsValid = ground arith

-- A call of `ota_parser_consume` with any byte at any time keeps a valid parser valid, so that no
-- byte is ever stored outside the array it goes to.
pub consume-IsValid : (p : Parser) (b now_ms : ℕ) → IsValid p → IsValid (consume p b now_ms).0
unfolding consume dispatch is_late header_complete crc_complete parser_restart
consume-IsValid p b now_ms v = ground (
  arith,
  length-set p.header p.index b,
  length-set p.crc_bytes p.index b,
  length-set p.packet.payload p.index b,
)
