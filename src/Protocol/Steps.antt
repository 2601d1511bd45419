-- ===== src/Protocol/Steps.antt =====
-- One byte in each state of the parser.
use tm4c123gxl_ota.Base.{
  ℕ, suc, ◌≤◌, ◌<◌, List, [], ◌∷◌, ◌++◌, none, some, ◌≡◌, get_or, length, arith, length-set,
  take-set_filled, set_filled, ◌&&◌, join32, length-snoc, append_assoc, append-nil, ◌==◌,
  if◌then◌else◌,
}
use tm4c123gxl_ota.Config.{protocol_sof0, protocol_max_payload_size, protocol_version}
use tm4c123gxl_ota.Crc32
use tm4c123gxl_ota.Protocol.{
  Parser, ParserState, ParseResult, sof0, sof1, more, bad_crc, dispatch, header_complete,
  crc_complete, parser_restart,
}
use tm4c123gxl_ota.Protocol.Stages.{Shape, declared, InHeader, InPayload, InCrc}

-- A header byte that is not the last.
pub header_step :
    (p : Parser) (hs : List ℕ) (b : ℕ)
    → Shape p
    → InHeader p hs
    → length hs < 5
    → let c = dispatch ParserState.header p b in
      Shape c.0 × InHeader c.0 (hs ++ b ∷ []) × (c.1 ≡ more) × (c.2 ≡ none)
unfolding dispatch
header_step p hs b sh st lt =
    ground (
      arith,
      length-snoc hs b,
      length-set p.header p.index b,
      take-set_filled p.header hs p.index b,
    )

-- A payload byte that is not the last.
pub payload_step :
    (p : Parser) (hs ps : List ℕ) (b : ℕ)
    → Shape p
    → InPayload p hs ps
    → suc (length ps) < declared hs
    → let c = dispatch ParserState.payload p b in
      Shape c.0 × InPayload c.0 hs (ps ++ b ∷ []) × (c.1 ≡ more) × (c.2 ≡ none)
unfolding dispatch
payload_step p hs ps b sh st lt = ground (
  arith,
  length-snoc ps b,
  length-set p.packet.payload p.index b,
  take-set_filled p.packet.payload ps p.index b,
  Crc32.update-append Crc32.init (hs ++ ps) (b ∷ []),
  append_assoc hs ps (b ∷ []),
)

-- The last payload byte.
pub payload_last :
    (p : Parser) (hs ps : List ℕ) (b : ℕ)
    → Shape p
    → InPayload p hs ps
    → suc (length ps) ≡ declared hs
    → let c = dispatch ParserState.payload p b in
      Shape c.0 × InCrc c.0 hs (ps ++ b ∷ []) [] × (c.1 ≡ more) × (c.2 ≡ none)
unfolding dispatch
payload_last p hs ps b sh st lt = ground (
  arith,
  length-snoc ps b,
  length-set p.packet.payload p.index b,
  take-set_filled p.packet.payload ps p.index b,
  Crc32.update-append Crc32.init (hs ++ ps) (b ∷ []),
  append_assoc hs ps (b ∷ []),
)

-- A checksum byte that is not the last.
pub crc_step :
    (p : Parser) (hs ps cs : List ℕ) (b : ℕ)
    → Shape p
    → InCrc p hs ps cs
    → length cs < 3
    → let c = dispatch ParserState.crc p b in
      Shape c.0 × InCrc c.0 hs ps (cs ++ b ∷ []) × (c.1 ≡ more) × (c.2 ≡ none)
unfolding dispatch
crc_step p hs ps cs b sh st lt = ground (
  arith,
  length-snoc cs b,
  length-set p.crc_bytes p.index b,
  take-set_filled p.crc_bytes cs p.index b,
)

-- The last header byte, with a declared length that fits: the payload or the checksum is next.
pub header_last_payload :
    (p : Parser) (hs : List ℕ) (b : ℕ)
    → Shape p
    → InHeader p hs
    → length hs ≡ 5
    → declared (hs ++ b ∷ []) ≤ protocol_max_payload_size
    → 0 < declared (hs ++ b ∷ [])
    → let c = dispatch ParserState.header p b in
      Shape c.0 × InPayload c.0 (hs ++ b ∷ []) [] × (c.1 ≡ more) × (c.2 ≡ none)
unfolding dispatch header_complete
header_last_payload p hs b sh st last fits some_bytes =
    ground (arith, length-snoc hs b, set_filled p.header hs p.index b, append-nil (hs ++ b ∷ []))

-- The last header byte, with a declared length of zero: the checksum is next.
pub header_last_crc :
    (p : Parser) (hs : List ℕ) (b : ℕ)
    → Shape p
    → InHeader p hs
    → length hs ≡ 5
    → declared (hs ++ b ∷ []) ≡ 0
    → let c = dispatch ParserState.header p b in
      Shape c.0 × InCrc c.0 (hs ++ b ∷ []) [] [] × (c.1 ≡ more) × (c.2 ≡ none)
unfolding dispatch header_complete
header_last_crc p hs b sh st last empty =
    ground (arith, length-snoc hs b, set_filled p.header hs p.index b, append-nil (hs ++ b ∷ []))

-- The last header byte, with a declared length that is too long: the parser starts again.
pub header_last_long :
    (p : Parser) (hs : List ℕ) (b : ℕ)
    → Shape p
    → InHeader p hs
    → length hs ≡ 5
    → protocol_max_payload_size < declared (hs ++ b ∷ [])
    → let c = dispatch ParserState.header p b in
      Shape c.0
      × (c.0.state ≡ (if b == protocol_sof0 then sof1 else sof0))
      × (c.1 ≡ ParseResult.bad_length)
      × (c.2 ≡ none)
unfolding dispatch header_complete parser_restart
header_last_long p hs b sh st last long =
    ground (arith, length-snoc hs b, set_filled p.header hs p.index b)

-- The checksum that four bytes spell.
abbrev pub spelled : List ℕ → ℕ
spelled cs = join32 (get_or cs 0 0) (get_or cs 1 0) (get_or cs 2 0) (get_or cs 3 0)

-- The last checksum byte: a packet is reported exactly if the version and the checksum are right.
pub crc_last :
    (p : Parser) (hs ps cs : List ℕ) (b : ℕ)
    → Shape p
    → InCrc p hs ps cs
    → length cs ≡ 3
    → let c = dispatch ParserState.crc p b in
      let good =
        (get_or hs 0 0 == protocol_version) && (Crc32.crc32 (hs ++ ps) == spelled (cs ++ b ∷ [])) in
      Shape c.0
      × (c.0.state ≡ (if b == protocol_sof0 then sof1 else sof0))
      × (c.1 ≡ (if good then ParseResult.packet else bad_crc))
      × (c.2 ≡ (if good then some p.packet else none))
unfolding dispatch crc_complete parser_restart Crc32.crc32
crc_last p hs ps cs b sh st last =
    ground (arith, length-snoc cs b, set_filled p.crc_bytes cs p.index b)
