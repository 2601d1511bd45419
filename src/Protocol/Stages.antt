-- ===== src/Protocol/Stages.antt =====
-- How far a parser has come in a frame, and which bytes of the frame it has taken.
use tm4c123gxl_ota.Base.{ℕ, ◌≤◌, ◌<◌, List, [], ◌∷◌, ◌++◌, ◌≡◌, join16, get_or, take, length}
use tm4c123gxl_ota.Config.{protocol_sof0, protocol_sof1, protocol_max_payload_size}
use tm4c123gxl_ota.Crc32
use tm4c123gxl_ota.Protocol.{Parser, ParserState, sof0, sof1}

-- The arrays of a parser have their declared sizes.
abbrev pub Shape : Parser → Type 0
Shape p =
    (length p.header ≡ 6)
    × (length p.crc_bytes ≡ 4)
    × (length p.packet.payload ≡ protocol_max_payload_size)

-- The payload length that six header bytes declare.
abbrev pub declared : List ℕ → ℕ
declared hs = join16 (get_or hs 4 0) (get_or hs 5 0)

-- The header bytes `hs`, fewer than six, are taken.
abbrev pub InHeader : Parser → List ℕ → Type 0
InHeader p hs =
    (p.state ≡ ParserState.header)
    × (p.index ≡ length hs)
    × (length hs < 6)
    × (take (length hs) p.header ≡ hs)

-- The whole header is taken, and the fields that depend on it are set.
abbrev pub Opened : Parser → List ℕ → Type 0
Opened p hs =
    (p.header ≡ hs)
    × (length hs ≡ 6)
    × (p.payload_length ≡ declared hs)
    × (declared hs ≤ protocol_max_payload_size)
    × (p.packet.command ≡ get_or hs 1 0)
    × (p.packet.sequence ≡ join16 (get_or hs 2 0) (get_or hs 3 0))
    × (p.packet.length ≡ declared hs)

-- The header and the payload bytes `ps`, not yet all of them, are taken.
abbrev pub InPayload : Parser → List ℕ → List ℕ → Type 0
InPayload p hs ps =
    (p.state ≡ ParserState.payload)
    × Opened p hs
    × (p.index ≡ length ps)
    × (length ps < declared hs)
    × (take (length ps) p.packet.payload ≡ ps)
    × (p.running_crc ≡ Crc32.update Crc32.init (hs ++ ps))

-- The header, the payload and the checksum bytes `cs`, fewer than four, are taken.
abbrev pub InCrc : Parser → List ℕ → List ℕ → List ℕ → Type 0
InCrc p hs ps cs =
    (p.state ≡ ParserState.crc)
    × Opened p hs
    × (length ps ≡ declared hs)
    × (take (length ps) p.packet.payload ≡ ps)
    × (p.running_crc ≡ Crc32.update Crc32.init (hs ++ ps))
    × (p.index ≡ length cs)
    × (length cs < 4)
    × (take (length cs) p.crc_bytes ≡ cs)

-- The bytes of a frame that a parser has taken: `seen`.
pub data Stage (p : Parser) (seen : List ℕ) : Type 0 where
  idle : p.state ≡ sof0 → seen ≡ [] → Stage p seen
  synced : p.state ≡ sof1 → seen ≡ protocol_sof0 ∷ [] → Stage p seen
  in_header :
      (hs : List ℕ) → InHeader p hs → seen ≡ protocol_sof0 ∷ protocol_sof1 ∷ hs → Stage p seen
  in_payload :
      (hs ps : List ℕ)
      → InPayload p hs ps
      → seen ≡ protocol_sof0 ∷ protocol_sof1 ∷ (hs ++ ps)
      → Stage p seen
  in_crc :
      (hs ps cs : List ℕ)
      → InCrc p hs ps cs
      → seen ≡ protocol_sof0 ∷ protocol_sof1 ∷ ((hs ++ ps) ++ cs)
      → Stage p seen
