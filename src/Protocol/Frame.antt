-- ===== src/Protocol/Frame.antt =====
-- The bytes of a packet on the wire, and the fields that they spell.
use tm4c123gxl_ota.Base.{
  ℕ, ◌+◌, ◌≤◌, ◌<◌, ◌^◌, List, [], ◌∷◌, ◌++◌, some, ◌≡◌, ap, ◌∙◌, get_or, take, length, arith, All,
  IsByte, le16, le32, join16, join32,
}
use tm4c123gxl_ota.Config.{
  protocol_sof0, protocol_sof1, protocol_version, protocol_max_payload_size,
}
use tm4c123gxl_ota.Crc32
use tm4c123gxl_ota.Protocol.{Packet, ok, body, encode}

-- What `ota_packet_encode` stores for a packet that fits.
abbrev pub frame : Packet → List ℕ
frame p = protocol_sof0 ∷ protocol_sof1 ∷ (body p ++ le32 (Crc32.crc32 (body p)))

-- A packet with fields of their widths and the whole payload array.
pub record IsPacket (p : Packet) : Type 0 where
  pub command : IsByte p.command
  pub sequence : p.sequence < 2 ^ 16
  pub fits : p.length ≤ protocol_max_payload_size
  pub array : length p.payload ≡ protocol_max_payload_size
  pub bytes : All IsByte p.payload

pub encode-frame :
    (p : Packet) (capacity : ℕ)
    → p.length ≤ protocol_max_payload_size
    → 12 + p.length ≤ capacity
    → encode p capacity ≡ (ok, frame p, some (12 + p.length))
unfolding encode
encode-frame p capacity fits room = ground arith

le16-join16 : (a b : ℕ) → IsByte a → IsByte b → le16 (join16 a b) ≡ a ∷ b ∷ []
le16-join16 a b ha hb = ground arith

le32-join32 :
    (a b c d : ℕ)
    → IsByte a
    → IsByte b
    → IsByte c
    → IsByte d
    → le32 (join32 a b c d) ≡ a ∷ b ∷ c ∷ d ∷ []
le32-join32 a b c d ha hb hc hd = ground arith

-- A packet read from six header bytes and a payload has these bytes as its body.
pub body_of_header :
    (p : Packet) (hs ps : List ℕ)
    → length hs ≡ 6
    → All IsByte hs
    → get_or hs 0 0 ≡ protocol_version
    → p.command ≡ get_or hs 1 0
    → p.sequence ≡ join16 (get_or hs 2 0) (get_or hs 3 0)
    → p.length ≡ join16 (get_or hs 4 0) (get_or hs 5 0)
    → take p.length p.payload ≡ ps
    → body p ≡ hs ++ ps
unfolding body
body_of_header p (h0 ∷ h1 ∷ h2 ∷ h3 ∷ h4 ∷ h5 ∷ []) ps six bytes version command sequence length_is
      payload_is =
    rw (payload_is, command, sequence, length_is) (ground arith)
body_of_header p _ ps six bytes version command sequence length_is payload_is = absurd (omega arith)

pub le32_spelled :
    (cs : List ℕ) (v : ℕ)
    → length cs ≡ 4
    → All IsByte cs
    → v ≡ join32 (get_or cs 0 0) (get_or cs 1 0) (get_or cs 2 0) (get_or cs 3 0)
    → le32 v ≡ cs
le32_spelled (a ∷ b ∷ c ∷ d ∷ []) v four bytes e =
    ap le32 e ∙ le32-join32 a b c d bytes.0 bytes.1.0 bytes.1.1.0 bytes.1.1.1.0
le32_spelled _ v four bytes e = absurd (omega arith)
