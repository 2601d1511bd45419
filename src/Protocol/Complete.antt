-- ===== src/Protocol/Complete.antt =====
-- A frame that the encoder made is reported by the parser, whatever came before it.
use tm4c123gxl_ota.Base.{
  ℕ, ◌≤◌, List, [], ◌∷◌, none, ◌≡◌, sym, ap, ◌∙◌, subst, drop, get_or, length, arith, sub32,
}
use tm4c123gxl_ota.Config.{protocol_sof0, protocol_sof1, packet_timeout_ms}
use tm4c123gxl_ota.Protocol.{
  Packet, Parser, Consumed, sof1, dispatch, consume, parser_restart, is_late, body, encode, feed,
}
use tm4c123gxl_ota.Protocol.Frame.{frame, encode-frame, IsPacket}
use tm4c123gxl_ota.Protocol.Stages.{Shape, InHeader}
use tm4c123gxl_ota.Protocol.Sound.{bytes_of}
use tm4c123gxl_ota.Protocol.Runs.{OnTime, Ready, Delivers, feed_silent, header_run}

-- Between two frames the first byte of a frame brings the parser to SOF1, however late it is.
consume_sof0 :
    (p : Parser) (now_ms : ℕ)
    → Ready p
    → let c = consume p protocol_sof0 now_ms in
      Shape c.0 × (c.0.state ≡ sof1) × (c.0.last_byte_ms ≡ now_ms) × (c.2 ≡ none)
unfolding consume is_late dispatch parser_restart
consume_sof0 p now_ms ready = ground arith

consume_sof1 :
    (p : Parser) (now_ms : ℕ)
    → Shape p
    → p.state ≡ sof1
    → sub32 now_ms p.last_byte_ms ≤ packet_timeout_ms
    → let c = consume p protocol_sof1 now_ms in
      Shape c.0 × InHeader c.0 [] × (c.0.last_byte_ms ≡ now_ms) × (c.2 ≡ none)
unfolding consume is_late dispatch
consume_sof1 p now_ms sh st t = ground arith

-- The bytes of the frame that `ota_packet_encode` makes of a packet with fields of their widths, each
-- within the time limit after the one before it, make a parser that is between two frames report exactly one packet, with
-- the command, the sequence number, the length and the payload bytes of that packet, and leave the
-- parser between two frames.
pub feed_complete :
    (src : Packet) (p : Parser) (now_ms : ℕ) (input : List (ℕ × ℕ))
    → IsPacket src
    → Ready p
    → OnTime now_ms input
    → protocol_sof0 ∷ bytes_of input ≡ (encode src 268).1
    → Delivers src (feed p ((protocol_sof0, now_ms) ∷ input))
unfolding body
feed_complete src p now_ms [] is ready t e = absurd (
    omega (
      arith,
      ap length (e ∙ ap (λ r. r.1) (encode-frame src 268 is.fits (omega (arith, is.fits)))),
    ))
feed_complete src p now_ms ((b, later_ms) ∷ rest) is ready t e =
    subst (Delivers src) (sym (feed_silent p protocol_sof0 now_ms ((b, later_ms) ∷ rest) first.3)) (
      subst (λ x. Delivers src (feed c.0 ((x, later_ms) ∷ rest))) (sym second_byte)
        (subst (Delivers src) (sym (feed_silent c.0 protocol_sof1 later_ms rest second.3)) (
          header_run src is d.0 [] rest second.0 second.1
            (subst (λ m. OnTime m rest) (sym second.2) t.1) (ap (drop 2) framed))))
  where
    framed : protocol_sof0 ∷ b ∷ bytes_of rest ≡ frame src
    framed = e ∙ ap (λ r. r.1) (encode-frame src 268 is.fits (omega (arith, is.fits)))

    second_byte : b ≡ protocol_sof1
    second_byte = ap (λ xs. get_or xs 1 0) framed

    c : Consumed
    c = consume p protocol_sof0 now_ms

    first : Shape c.0 × (c.0.state ≡ sof1) × (c.0.last_byte_ms ≡ now_ms) × (c.2 ≡ none)
    first = consume_sof0 p now_ms ready

    d : Consumed
    d = consume c.0 protocol_sof1 later_ms

    second : Shape d.0 × InHeader d.0 [] × (d.0.last_byte_ms ≡ later_ms) × (d.2 ≡ none)
    second =
        consume_sof1 c.0 later_ms first.0 first.1
          (subst (λ m. sub32 later_ms m ≤ packet_timeout_ms) (sym first.2) t.0)
