-- ===== src/Protocol/Runs.antt =====
-- The parser, between two bytes of a frame that the encoder made, takes the rest of it.
use tm4c123gxl_ota.Base.{
  ℕ, suc, ◌+◌, ◌≤◌, List, [], ◌∷◌, ◌++◌, none, some, ◌≡◌, ◌⊎◌, inl, inr, refl, sym, ap, ◌∙◌, subst,
  subst₂, get_or, length, take, arith, All, IsByte, length-snoc, length-append, append_split,
  All-append, All-take, le16, le32, append_assoc, length-take, sub32, ◌==◌, ==_refl, if◌then◌else◌,
  ◌&&◌, Bool-cases, join32-le32, join16-le16,
}
use native.Mathlib.Decide.{dec_lt}
use tm4c123gxl_ota.Config.{protocol_sof0, protocol_version, packet_timeout_ms}
use tm4c123gxl_ota.Crc32
use tm4c123gxl_ota.Crc32.Range.{crc32-lt}
use tm4c123gxl_ota.Protocol.{
  Packet, Parser, ParserState, ParseResult, Consumed, sof0, sof1, more, bad_crc, dispatch, consume,
  parser_restart, is_late, feed, header_complete, crc_complete,
}
use tm4c123gxl_ota.Protocol.Frame.{IsPacket}
use tm4c123gxl_ota.Protocol.Stages.{Shape, declared, InHeader, InPayload, InCrc}
use tm4c123gxl_ota.Protocol.Steps.{
  header_step, header_last_payload, header_last_crc, payload_step, payload_last, crc_step, crc_last,
  spelled,
}
use tm4c123gxl_ota.Protocol.Sound.{bytes_of}

-- Each byte comes within the time limit after the one before it, the first after `last_ms`.
abbrev pub OnTime : ℕ → List (ℕ × ℕ) → Type 0
OnTime last_ms [] = Unit
OnTime last_ms ((b, now_ms) ∷ rest) =
    (sub32 now_ms last_ms ≤ packet_timeout_ms) × OnTime now_ms rest

-- Between two frames. A last checksum byte of 55 leaves the parser in SOF1.
abbrev pub Ready : Parser → Type 0
Ready p = Shape p × ((p.state ≡ sof0) ⊎ (p.state ≡ sof1))

abbrev pub SameContent : Packet → Packet → Type 0
SameContent a b =
    (a.command ≡ b.command)
    × (a.sequence ≡ b.sequence)
    × (a.length ≡ b.length)
    × (take a.length a.payload ≡ take b.length b.payload)

-- The calls report one packet, with the content of `src`, and leave the parser ready.
abbrev pub Delivers : Packet → Parser × List Packet → Type 0
Delivers src r = (out : Packet) × (r.1 ≡ out ∷ []) × SameContent out src × Ready r.0

consume_in_time :
    (p : Parser) (b now_ms : ℕ)
    → sub32 now_ms p.last_byte_ms ≤ packet_timeout_ms
    → consume p b now_ms ≡ dispatch p.state (record p { last_byte_ms = now_ms }) b
unfolding consume is_late
consume_in_time p b now_ms h = ground arith

last_byte_ms-dispatch :
    (s : ParserState) (p : Parser) (b : ℕ) → (dispatch s p b).0.last_byte_ms ≡ p.last_byte_ms
unfolding dispatch header_complete crc_complete parser_restart
last_byte_ms-dispatch s p b = ground arith

pub feed_silent :
    (p : Parser) (b now_ms : ℕ) (rest : List (ℕ × ℕ))
    → (consume p b now_ms).2 ≡ none
    → feed p ((b, now_ms) ∷ rest) ≡ feed (consume p b now_ms).0 rest
unfolding feed
feed_silent p b now_ms rest e = rw e

consume_at :
    (p : Parser) (s : ParserState) (b now_ms : ℕ)
    → p.state ≡ s
    → sub32 now_ms p.last_byte_ms ≤ packet_timeout_ms
    → consume p b now_ms ≡ dispatch s (record p { last_byte_ms = now_ms }) b
consume_at p s b now_ms st h =
    consume_in_time p b now_ms h ∙ ap (λ t. dispatch t (record p { last_byte_ms = now_ms }) b) st

-- A byte taken in time, in the state `s`, with nothing to report.
feed_step :
    (p : Parser) (s : ParserState) (b now_ms : ℕ) (rest : List (ℕ × ℕ))
    → p.state ≡ s
    → sub32 now_ms p.last_byte_ms ≤ packet_timeout_ms
    → (dispatch s (record p { last_byte_ms = now_ms }) b).2 ≡ none
    → feed p ((b, now_ms) ∷ rest) ≡ feed (dispatch s (record p { last_byte_ms = now_ms }) b).0 rest
feed_step p s b now_ms rest st t e =
    feed_silent p b now_ms rest (ap (λ c. c.2) at ∙ e) ∙ ap (λ c. feed c.0 rest) at
  where
    at : consume p b now_ms ≡ dispatch s (record p { last_byte_ms = now_ms }) b
    at = consume_at p s b now_ms st t

OnTime-dispatch :
    (p : Parser) (s : ParserState) (b now_ms : ℕ) (rest : List (ℕ × ℕ))
    → OnTime now_ms rest
    → OnTime (dispatch s (record p { last_byte_ms = now_ms }) b).0.last_byte_ms rest
OnTime-dispatch p s b now_ms rest h =
    subst (λ t. OnTime t rest)
      (sym (last_byte_ms-dispatch s (record p { last_byte_ms = now_ms }) b)) h

length-append_eq : (xs ys zs : List ℕ) → xs ++ ys ≡ zs → length xs + length ys ≡ length zs
length-append_eq xs ys zs e = sym (length-append xs ys) ∙ ap length e

feed_report :
    (p : Parser) (s : ParserState) (b now_ms : ℕ) (pkt : Packet)
    → p.state ≡ s
    → sub32 now_ms p.last_byte_ms ≤ packet_timeout_ms
    → (dispatch s (record p { last_byte_ms = now_ms }) b).2 ≡ some pkt
    → feed p ((b, now_ms) ∷ []) ≡ ((dispatch s (record p { last_byte_ms = now_ms }) b).0, pkt ∷ [])
unfolding feed
feed_report p s b now_ms pkt st t e = rw (consume_at p s b now_ms st t, e)

between :
    (s : ParserState) (b : ℕ)
    → s ≡ (if b == protocol_sof0 then sof1 else sof0)
    → (s ≡ sof0) ⊎ (s ≡ sof1)
between s b e = elim (Bool-cases (b == protocol_sof0)) [
  | inl h ↦ inr (e ∙ rw h)
  | inr h ↦ inl (e ∙ rw h)
]

-- One element goes over from the right part to the left.
shift_one : (xs ys zs : List ℕ) (b : ℕ) → xs ++ b ∷ ys ≡ zs → (xs ++ b ∷ []) ++ ys ≡ zs
shift_one xs ys zs b e = append_assoc xs (b ∷ []) ys ∙ e

module _ (src : Packet) (is : IsPacket src) where
  abbrev header_part : List ℕ
  header_part = (protocol_version ∷ src.command ∷ le16 src.sequence) ++ le16 src.length

  abbrev payload_part : List ℕ
  payload_part = take src.length src.payload

  abbrev crc_part : List ℕ
  crc_part = le32 (Crc32.crc32 (header_part ++ payload_part))

  length-payload_part : length payload_part ≡ src.length
  length-payload_part = omega (arith, length-take src.length src.payload, is.fits, is.array)

  declared-header_part : declared header_part ≡ src.length
  declared-header_part = omega (arith, is.fits)

  part_bytes : All IsByte (header_part ++ payload_part)
  part_bytes =
      All-append IsByte header_part payload_part (omega (arith, is.command))
        (All-take IsByte src.length src.payload is.bytes)

  spelled-crc_part : Crc32.crc32 (header_part ++ payload_part) ≡ spelled crc_part
  spelled-crc_part =
      sym (join32-le32 (Crc32.crc32 (header_part ++ payload_part)) (crc32-lt _ part_bytes))

  -- The checksum bytes `cs` are taken, and the rest of them comes.
  crc_run :
      (p : Parser) (cs : List ℕ) (input : List (ℕ × ℕ))
      → Shape p
      → InCrc p header_part payload_part cs
      → OnTime p.last_byte_ms input
      → cs ++ bytes_of input ≡ crc_part
      → Delivers src (feed p input)
  crc_run p cs [] sh st t e = absurd (omega (arith, length-append_eq cs [] crc_part e))
  crc_run p cs ((b, now_ms) ∷ []) sh st t e =
      subst (Delivers src) (sym (feed_report p ParserState.crc b now_ms p.packet st.0 t.0 reported))
        (p.packet, refl, content, (s.0, between _ b s.1))
    where
      q : Parser
      q = record p { last_byte_ms = now_ms }

      s :
          let c = dispatch ParserState.crc q b in
          let good =
            (get_or header_part 0 0 == protocol_version)
            && (Crc32.crc32 (header_part ++ payload_part) == spelled (cs ++ b ∷ [])) in
          Shape c.0
          × (c.0.state ≡ (if b == protocol_sof0 then sof1 else sof0))
          × (c.1 ≡ (if good then ParseResult.packet else bad_crc))
          × (c.2 ≡ (if good then some q.packet else none))
      s =
          crc_last q header_part payload_part cs b sh st
            (omega (arith, length-append_eq cs (b ∷ []) crc_part e))

      reported : (dispatch ParserState.crc q b).2 ≡ some p.packet
      reported = s.3 ∙ rw (e, ← spelled-crc_part, ==_refl)

      content : SameContent p.packet src
      content = (
        st.1.4,
        st.1.5 ∙ join16-le16 src.sequence is.sequence,
        st.1.6 ∙ declared-header_part,
        ap (λ n. take n p.packet.payload) (st.1.6 ∙ sym st.2) ∙ st.3,
      )
  crc_run p cs ((b, now_ms) ∷ (b', later_ms) ∷ rest) sh st t e =
      subst (Delivers src)
        (sym (feed_step p ParserState.crc b now_ms ((b', later_ms) ∷ rest) st.0 t.0 s.3))
        (crc_run c.0 (cs ++ b ∷ []) ((b', later_ms) ∷ rest) s.0 s.1
          (OnTime-dispatch p ParserState.crc b now_ms ((b', later_ms) ∷ rest) t.1)
          (shift_one cs (b' ∷ bytes_of rest) crc_part b e))
    where
      c : Consumed
      c = dispatch ParserState.crc (record p { last_byte_ms = now_ms }) b

      s :
          Shape c.0
          × InCrc c.0 header_part payload_part (cs ++ b ∷ [])
          × (c.1 ≡ more)
          × (c.2 ≡ none)
      s =
          crc_step (record p { last_byte_ms = now_ms }) header_part payload_part cs b sh st
            (omega (arith, length-append_eq cs (b ∷ b' ∷ bytes_of rest) crc_part e))

  -- The payload bytes `ps` are taken, and the rest of the payload and the checksum come.
  payload_run :
      (p : Parser) (ps : List ℕ) (input : List (ℕ × ℕ))
      → Shape p
      → InPayload p header_part ps
      → OnTime p.last_byte_ms input
      → ps ++ bytes_of input ≡ payload_part ++ crc_part
      → Delivers src (feed p input)
  payload_run p ps [] sh st t e = absurd (
      omega (
        arith,
        length-append_eq ps [] (payload_part ++ crc_part) e,
        length-append payload_part crc_part,
        length-payload_part,
        declared-header_part,
      ))
  payload_run p ps ((b, now_ms) ∷ rest) sh st t e =
      elim (dec_lt (suc (length ps)) (declared header_part)) [
        | yes early ↦
            let s =
              payload_step (record p { last_byte_ms = now_ms }) header_part ps b sh st early in
            subst (Delivers src) (sym (feed_step p ParserState.payload b now_ms rest st.0 t.0 s.3))
              (payload_run c.0 (ps ++ b ∷ []) rest s.0 s.1
                (OnTime-dispatch p ParserState.payload b now_ms rest t.1)
                (shift_one ps (bytes_of rest) (payload_part ++ crc_part) b e))
        | no late ↦
            let whole =
              append_split (ps ++ b ∷ []) (bytes_of rest) payload_part crc_part
                (shift_one ps (bytes_of rest) (payload_part ++ crc_part) b e)
                (omega (arith, length-snoc ps b, length-payload_part, declared-header_part)) in
            let s =
              payload_last (record p { last_byte_ms = now_ms }) header_part ps b sh st
                (omega arith) in
            subst (Delivers src) (sym (feed_step p ParserState.payload b now_ms rest st.0 t.0 s.3))
              (crc_run c.0 [] rest s.0 (subst (λ xs. InCrc c.0 header_part xs []) whole.0 s.1)
                (OnTime-dispatch p ParserState.payload b now_ms rest t.1) whole.1)
      ]
    where
      c : Consumed
      c = dispatch ParserState.payload (record p { last_byte_ms = now_ms }) b

  -- The header bytes `hs` are taken, and the rest of the frame comes.
  pub header_run :
      (p : Parser) (hs : List ℕ) (input : List (ℕ × ℕ))
      → Shape p
      → InHeader p hs
      → OnTime p.last_byte_ms input
      → hs ++ bytes_of input ≡ header_part ++ payload_part ++ crc_part
      → Delivers src (feed p input)
  header_run p hs [] sh st t e = absurd (
      omega (
        arith,
        length-append_eq hs [] (header_part ++ payload_part ++ crc_part) e,
        length-append (header_part ++ payload_part) crc_part,
        length-append header_part payload_part,
      ))
  header_run p hs ((b, now_ms) ∷ rest) sh st t e = elim (dec_lt (length hs) 5) [
    | yes early ↦
        let s = header_step q hs b sh st early in
        subst (Delivers src) (sym (feed_step p ParserState.header b now_ms rest st.0 t.0 s.3))
          (header_run c.0 (hs ++ b ∷ []) rest s.0 s.1 on_time shifted)
    | no late ↦
        let whole =
          append_split (hs ++ b ∷ []) (bytes_of rest) header_part (payload_part ++ crc_part)
            (shifted ∙ append_assoc header_part payload_part crc_part)
            (omega (arith, length-snoc hs b)) in
        let long : declared (hs ++ b ∷ []) ≡ src.length =
          ap declared whole.0 ∙ declared-header_part in
        elim (dec_lt 0 src.length) [
          | yes some_bytes ↦
              let s =
                header_last_payload q hs b sh st (omega arith) (omega (arith, is.fits))
                  (omega arith) in
              subst (Delivers src) (sym (feed_step p ParserState.header b now_ms rest st.0 t.0 s.3))
                (payload_run c.0 [] rest s.0 (subst (λ xs. InPayload c.0 xs []) whole.0 s.1) on_time
                  whole.1)
          | no empty ↦
              let none_left : 0 ≡ src.length = omega arith in
              let nothing : [] ≡ payload_part = ap (λ n. take n src.payload) none_left in
              let s = header_last_crc q hs b sh st (omega arith) (omega arith) in
              subst (Delivers src) (sym (feed_step p ParserState.header b now_ms rest st.0 t.0 s.3))
                (crc_run c.0 [] rest s.0 (subst₂ (λ xs ys. InCrc c.0 xs ys []) whole.0 nothing s.1)
                  on_time (whole.1 ∙ ap (λ xs. xs ++ crc_part) (sym nothing)))
        ]
  ]
    where
      q : Parser
      q = record p { last_byte_ms = now_ms }

      c : Consumed
      c = dispatch ParserState.header q b

      on_time : OnTime c.0.last_byte_ms rest
      on_time = OnTime-dispatch p ParserState.header b now_ms rest t.1

      shifted : (hs ++ b ∷ []) ++ bytes_of rest ≡ header_part ++ payload_part ++ crc_part
      shifted = shift_one hs (bytes_of rest) (header_part ++ payload_part ++ crc_part) b e
