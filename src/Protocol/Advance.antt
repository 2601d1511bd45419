-- ===== src/Protocol/Advance.antt =====
-- One byte of the stream: which bytes of a frame the parser has taken after it.
use tm4c123gxl_ota.Base.{
  ℕ, suc, ◌≤◌, List, [], ◌∷◌, ◌++◌, none, some, ◌≡◌, inl, inr, refl, sym, ap, ◌∙◌, subst, get_or,
  length, arith, All, IsByte, length-snoc, All-append_left, All-append_right, le32, append_assoc,
  append-nil, ◌==◌, if◌then◌else◌, ◌&&◌, Bool-cases,
}
use tm4c123gxl_ota.Config.{
  protocol_sof0, protocol_sof1, protocol_version, protocol_max_payload_size,
}
use tm4c123gxl_ota.Crc32
use native.Mathlib.Decide.{dec_lt}
use tm4c123gxl_ota.Protocol.{
  Packet, Parser, ParserState, ParseResult, Consumed, sof0, sof1, dispatch, consume, parser_restart,
  is_late, body,
}
use tm4c123gxl_ota.Protocol.Frame.{frame, body_of_header, le32_spelled}
use tm4c123gxl_ota.Protocol.Stages.{
  Shape, declared, Stage, idle, synced, in_header, in_payload, in_crc, InHeader, InPayload, InCrc,
}
use tm4c123gxl_ota.Protocol.Steps.{
  header_step, header_last_payload, header_last_crc, header_last_long, payload_step, payload_last,
  crc_step, crc_last, spelled,
}

-- A packet, if one is reported, is framed by exactly the bytes taken and the new one.
abbrev pub Framed : List ℕ → ℕ → Consumed → Type 0
Framed seen b c =
    (pkt : Packet)
    → c.2 ≡ some pkt
    → (seen ++ b ∷ [] ≡ frame pkt) × (pkt.length ≤ protocol_max_payload_size)

-- What one byte `b` behind the taken bytes `seen` leads to: the parser has taken an end of both.
pub data Advance (seen : List ℕ) (b : ℕ) (c : Consumed) : Type 0 where
  advance :
      (before tail : List ℕ)
      → Shape c.0
      → seen ++ b ∷ [] ≡ before ++ tail
      → Stage c.0 tail
      → Framed seen b c
      → Advance seen b c

silent : (seen : List ℕ) (b : ℕ) (c : Consumed) → c.2 ≡ none → Framed seen b c
silent seen b c h pkt e = cc

-- A restart looks for a frame that begins at the byte itself.
restarted :
    (seen : List ℕ) (b : ℕ) (c : Consumed)
    → Shape c.0
    → c.0.state ≡ (if b == protocol_sof0 then sof1 else sof0)
    → Framed seen b c
    → Advance seen b c
restarted seen b c sh st out = elim (Bool-cases (b == protocol_sof0)) [
  | inl e ↦ advance seen (b ∷ []) sh refl (synced (st ∙ rw e) (ground arith)) out
  | inr e ↦ advance (seen ++ b ∷ []) [] sh (sym (append-nil _)) (idle (rw e at st) refl) out
]

-- The frame grows by one byte.
grown :
    (seen : List ℕ) (b : ℕ) (c : Consumed)
    → Shape c.0
    → Stage c.0 (seen ++ b ∷ [])
    → c.2 ≡ none
    → Advance seen b c
grown seen b c sh st e = advance [] (seen ++ b ∷ []) sh refl st (silent seen b c e)

idle-Advance :
    (p : Parser) (seen : List ℕ) (b : ℕ)
    → Shape p
    → p.state ≡ sof0
    → seen ≡ []
    → Advance seen b (dispatch sof0 p b)
unfolding dispatch
idle-Advance p seen b sh st e =
    restarted seen b (dispatch sof0 p b) (ground arith) (ground arith)
      (silent seen b (dispatch sof0 p b) refl)

synced-Advance :
    (p : Parser) (seen : List ℕ) (b : ℕ)
    → Shape p
    → p.state ≡ sof1
    → seen ≡ protocol_sof0 ∷ []
    → Advance seen b (dispatch sof1 p b)
unfolding dispatch parser_restart
synced-Advance p seen b sh st e = elim (Bool-cases (b == protocol_sof1)) [
  | inl aa ↦
      grown seen b (dispatch sof1 p b) (ground arith) (in_header [] (ground arith) (ground arith))
        refl
  | inr other ↦
      restarted seen b (dispatch sof1 p b) (ground arith) (ground arith)
        (silent seen b (dispatch sof1 p b) refl)
]

header-Advance :
    (p : Parser) (seen hs : List ℕ) (b : ℕ)
    → Shape p
    → InHeader p hs
    → seen ≡ protocol_sof0 ∷ protocol_sof1 ∷ hs
    → Advance seen b (dispatch ParserState.header p b)
header-Advance p seen hs b sh st e = elim (dec_lt (length hs) 5) [
  | yes early ↦
      let s = header_step p hs b sh st early in
      grown seen b c s.0 (in_header (hs ++ b ∷ []) s.1 (ap (λ xs. xs ++ b ∷ []) e)) s.3
  | no late ↦ elim (dec_lt protocol_max_payload_size (declared (hs ++ b ∷ []))) [
    | yes long ↦
        let s = header_last_long p hs b sh st (omega arith) long in
        restarted seen b c s.0 s.1 (silent seen b c s.3)
    | no fits ↦ elim (dec_lt 0 (declared (hs ++ b ∷ []))) [
      | yes some_bytes ↦
          let s = header_last_payload p hs b sh st (omega arith) (omega arith) some_bytes in
          grown seen b c s.0 (in_payload (hs ++ b ∷ []) [] s.1 whole) s.3
      | no empty ↦
          let s = header_last_crc p hs b sh st (omega arith) (omega arith) in
          grown seen b c s.0
            (in_crc (hs ++ b ∷ []) [] [] s.1
              (whole ∙ ap (λ xs. protocol_sof0 ∷ protocol_sof1 ∷ xs) (sym (append-nil _))))
            s.3
    ]
  ]
]
  where
    c : Consumed
    c = dispatch ParserState.header p b

    whole : seen ++ b ∷ [] ≡ protocol_sof0 ∷ protocol_sof1 ∷ ((hs ++ b ∷ []) ++ [])
    whole =
        ap (λ xs. xs ++ b ∷ []) e
        ∙ ap (λ xs. protocol_sof0 ∷ protocol_sof1 ∷ xs) (sym (append-nil _))

payload-Advance :
    (p : Parser) (seen hs ps : List ℕ) (b : ℕ)
    → Shape p
    → InPayload p hs ps
    → seen ≡ protocol_sof0 ∷ protocol_sof1 ∷ (hs ++ ps)
    → Advance seen b (dispatch ParserState.payload p b)
payload-Advance p seen hs ps b sh st e = elim (dec_lt (suc (length ps)) (declared hs)) [
  | yes early ↦
      let s = payload_step p hs ps b sh st early in
      grown seen b c s.0 (in_payload hs (ps ++ b ∷ []) s.1 longer) s.3
  | no late ↦
      let s = payload_last p hs ps b sh st (omega arith) in
      grown seen b c s.0
        (in_crc hs (ps ++ b ∷ []) [] s.1
          (longer ∙ ap (λ xs. protocol_sof0 ∷ protocol_sof1 ∷ xs) (sym (append-nil _))))
        s.3
]
  where
    c : Consumed
    c = dispatch ParserState.payload p b

    longer : seen ++ b ∷ [] ≡ protocol_sof0 ∷ protocol_sof1 ∷ (hs ++ (ps ++ b ∷ []))
    longer =
        ap (λ xs. xs ++ b ∷ []) e
        ∙ ap (λ xs. protocol_sof0 ∷ protocol_sof1 ∷ xs) (append_assoc hs ps (b ∷ []))

-- With the right version and checksum, the bytes taken are the frame of the packet reported.
good_frame :
    (p : Parser) (hs ps cs : List ℕ)
    → InCrc p hs ps cs
    → (all : List ℕ) → length all ≡ 4
    → All IsByte hs
    → All IsByte all
    → get_or hs 0 0 ≡ protocol_version
    → Crc32.crc32 (hs ++ ps) ≡ spelled all
    → protocol_sof0 ∷ protocol_sof1 ∷ ((hs ++ ps) ++ all) ≡ frame p.packet
good_frame p hs ps cs st all four hb ab version sum = sym (
    ap (λ xs. protocol_sof0 ∷ protocol_sof1 ∷ xs)
      (ap (λ xs. xs ++ le32 (Crc32.crc32 xs)) content
        ∙ ap (λ xs. (hs ++ ps) ++ xs) (le32_spelled all _ four ab sum)))
  where
    content : body p.packet ≡ hs ++ ps
    content = ground (arith, body_of_header p.packet hs ps)

crc-Advance :
    (p : Parser) (seen hs ps cs : List ℕ) (b : ℕ)
    → Shape p
    → InCrc p hs ps cs
    → All IsByte hs
    → All IsByte (cs ++ b ∷ [])
    → seen ≡ protocol_sof0 ∷ protocol_sof1 ∷ ((hs ++ ps) ++ cs)
    → Advance seen b (dispatch ParserState.crc p b)
crc-Advance p seen hs ps cs b sh st hb cb e = elim (dec_lt (length cs) 3) [
  | yes early ↦
      let s = crc_step p hs ps cs b sh st early in
      grown seen b c s.0 (in_crc hs ps (cs ++ b ∷ []) s.1 longer) s.3
  | no late ↦
      let s = crc_last p hs ps cs b sh st (omega arith) in
      restarted seen b c s.0 s.1 (λ pkt out. reported pkt (omega arith) (sym s.3 ∙ out))
]
  where
    c : Consumed
    c = dispatch ParserState.crc p b

    longer : seen ++ b ∷ [] ≡ protocol_sof0 ∷ protocol_sof1 ∷ ((hs ++ ps) ++ (cs ++ b ∷ []))
    longer =
        ap (λ xs. xs ++ b ∷ []) e
        ∙ ap (λ xs. protocol_sof0 ∷ protocol_sof1 ∷ xs) (append_assoc (hs ++ ps) cs (b ∷ []))

    reported :
        (pkt : Packet)
        → length cs ≡ 3
        → (if (get_or hs 0 0 == protocol_version)
              && (Crc32.crc32 (hs ++ ps) == spelled (cs ++ b ∷ []))
            then some p.packet
            else none)
          ≡ some pkt
        → (seen ++ b ∷ [] ≡ frame pkt) × (pkt.length ≤ protocol_max_payload_size)
    reported pkt three out =
        ground (arith, longer, length-snoc cs b, good_frame p hs ps cs st (cs ++ b ∷ []))

-- One byte in any state.
dispatch-Advance :
    (p : Parser) (seen : List ℕ) (b : ℕ)
    → Shape p
    → Stage p seen
    → All IsByte (seen ++ b ∷ [])
    → Advance seen b (dispatch p.state p b)
dispatch-Advance p seen b sh stage bytes = by_stage stage
  where
    at_state :
        (s : ParserState)
        → p.state ≡ s
        → Advance seen b (dispatch s p b)
        → Advance seen b (dispatch p.state p b)
    at_state s st a = subst (λ t. Advance seen b (dispatch t p b)) (sym st) a

    by_stage : Stage p seen → Advance seen b (dispatch p.state p b)
    by_stage (idle st e) = at_state sof0 st (idle-Advance p seen b sh st e)
    by_stage (synced st e) = at_state sof1 st (synced-Advance p seen b sh st e)
    by_stage (in_header hs st e) =
        at_state ParserState.header st.0 (header-Advance p seen hs b sh st e)
    by_stage (in_payload hs ps st e) =
        at_state ParserState.payload st.0 (payload-Advance p seen hs ps b sh st e)
    by_stage (in_crc hs ps cs st e) = at_state ParserState.crc st.0 (
        crc-Advance p seen hs ps cs b sh st
          (All-append_left IsByte hs ps (All-append_left IsByte (hs ++ ps) (cs ++ b ∷ []) taken))
          (All-append_right IsByte (hs ++ ps) (cs ++ b ∷ []) taken) e)
      where
        taken : All IsByte ((hs ++ ps) ++ (cs ++ b ∷ []))
        taken =
            subst (All IsByte) (append_assoc (hs ++ ps) cs (b ∷ []))
              (subst (λ xs. All IsByte (xs ++ b ∷ [])) e bytes).1.1

retimed :
    (p : Parser) (now_ms : ℕ) (seen : List ℕ)
    → Stage p seen
    → Stage (record p { last_byte_ms = now_ms }) seen
retimed p now_ms seen (idle st e) = idle st e
retimed p now_ms seen (synced st e) = synced st e
retimed p now_ms seen (in_header hs st e) = in_header hs st e
retimed p now_ms seen (in_payload hs ps st e) = in_payload hs ps st e
retimed p now_ms seen (in_crc hs ps cs st e) = in_crc hs ps cs st e

-- A whole call, its check of the time included.
pub consume-Advance :
    (p : Parser) (seen : List ℕ) (b now_ms : ℕ)
    → Shape p
    → Stage p seen
    → All IsByte (seen ++ b ∷ [])
    → Advance seen b (consume p b now_ms)
unfolding consume
consume-Advance p seen b now_ms sh st bytes = elim (Bool-cases (is_late p now_ms)) [
  | inl late ↦ rw late (late_restart)
  | inr in_time ↦ rw in_time (
      dispatch-Advance (record p { last_byte_ms = now_ms }) seen b sh (retimed p now_ms seen st)
        bytes)
]
  where
    late_restart :
        Advance seen b
          (record (parser_restart p b) { last_byte_ms = now_ms }, ParseResult.timeout, none)
    late_restart =
        restarted seen b
          (record (parser_restart p b) { last_byte_ms = now_ms }, ParseResult.timeout, none)
          (unfold parser_restart in sh) (unfold parser_restart in refl)
          (silent seen b
            (record (parser_restart p b) { last_byte_ms = now_ms }, ParseResult.timeout, none) refl)
