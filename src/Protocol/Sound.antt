-- ===== src/Protocol/Sound.antt =====
-- Every packet that the parser reports stands in the stream, as the encoder would frame it.
use tm4c123gxl_ota.Base.{
  ℕ, ◌+◌, ◌≤◌, List, [], ◌∷◌, ◌++◌, Option, none, some, ◌≡◌, refl, sym, ap, ◌∙◌, subst, arith, All,
  IsByte, All-append_left, All-append_right, append_assoc,
}
use tm4c123gxl_ota.Config.{protocol_max_payload_size}
use tm4c123gxl_ota.Protocol.{
  Packet, Parser, EncodeResult, Consumed, consume, parser_init, feed, encode,
}
use tm4c123gxl_ota.Protocol.Frame.{frame, encode-frame}
use tm4c123gxl_ota.Protocol.Stages.{Shape, Stage, idle}
use tm4c123gxl_ota.Protocol.Advance.{Advance, advance, consume-Advance}

-- A packet that stands in a stream, as the encoder frames it.
abbrev pub StandsIn : List ℕ → Packet → Type 0
StandsIn stream pkt =
    (before : List ℕ) × (after : List ℕ) × (stream ≡ before ++ (encode pkt 268).1 ++ after)
    × ((encode pkt 268).0 ≡ EncodeResult.ok)

abbrev pub bytes_of : List (ℕ × ℕ) → List ℕ
bytes_of [] = []
bytes_of ((b, now_ms) ∷ rest) = b ∷ bytes_of rest

-- The stream split after one more byte.
regroup :
    (all gone seen before tail rest : List ℕ) (b : ℕ)
    → all ≡ (gone ++ seen) ++ b ∷ rest
    → seen ++ b ∷ [] ≡ before ++ tail
    → all ≡ ((gone ++ before) ++ tail) ++ rest
regroup all gone seen before tail rest b e f =
    e
    ∙ sym (append_assoc (gone ++ seen) (b ∷ []) rest)
    ∙ ap (λ xs. xs ++ rest)
        (append_assoc gone seen (b ∷ [])
          ∙ ap (λ xs. gone ++ xs) f
          ∙ sym (append_assoc gone before tail))

stands :
    (all gone seen rest : List ℕ) (b : ℕ) (pkt : Packet)
    → all ≡ (gone ++ seen) ++ b ∷ rest
    → seen ++ b ∷ [] ≡ frame pkt
    → pkt.length ≤ protocol_max_payload_size
    → StandsIn all pkt
stands all gone seen rest b pkt e f fits = (
  gone,
  rest,
  e
      ∙ sym (append_assoc (gone ++ seen) (b ∷ []) rest)
      ∙ ap (λ xs. xs ++ rest) (append_assoc gone seen (b ∷ []))
      ∙ ap (λ xs. gone ++ xs ++ rest) (f ∙ ap (λ r. r.1) (sym framed)),
  ap (λ r. r.0) framed,
)
  where
    framed : encode pkt 268 ≡ (EncodeResult.ok, frame pkt, some (12 + pkt.length))
    framed = encode-frame pkt 268 fits (omega arith)

All-report :
    (P : Packet → Type 0) (out : Option Packet) (later : List Packet)
    → ((pkt : Packet) → out ≡ some pkt → P pkt)
    → All P later
    → All P (elim out [ none ↦ later | some one ↦ one ∷ later ])
All-report P none later h k = k
All-report P (some pkt) later h k = (h pkt refl, k)

feed_sound_from :
    (all : List ℕ) (p : Parser) (gone seen : List ℕ) (input : List (ℕ × ℕ))
    → all ≡ (gone ++ seen) ++ bytes_of input
    → Shape p
    → Stage p seen
    → All IsByte all
    → All (StandsIn all) (feed p input).1
unfolding feed
feed_sound_from all p gone seen [] e sh st hs = tt
feed_sound_from all p gone seen ((b, now_ms) ∷ rest) e sh st hs =
    follow (consume-Advance p seen b now_ms sh st next_bytes) (λ gone' tail e' sh' st'.
      feed_sound_from all (consume p b now_ms).0 gone' tail rest e' sh' st' hs)
  where
    c : Consumed
    c = consume p b now_ms

    next_bytes : All IsByte (seen ++ b ∷ [])
    next_bytes = All-append_left IsByte (seen ++ b ∷ []) (bytes_of rest) (
        subst (All IsByte) (sym (append_assoc seen (b ∷ []) (bytes_of rest))) (
          All-append_right IsByte gone (seen ++ b ∷ bytes_of rest)
            (subst (All IsByte) (e ∙ append_assoc gone seen (b ∷ bytes_of rest)) hs)))

    follow :
        Advance seen b c
        → ((gone' tail : List ℕ)
            → all ≡ (gone' ++ tail) ++ bytes_of rest
            → Shape c.0
            → Stage c.0 tail
            → All (StandsIn all) (feed c.0 rest).1)
        → All
            (StandsIn all)
            (elim c.2 [ none ↦ (feed c.0 rest).1 | some one ↦ one ∷ (feed c.0 rest).1 ])
    follow (advance before tail sh' f st' out) later =
        All-report (StandsIn all) c.2 (feed c.0 rest).1
          (λ pkt h. stands all gone seen (bytes_of rest) b pkt e (out pkt h).0 (out pkt h).1)
          (later (gone ++ before) tail (regroup all gone seen before tail (bytes_of rest) b e f) sh'
            st')

-- Whatever bytes arrive, at whatever times, each packet that a fresh parser reports stands in the
-- stream, exactly as `ota_packet_encode` frames it.
pub feed_sound :
    (input : List (ℕ × ℕ))
    → All IsByte (bytes_of input)
    → All (StandsIn (bytes_of input)) (feed parser_init input).1
feed_sound input bytes =
    feed_sound_from (bytes_of input) parser_init [] [] input refl (refl, refl, refl)
      (idle refl refl) bytes
