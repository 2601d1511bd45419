-- ===== src/Rpc/Line.antt =====
-- The whole line of a START_OTA request is read.
use tm4c123gxl_ota.Base.{
  ℕ, ◌≤◌, ◌<◌, ◌≡◌, ◌≢◌, refl, arith, [], ◌∷◌, ◌++◌, some, true, All, All-append, length,
}
use tm4c123gxl_ota.Types.{Version}
use tm4c123gxl_ota.Text.{Text, codes, split_at, starts_with, decimal}
use tm4c123gxl_ota.Text.Decimal.{decimal-All, decimal-value, decimal-ne-nil}
use tm4c123gxl_ota.Rpc.{
  ok, start_ota, parse, parse_topic, parse_length, request_topic_prefix, receive_prefix,
  response_topic_of, request_id_size,
}
use tm4c123gxl_ota.Rpc.Bounds.{IsVersion16}
use tm4c123gxl_ota.Rpc.Message.{
  request_line, start_ota_payload, payload_length, parse_payload-start_ota, length_digits-digits,
  head_char-digit,
}

split_at-append : (c : ℕ) (s t : Text) → All (λ d. d ≢ c) s → split_at c (s ++ c ∷ t) ≡ some (s, t)
unfolding split_at
split_at-append c [] t h = ground arith
split_at-append c (d ∷ s) t h = ground (arith, split_at-append c s t)

-- An id of 1 to 15 characters, none of them a quote.
abbrev pub IsId : Text → Type 0
IsId id = (0 < length id) × (length id < request_id_size) × All (λ c. c ≢ b'"') id

id_topic :
    (id tail : Text)
    → IsId id
    → split_at b'"' (request_topic_prefix ++ (id ++ b'"' ∷ tail))
      ≡ some (request_topic_prefix ++ id, tail)
id_topic id tail h =
    split_at-append b'"' (request_topic_prefix ++ id) tail
      (All-append (λ d. d ≢ b'"') request_topic_prefix id (ground arith) h.2)

line_topic :
    (rest : Text)
    → split_at b'"' (receive_prefix ++ (codes "0,\"" ++ rest))
      ≡ some (receive_prefix ++ codes "0,", rest)
line_topic rest = split_at-append b'"' (receive_prefix ++ codes "0,") rest (ground arith)

parse_topic-line :
    (id payload : Text)
    → IsId id
    → parse_topic (request_line id payload)
      ≡ (ok, id, b',' ∷ (decimal (length payload) ++ b',' ∷ payload))
unfolding parse_topic starts_with
parse_topic-line id payload h =
    let tail : Text = b',' ∷ (decimal (length payload) ++ b',' ∷ payload) in
    rw (parse_topic, line_topic (request_topic_prefix ++ (id ++ b'"' ∷ tail)), id_topic id tail h)
      (ground arith)

parse_length-line :
    (payload : Text)
    → length payload ≤ 9999
    → parse_length (b',' ∷ (decimal (length payload) ++ b',' ∷ payload)) ≡ (ok, payload)
unfolding parse_length
parse_length-line payload h = ground (
  arith,
  head_char-digit (decimal (length payload)) (b',' ∷ payload) (decimal-All (length payload))
      (decimal-ne-nil (length payload)),
  length_digits-digits (decimal (length payload)) (b',' ∷ payload) 0 (decimal-All (length payload))
      refl,
  decimal-value (length payload),
)

starts_with-line : (id payload : Text) → starts_with receive_prefix (request_line id payload) ≡ true
unfolding starts_with
starts_with-line id payload = refl

-- The line of a START_OTA request, with an id of 1 to 15 characters without a quote and a version
-- of 16-bit numbers, is read as that id and that version.
pub parse-start_ota :
    (id : Text) (v : Version)
    → IsId id
    → IsVersion16 v
    → parse (request_line id (start_ota_payload v)) ≡ (
      ok,
      some (record {
        request_id = id;
        response_topic = response_topic_of id;
        method = start_ota;
        version = v;
      }),
    )
unfolding parse
parse-start_ota id v h w = ground (
  arith,
  starts_with-line id (start_ota_payload v),
  parse_topic-line id (start_ota_payload v),
  parse_length-line (start_ota_payload v),
  payload_length v,
  parse_payload-start_ota v,
)
