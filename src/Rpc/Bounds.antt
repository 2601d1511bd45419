-- ===== src/Rpc/Bounds.antt =====
-- What an accepted request is like.
use tm4c123gxl_ota.Base.{
  ℕ, ◌≡◌, ◌<◌, ◌+◌, ◌-◌, ◌*◌, ◌^◌, inl, inr, arith, [], ◌∷◌, some, length, drop, length-drop,
  Option-cases,
}
use tm4c123gxl_ota.Types.{Version}
use tm4c123gxl_ota.Text.{Text, split_at}
use tm4c123gxl_ota.Rpc.{
  RpcMethod, RpcRequest, ok, parse, parse_topic, parse_length, parse_payload,
  payload_parse_start_ota, version_fields, version_component, component_digits, compact_json,
  start_ota_prefix, request_topic_prefix, response_topic_of, topic_size, request_id_size,
}

abbrev pub IsVersion16 : Version → Type 0
IsVersion16 v = (v.major < 2 ^ 16) × (v.minor < 2 ^ 16) × (v.patch < 2 ^ 16)

component_digits-lt :
    (s : Text) (value n : ℕ) (rest : Text)
    → value < 2 ^ 16
    → component_digits s value ≡ some (n, rest)
    → n < 2 ^ 16
unfolding component_digits
component_digits-lt [] value n rest h e = ground arith
component_digits-lt (c ∷ s) value n rest h e =
    ground (arith, component_digits-lt s (value * 10 + (c - b'0')) n rest)

version_component-lt :
    (s : Text) (terminator n : ℕ) (rest : Text)
    → version_component s terminator ≡ some (n, rest)
    → n < 2 ^ 16
unfolding version_component
version_component-lt s terminator n rest e = elim (Option-cases (component_digits s 0)) [
  | inl none_left ↦ ground arith
  | inr ((value, left), found) ↦ ground (arith, component_digits-lt s 0 value left)
]

version_fields-IsVersion16 : (s : Text) (v : Version) → version_fields s ≡ some v → IsVersion16 v
unfolding version_fields
version_fields-IsVersion16 s v e = elim (Option-cases (version_component s b'.')) [
  | inl gone ↦ ground arith
  | inr ((major, s1), found) ↦ elim (Option-cases (version_component s1 b'.')) [
    | inl gone ↦ ground arith
    | inr ((minor, s2), found1) ↦ elim (Option-cases (version_component s2 b'"')) [
      | inl gone ↦ ground arith
      | inr ((patch, s3), found2) ↦ ground (
        arith,
        version_component-lt s b'.' major s1,
        version_component-lt s1 b'.' minor s2,
        version_component-lt s2 b'"' patch s3,
      )
    ]
  ]
]

start_ota-IsVersion16 :
    (payload : Text) (v : Version) → payload_parse_start_ota payload ≡ some v → IsVersion16 v
unfolding payload_parse_start_ota
start_ota-IsVersion16 payload v e = elim (Option-cases (compact_json payload 128)) [
  | inl gone ↦ ground arith
  | inr (copy, found) ↦
      ground (arith, version_fields-IsVersion16 (drop (length start_ota_prefix) copy) v)
]

parse_payload-IsVersion16 :
    (payload : Text) (method : RpcMethod) (v : Version)
    → (parse_payload payload).1 ≡ some (method, v)
    → IsVersion16 v
unfolding parse_payload
parse_payload-IsVersion16 payload method v e = ground (arith, start_ota-IsVersion16 payload v)

parse_topic-length :
    (line : Text)
    → (parse_topic line).0 ≡ ok
    → (0 < length (parse_topic line).1) × (length (parse_topic line).1 < request_id_size)
unfolding parse_topic
parse_topic-length line e = elim (Option-cases (split_at b'"' line)) [
  | inl gone ↦ ground arith
  | inr ((before, behind), found) ↦ elim (Option-cases (split_at b'"' behind)) [
    | inl gone ↦ ground arith
    | inr ((topic, tail), found1) ↦ ground (arith, length-drop (length request_topic_prefix) topic)
  ]
]

-- A request that is parsed has an id of 1 to 15 characters, a version of 16-bit numbers, and its
-- response topic fits in its buffer.
pub parse_bounds :
    (line : Text) (r : RpcRequest)
    → parse line ≡ (ok, some r)
    → (0 < length r.request_id)
      × (length r.request_id < request_id_size)
      × (r.response_topic ≡ response_topic_of r.request_id)
      × (length r.response_topic < topic_size)
      × IsVersion16 r.version
unfolding parse
parse_bounds line r e =
    let payload : Text = (parse_length (parse_topic line).2).1 in
    elim (Option-cases (parse_payload payload).1) [
      | inl gone ↦ ground arith
      | inr ((method, v), found) ↦
          ground (arith, parse_payload-IsVersion16 payload method v, parse_topic-length line)
    ]
