-- ===== src/Rpc/Message.antt =====
-- A START_OTA request, as the server writes it, is read with its version.
use tm4c123gxl_ota.Base.{
  ℕ, ◌+◌, ◌-◌, ◌*◌, ◌^◌, ◌≤◌, ◌<◌, ◌≡◌, ◌≢◌, refl, ap, ◌∙◌, arith, [], ◌∷◌, ◌++◌, append_assoc,
  some, true, false, All, All-append, length, length-append,
}
use tm4c123gxl_ota.Types.{Version}
use tm4c123gxl_ota.Text.{Text, codes, head_char, is_digit, same_text, starts_with, decimal}
use tm4c123gxl_ota.Text.Decimal.{
  value_from, value_from-ge, IsDigit, decimal-All, decimal-value, decimal-ne-nil, decimal_length,
}
use tm4c123gxl_ota.Rpc.{
  ok, start_ota, parse_payload, payload_is_get_info, payload_looks_like_start_ota,
  payload_parse_start_ota, version_fields, version_component, component_digits, length_digits,
  compact, compact_json, request_topic_prefix, receive_prefix, start_ota_prefix,
}
use tm4c123gxl_ota.Rpc.Bounds.{IsVersion16}

-- `%u.%u.%u`
abbrev pub version_text : Version → Text
version_text v = decimal v.major ++ b'.' ∷ (decimal v.minor ++ b'.' ∷ decimal v.patch)

abbrev pub start_ota_payload : Version → Text
start_ota_payload v = start_ota_prefix ++ (version_text v ++ codes "\"}}")

-- The line that the modem prints for a request with an id and a payload.
abbrev pub request_line : Text → Text → Text
request_line id payload =
    receive_prefix
    ++ (codes "0,\""
        ++ (request_topic_prefix
            ++ (id ++ b'"' ∷ b',' ∷ (decimal (length payload) ++ b',' ∷ payload))))

component_digits-digits :
    (ds rest : Text) (n : ℕ)
    → All IsDigit ds
    → is_digit (head_char rest) ≡ false
    → value_from n ds < 2 ^ 16
    → component_digits (ds ++ rest) n ≡ some (value_from n ds, rest)
unfolding component_digits
component_digits-digits [] [] n h e l = refl
component_digits-digits [] (c ∷ s) n h e l = ground arith
component_digits-digits (d ∷ ds) rest n h e l = ground (
  arith,
  component_digits-digits ds rest (n * 10 + (d - b'0')),
  value_from-ge (n * 10 + (d - b'0')) ds,
)

pub length_digits-digits :
    (ds rest : Text) (n : ℕ)
    → All IsDigit ds
    → is_digit (head_char rest) ≡ false
    → value_from n ds ≤ 9999
    → length_digits (ds ++ rest) n ≡ some (value_from n ds, rest)
unfolding length_digits
length_digits-digits [] [] n h e l = refl
length_digits-digits [] (c ∷ s) n h e l = ground arith
length_digits-digits (d ∷ ds) rest n h e l = ground (
  arith,
  length_digits-digits ds rest (n * 10 + (d - b'0')),
  value_from-ge (n * 10 + (d - b'0')) ds,
)

pub head_char-digit :
    (ds rest : Text) → All IsDigit ds → ds ≢ [] → is_digit (head_char (ds ++ rest)) ≡ true
head_char-digit [] rest h ne = absurd (ne refl)
head_char-digit (d ∷ ds) rest h ne = ground arith

version_component-decimal :
    (n terminator : ℕ) (rest : Text)
    → n < 2 ^ 16
    → is_digit terminator ≡ false
    → version_component (decimal n ++ terminator ∷ rest) terminator ≡ some (n, rest)
unfolding version_component
version_component-decimal n terminator rest h t =
    rw
      (
        head_char-digit (decimal n) (terminator ∷ rest) (decimal-All n) (decimal-ne-nil n),
        component_digits-digits (decimal n) (terminator ∷ rest) 0 (decimal-All n) t
            (omega (arith, decimal-value n)),
        decimal-value n,
      )
      (ground arith)

version_text-append :
    (v : Version) (s : Text)
    → version_text v ++ s
      ≡ decimal v.major ++ b'.' ∷ (decimal v.minor ++ b'.' ∷ (decimal v.patch ++ s))
version_text-append v s =
    append_assoc (decimal v.major) (b'.' ∷ (decimal v.minor ++ b'.' ∷ decimal v.patch)) s
    ∙ ap (λ t. decimal v.major ++ b'.' ∷ t)
        (append_assoc (decimal v.minor) (b'.' ∷ decimal v.patch) s)

version_fields-text :
    (v : Version) → IsVersion16 v → version_fields (version_text v ++ codes "\"}}") ≡ some v
unfolding version_fields same_text
version_fields-text v h = ap version_fields (version_text-append v (codes "\"}}")) ∙ fields
  where
    fields :
        version_fields
          (decimal v.major ++ b'.' ∷ (decimal v.minor ++ b'.' ∷ (decimal v.patch ++ codes "\"}}")))
        ≡ some v
    fields = rw (
      version_fields,
      version_component-decimal v.major b'.'
          (decimal v.minor ++ b'.' ∷ (decimal v.patch ++ codes "\"}}")) h.0 refl,
      version_component-decimal v.minor b'.' (decimal v.patch ++ codes "\"}}") h.1 refl,
      version_component-decimal v.patch b'"' (codes "}}") h.2 refl,
    )

-- Characters that neither end a string nor escape in it.
abbrev IsPlain : ℕ → Type 0
IsPlain c = (c ≢ b'"') × (c ≢ b'\\')

IsDigit-IsPlain : (s : Text) → All IsDigit s → All IsPlain s
IsDigit-IsPlain [] h = tt
IsDigit-IsPlain (c ∷ s) h = ground (arith, IsDigit-IsPlain s)

version_text-IsPlain : (v : Version) → All IsPlain (version_text v)
version_text-IsPlain v =
    All-append IsPlain (decimal v.major) (b'.' ∷ (decimal v.minor ++ b'.' ∷ decimal v.patch))
      (IsDigit-IsPlain (decimal v.major) (decimal-All v.major))
      (
        (λ e. omega arith, λ e. omega arith),
        All-append IsPlain (decimal v.minor) (b'.' ∷ decimal v.patch)
            (IsDigit-IsPlain (decimal v.minor) (decimal-All v.minor))
            (
              (λ e. omega arith, λ e. omega arith),
              IsDigit-IsPlain (decimal v.patch) (decimal-All v.patch),
            ),
      )

compact-plain :
    (t s : Text)
    → All IsPlain t
    → compact true false (t ++ s)
      ≡ (t ++ (compact true false s).0, (compact true false s).1, (compact true false s).2)
unfolding compact
compact-plain [] s h = refl
compact-plain (c ∷ t) s h = ground (arith, compact-plain t s)

compact-prefix :
    (s : Text)
    → compact false false (start_ota_prefix ++ s) ≡ (
      start_ota_prefix ++ (compact true false s).0,
      (compact true false s).1,
      (compact true false s).2,
    )
unfolding compact
compact-prefix s = refl

payload_compact :
    (v : Version) → compact false false (start_ota_payload v) ≡ (start_ota_payload v, false, false)
unfolding compact
payload_compact v =
    compact-prefix (version_text v ++ codes "\"}}")
    ∙ ap (λ r. (start_ota_prefix ++ r.0, r.1, r.2))
        (compact-plain (version_text v) (codes "\"}}") (version_text-IsPlain v))

pub payload_length : (v : Version) → IsVersion16 v → length (start_ota_payload v) ≤ 64
payload_length v h = omega (
  arith,
  length-append (version_text v) (codes "\"}}"),
  length-append (decimal v.major) (b'.' ∷ (decimal v.minor ++ b'.' ∷ decimal v.patch)),
  length-append (decimal v.minor) (b'.' ∷ decimal v.patch),
  decimal_length v.major 4 (omega arith),
  decimal_length v.minor 4 (omega arith),
  decimal_length v.patch 4 (omega arith),
)

not_get_info : (v : Version) → IsVersion16 v → payload_is_get_info (start_ota_payload v) ≡ false
unfolding payload_is_get_info compact_json same_text
not_get_info v h = rw (payload_compact v) (ground (arith, payload_length v h))

looks_like_start_ota :
    (v : Version) → IsVersion16 v → payload_looks_like_start_ota (start_ota_payload v) ≡ true
unfolding payload_looks_like_start_ota compact_json starts_with
looks_like_start_ota v h =
    rw (payload_looks_like_start_ota, compact_json, payload_compact v)
      (ground (arith, payload_length v h))

parses_start_ota :
    (v : Version) → IsVersion16 v → payload_parse_start_ota (start_ota_payload v) ≡ some v
unfolding payload_parse_start_ota compact_json starts_with
parses_start_ota v h =
    rw (payload_compact v) (ground (arith, payload_length v h, version_fields-text v h))

pub parse_payload-start_ota :
    (v : Version) → IsVersion16 v → parse_payload (start_ota_payload v) ≡ (ok, some (start_ota, v))
unfolding parse_payload
parse_payload-start_ota v h = rw (not_get_info v h, looks_like_start_ota v h, parses_start_ota v h)
