-- ===== src/Http/Deliver.antt =====
-- A body that the modem announces and sends reaches the consumer.
use tm4c123gxl_ota.Base.{
  ℕ, ◌^◌, ◌<◌, ◌≡◌, ◌≢◌, refl, ◌∙◌, arith, List, [], ◌∷◌, ◌++◌, true, All, All-append, length,
}
use tm4c123gxl_ota.Text.{Text, c_string, starts_with, decimal}
use tm4c123gxl_ota.Text.Decimal.{IsDigit, decimal-All, decimal_length}
use tm4c123gxl_ota.Http.{
  more, done, Stream, stream_init, accept_frame, feed_frame, feed_body, stream_feed, body_prefix,
}
use tm4c123gxl_ota.Http.Size.{parse_positive_size-decimal}
use tm4c123gxl_ota.Http.Body.{
  collect, concat, feed_pieces, feed_pieces-concat, feed_frame_plain, feed_frame_body,
  feed_body_lem, take_all,
}

-- What stands in front of a body of `n` bytes, up to the comma.
abbrev pub announcement : ℕ → Text
announcement n = body_prefix ++ decimal n

c_string-nonzero : (s : List ℕ) → All (λ c. c ≢ 0) s → c_string s ≡ s
c_string-nonzero [] h = refl
c_string-nonzero (c ∷ s) h = ground (arith, c_string-nonzero s)

IsDigit-char : (s : List ℕ) → All IsDigit s → All (λ c. c ≢ 0) s × All (λ c. c ≢ b',') s
IsDigit-char [] h = (tt, tt)
IsDigit-char (c ∷ s) h = ground (arith, IsDigit-char s)

announced : ℕ → Stream
announced n = record (stream_init n) { frame = announcement n ++ b',' ∷ [] }

accept_announced :
    (n : ℕ)
    → 0 < n
    → n < 2 ^ 32
    → accept_frame (announced n) ≡ (more, record (announced n) { remaining = n; body_mode = true })
unfolding accept_frame announced starts_with
accept_announced n p h =
    rw
      (
        c_string-nonzero (announcement n ++ b',' ∷ []) nonzero,
        parse_positive_size-decimal n b',' (b',' ∷ []) p h refl refl,
      )
      (ground arith)
  where
    nonzero : All (λ c. c ≢ 0) (announcement n ++ b',' ∷ [])
    nonzero =
        All-append (λ c. c ≢ 0) (announcement n) (b',' ∷ [])
          (ground (arith, IsDigit-char (decimal n) (decimal-All n))) (ground arith)

feed_frame-comma :
    (n : ℕ) (body : List ℕ)
    → 0 < n
    → n < 2 ^ 32
    → feed_frame (record (stream_init n) { frame = announcement n }) (b',' ∷ body)
      ≡ (more, record (announced n) { remaining = n; body_mode = true }, body)
unfolding feed_frame announced
feed_frame-comma n body p h =
    let accepted : Stream = record (announced n) { remaining = n; body_mode = true } in
    ground (
      arith,
      accept_announced n p h,
      decimal_length n 9 (omega arith),
      feed_frame_body accepted body,
    )

feed_frame-announced :
    (n : ℕ) (body : List ℕ)
    → 0 < n
    → n < 2 ^ 32
    → feed_frame (stream_init n) (announcement n ++ b',' ∷ body)
      ≡ (more, record (announced n) { remaining = n; body_mode = true }, body)
feed_frame-announced n body p h =
    feed_frame_plain (stream_init n) (announcement n) (b',' ∷ body) refl
      (ground (arith, IsDigit-char (decimal n) (decimal-All n)))
      (omega (arith, decimal_length n 9 (omega arith)))
    ∙ feed_frame-comma n body p h

waits : (n : ℕ) → 0 < n → stream_feed collect (stream_init n) [] [] ≡ (more, stream_init n, [])
unfolding stream_feed feed_frame feed_body
waits n p = ground arith

feed_whole :
    (body : List ℕ)
    → 0 < length body
    → length body < 2 ^ 32
    → let n = length body in
      let accepted : Stream = record (announced n) { remaining = 0; body_mode = true } in
      stream_feed collect (stream_init n) [] (announcement n ++ b',' ∷ body)
      ≡ (done, accepted, body)
unfolding stream_feed announced
feed_whole body p h =
    let n : ℕ = length body in
    let accepted : Stream = record (announced n) { remaining = n; body_mode = true } in
    ground (
      arith,
      feed_frame-announced n body p h,
      feed_body_lem accepted [] body refl,
      take_all n body (omega arith),
    )

-- A body of 1 to 2^32 - 1 bytes, announced and cut into pieces in any way, is handed over
-- whole, and the last piece that is looked at ends the stream with DONE.
pub stream_delivers :
    (body : List ℕ) (pieces : List (List ℕ))
    → 0 < length body
    → length body < 2 ^ 32
    → concat pieces ≡ announcement (length body) ++ b',' ∷ body
    → let (result, _, received) = feed_pieces (stream_init (length body)) [] pieces in
      (result ≡ done) × (received ≡ body)
stream_delivers body pieces p h e =
    let n : ℕ = length body in
    let accepted : Stream = record (announced n) { remaining = n; body_mode = true } in
    ground (arith, feed_pieces-concat (stream_init n) [] pieces (waits n p), feed_whole body p h)
