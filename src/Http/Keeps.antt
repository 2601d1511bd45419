-- ===== src/Http/Keeps.antt =====
-- What the consumer keeps, the stream keeps.
use tm4c123gxl_ota.Base.{ℕ, ◌≡◌, arith, List, Bool, take}
use tm4c123gxl_ota.Http.{Stream, feed_frame, feed_body, stream_feed}

module _ {T A : Type 0} (f : T → A) (sink : T → List ℕ → Bool × T) where
  feed_body-keeps :
      (stream : Stream) (t : T) (bytes : List ℕ)
      → f (sink t (take stream.remaining bytes)).1 ≡ f t
      → f (feed_body sink stream t bytes).2 ≡ f t
  unfolding feed_body
  feed_body-keeps stream t bytes h = ground arith

  pub stream_feed-keeps :
      (stream : Stream) (t : T) (bytes : List ℕ)
      → ((b : List ℕ) → f (sink t b).1 ≡ f t)
      → f (stream_feed sink stream t bytes).2 ≡ f t
  unfolding stream_feed
  stream_feed-keeps stream t bytes h =
      let framed = feed_frame stream bytes in
      ground (arith, feed_body-keeps framed.1 t framed.2 (h (take framed.1.remaining framed.2)))
