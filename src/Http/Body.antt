-- ===== src/Http/Body.antt =====
-- A body arrives whole, however it is cut into pieces.
use tm4c123gxl_ota.Base.{
  ℕ, zero, suc, ◌+◌, ◌-◌, ◌≤◌, ◌<◌, ◌≡◌, ◌≢◌, refl, sym, ap, ◌∙◌, arith, List, [], ◌∷◌, ◌++◌,
  append-nil, append_assoc, Bool, true, false, All, length, length-append, length-take, ap₂, take,
  ◌==◌, if◌then◌else◌,
}
use tm4c123gxl_ota.Http.{
  HttpResult, more, done, Stream, accept_frame, feed_frame, feed_body, stream_feed,
}

-- A consumer that keeps every byte.
abbrev pub collect : List ℕ → List ℕ → Bool × List ℕ
collect t bytes = (true, t ++ bytes)

-- The stream is fed each piece in turn, until a call returns something else than MORE.
unfoldable pub feed_pieces : Stream → List ℕ → List (List ℕ) → HttpResult × Stream × List ℕ
feed_pieces stream t [] = (more, stream, t)
feed_pieces stream t (piece ∷ pieces) =
    let (result, after, u) = stream_feed collect stream t piece in
    let rest = feed_pieces after u pieces in elim result [ more ↦ rest | other ↦ (other, after, u) ]

abbrev pub concat : List (List ℕ) → List ℕ
concat [] = []
concat (piece ∷ pieces) = piece ++ concat pieces

pub feed_frame_body :
    (s : Stream) (xs : List ℕ) → s.body_mode ≡ true → feed_frame s xs ≡ (more, s, xs)
unfolding feed_frame
feed_frame_body s [] h = refl
feed_frame_body s (x ∷ xs) h = ground arith

-- Where the frame's part of a piece ends without a verdict, more bytes go on from there.
feed_frame-append :
    (s : Stream) (xs ys : List ℕ)
    → (feed_frame s xs).0 ≡ more
    → let (r, t, rest) = feed_frame s xs in feed_frame s (xs ++ ys) ≡ feed_frame t (rest ++ ys)
unfolding feed_frame
feed_frame-append s [] ys h = refl
feed_frame-append s (x ∷ xs) ys h =
    let stored : Stream = record s { frame = s.frame ++ x ∷ [] } in
    ground (
      arith,
      feed_frame-append stored xs ys,
      feed_frame-append (accept_frame stored).1 xs ys,
      feed_frame_body s (x ∷ (xs ++ ys)),
    )

-- Bytes that are no comma are stored.
pub feed_frame_plain :
    (s : Stream) (bs rest : List ℕ)
    → s.body_mode ≡ false
    → All (λ b. b ≢ b',') bs
    → length s.frame + length bs < 31
    → feed_frame s (bs ++ rest) ≡ feed_frame (record s { frame = s.frame ++ bs }) rest
unfolding feed_frame
feed_frame_plain s [] rest h a l =
    ap (λ f. feed_frame (record s { frame = f }) rest) (sym (append-nil s.frame))
feed_frame_plain s (b ∷ bs) rest h a l =
    let stored : Stream = record s { frame = s.frame ++ b ∷ [] } in
    ground (
      arith,
      feed_frame_plain stored bs rest,
      length-append s.frame (b ∷ []),
      append_assoc s.frame (b ∷ []) bs,
    )

take_whole :
    (n : ℕ) (xs ys : List ℕ) → length xs ≤ n → take n (xs ++ ys) ≡ xs ++ take (n - length xs) ys
take_whole n [] ys h = ap (λ k. take k ys) (omega arith)
take_whole zero (x ∷ xs) ys h = absurd (omega arith)
take_whole (suc n) (x ∷ xs) ys h =
    ap (λ zs. x ∷ zs) (take_whole n xs ys (omega arith) ∙ ap (λ k. xs ++ take k ys) (omega arith))

take_none : (n : ℕ) → take {A = ℕ} n [] ≡ []
take_none zero = refl
take_none (suc n) = refl

pub take_all : (n : ℕ) (xs : List ℕ) → length xs ≤ n → take n xs ≡ xs
take_all n xs h =
    ap (take n) (sym (append-nil xs))
    ∙ take_whole n xs [] h
    ∙ ap (λ ys. xs ++ ys) (take_none (n - length xs))
    ∙ append-nil xs

take_short : (n : ℕ) (xs ys : List ℕ) → n ≤ length xs → take n (xs ++ ys) ≡ take n xs
take_short zero xs ys h = refl
take_short (suc n) [] ys h = absurd (omega arith)
take_short (suc n) (x ∷ xs) ys h = ap (λ zs. x ∷ zs) (take_short n xs ys (omega arith))

-- In the body, as many bytes are handed over as are missing.
pub feed_body_lem :
    (s : Stream) (t xs : List ℕ)
    → s.body_mode ≡ true
    → feed_body collect s t xs ≡ (
      if (s.remaining - length xs) == 0 then done else more,
      record s { remaining = s.remaining - length xs },
      t ++ take s.remaining xs,
    )
unfolding feed_body
feed_body_lem s t [] h = ground (arith, take_none s.remaining, append-nil t)
feed_body_lem s t (x ∷ xs) h =
    ground (arith, length-take s.remaining (x ∷ xs), append-nil t, take_empty (x ∷ xs))
  where
    take_empty : (ys : List ℕ) → take 0 ys ≡ []
    take_empty ys = refl

take_min :
    (n : ℕ) (xs ys : List ℕ)
    → length xs < n
    → take n (xs ++ ys) ≡ take n xs ++ take (n - length xs) ys
take_min n xs ys l =
    take_whole n xs ys (omega arith)
    ∙ ap (λ zs. zs ++ take (n - length xs) ys) (sym (take_all n xs (omega arith)))

feed_body-append :
    (s : Stream) (t xs ys : List ℕ)
    → s.body_mode ≡ true
    → (feed_body collect s t xs).0 ≡ more
    → let (r, after, u) = feed_body collect s t xs in
      feed_body collect s t (xs ++ ys) ≡ feed_body collect after u ys
feed_body-append s t xs ys h e =
    feed_body_lem s t (xs ++ ys) h
    ∙ ap₂ outcome (omega (arith, length-append xs ys)) (
        ap (λ zs. t ++ zs) (take_min s.remaining xs ys short)
        ∙ sym (append_assoc t (take s.remaining xs) (take (s.remaining - length xs) ys)))
    ∙ sym (
        feed_body_lem (record s { remaining = s.remaining - length xs }) (t ++ take s.remaining xs)
          ys h)
    ∙ ap (λ p. feed_body collect p.1 p.2 ys) (sym (feed_body_lem s t xs h))
  where
    outcome : ℕ → List ℕ → HttpResult × Stream × List ℕ
    outcome k zs = (if k == 0 then done else more, record s { remaining = k }, zs)

    short : length xs < s.remaining
    short = ground (arith, feed_body_lem s t xs h)

feed_frame_rest :
    (s : Stream) (xs : List ℕ)
    → (feed_frame s xs).0 ≡ more
    → (feed_frame s xs).1.body_mode ≡ false
    → (feed_frame s xs).2 ≡ []
unfolding feed_frame
feed_frame_rest s [] e b = refl
feed_frame_rest s (x ∷ xs) e b =
    let stored : Stream = record s { frame = s.frame ++ x ∷ [] } in
    ground (arith, feed_frame_rest stored xs, feed_frame_rest (accept_frame stored).1 xs)

accept_frame_kept :
    (s : Stream)
    → ((accept_frame s).1.has_data ≡ s.has_data)
      × ((accept_frame s).1.expected_size ≡ s.expected_size)
unfolding accept_frame
accept_frame_kept s = ground arith

feed_frame_kept :
    (s : Stream) (xs : List ℕ)
    → ((feed_frame s xs).1.has_data ≡ s.has_data)
      × ((feed_frame s xs).1.expected_size ≡ s.expected_size)
unfolding feed_frame
feed_frame_kept s [] = (refl, refl)
feed_frame_kept s (x ∷ xs) =
    let stored : Stream = record s { frame = s.frame ++ x ∷ [] } in
    ground (
      arith,
      accept_frame_kept stored,
      feed_frame_kept stored xs,
      feed_frame_kept (accept_frame stored).1 xs,
    )

feed_body_frame :
    (s : Stream) (t xs : List ℕ) → s.body_mode ≡ false → feed_body collect s t xs ≡ (more, s, t)
unfolding feed_body
feed_body_frame s t xs h = ground arith

feed_body_kept :
    (s : Stream) (t xs : List ℕ)
    → ((feed_body collect s t xs).1.has_data ≡ s.has_data)
      × ((feed_body collect s t xs).1.expected_size ≡ s.expected_size)
      × ((feed_body collect s t xs).1.body_mode ≡ s.body_mode)
unfolding feed_body
feed_body_kept s t xs = ground arith

-- The two parts of a piece may be fed in two calls, while the first answers MORE.
pub stream_feed-append :
    (s : Stream) (t xs ys : List ℕ)
    → (stream_feed collect s t xs).0 ≡ more
    → let (r, after, u) = stream_feed collect s t xs in
      stream_feed collect s t (xs ++ ys) ≡ stream_feed collect after u ys
unfolding stream_feed
stream_feed-append s t xs ys e =
    let f : Stream = (feed_frame s xs).1 in
    let rest : List ℕ = (feed_frame s xs).2 in
    let after : Stream = (feed_body collect f t rest).1 in
    ground (
      arith,
      feed_frame-append s xs ys,
      feed_frame_rest s xs,
      feed_frame_kept s xs,
      feed_frame_body f (rest ++ ys),
      feed_frame_body after ys,
      feed_body_kept f t rest,
      feed_body_frame f t rest,
      feed_body-append f t rest ys,
    )

feed_frame_stop :
    (s : Stream) (xs ys : List ℕ)
    → (feed_frame s xs).0 ≢ more
    → ((feed_frame s (xs ++ ys)).0 ≡ (feed_frame s xs).0)
      × ((feed_frame s (xs ++ ys)).1 ≡ (feed_frame s xs).1)
unfolding feed_frame
feed_frame_stop s [] ys h = absurd (h refl)
feed_frame_stop s (x ∷ xs) ys h =
    let stored : Stream = record s { frame = s.frame ++ x ∷ [] } in
    ground (arith, feed_frame_stop stored xs ys, feed_frame_stop (accept_frame stored).1 xs ys)

feed_body_stop :
    (s : Stream) (t xs ys : List ℕ)
    → s.body_mode ≡ true
    → (feed_body collect s t xs).0 ≢ more
    → feed_body collect s t (xs ++ ys) ≡ feed_body collect s t xs
feed_body_stop s t xs ys h e =
    feed_body_lem s t (xs ++ ys) h
    ∙ ap₂ outcome (omega (arith, full, length-append xs ys)) (ap (λ zs. t ++ zs) same)
    ∙ sym (feed_body_lem s t xs h)
  where
    outcome : ℕ → List ℕ → HttpResult × Stream × List ℕ
    outcome k zs = (if k == 0 then done else more, record s { remaining = k }, zs)

    full : s.remaining ≤ length xs
    full = ground (arith, feed_body_lem s t xs h)

    same : take s.remaining (xs ++ ys) ≡ take s.remaining xs
    same = take_short s.remaining xs ys full

-- More bytes than those that end a body change nothing, nor do bytes behind an error.
stream_feed_stop :
    (s : Stream) (t xs ys : List ℕ)
    → (stream_feed collect s t xs).0 ≢ more
    → stream_feed collect s t (xs ++ ys) ≡ stream_feed collect s t xs
unfolding stream_feed
stream_feed_stop s t xs ys e =
    let f : Stream = (feed_frame s xs).1 in
    let rest : List ℕ = (feed_frame s xs).2 in
    ground (
      arith,
      feed_frame_stop s xs ys,
      feed_frame-append s xs ys,
      feed_frame_rest s xs,
      feed_frame_kept s xs,
      feed_frame_body f (rest ++ ys),
      feed_body_frame f t rest,
      feed_body_stop f t rest ys,
    )

-- However a stream is cut into pieces, feeding them to a consumer that takes every byte and records it
-- has the result of feeding it whole, from any state that waits for bytes. It says nothing of a consumer that
-- refuses bytes.
pub feed_pieces-concat :
    (s : Stream) (t : List ℕ) (pieces : List (List ℕ))
    → stream_feed collect s t [] ≡ (more, s, t)
    → feed_pieces s t pieces ≡ stream_feed collect s t (concat pieces)
unfolding feed_pieces
feed_pieces-concat s t [] h = sym h
feed_pieces-concat s t (p ∷ ps) h =
    let after : Stream = (stream_feed collect s t p).1 in
    let u : List ℕ = (stream_feed collect s t p).2 in
    ground (
      arith,
      stream_feed-append s t p (concat ps),
      stream_feed-append s t p [],
      append-nil p,
      stream_feed_stop s t p (concat ps),
      feed_pieces-concat after u ps,
    )
