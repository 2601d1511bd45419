-- ===== src/CloudOta/Pieces.antt =====
-- However a package is cut into pieces, writing them does what writing its bytes one by one does.
use tm4c123gxl_ota.Base.{
  ℕ, zero, suc, ◌+◌, ◌*◌, ◌^◌, ◌≡◌, ◌≢◌, ◌≤◌, ◌<◌, ◌⊎◌, inl, refl, ap, sym, ◌∙◌, arith, List, [],
  ◌∷◌, ◌++◌, Option, none, some, Bool, true, u32, take, drop, length, min, length-take, length-drop,
  length-append, take-append-drop,
}
use tm4c123gxl_ota.Config.{protocol_max_payload_size}
use tm4c123gxl_ota.Http.Body.{concat}
use tm4c123gxl_ota.Update.{Services}
use tm4c123gxl_ota.CloudOta.{
  Cloud, CloudResult, ok, Session, submit, flush_chunk, start_from_header, take_header,
  take_padding, take_chunk, take_bytes, room, write_at, write_loop, write,
}
use tm4c123gxl_ota.CloudOta.Bytes.{Fits, write_bytes, take_bytes-cons, take_bytes-Fits}

-- What a session knows of the package.
abbrev package_of : Cloud → Bool × ℕ × ℕ
package_of c = (c.attached, c.remote_size, c.package_received)

module _ {S : Type 0} (services : Services S) where
  write_bytes-cons :
      (session : Session S) (b : ℕ) (bytes : List ℕ)
      → (take_bytes services session (b ∷ [])).0 ≡ ok
      → write_bytes services session (b ∷ bytes)
        ≡ write_bytes services (take_bytes services session (b ∷ [])).1 bytes
  unfolding write_bytes
  write_bytes-cons session b bytes h = ground arith

  write_bytes-one :
      (session : Session S) (b : ℕ)
      → write_bytes services session (b ∷ []) ≡ take_bytes services session (b ∷ [])
  unfolding write_bytes
  write_bytes-one session b = ground arith

  take_bytes-write_bytes :
      (session : Session S) (b : ℕ) (bytes : List ℕ)
      → Fits session.0 (1 + length bytes)
      → 1 + length bytes ≤ room session.0
      → take_bytes services session (b ∷ bytes) ≡ write_bytes services session (b ∷ bytes)
  take_bytes-write_bytes session b [] f l = sym (write_bytes-one session b)
  take_bytes-write_bytes session b (b' ∷ bytes) f l =
      let (result, same, fits, onward) =
        take_bytes-cons services session b (b' ∷ bytes) f (omega arith) l in
      same
      ∙ take_bytes-write_bytes (take_bytes services session (b ∷ [])).1 b' bytes (ground arith)
          (ground arith)
      ∙ sym (write_bytes-cons session b (b' ∷ bytes) result)

  write_bytes-append :
      (session : Session S) (xs ys : List ℕ)
      → let (result, after) = write_bytes services session xs in
        ((result ≡ ok) × (write_bytes services session (xs ++ ys) ≡ write_bytes services after ys))
        ⊎ ((result ≢ ok) × (write_bytes services session (xs ++ ys) ≡ (result, after)))
  unfolding write_bytes
  write_bytes-append session [] ys = inl (refl, refl)
  write_bytes-append session (b ∷ xs) ys =
      ground (arith, write_bytes-append (take_bytes services session (b ∷ [])).1 xs ys)

  room_positive : (c : Cloud) → c.chunk_length < protocol_max_payload_size → 0 < room c
  unfolding room
  room_positive c h = ground arith

  write_bytes-Fits :
      (session : Session S) (xs : List ℕ) (n : ℕ)
      → (write_bytes services session xs).0 ≡ ok
      → Fits session.0 (length xs + n)
      → Fits (write_bytes services session xs).1.0 n
  unfolding write_bytes
  write_bytes-Fits session [] n e f = ground arith
  write_bytes-Fits session (b ∷ xs) n e f = ground (
    arith,
    room_positive session.0,
    take_bytes-Fits services session (b ∷ []) (length xs + n),
    write_bytes-Fits (take_bytes services session (b ∷ [])).1 xs n,
  )

  write_loop-nil :
      (rounds : ℕ) (session : Session S)
      → write_loop services rounds session [] ≡ some (ok, session)
  unfolding write_loop
  write_loop-nil zero session = refl
  write_loop-nil (suc rounds) session = ground arith

  write_loop-step :
      (rounds : ℕ) (session : Session S) (source : List ℕ) (n : ℕ)
      → 0 < length source
      → n ≡ min (length source) (room session.0)
      → let (result, after) = take_bytes services session (take n source) in
        ((result ≡ ok)
          × (write_loop services (suc rounds) session source
              ≡ write_loop services rounds after (drop n source)))
        ⊎ ((result ≢ ok) × (write_loop services (suc rounds) session source ≡ some (result, after)))
  unfolding write_loop
  write_loop-step rounds session source n p e = ground arith

  taken :
      (session : Session S) (xs : List ℕ) (n : ℕ)
      → 0 < length xs
      → length xs ≤ room session.0
      → Fits session.0 (length xs + n)
      → take_bytes services session xs ≡ write_bytes services session xs
  taken session [] n p l f = absurd (omega arith)
  taken session (b ∷ bytes) n p l f =
      take_bytes-write_bytes session b bytes (ground arith) (omega arith)

  -- The loop takes the bytes as if they came one by one.
  write_loop-write_bytes :
      (rounds : ℕ) (session : Session S) (source : List ℕ)
      → length source ≤ rounds
      → Fits session.0 (length source)
      → write_loop services rounds session source ≡ some (write_bytes services session source)
  write_loop-write_bytes rounds session [] l f = write_loop-nil rounds session ∙ nothing
    where
      nothing : some (ok, session) ≡ some (write_bytes services session [])
      nothing = unfold write_bytes in refl
  write_loop-write_bytes zero session (b ∷ bytes) l f = absurd (omega arith)
  write_loop-write_bytes (suc rounds) session (b ∷ bytes) l f =
      let source : List ℕ = b ∷ bytes in
      let n : ℕ = min (length source) (room session.0) in
      let xs : List ℕ = take n source in
      let ys : List ℕ = drop n source in
      let after : Session S = (write_bytes services session xs).1 in
      let whole : write_bytes services session (xs ++ ys) ≡ write_bytes services session source =
        ap (write_bytes services session) (take-append-drop n source) in
      let some_room : 0 < room session.0 = room_positive session.0 f.0 in
      let same : take_bytes services session xs ≡ write_bytes services session xs =
        taken session xs (length ys) (omega (arith, length-take n source))
          (omega (arith, length-take n source))
          (ground (arith, length-take n source, length-drop n source)) in
      ground (
        arith,
        length-take n source,
        length-drop n source,
        write_bytes-append session xs ys,
        write_bytes-Fits session xs (length ys),
        write_loop-step rounds session source n,
        write_loop-write_bytes rounds after ys,
      )

  start_from_header_package :
      (session : Session S)
      → package_of (start_from_header services session).1.0 ≡ package_of session.0
  unfolding start_from_header submit
  start_from_header_package (c, u, s) = ground arith

  flush_chunk_package :
      (session : Session S) → package_of (flush_chunk services session).1.0 ≡ package_of session.0
  unfolding flush_chunk submit
  flush_chunk_package (c, u, s) = ground arith

  take_bytes_count :
      (session : Session S) (b : ℕ) (n : ℕ)
      → Fits session.0 (1 + n)
      → package_of (take_bytes services session (b ∷ [])).1.0
        ≡ (session.0.attached, session.0.remote_size, session.0.package_received + 1)
  unfolding take_bytes take_header take_padding take_chunk
  take_bytes_count (c, u, s) b n f = ground (
    arith,
    start_from_header_package (
      record c {
        header = write_at c.header c.header_received (b ∷ []);
        header_received = u32 (c.header_received + 1);
        package_received = u32 (c.package_received + 1);
      },
      u,
      s,
    ),
    flush_chunk_package (
      record c {
        chunk = write_at c.chunk c.chunk_length (b ∷ []);
        chunk_length = u32 (c.chunk_length + 1);
        package_received = u32 (c.package_received + 1);
      },
      u,
      s,
    ),
  )

  -- The bytes that are taken are counted, and nothing else of the package changes.
  write_bytes_count :
      (session : Session S) (xs : List ℕ) (n : ℕ)
      → (write_bytes services session xs).0 ≡ ok
      → Fits session.0 (length xs + n)
      → let c = (write_bytes services session xs).1.0 in
        (c.attached ≡ session.0.attached)
        × (c.remote_size ≡ session.0.remote_size)
        × (c.package_received ≡ session.0.package_received + length xs)
  unfolding write_bytes
  write_bytes_count session [] n e f = ground arith
  write_bytes_count session (b ∷ xs) n e f = ground (
    arith,
    room_positive session.0,
    take_bytes_count session b (length xs + n),
    take_bytes-Fits services session (b ∷ []) (length xs + n),
    write_bytes_count (take_bytes services session (b ∷ [])).1 xs n,
  )

  -- In an attached session with room for them, writing bytes does what writing them one by one does.
  pub write-write_bytes :
      (session : Session S) (source : List ℕ)
      → session.0.attached ≡ true
      → session.0.package_received + length source ≤ session.0.remote_size
      → session.0.remote_size < 2 ^ 32
      → Fits session.0 (length source)
      → write services session source ≡ some (write_bytes services session source)
  unfolding write
  write-write_bytes session source a l r f =
      ground (arith, write_loop-write_bytes (2 * length source) session source (omega arith) f)

  -- The pieces one after the other, up to the first that is refused.
  unfoldable pub write_all : Session S → List (List ℕ) → Option (CloudResult × Session S)
  write_all session [] = some (ok, session)
  write_all session (piece ∷ pieces) = elim (write services session piece) [
    | none ↦ none
    | some (result, after) ↦
        let rest = write_all after pieces in elim result [ ok ↦ rest | other ↦ some (other, after) ]
  ]

  write_all-write_bytes :
      (session : Session S) (pieces : List (List ℕ))
      → session.0.attached ≡ true
      → session.0.package_received + length (concat pieces) ≤ session.0.remote_size
      → session.0.remote_size < 2 ^ 32
      → Fits session.0 (length (concat pieces))
      → write_all session pieces ≡ some (write_bytes services session (concat pieces))
  unfolding write_all
  write_all-write_bytes session [] a l r f = nothing
    where
      nothing : some (ok, session) ≡ some (write_bytes services session [])
      nothing = unfold write_bytes in refl
  write_all-write_bytes session (piece ∷ pieces) a l r f =
      let after : Session S = (write_bytes services session piece).1 in
      let n : ℕ = length (concat pieces) in
      ground (
        arith,
        length-append piece (concat pieces),
        write-write_bytes session piece,
        write_bytes-append session piece (concat pieces),
        write_bytes-Fits session piece n,
        write_bytes_count session piece n,
        write_all-write_bytes after pieces,
      )

  -- However the rest of a package, or a part of it, is cut into pieces, writing them one after the
  -- other has the outcome of writing it whole, result, session, update and store, in an attached
  -- session whose arrays have their sizes, whose chunk is not full, and whose package, of a 32-bit
  -- size, has room for the bytes.
  pub write_all-concat :
      (session : Session S) (pieces : List (List ℕ))
      → session.0.attached ≡ true
      → session.0.package_received + length (concat pieces) ≤ session.0.remote_size
      → session.0.remote_size < 2 ^ 32
      → Fits session.0 (length (concat pieces))
      → write_all session pieces ≡ write services session (concat pieces)
  write_all-concat session pieces a l r f =
      write_all-write_bytes session pieces a l r f
      ∙ sym (write-write_bytes session (concat pieces) a l r f)
