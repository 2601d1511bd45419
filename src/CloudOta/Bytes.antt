-- ===== src/CloudOta/Bytes.antt =====
-- A package that is written byte by byte: what `cloud_ota_write`, which takes as many bytes at once as
-- it can, is compared with.
use tm4c123gxl_ota.Base.{
  ℕ, zero, suc, ◌+◌, ◌-◌, ◌^◌, ◌≡◌, ◌≢◌, ◌≤◌, ◌<◌, refl, ap, sym, ◌∙◌, arith, List, [], ◌∷◌, ◌++◌,
  u32, take, drop, length, length-take, length-drop, length-append,
}
use tm4c123gxl_ota.Config.{protocol_max_payload_size}
use tm4c123gxl_ota.Types.{firmware_header_size}
use tm4c123gxl_ota.Update.{Update, Services}
use tm4c123gxl_ota.CloudOta.{
  Cloud, CloudResult, ok, Session, submit, flush_chunk, start_from_header, take_header,
  take_padding, take_chunk, take_bytes, room, write_at,
}

drop-cons : (i k x : ℕ) (xs : List ℕ) → i ≡ suc k → drop i (x ∷ xs) ≡ drop k xs
drop-cons i k x xs e = ap (λ j. drop j (x ∷ xs)) e

write_at-suc :
    (buffer : List ℕ) (i n x : ℕ) (bytes : List ℕ)
    → i ≡ suc n
    → write_at (x ∷ buffer) i bytes ≡ x ∷ write_at buffer n bytes
write_at-suc buffer i n x bytes e =
    ap (λ j. write_at (x ∷ buffer) j bytes) e
    ∙ ap (λ zs. x ∷ (take n buffer ++ bytes ++ zs))
        (drop-cons (suc n + length bytes) (n + length bytes) x buffer (omega arith))

write_at-cons :
    (buffer : List ℕ) (n b : ℕ) (bytes : List ℕ)
    → n < length buffer
    → write_at buffer n (b ∷ bytes) ≡ write_at (write_at buffer n (b ∷ [])) (n + 1) bytes
write_at-cons [] n b bytes h = absurd (omega arith)
write_at-cons (x ∷ buffer) zero b bytes h =
    ap (λ zs. b ∷ (bytes ++ zs))
      (drop-cons (0 + suc (length bytes)) (length bytes) x buffer (omega arith)
        ∙ sym (drop-cons (1 + length bytes) (length bytes) b buffer (omega arith)))
write_at-cons (x ∷ buffer) (suc n) b bytes h =
    write_at-suc buffer (suc n) n x (b ∷ bytes) refl
    ∙ ap (λ zs. x ∷ zs) (write_at-cons buffer n b bytes (omega arith))
    ∙ sym (write_at-suc (write_at buffer n (b ∷ [])) (suc n + 1) (n + 1) x bytes (omega arith))
    ∙ ap (λ zs. write_at zs (suc n + 1) bytes) (sym (write_at-suc buffer (suc n) n x (b ∷ []) refl))

length-write_at :
    (buffer : List ℕ) (n : ℕ) (bytes : List ℕ)
    → n + length bytes ≤ length buffer
    → length (write_at buffer n bytes) ≡ length buffer
length-write_at buffer n bytes h = ground (
  arith,
  length-append (take n buffer ++ bytes) (drop (n + length bytes) buffer),
  length-append (take n buffer) bytes,
  length-take n buffer,
  length-drop (n + length bytes) buffer,
)

-- The arrays have their sizes, the chunk is not full, and the count of the package has room for so
-- many bytes more.
abbrev pub Fits : Cloud → ℕ → Type 0
Fits c n =
    (c.chunk_length < protocol_max_payload_size)
    × (length c.chunk ≡ protocol_max_payload_size)
    × (length c.header ≡ firmware_header_size)
    × (c.package_received + n < 2 ^ 32)

module _ {S : Type 0} (services : Services S) where
  -- The bytes one after the other, up to the first that is refused.
  unfoldable pub write_bytes : Session S → List ℕ → CloudResult × Session S
  write_bytes session [] = (ok, session)
  write_bytes session (b ∷ bytes) =
      let (result, after) = take_bytes services session (b ∷ []) in
      let rest = write_bytes after bytes in elim result [ ok ↦ rest | other ↦ (other, after) ]

  -- Bytes that are taken at once may be taken one by one: in the header, behind it, and in a chunk.
  take_header-cons :
      (c : Cloud) (u : Update) (s : S) (b : ℕ) (bytes : List ℕ)
      → Fits c (1 + length bytes)
      → 0 < length bytes
      → c.header_received < firmware_header_size
      → 1 + length bytes ≤ firmware_header_size - c.header_received
      → let d = record c {
        header = write_at c.header c.header_received (b ∷ []);
        header_received = c.header_received + 1;
        package_received = c.package_received + 1;
      } in
        (take_header services (c, u, s) (b ∷ []) ≡ (ok, (d, u, s)))
        × (take_header services (c, u, s) (b ∷ bytes) ≡ take_header services (d, u, s) bytes)
        × Fits d (length bytes)
  unfolding take_header
  take_header-cons c u s b bytes f p h l = ground (
    arith,
    write_at-cons c.header c.header_received b bytes,
    length-write_at c.header c.header_received (b ∷ []),
  )

  take_padding-cons :
      (c : Cloud) (u : Update) (s : S) (b : ℕ) (bytes : List ℕ)
      → Fits c (1 + length bytes)
      → let d = record c { package_received = c.package_received + 1 } in
        (take_padding services (c, u, s) (b ∷ []) ≡ (ok, (d, u, s)))
        × (take_padding services (c, u, s) (b ∷ bytes) ≡ take_padding services (d, u, s) bytes)
        × Fits d (length bytes)
  unfolding take_padding
  take_padding-cons c u s b bytes f = ground arith

  take_chunk-cons :
      (c : Cloud) (u : Update) (s : S) (b : ℕ) (bytes : List ℕ)
      → Fits c (1 + length bytes)
      → 0 < length bytes
      → 1 + length bytes ≤ protocol_max_payload_size - c.chunk_length
      → let d = record c {
        chunk = write_at c.chunk c.chunk_length (b ∷ []);
        chunk_length = c.chunk_length + 1;
        package_received = c.package_received + 1;
      } in
        (take_chunk services (c, u, s) (b ∷ []) ≡ (ok, (d, u, s)))
        × (take_chunk services (c, u, s) (b ∷ bytes) ≡ take_chunk services (d, u, s) bytes)
        × Fits d (length bytes)
  unfolding take_chunk
  take_chunk-cons c u s b bytes f p l = ground (
    arith,
    write_at-cons c.chunk c.chunk_length b bytes,
    length-write_at c.chunk c.chunk_length (b ∷ []),
  )

  pub take_bytes-cons :
      (session : Session S) (b : ℕ) (bytes : List ℕ)
      → Fits session.0 (1 + length bytes)
      → 0 < length bytes
      → 1 + length bytes ≤ room session.0
      → let (result, after) = take_bytes services session (b ∷ []) in
        (result ≡ ok)
        × (take_bytes services session (b ∷ bytes) ≡ take_bytes services after bytes)
        × (length bytes ≤ room after.0)
        × Fits after.0 (length bytes)
  unfolding take_bytes room
  take_bytes-cons (c, u, s) b bytes f p l = ground (
    arith,
    take_header-cons c u s b bytes f p,
    take_padding-cons c u s b bytes f,
    take_chunk-cons c u s b bytes f p,
  )

  start_from_header-Fits :
      (session : Session S) (n : ℕ)
      → Fits session.0 n
      → Fits (start_from_header services session).1.0 n
  unfolding start_from_header submit
  start_from_header-Fits (c, u, s) n f = ground arith

  flush_chunk-Fits :
      (session : Session S) (n : ℕ)
      → (flush_chunk services session).0 ≡ ok
      → session.0.chunk_length ≢ 0
      → Fits (record session.0 { chunk_length = 0 }) n
      → Fits (flush_chunk services session).1.0 n
  unfolding flush_chunk submit
  flush_chunk-Fits (c, u, s) n e h f = ground arith

  pub take_bytes-Fits :
      (session : Session S) (bytes : List ℕ) (n : ℕ)
      → length bytes ≤ room session.0
      → (take_bytes services session bytes).0 ≡ ok
      → Fits session.0 (length bytes + n)
      → Fits (take_bytes services session bytes).1.0 n
  unfolding take_bytes take_header take_padding take_chunk room
  take_bytes-Fits (c, u, s) bytes n l e f = ground (
    arith,
    length-write_at c.header c.header_received bytes,
    length-write_at c.chunk c.chunk_length bytes,
    start_from_header-Fits
        (
          record c {
            header = write_at c.header c.header_received bytes;
            header_received = u32 (c.header_received + length bytes);
            package_received = u32 (c.package_received + length bytes);
          },
          u,
          s,
        )
        n,
    flush_chunk-Fits
        (
          record c {
            chunk = write_at c.chunk c.chunk_length bytes;
            chunk_length = u32 (c.chunk_length + length bytes);
            package_received = u32 (c.package_received + length bytes);
          },
          u,
          s,
        )
        n,
  )
