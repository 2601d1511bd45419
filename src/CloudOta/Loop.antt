-- ===== src/CloudOta/Loop.antt =====
-- The loop of `cloud_ota_write` ends.
use tm4c123gxl_ota.Base.{
  ℕ, zero, suc, ◌+◌, ◌-◌, ◌*◌, ◌≡◌, ◌≢◌, ◌≤◌, ◌<◌, ◌⊎◌, arith, List, none, ◌==◌, if◌then◌else◌, u32,
  take, drop, length, min, length-take, length-drop,
}
use tm4c123gxl_ota.Config.{protocol_max_payload_size}
use tm4c123gxl_ota.Update.{Services}
use tm4c123gxl_ota.CloudOta.{
  Cloud, ok, Session, submit, flush_chunk, start_from_header, take_header, take_padding, take_chunk,
  take_bytes, room, write_at, write_loop, write,
}

-- One more round is needed if the chunk is full.
abbrev pending : Cloud → ℕ
pending c = if c.chunk_length == protocol_max_payload_size then 1 else 0

module _ {S : Type 0} (services : Services S) where
  start_from_header_chunk :
      (session : Session S)
      → (start_from_header services session).1.0.chunk_length ≡ session.0.chunk_length
  unfolding start_from_header submit
  start_from_header_chunk (c, u, s) = ground arith

  flush_chunk_ok :
      (session : Session S)
      → (flush_chunk services session).0 ≡ ok
      → (flush_chunk services session).1.0.chunk_length ≡ 0
  unfolding flush_chunk submit
  flush_chunk_ok (c, u, s) h = ground arith

  take_bytes_smaller :
      (session : Session S) (bytes : List ℕ) (size : ℕ)
      → session.0.chunk_length ≤ protocol_max_payload_size
      → 0 < size
      → length bytes ≡ min size (room session.0)
      → (take_bytes services session bytes).0 ≡ ok
      → let c = (take_bytes services session bytes).1.0 in
        (c.chunk_length ≤ protocol_max_payload_size)
        × (size - length bytes + pending c < size + pending session.0)
  unfolding take_bytes take_header take_padding take_chunk room
  take_bytes_smaller (c, u, s) bytes size h p l o = ground (
    arith,
    start_from_header_chunk (
        (
          record c {
            header = write_at c.header c.header_received bytes;
            header_received = u32 (c.header_received + length bytes);
            package_received = u32 (c.package_received + length bytes);
          },
          u,
          s,
        )),
    flush_chunk_ok (
        (
          record c {
            chunk = write_at c.chunk c.chunk_length bytes;
            chunk_length = u32 (c.chunk_length + length bytes);
            package_received = u32 (c.package_received + length bytes);
          },
          u,
          s,
        )),
  )

  write_loop_ends :
      (rounds : ℕ) (session : Session S) (source : List ℕ)
      → session.0.chunk_length ≤ protocol_max_payload_size
      → (length source ≡ 0) ⊎ (length source + pending session.0 ≤ rounds)
      → write_loop services rounds session source ≢ none
  unfolding write_loop
  write_loop_ends zero session source h l = ground arith
  write_loop_ends (suc rounds) session source h l =
      let size : ℕ = length source in
      let accepted : ℕ = min size (room session.0) in
      let bytes = take accepted source in
      let next = (take_bytes services session bytes).1 in
      ground (
        arith,
        length-take accepted source,
        length-drop accepted source,
        take_bytes_smaller session bytes size h,
        write_loop_ends rounds next (drop accepted source),
      )

  -- While the chunk holds no more than its 256 bytes, writing any number of bytes ends, and with a
  -- result.
  pub write_ends :
      (session : Session S) (source : List ℕ)
      → session.0.chunk_length ≤ protocol_max_payload_size
      → write services session source ≢ none
  unfolding write
  write_ends session source h = ground (arith, write_loop_ends (2 * length source) session source h)
