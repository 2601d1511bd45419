-- ===== src/CloudOta/Keeps.antt =====
-- What every request to the update leaves alone, a whole session leaves alone.
use tm4c123gxl_ota.Base.{
  ℕ, zero, suc, ◌*◌, ◌+◌, ◌≡◌, arith, List, [], some, u32, take, drop, length, min, replicate,
}
use tm4c123gxl_ota.Protocol.{Packet, cmd_start_update, cmd_data, cmd_end_update, cmd_abort}
use tm4c123gxl_ota.Update.{Update, Services, handle}
use tm4c123gxl_ota.CloudOta.{
  Cloud, CloudResult, Session, write_at, submit, start_from_header, flush_chunk, take_header,
  take_padding, take_chunk, take_bytes, room, write_loop, write, finish, abort,
}

module _ {S A : Type 0} (services : Services S) (view : Update → S → A)
    (keep : (u : Update) (s : S) (request : Packet)
      → view (handle services u s request).0 (handle services u s request).1 ≡ view u s) where
  submit-keeps :
      (c : Cloud) (u : Update) (s : S) (command : ℕ) (payload : List ℕ)
      → let after = (submit services (c, u, s) command payload).1 in view after.1 after.2 ≡ view u s
  unfolding submit
  submit-keeps c u s command payload = keep u s (record {
    command = command;
    sequence = c.sequence;
    length = length payload;
    payload = write_at (replicate 256 0) 0 payload;
  })

  start_from_header-keeps :
      (c : Cloud) (u : Update) (s : S)
      → let after = (start_from_header services (c, u, s)).1 in view after.1 after.2 ≡ view u s
  unfolding start_from_header
  start_from_header-keeps c u s = ground (arith, submit-keeps c u s cmd_start_update c.header)

  flush_chunk-keeps :
      (c : Cloud) (u : Update) (s : S)
      → let after = (flush_chunk services (c, u, s)).1 in view after.1 after.2 ≡ view u s
  unfolding flush_chunk
  flush_chunk-keeps c u s =
      ground (arith, submit-keeps c u s cmd_data (take c.chunk_length c.chunk))

  take_bytes-keeps :
      (c : Cloud) (u : Update) (s : S) (bytes : List ℕ)
      → let after = (take_bytes services (c, u, s) bytes).1 in view after.1 after.2 ≡ view u s
  unfolding take_bytes take_header take_padding take_chunk
  take_bytes-keeps c u s bytes = ground (
    arith,
    start_from_header-keeps
        (record c {
          header = write_at c.header c.header_received bytes;
          header_received = u32 (c.header_received + length bytes);
          package_received = u32 (c.package_received + length bytes);
        })
        u s,
    flush_chunk-keeps
        (record c {
          chunk = write_at c.chunk c.chunk_length bytes;
          chunk_length = u32 (c.chunk_length + length bytes);
          package_received = u32 (c.package_received + length bytes);
        })
        u s,
  )

  write_loop-keeps :
      (rounds : ℕ) (c : Cloud) (u : Update) (s : S) (source : List ℕ) (result : CloudResult)
      (after : Session S)
      → write_loop services rounds (c, u, s) source ≡ some (result, after)
      → view after.1 after.2 ≡ view u s
  unfolding write_loop
  write_loop-keeps zero c u s source result after h = ground arith
  write_loop-keeps (suc rounds) c u s source result after h =
      let accepted : ℕ = min (length source) (room c) in
      let bytes : List ℕ = take accepted source in
      let next = (take_bytes services (c, u, s) bytes).1 in
      ground (
        arith,
        take_bytes-keeps c u s bytes,
        write_loop-keeps rounds next.0 next.1 next.2 (drop accepted source) result after,
      )

  pub write-keeps :
      (c : Cloud) (u : Update) (s : S) (source : List ℕ) (result : CloudResult) (after : Session S)
      → write services (c, u, s) source ≡ some (result, after)
      → view after.1 after.2 ≡ view u s
  unfolding write
  write-keeps c u s source result after h =
      ground (arith, write_loop-keeps (2 * length source) c u s source result after)

  pub finish-keeps :
      (c : Cloud) (u : Update) (s : S)
      → let after = (finish services (c, u, s)).1 in view after.1 after.2 ≡ view u s
  unfolding finish
  finish-keeps c u s =
      let next = (flush_chunk services (c, u, s)).1 in
      ground (arith, flush_chunk-keeps c u s, submit-keeps next.0 next.1 next.2 cmd_end_update [])

  pub abort-keeps :
      (c : Cloud) (u : Update) (s : S)
      → let after = abort services (c, u, s) in view after.1 after.2 ≡ view u s
  unfolding abort
  abort-keeps c u s = ground (arith, submit-keeps c u s cmd_abort [])
