-- ===== src/CloudOta.antt =====
-- tm4c_uart_esp32_bridge/cloud_ota.c and cloud_ota.h: a package that is downloaded in pieces is fed
-- to the update as START_UPDATE, DATA and END_UPDATE requests. `size_t` has 32 bits on the target.
-- The update that the source reaches through a pointer is passed along; `attached` says whether
-- the pointer is set.
pub mod Progress
pub mod Loop
pub mod Keeps
pub mod Bytes
pub mod Pieces
use tm4c123gxl_ota.Base.{
  ℕ, zero, suc, ◌+◌, ◌-◌, ◌*◌, ◌/◌, ◌%◌, ◌^◌, List, [], ◌∷◌, ◌++◌, Option, none, some, Bool, true,
  false, ◌&&◌, ◌||◌, not, ltb, leb, ◌==◌, ◌!=◌, if◌then◌else◌, u16, u32, sub32, take, drop,
  replicate, length, min,
}
use tm4c123gxl_ota.Config.{slot_header_size, slot_payload_size, protocol_max_payload_size}
use tm4c123gxl_ota.Types.{Version, FirmwareHeader, firmware_header_size}
use tm4c123gxl_ota.Types.Layout.{header_of_bytes}
use tm4c123gxl_ota.Protocol.{
  Packet, zero_packet, cmd_start_update, cmd_data, cmd_end_update, cmd_abort, cmd_ack,
}
use tm4c123gxl_ota.Image.{ImageResult, header_validate}
use tm4c123gxl_ota.Update.{Update, Services, handle, is_receiving}

-- `cloud_ota_result_t`
pub data CloudResult : Type 0 where
  ok ready_to_reboot invalid size header engine truncated : CloudResult

-- `cloud_ota_t`; `header` is the memory of its header, of which `header_received` bytes are in, and
-- `chunk` the whole array of 256 bytes.
pub record Cloud : Type 0 where
  pub attached : Bool
  pub remote_size : ℕ
  pub package_received : ℕ
  pub header_received : ℕ
  pub chunk_length : ℕ
  pub sequence : ℕ
  pub started : Bool
  pub expected_version : Version
  pub header : List ℕ
  pub chunk : List ℕ
  pub request : Packet
  pub response : Packet

-- The session, the update it points to, and the store of the update's services.
abbrev pub Session : Type 0 → Type 0
Session S = Cloud × Update × S

-- `memcpy(buffer + offset, bytes, …)`
abbrev pub write_at : List ℕ → ℕ → List ℕ → List ℕ
write_at buffer offset bytes = take offset buffer ++ bytes ++ drop (offset + length bytes) buffer

abbrev pub zero_cloud : Cloud
zero_cloud = record {
  attached = false;
  remote_size = 0;
  package_received = 0;
  header_received = 0;
  chunk_length = 0;
  sequence = 0;
  started = false;
  expected_version = record { major = 0; minor = 0; patch = 0 };
  header = replicate 32 0;
  chunk = replicate 256 0;
  request = zero_packet;
  response = zero_packet;
}

-- `cloud_ota_begin`
unfoldable pub begin : ℕ → Version → CloudResult × Cloud
begin remote_size expected_version =
    if leb remote_size slot_header_size || ltb (slot_header_size + slot_payload_size) remote_size
    then (size, zero_cloud)
    else (
      ok,
      record zero_cloud {
        attached = true;
        remote_size = remote_size;
        expected_version = expected_version;
      },
    )

-- `cloud_ota_progress`
unfoldable pub progress : Cloud → ℕ
progress c = if c.remote_size == 0 then 0 else u32 (c.package_received * 100) / c.remote_size

-- How many of the bytes at hand the next round may take.
unfoldable pub room : Cloud → ℕ
room c =
    if ltb c.header_received firmware_header_size
    then firmware_header_size - c.header_received
    else if ltb c.package_received slot_header_size
    then slot_header_size - c.package_received
    else protocol_max_payload_size - c.chunk_length

module _ {S : Type 0} (services : Services S) where
  -- `submit`
  unfoldable pub submit : Session S → ℕ → List ℕ → CloudResult × Session S
  submit (c, u, s) command payload =
      let request : Packet = record {
        command = command;
        sequence = c.sequence;
        length = length payload;
        payload = write_at (replicate 256 0) 0 payload;
      } in
      let (after, t, response) = handle services u s request in
      (
        if response.command == cmd_ack then ok else engine,
        (
          record c { request = request; sequence = u16 (c.sequence + 1); response = response },
          after,
          t,
        ),
      )

  -- `start_from_header`
  unfoldable pub start_from_header : Session S → CloudResult × Session S
  start_from_header (c, u, s) =
      let h = header_of_bytes c.header in
      if (h.version.major != c.expected_version.major)
        || (h.version.minor != c.expected_version.minor)
        || (h.version.patch != c.expected_version.patch)
        || (u32 (h.payload_size + slot_header_size) != c.remote_size)
      then (header, (c, u, s))
      else elim (header_validate h h.target_slot) [
        | ImageResult.ok ↦
            let (result, (d, after, t)) = submit (c, u, s) cmd_start_update c.header in
            elim result [
              | ok ↦ (ok, (record d { started = true }, after, t))
              | other ↦ (engine, (d, after, t))
            ]
        | other ↦ (header, (c, u, s))
      ]

  -- `flush_chunk`
  unfoldable pub flush_chunk : Session S → CloudResult × Session S
  flush_chunk (c, u, s) =
      if c.chunk_length == 0
      then (ok, (c, u, s))
      else let (result, (d, after, t)) = submit (c, u, s) cmd_data (take c.chunk_length c.chunk) in
        elim result [
          | ok ↦ (ok, (record d { chunk_length = 0 }, after, t))
          | other ↦ (other, (d, after, t))
        ]

  -- The three branches of the loop's body for `accepted` bytes: the result if it returns, and the
  -- session.
  unfoldable pub take_header : Session S → List ℕ → CloudResult × Session S
  take_header (c, u, s) bytes =
      let d = record c {
        header = write_at c.header c.header_received bytes;
        header_received = u32 (c.header_received + length bytes);
        package_received = u32 (c.package_received + length bytes);
      } in
      if d.header_received == firmware_header_size
      then start_from_header (d, u, s)
      else (ok, (d, u, s))

  unfoldable pub take_padding : Session S → List ℕ → CloudResult × Session S
  take_padding (c, u, s) bytes =
      (ok, (record c { package_received = u32 (c.package_received + length bytes) }, u, s))

  unfoldable pub take_chunk : Session S → List ℕ → CloudResult × Session S
  take_chunk (c, u, s) bytes =
      let d = record c {
        chunk = write_at c.chunk c.chunk_length bytes;
        chunk_length = u32 (c.chunk_length + length bytes);
        package_received = u32 (c.package_received + length bytes);
      } in
      if d.chunk_length == protocol_max_payload_size
      then (let (result, after) = flush_chunk (d, u, s) in
          elim result [ ok ↦ (ok, after) | other ↦ (engine, after) ])
      else (ok, (d, u, s))

  unfoldable pub take_bytes : Session S → List ℕ → CloudResult × Session S
  take_bytes (c, u, s) bytes =
      if ltb c.header_received firmware_header_size
      then take_header (c, u, s) bytes
      else if ltb c.package_received slot_header_size
      then take_padding (c, u, s) bytes
      else take_chunk (c, u, s) bytes

  -- The loop of `cloud_ota_write` for so many rounds; none if they are not enough.
  unfoldable pub write_loop : ℕ → Session S → List ℕ → Option (CloudResult × Session S)
  write_loop zero session source = if length source == 0 then some (ok, session) else none
  write_loop (suc rounds) session source =
      let accepted = min (length source) (room session.0) in
      let (result, after) = take_bytes session (take accepted source) in
      let rest = λ (next : Session S). write_loop rounds next (drop accepted source) in
      if length source == 0
      then some (ok, session)
      else elim result [ ok ↦ rest after | other ↦ some (other, after) ]

  -- `cloud_ota_write`. A round takes a byte, except one that sends a full chunk again.
  unfoldable pub write : Session S → List ℕ → Option (CloudResult × Session S)
  write session source =
      let c = session.0 in
      if not c.attached || ltb (sub32 c.remote_size c.package_received) (length source)
      then some (size, session)
      else write_loop (2 * length source) session source

  -- `cloud_ota_finish`
  unfoldable pub finish : Session S → CloudResult × Session S
  finish session =
      let c = session.0 in
      if not c.attached || not c.started || (c.package_received != c.remote_size)
      then (truncated, session)
      else let (flushed, next) = flush_chunk session in
        elim flushed [
          | ok ↦
              let (result, after) = submit next cmd_end_update [] in
              elim result [ ok ↦ (ready_to_reboot, after) | other ↦ (engine, after) ]
          | other ↦ (engine, next)
        ]

  -- `cloud_ota_abort`
  unfoldable pub abort : Session S → Session S
  abort (c, u, s) =
      if c.attached && c.started && is_receiving u.state
      then (let (d, after, t) = (submit (c, u, s) cmd_abort []).1 in
          (record d { started = false; chunk_length = 0 }, after, t))
      else (c, u, s)
