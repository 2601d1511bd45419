-- ===== src/Update/Finish.antt =====
-- When an update is finished, and that a stalled one is given up.
use tm4c123gxl_ota.Base.{
  ℕ, ◌+◌, ◌≡◌, ◌≢◌, ◌≤◌, ◌<◌, ◌^◌, ◌⊎◌, ◌↔◌, arith, true, false, some, u32, replicate,
  if◌then◌else◌, ◌==◌,
}
use tm4c123gxl_ota.Config.{packet_timeout_ms, slot_payload_size, slot_a_start, slot_b_start}
use tm4c123gxl_ota.Crc32
use tm4c123gxl_ota.Types.{SlotRecord, FirmwareHeader, header_bytes, slot_a, slot_b, slot_pending}
use tm4c123gxl_ota.Protocol.{Packet, cmd_end_update, cmd_ack}
use tm4c123gxl_ota.Image.{slot_payload_start, vector_msp, vector_reset, vector_size}
use tm4c123gxl_ota.Image.Accept.{VectorFits, vector_validate_iff, stored_vector}
use tm4c123gxl_ota.Image.Loop.{slice, Reads, crc_loop_lem}
use tm4c123gxl_ota.Metadata.{MetadataResult, finalize, commit}
use tm4c123gxl_ota.Boot.{slot_record}
use tm4c123gxl_ota.Update.{
  Update, Services, idle, receiving, ready_to_boot, handle, handle_end, fail, ack, nack,
  pending_metadata, payload_matches, vector_matches, read_payload_crc, poll,
}

-- What the flash holds for a finished update: the payload's bytes have the header's checksum, and its
-- vector table fits the target slot.
pub record IsVerified (mem : ℕ → ℕ) (h : FirmwareHeader) : Type 0 where
  pub payload :
      Crc32.crc32 (slice mem (slot_payload_start h.target_slot) h.payload_size) ≡ h.payload_crc32
  pub vector :
      VectorFits
        (vector_msp (stored_vector mem h.target_slot))
        (vector_reset (stored_vector mem h.target_slot))
        h.target_slot

-- The slot's entry for an update that waits for its first start.
abbrev pub announced : FirmwareHeader → SlotRecord
announced h = record {
  state = slot_pending;
  reserved0 = replicate 3 0;
  version = h.version;
  reserved1 = 0;
  payload_size = h.payload_size;
  payload_crc32 = h.payload_crc32;
  boot_count = 0;
}

module _ {S : Type 0} (services : Services S) (u : Update) (s : S) where
  read_payload_crc_lem :
      (mem : ℕ → ℕ)
      → Reads (services.read s) mem
      → u.received ≤ slot_payload_size
      → read_payload_crc services s u.header.target_slot u.received
        ≡ some (Crc32.crc32 (slice mem (slot_payload_start u.header.target_slot) u.received))
  unfolding read_payload_crc Crc32.crc32
  read_payload_crc_lem mem reads fits = ground (
    arith,
    crc_loop_lem u.received (services.read s) mem (slot_payload_start u.header.target_slot)
        u.received Crc32.init reads,
  )

  payload_matches_iff :
      (mem : ℕ → ℕ)
      → Reads (services.read s) mem
      → u.received ≤ slot_payload_size
      → (payload_matches services u s ≡ true) ↔ (
          Crc32.crc32 (slice mem (slot_payload_start u.header.target_slot) u.received)
          ≡ u.header.payload_crc32)
  unfolding payload_matches
  payload_matches_iff mem reads fits = ground (arith, read_payload_crc_lem mem reads fits)

  vector_matches_iff :
      (mem : ℕ → ℕ)
      → Reads (services.read s) mem
      → (vector_matches services u s ≡ true)
        ↔ VectorFits
            (vector_msp (stored_vector mem u.header.target_slot))
            (vector_reset (stored_vector mem u.header.target_slot))
            u.header.target_slot
  unfolding vector_matches
  vector_matches_iff mem reads =
      let v = stored_vector mem u.header.target_slot in
      ground (
        arith,
        reads (slot_payload_start u.header.target_slot) vector_size,
        vector_validate_iff (vector_msp v) (vector_reset v) u.header.target_slot,
      )

  -- An END_UPDATE for slot A or B is acknowledged exactly when the update is received in full, the
  -- flash holds at the slot's payload address the announced number of bytes with the header's checksum
  -- and a vector table for the slot, the programming of the header reports success, and so does the
  -- commit of the metadata in which the slot is pending, with the header's version, size and checksum
  -- and no boot attempts, and all else is as before. What has been programmed of the header is not read
  -- back. The services copy what the flash holds, and the announced payload fits the slot.
  pub handle-end_iff :
      (mem : ℕ → ℕ) (request : Packet)
      → Reads (services.read s) mem
      → request.command ≡ cmd_end_update
      → (u.header.target_slot ≡ slot_a) ⊎ (u.header.target_slot ≡ slot_b)
      → u.header.payload_size ≤ slot_payload_size
      → let h = u.header in
        let m = u.metadata in
        let target_a = h.target_slot == slot_a in
        let waiting = finalize (record m {
          slot_a = if target_a then announced h else m.slot_a;
          slot_b = if target_a then m.slot_b else announced h;
          pending_slot = h.target_slot;
        }) in
        let start = if target_a then slot_a_start else slot_b_start in
        let (programmed, s1) = services.program s start (header_bytes h) m.active_slot in
        ((handle services u s request).2.command ≡ cmd_ack) ↔ (
          (u.state ≡ receiving)
          × (u.received ≡ h.payload_size)
          × IsVerified mem h
          × (programmed ≡ true)
          × ((commit services.metadata_io s1 waiting u.metadata_copy).0 ≡ MetadataResult.ok))
  unfolding handle handle_end fail ack nack pending_metadata
  handle-end_iff mem request reads c t fits =
      ground (arith, payload_matches_iff mem reads, vector_matches_iff mem reads)

-- After an acknowledged END_UPDATE for slot A or B the update is ready to boot; its metadata name the
-- target slot as pending, with no boot attempts, and the header's version, size and checksum; the
-- active slot is the one before.
pub handle-end_ready :
    {S : Type 0} (services : Services S) (u : Update) (s : S) (request : Packet)
    → request.command ≡ cmd_end_update
    → (handle services u s request).2.command ≡ cmd_ack
    → (u.header.target_slot ≡ slot_a) ⊎ (u.header.target_slot ≡ slot_b)
    → let (after, _, _) = handle services u s request in
      let r : SlotRecord = slot_record after.metadata u.header.target_slot in
      (after.state ≡ ready_to_boot)
      × (after.metadata.pending_slot ≡ u.header.target_slot)
      × (after.metadata.active_slot ≡ u.metadata.active_slot)
      × (r.state ≡ slot_pending)
      × (r.boot_count ≡ 0)
      × (r.version ≡ u.header.version)
      × (r.payload_size ≡ u.header.payload_size)
      × (r.payload_crc32 ≡ u.header.payload_crc32)
unfolding handle handle_end fail ack nack pending_metadata finalize
handle-end_ready services u s request c a t = ground arith

-- A poll gives up a transfer exactly when it is receiving and the clock, which wraps at 32 bits,
-- stands 1000 ms or more, and less than its range, after the last activity noted; any other poll changes nothing.
pub poll_iff :
    (u : Update) (now_ms elapsed : ℕ)
    → u.last_activity_ms < 2 ^ 32
    → elapsed < 2 ^ 32
    → now_ms ≡ u32 (u.last_activity_ms + elapsed)
    → (((u.state ≡ receiving) × (packet_timeout_ms ≤ elapsed))
        × ((poll u now_ms).state ≡ idle)
        × ((poll u now_ms).have_last ≡ false))
      ⊎ (((u.state ≢ receiving) ⊎ (elapsed < packet_timeout_ms)) × (poll u now_ms ≡ u))
unfolding poll
poll_iff u now_ms elapsed h l e = ground arith
