-- ===== src/Examples/Engine.antt =====
-- The update and the download over a flash memory that is a function.
use tm4c123gxl_ota.Base.{
  ℕ, ◌+◌, ◌-◌, ◌<◌, ◌≤◌, ◌≡◌, ◌≢◌, ◌↔◌, ◌⊎◌, inl, inr, refl, arith, List, [], ◌∷◌, ◌++◌, none, some,
  Bool, true, false, ◌&&◌, leb, ltb, ◌==◌, if◌then◌else◌, le32, get_or, length, take, replicate,
  eq_bytes,
}
use tm4c123gxl_ota.Config.{
  packet_timeout_ms, slot_b_payload_start, slot_b_start, metadata_copy0_start, metadata_copy1_start,
  metadata_copy_size,
}
use tm4c123gxl_ota.Types.{
  FirmwareHeader, SlotRecord, header_bytes, metadata_bytes, firmware_header_size, slot_b,
  slot_pending,
}
use tm4c123gxl_ota.Types.Layout.{header_of_bytes, metadata_of_bytes}
use tm4c123gxl_ota.Crc32
use tm4c123gxl_ota.Protocol.{
  Packet, cmd_start_update, cmd_data, cmd_end_update, cmd_abort, cmd_ack, cmd_nack,
}
use tm4c123gxl_ota.Image.{ok, header_crc32, header_validate, all_zero, crc_loop, vector_validate}
use tm4c123gxl_ota.Image.Loop.{slice, Reads}
use tm4c123gxl_ota.Metadata.{
  MetadataResult, commit, finalize, next_record, record_valid, record_crc,
}
use tm4c123gxl_ota.Boot.{slot_record}
use tm4c123gxl_ota.Update.{
  Update, Services, idle, receiving, ready_to_boot, update_init, handle, handle_data, handle_end,
  fail, ack, nack, is_repeated, write_data, erase_page, pending_metadata, payload_matches,
  vector_matches, read_payload_crc, poll,
}
use tm4c123gxl_ota.Update.Answers.{handle-repeated, handle_steps}
use tm4c123gxl_ota.Update.Transfer.{IsSound, handle-IsSound, start_refused}
use tm4c123gxl_ota.Update.Finish.{IsVerified, announced, handle-end_iff, handle-end_ready, poll_iff}
use tm4c123gxl_ota.CloudOta.{Cloud, Session, zero_cloud, write}
use tm4c123gxl_ota.CloudOta.Loop.{write_ends}
use tm4c123gxl_ota.CloudOta.Pieces.{write_all, write_all-concat}
use tm4c123gxl_ota.Http.Body.{concat}
use tm4c123gxl_ota.Examples.{flash_a, header_a, pending_b, unsigned_header, version_2}

abbrev pub Flash : Type 0
Flash = ℕ → ℕ

abbrev is_inside : ℕ → ℕ → ℕ → Bool
is_inside address size x = leb address x && ltb x (address + size)

-- Every erase and every write succeeds.
abbrev fill : Flash → ℕ → ℕ → ℕ → Flash
fill s address size value x = if is_inside address size x then value else s x

abbrev store_bytes : Flash → ℕ → List ℕ → Flash
store_bytes s address bytes x =
    if is_inside address (length bytes) x then get_or bytes (x - address) 255 else s x

abbrev copy_address : ℕ → ℕ
copy_address k = if k == 0 then metadata_copy0_start else metadata_copy1_start

abbrev pub flash_services : Services Flash
flash_services = record {
  read = λ s a n. some (slice s a n);
  erase = λ s a n active. (true, fill s a n 255);
  program = λ s a bytes active. (true, store_bytes s a bytes);
  metadata_io = record {
    read = λ s k. some (metadata_of_bytes (slice s (copy_address k) 80));
    erase = λ s k. (true, fill s (copy_address k) metadata_copy_size 255);
    program = λ s k r. (true, store_bytes s (copy_address k) (metadata_bytes r));
  };
  reset = λ s. s;
}

-- A header for slot B, and an update that receives its image.
abbrev unsigned_b : FirmwareHeader
unsigned_b = record unsigned_header { target_slot = slot_b; version = version_2; payload_size = 12 }

abbrev header_b : FirmwareHeader
header_b = record unsigned_b { header_crc32 = header_crc32 unsigned_b }

header_b_test : header_validate header_b slot_b ≡ ok
unfolding header_validate header_crc32 all_zero Crc32.crc32 Crc32.init Crc32.update Crc32.byte_step
    Crc32.bit_loop Crc32.bit_step Crc32.finish
header_b_test = refl

abbrev pub transfer : Update
transfer = record (update_init pending_b 0) {
  state = receiving;
  header = header_b;
  next_sequence = 3;
}

transfer-IsSound : IsSound transfer
transfer-IsSound = inr (header_b_test, λ e. omega arith, omega arith)

abbrev pub data_request : Packet
data_request = record {
  command = cmd_data;
  sequence = 3;
  length = 4;
  payload = 1 ∷ 2 ∷ 3 ∷ 4 ∷ replicate 252 0;
}

abbrev end_request : Packet
end_request = record data_request { command = cmd_end_update; length = 0 }

handle-IsSound_example : IsSound (handle flash_services transfer flash_a data_request).0
handle-IsSound_example =
    handle-IsSound flash_services transfer flash_a data_request transfer-IsSound
      (inl (λ e. omega arith))

data_acknowledged : (handle flash_services transfer flash_a data_request).2.command ≡ cmd_ack
unfolding handle handle_data fail ack nack is_repeated write_data erase_page eq_bytes
data_acknowledged = refl

handle-repeated_example :
    let (after, t, response) = handle flash_services transfer flash_a data_request in
    handle flash_services after t data_request ≡ (after, t, response)
handle-repeated_example =
    handle-repeated flash_services transfer flash_a data_request refl data_acknowledged

handle_steps_example :
    let (after, _, response) = handle flash_services transfer flash_a end_request in
    (after.state ≡ transfer.state)
    ⊎ ((after.state ≡ idle) × (end_request.command ≡ cmd_abort) × (transfer.state ≡ receiving))
    ⊎ ((after.state ≡ receiving)
        × (end_request.command ≡ cmd_start_update)
        × (response.command ≡ cmd_ack))
    ⊎ ((after.state ≡ ready_to_boot)
        × (end_request.command ≡ cmd_end_update)
        × (response.command ≡ cmd_ack)
        × (transfer.state ≡ receiving))
handle_steps_example = handle_steps flash_services transfer flash_a end_request

-- A START_UPDATE for the active slot, while the image for slot B is received.
abbrev start_request : Packet
start_request = record {
  command = cmd_start_update;
  sequence = 9;
  length = firmware_header_size;
  payload = header_bytes header_a ++ replicate 224 0;
}

start_refused_example :
    let header = header_of_bytes (take firmware_header_size start_request.payload) in
    let (after, t, response) = handle flash_services transfer flash_a start_request in
    (response.command ≡ cmd_nack)
    × (after.header ≡ header)
    × (after.state ≡ transfer.state)
    × (after.received ≡ transfer.received)
    × (t ≡ flash_a)
start_refused_example =
    start_refused flash_services transfer flash_a start_request refl refl (inr active)
  where
    active :
        (header_of_bytes (take firmware_header_size start_request.payload)).target_slot
        ≡ transfer.metadata.active_slot
    active = unfold header_of_bytes in refl

-- An image of a vector table for slot B, received in full.
abbrev vector_b : List ℕ
vector_b = le32 0x2000_8000 ++ le32 (slot_b_payload_start + 257)

abbrev complete : Update
complete = record transfer {
  header = record header_b { payload_size = 8; payload_crc32 = Crc32.crc32 vector_b };
  received = 8;
}

abbrev pub flash_b : Flash
flash_b = store_bytes flash_a slot_b_payload_start vector_b

flash_b-Reads : Reads (flash_services.read flash_b) flash_b
flash_b-Reads a n h = refl

handle-end_iff_example :
    let h = complete.header in
    let m = complete.metadata in
    let waiting =
      finalize
        (record m { slot_a = m.slot_a; slot_b = announced h; pending_slot = h.target_slot }) in
    let (programmed, s1) =
      flash_services.program flash_b slot_b_start (header_bytes h) m.active_slot in
    ((handle flash_services complete flash_b end_request).2.command ≡ cmd_ack) ↔ (
      (complete.state ≡ receiving)
      × (complete.received ≡ h.payload_size)
      × IsVerified flash_b h
      × (programmed ≡ true)
      × ((commit flash_services.metadata_io s1 waiting complete.metadata_copy).0
          ≡ MetadataResult.ok))
handle-end_iff_example =
    handle-end_iff flash_services complete flash_b flash_b end_request flash_b-Reads refl (inr refl)
      (omega arith)

end_acknowledged : (handle flash_services complete flash_b end_request).2.command ≡ cmd_ack
unfolding handle handle_end fail ack nack payload_matches vector_matches read_payload_crc crc_loop
    vector_validate pending_metadata commit finalize next_record record_valid record_crc
    metadata_of_bytes eq_bytes Crc32.crc32 Crc32.init Crc32.update Crc32.byte_step Crc32.bit_loop
    Crc32.bit_step Crc32.finish
end_acknowledged = refl

handle-end_ready_example :
    let (after, _, _) = handle flash_services complete flash_b end_request in
    let r : SlotRecord = slot_record after.metadata complete.header.target_slot in
    (after.state ≡ ready_to_boot)
    × (after.metadata.pending_slot ≡ complete.header.target_slot)
    × (after.metadata.active_slot ≡ complete.metadata.active_slot)
    × (r.state ≡ slot_pending)
    × (r.boot_count ≡ 0)
    × (r.version ≡ complete.header.version)
    × (r.payload_size ≡ complete.header.payload_size)
    × (r.payload_crc32 ≡ complete.header.payload_crc32)
handle-end_ready_example =
    handle-end_ready flash_services complete flash_b end_request refl end_acknowledged (inr refl)

-- The clock has wrapped since the last activity.
abbrev stalled : Update
stalled = record transfer { last_activity_ms = 4294967000 }

poll_iff_example :
    (((stalled.state ≡ receiving) × (packet_timeout_ms ≤ 1200))
      × ((poll stalled 904).state ≡ idle)
      × ((poll stalled 904).have_last ≡ false))
    ⊎ (((stalled.state ≢ receiving) ⊎ (1200 < packet_timeout_ms)) × (poll stalled 904 ≡ stalled))
poll_iff_example = poll_iff stalled 904 1200 (omega arith) (omega arith) (omega arith)

-- A download of a package with an image of 300 bytes, of which 1200 bytes are in.
abbrev download : Cloud
download = record zero_cloud {
  attached = true;
  remote_size = 1324;
  package_received = 1200;
  header_received = 32;
  chunk_length = 176;
  sequence = 1;
  started = true;
}

write_ends_example : write flash_services (download, transfer, flash_a) (replicate 124 7) ≢ none
write_ends_example =
    write_ends flash_services (download, transfer, flash_a) (replicate 124 7) (omega arith)

-- The same bytes in three pieces, one of them empty.
abbrev pieces : List (List ℕ)
pieces = replicate 100 7 ∷ [] ∷ replicate 24 8 ∷ []

write_all-concat_example :
    write_all flash_services (download, transfer, flash_a) pieces
    ≡ write flash_services (download, transfer, flash_a) (concat pieces)
write_all-concat_example =
    write_all-concat flash_services (download, transfer, flash_a) pieces refl (omega arith)
      (omega arith) (omega arith, refl, refl, omega arith)

-- A download whose last chunk is sent.
abbrev pub downloaded : Session Flash
downloaded = (
  record zero_cloud {
    attached = true;
    remote_size = 1032;
    package_received = 1032;
    header_received = 32;
    sequence = 4;
    started = true;
  },
  complete,
  flash_b,
)
