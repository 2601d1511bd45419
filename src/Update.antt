-- ===== src/Update.antt =====
-- tm4c123gxl/bootloader/src/bl_update.c and inc/bl_update.h: the bootloader's side of an update.
-- The services are an argument, over a store of the type `S` that they read and change; the copy
-- of the metadata that the source keeps among them is a field of the update here.
pub mod Answers
pub mod Transfer
pub mod Finish
pub mod Isolation
use tm4c123gxl_ota.Base.{
  ℕ, ◌+◌, ◌-◌, ◌*◌, ◌/◌, ◌%◌, ◌^◌, List, [], ◌∷◌, ◌++◌, Option, none, some, Bool, true, false, ◌&&◌,
  ◌||◌, not, ltb, leb, ◌==◌, ◌!=◌, eq_bytes, if◌then◌else◌, u8, u16, u32, sub32, le16, le32, take,
  replicate,
}
use tm4c123gxl_ota.Config.{
  flash_page_size, slot_a_start, slot_b_start, slot_payload_size, protocol_version,
  packet_timeout_ms,
}
use tm4c123gxl_ota.Types.{
  Version, FirmwareHeader, SlotRecord, MetadataRecord, header_bytes, firmware_header_size, slot_a,
  slot_pending,
}
use tm4c123gxl_ota.Types.Layout.{header_of_bytes}
use tm4c123gxl_ota.Crc32
use tm4c123gxl_ota.Protocol.{
  Packet, zero_packet, cmd_get_info, cmd_start_update, cmd_data, cmd_end_update, cmd_abort, cmd_ack,
  cmd_nack, cmd_reset,
}
use tm4c123gxl_ota.Image.{
  ImageResult, ok, slot_payload_start, header_validate, vector_validate, vector_msp, vector_reset,
  vector_size, crc_loop,
}
use tm4c123gxl_ota.Metadata.{MetadataResult, MetadataIo, finalize, commit}
use tm4c123gxl_ota.Boot.{set_slot_record}

-- `bl_update_state_t`
pub data UpdateState : Type 0 where
  idle receiving ready_to_boot : UpdateState

-- `bl_update_error_t`
pub data UpdateError : Type 0 where
  no_error command_error state_error slot_error size_error : UpdateError
  header_error sequence_error flash_error verify_error timeout_error : UpdateError

abbrev pub error_code : UpdateError → ℕ
error_code no_error = 0
error_code command_error = 1
error_code state_error = 2
error_code slot_error = 3
error_code size_error = 4
error_code header_error = 5
error_code sequence_error = 6
error_code flash_error = 7
error_code verify_error = 8
error_code timeout_error = 9

-- The functions of `bl_services_t`, all of them given. `read s a n` is none if it fails; the last
-- argument of erasing and programming is the active slot, and they say whether they succeeded.
pub record Services (S : Type 0) : Type 0 where
  pub read : S → ℕ → ℕ → Option (List ℕ)
  pub erase : S → ℕ → ℕ → ℕ → Bool × S
  pub program : S → ℕ → List ℕ → ℕ → Bool × S
  pub metadata_io : MetadataIo S
  pub reset : S → S

-- `bl_update_t`, with the fields `metadata` and `metadata_copy` of its services.
pub record Update : Type 0 where
  pub metadata : MetadataRecord
  pub metadata_copy : ℕ
  pub state : UpdateState
  pub header : FirmwareHeader
  pub received : ℕ
  pub next_sequence : ℕ
  pub last_sequence : ℕ
  pub last_length : ℕ
  pub last_crc : ℕ
  pub last_activity_ms : ℕ
  pub have_last : Bool
  pub last_error : UpdateError

abbrev pub is_receiving : UpdateState → Bool
is_receiving receiving = true
is_receiving _ = false

abbrev pub slot_start : ℕ → ℕ
slot_start slot = if slot == slot_a then slot_a_start else slot_b_start

-- `nack`
unfoldable pub nack : Packet → UpdateError → Packet
nack request error = record {
  command = cmd_nack;
  sequence = request.sequence;
  length = 3;
  payload = (request.command ∷ u8 request.sequence ∷ error_code error ∷ []) ++ replicate 253 0;
}

-- `ack`
unfoldable pub ack : Packet → Packet
ack request = record {
  command = cmd_ack;
  sequence = request.sequence;
  length = 1;
  payload = request.command ∷ replicate 255 0;
}

-- `bl_update_init`; a zeroed header has the bytes of 32 zeros.
abbrev pub update_init : MetadataRecord → ℕ → Update
update_init metadata metadata_copy = record {
  metadata = metadata;
  metadata_copy = metadata_copy;
  state = idle;
  header = header_of_bytes (replicate 32 0);
  received = 0;
  next_sequence = 0;
  last_sequence = 0;
  last_length = 0;
  last_crc = 0;
  last_activity_ms = 0;
  have_last = false;
  last_error = no_error;
}

-- What a call of `bl_update_handle` gives: the update and the store after it, and the response.
abbrev pub Handled : Type 0 → Type 0
Handled S = Update × S × Packet

-- `fail`
unfoldable pub fail : {S : Type 0} → Update → S → Packet → UpdateError → Handled S
fail u s request error = (record u { last_error = error }, s, nack request error)

-- The bytes that `request->payload` with `request->length` names.
abbrev pub data_bytes : Packet → List ℕ
data_bytes request = take request.length request.payload

-- The response to GET_INFO.
unfoldable pub info_bytes : Update → List ℕ
info_bytes u =
    let a = u.metadata.slot_a in
    let b = u.metadata.slot_b in
    (cmd_get_info ∷ le16 1)
    ++ le16 0
    ++ le16 0
    ++ (le16 a.version.major ++ le16 a.version.minor ++ le16 a.version.patch)
    ++ (le16 b.version.major ++ le16 b.version.minor ++ le16 b.version.patch)
    ++ (a.state
        ∷ b.state
        ∷ u.metadata.active_slot
        ∷ u.metadata.pending_slot
        ∷ u8 (if u.metadata.pending_slot == slot_a then a.boot_count else b.boot_count)
        ∷ protocol_version
        ∷ le32 slot_payload_size)
    ++ le32 u.received

unfoldable pub handle_info : {S : Type 0} → Update → S → Packet → Handled S
handle_info u s request = (
  u,
  s,
  record {
    command = cmd_ack;
    sequence = request.sequence;
    length = 33;
    payload = info_bytes u ++ replicate 223 0;
  },
)

unfoldable pub handle_abort : {S : Type 0} → Update → S → Packet → Handled S
handle_abort u s request =
    if not (is_receiving u.state)
    then fail u s request state_error
    else (record u { state = idle; received = 0; have_last = false }, s, ack request)

-- The metadata that an accepted END_UPDATE commits.
unfoldable pub pending_metadata : Update → MetadataRecord
pending_metadata u =
    let r : SlotRecord = record {
      state = slot_pending;
      reserved0 = replicate 3 0;
      version = u.header.version;
      reserved1 = 0;
      payload_size = u.header.payload_size;
      payload_crc32 = u.header.payload_crc32;
      boot_count = 0;
    } in
    finalize (record (set_slot_record u.metadata u.header.target_slot r) {
      pending_slot = u8 u.header.target_slot;
    })

module _ {S : Type 0} (services : Services S) where
  unfoldable pub handle_start : Update → S → Packet → Handled S
  handle_start u0 s request =
      if request.length != firmware_header_size
      then fail u0 s request header_error
      else let header = header_of_bytes (take firmware_header_size request.payload) in
        let u = record u0 { header = header } in
        let target = header.target_slot in
        elim (header_validate header target) [
          | ok ↦
              if target == u.metadata.active_slot
              then fail u s request slot_error
              else let (erased, s1) =
                  services.erase s (slot_start target) flash_page_size u.metadata.active_slot in
                if not erased then fail u s1 request flash_error else (
                  record u {
                    state = receiving;
                    received = 0;
                    next_sequence = u16 (request.sequence + 1);
                    have_last = false;
                    last_error = no_error;
                  },
                  s1,
                  ack request,
                )
          | other ↦ fail u s request header_error
        ]

  -- The page that `received` opens is erased.
  unfoldable pub erase_page : Update → S → ℕ → Bool × S
  erase_page u s address =
      if u.received % flash_page_size == 0
      then services.erase s address flash_page_size u.metadata.active_slot
      else (true, s)

  -- The page is erased if need be, and the bytes are programmed and read back.
  unfoldable pub write_data : Update → S → ℕ → List ℕ → ℕ → Bool × S
  write_data u s address bytes size =
      let (erased, s1) = erase_page u s address in
      if not erased
      then (false, s1)
      else let (programmed, s2) = services.program s1 address bytes u.metadata.active_slot in
        if not programmed then (false, s2) else elim (services.read s2 address size) [
          | none ↦ (false, s2)
          | some readback ↦ (eq_bytes readback bytes, s2)
        ]

  -- The test for a repetition of the last packet.
  unfoldable pub is_repeated : Update → Packet → Bool
  is_repeated u request =
      u.have_last
      && (request.sequence == u.last_sequence)
      && (request.length == u.last_length)
      && (Crc32.crc32 (data_bytes request) == u.last_crc)

  unfoldable pub handle_data : Update → S → Packet → Handled S
  handle_data u s request =
      if not (is_receiving u.state)
      then fail u s request state_error
      else if is_repeated u request
      then (u, s, ack request)
      else if (request.sequence != u.next_sequence)
          || (request.length == 0)
          || ltb (sub32 u.header.payload_size u.received) request.length
      then fail u s request sequence_error
      else let address = u32 (slot_payload_start u.header.target_slot + u.received) in
        let (written, s1) = write_data u s address (data_bytes request) request.length in
        if not written then fail u s1 request flash_error else (
          record u {
            received = u32 (u.received + request.length);
            last_sequence = request.sequence;
            last_length = request.length;
            last_crc = Crc32.crc32 (data_bytes request);
            have_last = true;
            next_sequence = u16 (u.next_sequence + 1);
          },
          s1,
          ack request,
        )

  -- `read_payload_crc`: the loop is that of `ota_image_validate`.
  unfoldable pub read_payload_crc : S → ℕ → ℕ → Option ℕ
  read_payload_crc s slot size =
      elim (crc_loop size (services.read s) (slot_payload_start slot) size Crc32.init) [
        | none ↦ none
        | some crc ↦ some (Crc32.finish crc)
      ]

  unfoldable pub payload_matches : Update → S → Bool
  payload_matches u s = elim (read_payload_crc s u.header.target_slot u.received) [
    | none ↦ false
    | some crc ↦ crc == u.header.payload_crc32
  ]

  -- The vector table in the flash is read and accepted.
  unfoldable pub vector_matches : Update → S → Bool
  vector_matches u s =
      elim (services.read s (slot_payload_start u.header.target_slot) vector_size) [
        | none ↦ false
        | some v ↦ elim (vector_validate (vector_msp v) (vector_reset v) u.header.target_slot) [
          | ok ↦ true
          | other ↦ false
        ]
      ]

  unfoldable pub handle_end : Update → S → Packet → Handled S
  handle_end u s request =
      if not (is_receiving u.state) || (u.received != u.header.payload_size)
      then fail u s request state_error
      else if not (payload_matches u s) || not (vector_matches u s)
      then fail u s request verify_error
      else let (programmed, s1) =
          services.program s (slot_start u.header.target_slot) (header_bytes u.header)
            u.metadata.active_slot in
        if not programmed
        then fail u s1 request verify_error
        else let m = pending_metadata u in
          let (result, s2) = commit services.metadata_io s1 m u.metadata_copy in
          elim result [
            | MetadataResult.ok ↦
                (record u { metadata = m; state = ready_to_boot }, s2, ack request)
            | other ↦ fail (record u { metadata = m }) s2 request flash_error
          ]

  -- `bl_update_handle`
  unfoldable pub handle : Update → S → Packet → Handled S
  handle u s request =
      if request.command == cmd_get_info
      then handle_info u s request
      else if request.command == cmd_reset
      then (u, services.reset s, ack request)
      else if request.command == cmd_abort
      then handle_abort u s request
      else if request.command == cmd_start_update
      then handle_start u s request
      else if request.command == cmd_data
      then handle_data u s request
      else if request.command == cmd_end_update
      then handle_end u s request
      else fail u s request command_error

-- `bl_update_poll`
unfoldable pub poll : Update → ℕ → Update
poll u now_ms =
    if is_receiving u.state && leb packet_timeout_ms (sub32 now_ms u.last_activity_ms)
    then record u { state = idle; last_error = timeout_error; have_last = false }
    else u

-- `bl_update_note_activity`
unfoldable pub note_activity : Update → ℕ → Update
note_activity u now_ms = record u { last_activity_ms = now_ms }
