-- ===== src/Update/Isolation.antt =====
-- Handling a request leaves the bootloader and the active slot alone.
use tm4c123gxl_ota.Base.{
  ℕ, ◌+◌, ◌%◌, ◌≡◌, ◌≢◌, ◌≤◌, ◌<◌, ◌⊎◌, arith, false, take, length, length-take, u32, List, bit_xor,
}
use tm4c123gxl_ota.Config.{
  flash_page_size, slot_a_start, slot_size, slot_payload_size, metadata_copy0_start,
}
use tm4c123gxl_ota.Types.{MetadataRecord, firmware_header_size, header_bytes, slot_a, slot_b}
use tm4c123gxl_ota.Types.Layout.{header_of_bytes}
use tm4c123gxl_ota.Protocol.{Packet}
use tm4c123gxl_ota.Image.{slot_payload_start}
use tm4c123gxl_ota.Metadata.{commit, next_record}
use tm4c123gxl_ota.Update.{
  Update, Services, is_receiving, handle, handle_info, handle_abort, handle_start, handle_data,
  handle_end, fail, pending_metadata, erase_page, write_data, data_bytes, slot_start,
}
use tm4c123gxl_ota.Update.Transfer.{IsSound, payload_small, target_slot}

-- How the services act on the byte at an address of the flash: erasing and programming change
-- only the addresses they are given, the metadata are kept behind the slots, and a reset changes
-- none.
pub record StaysInRange {S : Type 0} (services : Services S) (at : S → ℕ → ℕ) : Type 0 where
  pub erase :
      (s : S) (address size active x : ℕ)
      → (x < address) ⊎ (address + size ≤ x)
      → at (services.erase s address size active).1 x ≡ at s x
  pub program :
      (s : S) (address : ℕ) (bytes : List ℕ) (active x : ℕ)
      → (x < address) ⊎ (address + length bytes ≤ x)
      → at (services.program s address bytes active).1 x ≡ at s x
  pub metadata_erase :
      (s : S) (copy x : ℕ)
      → x < metadata_copy0_start
      → at (services.metadata_io.erase s copy).1 x ≡ at s x
  pub metadata_program :
      (s : S) (copy : ℕ) (r : MetadataRecord) (x : ℕ)
      → x < metadata_copy0_start
      → at (services.metadata_io.program s copy r).1 x ≡ at s x
  pub reset : (s : S) (x : ℕ) → at (services.reset s) x ≡ at s x

-- An address of the bootloader or of a slot.
abbrev pub IsKept : ℕ → ℕ → Type 0
IsKept active x =
    (x < slot_a_start) ⊎ ((slot_start active ≤ x) × (x < slot_start active + slot_size))

module _ {S : Type 0} (services : Services S) (at : S → ℕ → ℕ)
    (range : StaysInRange services at) where
  start_keeps :
      (u : Update) (s : S) (request : Packet) (x : ℕ)
      → (u.metadata.active_slot ≡ slot_a) ⊎ (u.metadata.active_slot ≡ slot_b)
      → IsKept u.metadata.active_slot x
      → at (handle_start services u s request).1 x ≡ at s x
  unfolding handle_start fail
  start_keeps u s request x a k =
      let h = header_of_bytes (take firmware_header_size request.payload) in
      ground (
        arith,
        target_slot h,
        range.erase s (slot_start h.target_slot) flash_page_size u.metadata.active_slot x,
      )

  pub commit_keeps_outside :
      (s : S) (r : MetadataRecord) (copy x : ℕ)
      → x < metadata_copy0_start
      → at (commit services.metadata_io s r copy).1 x ≡ at s x
  unfolding commit
  commit_keeps_outside s r copy x h = ground (
    arith,
    range.metadata_erase s (bit_xor copy 1) x h,
    range.metadata_program (services.metadata_io.erase s (bit_xor copy 1)).1 (bit_xor copy 1)
        (next_record r) x h,
  )

  erase_page_keeps :
      (u : Update) (s : S) (address x : ℕ)
      → (x < address) ⊎ (address + flash_page_size ≤ x) ⊎ (u.received % flash_page_size ≢ 0)
      → at (erase_page services u s address).1 x ≡ at s x
  unfolding erase_page
  erase_page_keeps u s address x h =
      ground (arith, range.erase s address flash_page_size u.metadata.active_slot x)

  write_data_keeps :
      (u : Update) (s : S) (address : ℕ) (bytes : List ℕ) (size x : ℕ)
      → (x < address) ⊎ (address + flash_page_size ≤ x) ⊎ (u.received % flash_page_size ≢ 0)
      → (x < address) ⊎ (address + length bytes ≤ x)
      → at (write_data services u s address bytes size).1 x ≡ at s x
  unfolding write_data
  write_data_keeps u s address bytes size x h g = ground (
    arith,
    erase_page_keeps u s address x h,
    range.program (erase_page services u s address).1 address bytes u.metadata.active_slot x g,
  )

  -- A DATA packet writes only to the target slot's payload, and only while an update is received.
  data_keeps :
      (u : Update) (s : S) (request : Packet) (x : ℕ)
      → IsSound u
      → (is_receiving u.state ≡ false)
        ⊎ (x < slot_payload_start u.header.target_slot)
        ⊎ (slot_payload_start u.header.target_slot + slot_payload_size ≤ x)
      → at (handle_data services u s request).1 x ≡ at s x
  unfolding handle_data fail
  data_keeps u s request x sound k =
      let address : ℕ = u32 (slot_payload_start u.header.target_slot + u.received) in
      ground (
        arith,
        payload_small u.header,
        target_slot u.header,
        length-take request.length request.payload,
        write_data_keeps u s address (data_bytes request) request.length x,
      )

  end_keeps :
      (u : Update) (s : S) (request : Packet) (x : ℕ)
      → IsSound u
      → length u.header.reserved ≡ 6
      → (u.metadata.active_slot ≡ slot_a) ⊎ (u.metadata.active_slot ≡ slot_b)
      → IsKept u.metadata.active_slot x
      → at (handle_end services u s request).1 x ≡ at s x
  unfolding handle_end fail
  end_keeps u s request x sound six a k =
      let start : ℕ = slot_start u.header.target_slot in
      let bytes : List ℕ = header_bytes u.header in
      ground (
        arith,
        target_slot u.header,
        range.program s start bytes u.metadata.active_slot x,
        commit_keeps_outside (services.program s start bytes u.metadata.active_slot).1
            (pending_metadata u) u.metadata_copy x,
      )

  -- With services that change only what they are asked to change, handling any request leaves every
  -- byte of the bootloader and of the active slot as it is, if the update is sound, the six reserved
  -- bytes of its header are there, and slot A or B is active.
  pub handle_keeps :
      (u : Update) (s : S) (request : Packet) (x : ℕ)
      → IsSound u
      → length u.header.reserved ≡ 6
      → (u.metadata.active_slot ≡ slot_a) ⊎ (u.metadata.active_slot ≡ slot_b)
      → IsKept u.metadata.active_slot x
      → at (handle services u s request).1 x ≡ at s x
  unfolding handle handle_info handle_abort fail
  handle_keeps u s request x sound six a k = ground (
    arith,
    range.reset s x,
    start_keeps u s request x a k,
    data_keeps u s request x sound,
    end_keeps u s request x sound six a k,
    target_slot u.header,
  )
