-- ===== src/Hal/Requests.antt =====
-- The requests of an update over the guarded flash: the guard alone protects the bootloader and the
-- active slot, in whatever state the update is.
use tm4c123gxl_ota.Base.{
  ℕ, ◌+◌, ◌≡◌, ◌≤◌, ◌<◌, ◌⊎◌, arith, List, Bool, true, false, ◌&&◌, ◌||◌, ltb, leb, if◌then◌else◌,
  u32, length, take,
}
use tm4c123gxl_ota.Config.{flash_page_size, slot_a_start, slot_size}
use tm4c123gxl_ota.Types.{header_bytes, slot_b, firmware_header_size}
use tm4c123gxl_ota.Types.Layout.{header_of_bytes}
use tm4c123gxl_ota.Protocol.{Packet}
use tm4c123gxl_ota.Image.{slot_payload_start}
use tm4c123gxl_ota.Metadata.{finalize}
use tm4c123gxl_ota.Update.{
  Update, Services, handle, handle_info, handle_abort, handle_start, handle_data, handle_end, fail,
  pending_metadata, erase_page, write_data, data_bytes, slot_start,
}
use tm4c123gxl_ota.Update.Isolation.{commit_keeps_outside}
use tm4c123gxl_ota.Hal.{flash_erase, flash_program, flash_range_allowed, padded_length}
use tm4c123gxl_ota.Hal.Flash.{Device, service_erase, hal_flash_program, services}
use tm4c123gxl_ota.Hal.Protect.{
  DeviceLaws, service_erase-keeps, hal_flash_program-keeps, services-StaysInRange,
}

-- An address of the bootloader, or of the active slot, which is A or B.
abbrev pub is_kept : ℕ → ℕ → Bool
is_kept active x =
    leb active slot_b
    && (ltb x slot_a_start || (leb (slot_start active) x && ltb x (slot_start active + slot_size)))

erase_outside :
    (address size active x : ℕ)
    → is_kept active x ≡ true
    → (flash_range_allowed address size active flash_erase ≡ false)
      ⊎ (x < address)
      ⊎ (address + size ≤ x)
unfolding flash_range_allowed
erase_outside address size active x k = ground arith

program_outside :
    (address size active x : ℕ)
    → is_kept active x ≡ true
    → (flash_range_allowed address (padded_length size) active flash_program ≡ false)
      ⊎ (x < address)
      ⊎ (address + size ≤ x)
unfolding flash_range_allowed padded_length
program_outside address size active x k = ground arith

-- No request changes which slot is active.
handle_active :
    {S : Type 0} (services : Services S) (u : Update) (s : S) (request : Packet)
    → (handle services u s request).0.metadata.active_slot ≡ u.metadata.active_slot
unfolding handle handle_info handle_abort handle_start handle_data handle_end fail pending_metadata
    finalize
handle_active services u s request = ground arith

-- The active slot, and the byte at an address if it belongs to the bootloader or to that slot.
abbrev pub kept_view : {D : Type 0} → Device D → ℕ → Update → D → ℕ × ℕ
kept_view device x u d =
    (u.metadata.active_slot, if is_kept u.metadata.active_slot x then device.cell d x else 0)

module _ {D : Type 0} (device : Device D) (laws : DeviceLaws device) where
  erase_protected :
      (d : D) (address size active x : ℕ)
      → is_kept active x ≡ true
      → device.cell (service_erase device d address size active).1 x ≡ device.cell d x
  erase_protected d address size active x k =
      service_erase-keeps device laws d address size active x
        (erase_outside address size active x k)

  program_protected :
      (d : D) (address : ℕ) (bytes : List ℕ) (active x : ℕ)
      → is_kept active x ≡ true
      → device.cell (hal_flash_program device d address bytes active).1 x ≡ device.cell d x
  program_protected d address bytes active x k =
      hal_flash_program-keeps device laws d address bytes active x
        (program_outside address (length bytes) active x k)

  write_protected :
      (u : Update) (d : D) (address : ℕ) (bytes : List ℕ) (size x : ℕ)
      → is_kept u.metadata.active_slot x ≡ true
      → device.cell (write_data (services device) u d address bytes size).1 x ≡ device.cell d x
  unfolding write_data erase_page
  write_protected u d address bytes size x k = ground (
    arith,
    erase_protected d address flash_page_size u.metadata.active_slot x k,
    program_protected d address bytes u.metadata.active_slot x k,
    program_protected (service_erase device d address flash_page_size u.metadata.active_slot).1
        address bytes u.metadata.active_slot x k,
  )

  start_protected :
      (u : Update) (d : D) (request : Packet) (x : ℕ)
      → is_kept u.metadata.active_slot x ≡ true
      → device.cell (handle_start (services device) u d request).1 x ≡ device.cell d x
  unfolding handle_start fail
  start_protected u d request x k =
      let h = header_of_bytes (take firmware_header_size request.payload) in
      ground (
        arith,
        erase_protected d (slot_start h.target_slot) flash_page_size u.metadata.active_slot x k,
      )

  data_protected :
      (u : Update) (d : D) (request : Packet) (x : ℕ)
      → is_kept u.metadata.active_slot x ≡ true
      → device.cell (handle_data (services device) u d request).1 x ≡ device.cell d x
  unfolding handle_data fail
  data_protected u d request x k =
      let address : ℕ = u32 (slot_payload_start u.header.target_slot + u.received) in
      ground (arith, write_protected u d address (data_bytes request) request.length x k)

  end_protected :
      (u : Update) (d : D) (request : Packet) (x : ℕ)
      → is_kept u.metadata.active_slot x ≡ true
      → device.cell (handle_end (services device) u d request).1 x ≡ device.cell d x
  unfolding handle_end fail
  end_protected u d request x k =
      let start : ℕ = slot_start u.header.target_slot in
      let bytes : List ℕ = header_bytes u.header in
      ground (
        arith,
        program_protected d start bytes u.metadata.active_slot x k,
        commit_keeps_outside (services device) device.cell (services-StaysInRange device laws)
            (hal_flash_program device d start bytes u.metadata.active_slot).1 (pending_metadata u)
            u.metadata_copy x,
      )

  -- Handling any request in any state of the update leaves every byte of the bootloader and of the
  -- active slot as it is, if slot A or B is active and the device keeps to its data sheet.
  pub handle_protected :
      (u : Update) (d : D) (request : Packet) (x : ℕ)
      → is_kept u.metadata.active_slot x ≡ true
      → device.cell (handle (services device) u d request).1 x ≡ device.cell d x
  unfolding handle handle_info handle_abort fail
  handle_protected u d request x k = ground (
    arith,
    laws.reset d x,
    start_protected u d request x k,
    data_protected u d request x k,
    end_protected u d request x k,
  )

  -- Handling any request leaves both as they are.
  pub handle_view :
      (x : ℕ) (u : Update) (d : D) (request : Packet)
      → kept_view device x
          (handle (services device) u d request).0
          (handle (services device) u d request).1
        ≡ kept_view device x u d
  handle_view x u d request =
      ground (arith, handle_active (services device) u d request, handle_protected u d request x)
