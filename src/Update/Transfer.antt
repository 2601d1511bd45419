-- ===== src/Update/Transfer.antt =====
-- While an update is received, what it writes stays in the target slot's payload.
use tm4c123gxl_ota.Base.{◌≡◌, ◌≢◌, ◌≤◌, ◌⊎◌, arith, false, take}
use tm4c123gxl_ota.Config.{slot_payload_size}
use tm4c123gxl_ota.Types.{FirmwareHeader, firmware_header_size, slot_a, slot_b}
use tm4c123gxl_ota.Types.Layout.{header_of_bytes}
use tm4c123gxl_ota.Protocol.{Packet, cmd_start_update, cmd_nack}
use tm4c123gxl_ota.Image.{ok, header_validate}
use tm4c123gxl_ota.Image.Accept.{HeaderFits, header_validate_iff}
use tm4c123gxl_ota.Metadata.{finalize}
use tm4c123gxl_ota.Update.{
  Update, Services, is_receiving, handle, handle_info, handle_abort, handle_start, handle_data,
  handle_end, fail, nack, pending_metadata,
}

-- Nothing is received, or the header is valid, names another slot than the active one, and no more
-- has been received than it says.
abbrev pub IsSound : Update → Type 0
IsSound u =
    (is_receiving u.state ≡ false)
    ⊎ ((header_validate u.header u.header.target_slot ≡ ok)
        × (u.header.target_slot ≢ u.metadata.active_slot)
        × (u.received ≤ u.header.payload_size))

pub payload_small :
    (h : FirmwareHeader) → header_validate h h.target_slot ≡ ok → h.payload_size ≤ slot_payload_size
payload_small h e =
    let fits : HeaderFits h h.target_slot = ground (arith, header_validate_iff h h.target_slot) in
    fits.payload_fits

pub target_slot :
    (h : FirmwareHeader)
    → header_validate h h.target_slot ≡ ok
    → (h.target_slot ≡ slot_a) ⊎ (h.target_slot ≡ slot_b)
target_slot h e =
    let fits : HeaderFits h h.target_slot = ground (arith, header_validate_iff h h.target_slot) in
    fits.a_slot

data-IsSound :
    {S : Type 0} (services : Services S) (u : Update) (s : S) (request : Packet)
    → IsSound u
    → IsSound (handle_data services u s request).0
unfolding handle_data fail
data-IsSound services u s request sound = ground (arith, payload_small u.header)

end-IsSound :
    {S : Type 0} (services : Services S) (u : Update) (s : S) (request : Packet)
    → IsSound u
    → IsSound (handle_end services u s request).0
unfolding handle_end fail pending_metadata finalize
end-IsSound services u s request sound = ground arith

start-IsSound :
    {S : Type 0} (services : Services S) (u : Update) (s : S) (request : Packet)
    → is_receiving u.state ≡ false
    → IsSound (handle_start services u s request).0
unfolding handle_start fail
start-IsSound services u s request sound = ground arith

-- A sound update is sound after any request but a START_UPDATE that comes while it is received.
pub handle-IsSound :
    {S : Type 0} (services : Services S) (u : Update) (s : S) (request : Packet)
    → IsSound u
    → (request.command ≢ cmd_start_update) ⊎ (is_receiving u.state ≡ false)
    → IsSound (handle services u s request).0
unfolding handle handle_info handle_abort fail
handle-IsSound services u s request sound h = ground (
  arith,
  data-IsSound services u s request sound,
  end-IsSound services u s request sound,
  start-IsSound services u s request,
)

-- A START_UPDATE of the right length whose header is invalid or names the active slot is refused,
-- and the state and the bytes received stay as they are; but the header is the refused one.
pub start_refused :
    {S : Type 0} (services : Services S) (u : Update) (s : S) (request : Packet)
    → request.command ≡ cmd_start_update
    → request.length ≡ firmware_header_size
    → let header = header_of_bytes (take firmware_header_size request.payload) in
      (header_validate header header.target_slot ≢ ok)
        ⊎ (header.target_slot ≡ u.metadata.active_slot)
      → let (after, t, response) = handle services u s request in
        (response.command ≡ cmd_nack)
        × (after.header ≡ header)
        × (after.state ≡ u.state)
        × (after.received ≡ u.received)
        × (t ≡ s)
unfolding handle handle_start fail nack
start_refused services u s request c l h = ground arith
