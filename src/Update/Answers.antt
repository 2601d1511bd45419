-- ===== src/Update/Answers.antt =====
-- What is said of the answer to every request, and of each step of the update's state.
use tm4c123gxl_ota.Base.{◌≡◌, ◌⊎◌, arith, get_or}
use tm4c123gxl_ota.Protocol.{
  Packet, cmd_start_update, cmd_data, cmd_end_update, cmd_abort, cmd_ack, cmd_nack,
}
use tm4c123gxl_ota.Update.{
  Update, Services, idle, receiving, ready_to_boot, handle, handle_info, handle_abort, handle_start,
  handle_data, handle_end, fail, ack, nack, info_bytes, is_repeated,
}

-- A request is answered with ACK or NACK, under the request's sequence number, and the first byte
-- of the answer's payload is the request's command.
pub handle_answers :
    {S : Type 0} (services : Services S) (u : Update) (s : S) (request : Packet)
    → let (after, _, response) = handle services u s request in
      ((response.command ≡ cmd_ack) ⊎ (response.command ≡ cmd_nack))
      × (response.sequence ≡ request.sequence)
      × (get_or response.payload 0 0 ≡ request.command)
unfolding handle handle_info handle_abort handle_start handle_data handle_end fail ack nack
    info_bytes
handle_answers services u s request = ground arith

-- A DATA packet that was acknowledged, if it is sent again, is acknowledged with the same answer, and
-- neither the update nor the store changes, so that nothing is written twice.
pub handle-repeated :
    {S : Type 0} (services : Services S) (u : Update) (s : S) (request : Packet)
    → request.command ≡ cmd_data
    → (handle services u s request).2.command ≡ cmd_ack
    → let (after, t, response) = handle services u s request in
      handle services after t request ≡ (after, t, response)
unfolding handle handle_data fail ack nack is_repeated
handle-repeated services u s request d a = ground arith

-- The state after a request is the one before it, or IDLE by an ABORT while it is receiving, or
-- RECEIVING by an acknowledged START_UPDATE, or READY_TO_BOOT by an acknowledged END_UPDATE while it
-- is receiving.
pub handle_steps :
    {S : Type 0} (services : Services S) (u : Update) (s : S) (request : Packet)
    → let (after, _, response) = handle services u s request in
      (after.state ≡ u.state)
      ⊎ ((after.state ≡ idle) × (request.command ≡ cmd_abort) × (u.state ≡ receiving))
      ⊎ ((after.state ≡ receiving)
          × (request.command ≡ cmd_start_update)
          × (response.command ≡ cmd_ack))
      ⊎ ((after.state ≡ ready_to_boot)
          × (request.command ≡ cmd_end_update)
          × (response.command ≡ cmd_ack)
          × (u.state ≡ receiving))
unfolding handle handle_info handle_abort handle_start handle_data handle_end fail ack nack
handle_steps services u s request = ground arith
