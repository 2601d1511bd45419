-- ===== src/CloudOta/Progress.antt =====
-- What a session's results mean.
use tm4c123gxl_ota.Base.{ℕ, ◌+◌, ◌*◌, ◌≡◌, ◌≤◌, ◌<◌, ◌↔◌, arith, [], true, u32, replicate}
use native.Mathlib.Nat.{le-div_iff_mul-le}
use tm4c123gxl_ota.Config.{slot_header_size, slot_payload_size}
use tm4c123gxl_ota.Protocol.{Packet, cmd_end_update, cmd_ack}
use tm4c123gxl_ota.Update.{Update, Services, handle, handle_end, fail, ack, nack, ready_to_boot}
use tm4c123gxl_ota.CloudOta.{
  Cloud, ok, ready_to_reboot, Session, progress, submit, flush_chunk, finish,
}

-- The progress of a session that has received no more than the package is at most 100 percent, and
-- it is 100 exactly when the whole package is received.
pub progress_iff :
    (c : Cloud)
    → 0 < c.remote_size
    → c.remote_size ≤ slot_header_size + slot_payload_size
    → c.package_received ≤ c.remote_size
    → (progress c ≤ 100) × ((progress c ≡ 100) ↔ (c.package_received ≡ c.remote_size))
unfolding progress
progress_iff c p m h =
    let y : ℕ = u32 (c.package_received * 100) in
    ground (
      arith,
      le-div_iff_mul-le {k = c.remote_size} {x = 100} {y = y} p,
      le-div_iff_mul-le {k = c.remote_size} {x = 101} {y = y} p,
    )

end-ready :
    {S : Type 0} (services : Services S) (u : Update) (s : S) (request : Packet)
    → request.command ≡ cmd_end_update
    → (handle services u s request).2.command ≡ cmd_ack
    → (handle services u s request).0.state ≡ ready_to_boot
unfolding handle handle_end fail ack nack
end-ready services u s request c a = ground arith

submit-end_ready :
    {S : Type 0} (services : Services S) (session : Session S)
    → (submit services session cmd_end_update []).0 ≡ ok
    → (submit services session cmd_end_update []).1.1.state ≡ ready_to_boot
unfolding submit
submit-end_ready services (c, u, s) h =
    let request : Packet = record {
      command = cmd_end_update;
      sequence = c.sequence;
      length = 0;
      payload = replicate 256 0;
    } in
    ground (arith, end-ready services u s request)

-- A session that finishes with READY_TO_REBOOT was started and has received the whole package, and
-- the update is ready to boot.
pub finish_ready :
    {S : Type 0} (services : Services S) (session : Session S)
    → (finish services session).0 ≡ ready_to_reboot
    → (session.0.started ≡ true)
      × (session.0.package_received ≡ session.0.remote_size)
      × ((finish services session).1.1.state ≡ ready_to_boot)
unfolding finish
finish_ready services session h =
    ground (arith, submit-end_ready services (flush_chunk services session).1)
