-- ===== src/Controller/Reboot.antt =====
-- When a download ends with the announcement of the reboot.
use tm4c123gxl_ota.Base.{ℕ, ◌+◌, ◌≡◌, arith, Bool, true, u32}
use tm4c123gxl_ota.Types.{Version}
use tm4c123gxl_ota.Text.{Text}
use tm4c123gxl_ota.CloudOta.{finish}
use tm4c123gxl_ota.CloudOta.Progress.{finish_ready}
use tm4c123gxl_ota.Update.{Services, ready_to_boot}
use tm4c123gxl_ota.Controller.{
  Machine, online, ota_download, literal, with_controller, with_session, session_of,
}
use tm4c123gxl_ota.Controller.Command.{error_message}
use tm4c123gxl_ota.Controller.Diagram.{enter_retry-state}
use tm4c123gxl_ota.Controller.Diagram.Answers.{request_range-state}
use tm4c123gxl_ota.Controller.Lines.{process_line, ok_line, ok_chunk}

module _ {S : Type 0} (services : Services S) where
  ok_chunk-ready :
      (m : Machine S) (now_ms : ℕ)
      → (ok_chunk services m now_ms).controller.state ≡ online
      → ((ok_chunk services m now_ms).update.state ≡ ready_to_boot)
        × (m.cloud.started ≡ true)
        × (m.cloud.package_received ≡ m.cloud.remote_size)
  unfolding ok_chunk
  ok_chunk-ready m now_ms e =
      let moved : Machine S = with_controller m (record m.controller {
        ota_offset = u32 (m.controller.ota_offset + m.controller.ota_chunk_size);
      }) in
      ground (
        arith,
        finish_ready services (session_of moved),
        request_range-state services moved now_ms,
        enter_retry-state services (with_session moved (finish services (session_of moved)).1)
            now_ms (literal "OTA_VERIFY_FAILED"),
      )

-- Where a line of the modem takes a download to ONLINE, which is where the controller announces the
-- reboot, the update is ready to boot, the session had been started, and it had received the whole
-- package.
pub reboot-ready_to_boot :
    {S : Type 0} (services : Services S) (ota_start : Version → S → Bool × S) (m : Machine S)
    (line : Text) (now_ms : ℕ)
    → m.controller.state ≡ ota_download
    → (process_line services ota_start m line now_ms).controller.state ≡ online
    → ((process_line services ota_start m line now_ms).update.state ≡ ready_to_boot)
      × (m.cloud.started ≡ true)
      × (m.cloud.package_received ≡ m.cloud.remote_size)
unfolding process_line ok_line
reboot-ready_to_boot services ota_start m line now_ms h e = ground (
  arith,
  enter_retry-state services m now_ms (error_message m.controller.state),
  ok_chunk-ready services m now_ms,
)
