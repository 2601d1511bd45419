-- ===== src/Handoff.antt =====
-- tm4c123gxl/application/src/app_ota_handoff.c: the application takes a cloud request for an update,
-- leaves it in the request mailbox and resets after a delay.
pub mod Laws
use tm4c123gxl_ota.Base.{
  ℕ, Bool, true, false, ◌&&◌, ◌||◌, not, leb, ◌==◌, ◌!=◌, if◌then◌else◌, sub32,
}
use tm4c123gxl_ota.Types.{Version}
use tm4c123gxl_ota.Request.{RequestMailbox, request_store, is_zero_version}

abbrev pub reset_delay_ms : ℕ
reset_delay_ms = 500

-- `app_ota_handoff_t`
pub record Handoff : Type 0 where
  pub current_version : Version
  pub accepted_at_ms : ℕ
  pub pending : Bool

-- `app_ota_handoff_init`
unfoldable pub handoff_init : Version → Handoff
handoff_init version = record { current_version = version; accepted_at_ms = 0; pending = false }

abbrev pub same_version : Version → Version → Bool
same_version a b = (a.major == b.major) && (a.minor == b.minor) && (a.patch == b.patch)

-- `app_ota_handoff_accept`, with the global request mailbox that it stores to.
unfoldable pub handoff_accept :
    Handoff → Version → ℕ → RequestMailbox → Bool × Handoff × RequestMailbox
handoff_accept h requested now_ms global =
    if h.pending
    then (false, h, global)
    else if is_zero_version requested || same_version requested h.current_version
    then (false, h, global)
    else let (stored, mailbox) = request_store requested global in
      if not stored
      then (false, h, mailbox)
      else (true, record h { accepted_at_ms = now_ms; pending = true }, mailbox)

-- `app_ota_handoff_should_reset`
unfoldable pub handoff_should_reset : Handoff → ℕ → Bool → Bool
handoff_should_reset h now_ms uart_busy =
    h.pending && not uart_busy && leb reset_delay_ms (sub32 now_ms h.accepted_at_ms)
