-- ===== src/Handoff/Laws.antt =====
-- An accepted request reaches the bootloader.
use tm4c123gxl_ota.Base.{ℕ, ◌+◌, ◌^◌, ◌≤◌, ◌<◌, ◌≡◌, ◌↔◌, ◌⊎◌, arith, true, false, some, Bool, u32}
use tm4c123gxl_ota.Types.{Version}
use tm4c123gxl_ota.Request.{
  RequestMailbox, request_store, request_consume, request_validate, request_crc, is_zero_version,
}
use tm4c123gxl_ota.Handoff.{
  Handoff, handoff_accept, handoff_should_reset, same_version, reset_delay_ms,
}

-- A request is accepted exactly if none is pending and its version is neither 0.0.0 nor the running
-- one. An accepted request is what the bootloader consumes after the reset; a refused one changes
-- neither the state nor the mailbox.
pub handoff_accept_lem :
    (h : Handoff) (requested : Version) (now_ms : ℕ) (global : RequestMailbox)
    → let (accepted, h', mailbox) = handoff_accept h requested now_ms global in
      (((accepted ≡ true)
          × (h.pending ≡ false)
          × (is_zero_version requested ≡ false)
          × (same_version requested h.current_version ≡ false)
          × (h'.pending ≡ true)
          × (h'.accepted_at_ms ≡ now_ms)
          × (h'.current_version ≡ h.current_version)
          × ((request_consume mailbox).0 ≡ some requested))
        ⊎ ((accepted ≡ false)
            × (h' ≡ h)
            × (mailbox ≡ global)
            × ((h.pending ≡ true)
                ⊎ (is_zero_version requested ≡ true)
                ⊎ (same_version requested h.current_version ≡ true))))
unfolding handoff_accept request_store request_consume request_validate request_crc
handoff_accept_lem h requested now_ms global = ground arith

-- The reset comes exactly when the link is idle and 500 ms have passed, across the wrap of the
-- 32-bit clock; nothing resets before a request is accepted.
pub handoff_should_reset_lem :
    (h : Handoff) (elapsed : ℕ) (uart_busy : Bool)
    → h.accepted_at_ms < 2 ^ 32
    → elapsed < 2 ^ 32
    → (handoff_should_reset h (u32 (h.accepted_at_ms + elapsed)) uart_busy ≡ true)
      ↔ ((h.pending ≡ true) × (uart_busy ≡ false) × (reset_delay_ms ≤ elapsed))
unfolding handoff_should_reset
handoff_should_reset_lem h elapsed uart_busy ha he = ground arith
