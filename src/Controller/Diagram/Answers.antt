-- ===== src/Controller/Diagram/Answers.antt =====
-- The answers of the modem move the controller along the diagram.
use tm4c123gxl_ota.Base.{
  ℕ, ◌+◌, ◌≡◌, ◌⊎◌, arith, Option, none, some, true, false, if◌then◌else◌, u32,
}
use tm4c123gxl_ota.CloudOta.{begin, finish}
use tm4c123gxl_ota.Update.{Services}
use tm4c123gxl_ota.Controller.{
  Machine, ota_clear_header, ota_size, ota_range_header, ota_download, retry, literal,
  with_controller, with_session, session_of,
}
use tm4c123gxl_ota.Controller.Range.{start_range_request}
use tm4c123gxl_ota.Controller.Lines.{
  size_answer, request_range, ok_cleared, ok_range, ok_chunk, ok_size, begin_download, ok_line,
}
use tm4c123gxl_ota.Controller.Diagram.{may_move, enter_retry-state, advance_state-may_move}

module _ {S : Type 0} (services : Services S) where
  start_range_request-state :
      (m : Machine S) (now_ms : ℕ)
      → (start_range_request m now_ms).1.controller.state
        ≡ (if (start_range_request m now_ms).0 then ota_range_header else m.controller.state)
  unfolding start_range_request
  start_range_request-state m now_ms = ground arith

  pub request_range-state :
      (m : Machine S) (now_ms : ℕ)
      → ((request_range services m now_ms).controller.state ≡ ota_range_header)
        ⊎ ((request_range services m now_ms).controller.state ≡ retry)
  unfolding request_range
  request_range-state m now_ms = ground (
    arith,
    start_range_request-state m now_ms,
    enter_retry-state services (start_range_request m now_ms).1 now_ms
        (literal "OTA_RANGE_COMMAND_FAILED"),
  )

  ok_cleared-may_move :
      (m : Machine S) (now_ms : ℕ)
      → m.controller.state ≡ ota_clear_header
      → may_move ota_clear_header (ok_cleared services m now_ms).controller.state ≡ true
  unfolding ok_cleared
  ok_cleared-may_move m now_ms h =
      ground (arith, enter_retry-state services m now_ms (literal "OTA_SIZE_COMMAND_FAILED"))

  ok_range-may_move :
      (m : Machine S) (now_ms : ℕ)
      → m.controller.state ≡ ota_range_header
      → may_move ota_range_header (ok_range services m now_ms).controller.state ≡ true
  unfolding ok_range
  ok_range-may_move m now_ms h =
      ground (arith, enter_retry-state services m now_ms (literal "OTA_BODY_COMMAND_FAILED"))

  ok_chunk-may_move :
      (m : Machine S) (now_ms : ℕ)
      → m.controller.state ≡ ota_download
      → may_move ota_download (ok_chunk services m now_ms).controller.state ≡ true
  unfolding ok_chunk
  ok_chunk-may_move m now_ms h =
      let c = m.controller in
      let moved =
        with_controller m (record c { ota_offset = u32 (c.ota_offset + c.ota_chunk_size) }) in
      ground (
        arith,
        request_range-state moved now_ms,
        enter_retry-state services (with_session moved (finish services (session_of moved)).1)
            now_ms (literal "OTA_VERIFY_FAILED"),
      )

  ok_size-may_move :
      (m : Machine S) (now_ms : ℕ)
      → m.controller.state ≡ ota_size
      → may_move ota_size (ok_size services m now_ms).controller.state ≡ true
  unfolding ok_size
  ok_size-may_move m now_ms h = ground (
    arith,
    request_range-state (with_controller m (record m.controller { ota_body_pending = false }))
        now_ms,
  )

  pub ok_line-may_move :
      (m : Machine S) (now_ms : ℕ)
      → may_move m.controller.state (ok_line services m now_ms).controller.state ≡ true
  unfolding ok_line
  ok_line-may_move m now_ms = ground (
    arith,
    ok_size-may_move m now_ms,
    ok_cleared-may_move m now_ms,
    ok_range-may_move m now_ms,
    ok_chunk-may_move m now_ms,
    advance_state-may_move services m now_ms,
  )

  begin_download-may_move :
      (m : Machine S) (remote_size now_ms : ℕ)
      → may_move m.controller.state (begin_download services m remote_size now_ms).controller.state
        ≡ true
  unfolding begin_download
  begin_download-may_move m remote_size now_ms =
      let c = m.controller in
      ground (
        arith,
        enter_retry-state services (record m { cloud = m.cloud }) now_ms
            (literal "OTA_SIZE_REJECTED"),
        enter_retry-state services (record m { cloud = (begin remote_size c.requested_version).1 })
            now_ms (literal "OTA_SIZE_REJECTED"),
      )

  pub size_answer-may_move :
      (m : Machine S) (answer : Option ℕ) (now_ms : ℕ)
      → may_move m.controller.state (size_answer services m answer now_ms).controller.state ≡ true
  unfolding size_answer
  size_answer-may_move m none now_ms =
      ground (arith, enter_retry-state services m now_ms (literal "OTA_SIZE_REJECTED"))
  size_answer-may_move m (some remote_size) now_ms = begin_download-may_move m remote_size now_ms
