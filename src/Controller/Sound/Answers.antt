-- ===== src/Controller/Sound/Answers.antt =====
-- The answers of the modem keep the bounds of the controller's fields.
use tm4c123gxl_ota.Base.{ℕ, ◌+◌, ◌≤◌, ◌<◌, ◌≡◌, ◌⊎◌, arith, Option, none, some, true, false, u32}
use tm4c123gxl_ota.Types.{Version}
use tm4c123gxl_ota.CloudOta.{CloudResult, begin, finish}
use tm4c123gxl_ota.Update.{Services}
use tm4c123gxl_ota.Controller.{
  online, ota_size, Controller, Machine, ota_range_header, ota_download, literal, with_controller,
  with_session, session_of,
}
use tm4c123gxl_ota.Controller.Range.{next_chunk_size, start_range_request}
use tm4c123gxl_ota.Controller.Chunks.{next_chunk_size_lem}
use tm4c123gxl_ota.Controller.Lines.{
  request_range, ok_cleared, ok_range, ok_chunk, ok_size, ok_line, begin_download, size_answer,
}
use tm4c123gxl_ota.Controller.Sound.{
  is_package_size, is_range, is_bounded, is_sound, is_sound-is_bounded, enter_retry-is_sound,
  advance_state-is_sound,
}

begin_iff :
    (remote_size : ℕ) (v : Version)
    → (((begin remote_size v).0 ≡ CloudResult.ok) × (is_package_size remote_size ≡ true))
      ⊎ ((begin remote_size v).0 ≡ CloudResult.size)
unfolding begin
begin_iff remote_size v = ground arith

is_sound-ranged :
    (c : Controller) (now_ms : ℕ)
    → is_bounded c ≡ true
    → c.ota_body_pending ≡ false
    → is_package_size c.remote_size ≡ true
    → c.ota_offset < c.remote_size
    → is_sound (record c {
      ota_chunk_size = next_chunk_size c.remote_size c.ota_offset;
      range_header_stage = 0;
      ota_chunk_complete = false;
      state = ota_range_header;
      state_started_ms = now_ms;
      command_sent = true;
    })
      ≡ true
unfolding is_sound
is_sound-ranged c now_ms h b p o = ground arith

-- Behind a complete chunk the next offset is inside the package or at its end.
next_offset :
    (c : Controller)
    → is_range c ≡ true
    → (u32 (c.ota_offset + c.ota_chunk_size) ≡ c.ota_offset + c.ota_chunk_size)
      × (c.ota_offset + c.ota_chunk_size ≤ c.remote_size)
next_offset c h = ground (arith, next_chunk_size_lem c.remote_size c.ota_offset)

is_sound-moved :
    (c : Controller)
    → c.state ≡ ota_download
    → is_sound c ≡ true
    → let moved : Controller = record c { ota_offset = u32 (c.ota_offset + c.ota_chunk_size) } in
      (is_bounded moved ≡ true)
      × (moved.ota_body_pending ≡ false)
      × (is_package_size moved.remote_size ≡ true)
      × (is_sound (record moved { ota_requested = false; state = online; command_sent = false })
          ≡ true)
unfolding is_sound
is_sound-moved c e h = ground (arith, next_offset c)

module _ {S : Type 0} (services : Services S) where
  request_range-is_sound :
      (m : Machine S) (now_ms : ℕ)
      → is_bounded m.controller ≡ true
      → m.controller.ota_body_pending ≡ false
      → is_package_size m.controller.remote_size ≡ true
      → m.controller.ota_offset < m.controller.remote_size
      → is_sound (request_range services m now_ms).controller ≡ true
  unfolding request_range start_range_request
  request_range-is_sound m now_ms h b p o = ground (
    arith,
    is_sound-ranged m.controller now_ms,
    enter_retry-is_sound services m now_ms (literal "OTA_RANGE_COMMAND_FAILED"),
  )

  ok_cleared-is_sound :
      (m : Machine S) (now_ms : ℕ)
      → is_sound m.controller ≡ true
      → is_sound (ok_cleared services m now_ms).controller ≡ true
  unfolding ok_cleared is_sound
  ok_cleared-is_sound m now_ms h =
      ground (arith, enter_retry-is_sound services m now_ms (literal "OTA_SIZE_COMMAND_FAILED"))

  ok_range-is_sound :
      (m : Machine S) (now_ms : ℕ)
      → m.controller.state ≡ ota_range_header
      → is_sound m.controller ≡ true
      → is_sound (ok_range services m now_ms).controller ≡ true
  unfolding ok_range is_sound
  ok_range-is_sound m now_ms e h =
      ground (arith, enter_retry-is_sound services m now_ms (literal "OTA_BODY_COMMAND_FAILED"))

  ok_chunk-is_sound :
      (m : Machine S) (now_ms : ℕ)
      → m.controller.state ≡ ota_download
      → is_sound m.controller ≡ true
      → is_sound (ok_chunk services m now_ms).controller ≡ true
  unfolding ok_chunk
  ok_chunk-is_sound m now_ms e h =
      let c = m.controller in
      let moved =
        with_controller m (record c { ota_offset = u32 (c.ota_offset + c.ota_chunk_size) }) in
      let finished = with_session moved (finish services (session_of moved)).1 in
      ground (
        arith,
        is_sound-moved c e h,
        request_range-is_sound moved now_ms,
        enter_retry-is_sound services finished now_ms (literal "OTA_VERIFY_FAILED"),
      )

  ok_size-is_sound :
      (m : Machine S) (now_ms : ℕ)
      → is_sound m.controller ≡ true
      → m.controller.state ≡ ota_size
      → is_sound (ok_size services m now_ms).controller ≡ true
  unfolding ok_size is_sound
  ok_size-is_sound m now_ms h e = ground (
    arith,
    request_range-is_sound (with_controller m (record m.controller { ota_body_pending = false }))
        now_ms,
  )

  begin_download-is_sound :
      (m : Machine S) (remote_size now_ms : ℕ)
      → m.controller.state ≡ ota_size
      → is_sound m.controller ≡ true
      → is_sound (begin_download services m remote_size now_ms).controller ≡ true
  unfolding begin_download is_sound
  begin_download-is_sound m remote_size now_ms e h =
      let c = m.controller in
      ground (
        arith,
        begin_iff remote_size c.requested_version,
        enter_retry-is_sound services (record m { cloud = m.cloud }) now_ms
            (literal "OTA_SIZE_REJECTED"),
        enter_retry-is_sound services
            (record m { cloud = (begin remote_size c.requested_version).1 }) now_ms
            (literal "OTA_SIZE_REJECTED"),
      )

  pub size_answer-is_sound :
      (m : Machine S) (answer : Option ℕ) (now_ms : ℕ)
      → m.controller.state ≡ ota_size
      → is_sound m.controller ≡ true
      → is_sound (size_answer services m answer now_ms).controller ≡ true
  unfolding size_answer
  size_answer-is_sound m none now_ms e h =
      enter_retry-is_sound services m now_ms (literal "OTA_SIZE_REJECTED")
        (is_sound-is_bounded m.controller h)
  size_answer-is_sound m (some remote_size) now_ms e h =
      begin_download-is_sound m remote_size now_ms e h

  pub ok_line-is_sound :
      (m : Machine S) (now_ms : ℕ)
      → is_sound m.controller ≡ true
      → is_sound (ok_line services m now_ms).controller ≡ true
  unfolding ok_line
  ok_line-is_sound m now_ms h = ground (
    arith,
    ok_size-is_sound m now_ms,
    ok_cleared-is_sound m now_ms,
    ok_range-is_sound m now_ms,
    ok_chunk-is_sound m now_ms,
    advance_state-is_sound services m now_ms,
  )
