-- ===== src/Application/Accept.antt =====
-- What a request for an update, as a line of the modem, does to the application.
use tm4c123gxl_ota.Base.{ℕ, ◌≡◌, ◌⊎◌, refl, ap, ◌∙◌, arith, some, true, false}
use tm4c123gxl_ota.Types.{Version}
use tm4c123gxl_ota.Text.{Text, starts_with}
use tm4c123gxl_ota.Request.{request_consume, is_zero_version}
use tm4c123gxl_ota.Handoff.{same_version}
use tm4c123gxl_ota.Handoff.Laws.{handoff_accept_lem}
use tm4c123gxl_ota.Rpc.{RpcRequest, start_ota, parse, response_topic_of}
use tm4c123gxl_ota.Rpc.Bounds.{IsVersion16}
use tm4c123gxl_ota.Rpc.Message.{request_line, start_ota_payload}
use tm4c123gxl_ota.Rpc.Line.{IsId, parse-start_ota}
use tm4c123gxl_ota.Controller.{Machine, online, literal}
use tm4c123gxl_ota.Controller.Lines.{process_line}
use tm4c123gxl_ota.Controller.Calls.{
  handle_rpc, handle_request, handle_start_ota, respond, is_active_version,
}
use tm4c123gxl_ota.Controller.Unattached.{no_services}
use tm4c123gxl_ota.Application.{AppStore, app_start_ota}

start_request-store :
    (m : Machine AppStore) (request : RpcRequest) (now_ms : ℕ)
    → request.method ≡ start_ota
    → m.controller.attached ≡ false
    → m.controller.has_ota_start ≡ true
    → (handle_request app_start_ota m (some request) now_ms).store
      ≡ (app_start_ota request.version m.store).1
unfolding handle_request handle_start_ota respond is_active_version
start_request-store m request now_ms e no_update callback = ground arith

request_line-handle_rpc :
    (m : Machine AppStore) (id payload : Text) (now_ms : ℕ)
    → m.controller.state ≡ online
    → process_line no_services app_start_ota m (request_line id payload) now_ms
      ≡ handle_rpc app_start_ota m (request_line id payload) now_ms
unfolding process_line literal starts_with
request_line-handle_rpc m id payload now_ms e = ground arith

-- The line of a START_OTA request, in the state ONLINE of a controller with the application's callback and no update: if
-- no request is pending and the version is neither 0.0.0 nor the running one, the handoff is pending
-- from now on, and the bootloader consumes that version from the mailbox; otherwise neither the
-- handoff nor the mailbox changes.
pub start_ota_line :
    (m : Machine AppStore) (id : Text) (v : Version) (now_ms : ℕ)
    → IsId id
    → IsVersion16 v
    → m.controller.state ≡ online
    → m.controller.attached ≡ false
    → m.controller.has_ota_start ≡ true
    → let after =
        process_line no_services app_start_ota m (request_line id (start_ota_payload v)) now_ms in
      ((m.store.handoff.pending ≡ false)
        × (is_zero_version v ≡ false)
        × (same_version v m.store.handoff.current_version ≡ false)
        × (after.store.handoff.pending ≡ true)
        × (after.store.handoff.accepted_at_ms ≡ m.store.millis)
        × ((request_consume after.store.requests).0 ≡ some v))
      ⊎ (((m.store.handoff.pending ≡ true)
            ⊎ (is_zero_version v ≡ true)
            ⊎ (same_version v m.store.handoff.current_version ≡ true))
          × (after.store ≡ m.store))
unfolding handle_rpc app_start_ota
start_ota_line m id v now_ms h b ready no_update callback =
    let request : RpcRequest = record {
      request_id = id;
      response_topic = response_topic_of id;
      method = start_ota;
      version = v;
    } in
    let line : Text = request_line id (start_ota_payload v) in
    let same : (handle_request app_start_ota m (parse line).1 now_ms).store
        ≡ (app_start_ota v m.store).1 =
      ap (λ r. (handle_request app_start_ota m r.1 now_ms).store) (parse-start_ota id v h b)
      ∙ start_request-store m request now_ms refl no_update callback in
    ground (
      arith,
      same,
      request_line-handle_rpc m id (start_ota_payload v) now_ms ready,
      handoff_accept_lem m.store.handoff v m.store.millis m.store.requests,
    )
