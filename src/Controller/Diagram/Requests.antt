-- ===== src/Controller/Diagram/Requests.antt =====
-- Requests move the controller along the diagram.
use tm4c123gxl_ota.Base.{ℕ, ◌≡◌, arith, Option, none, some, Bool, true}
use tm4c123gxl_ota.Types.{Version}
use tm4c123gxl_ota.Rpc.{RpcRequest}
use tm4c123gxl_ota.Controller.{Controller, Machine, online}
use tm4c123gxl_ota.Controller.Calls.{
  respond, begin_ota, handle_start_ota, handle_request, prepare_ota_request,
}
use tm4c123gxl_ota.Controller.Diagram.{may_move}

prepare_ota_request-state :
    (c : Controller) (version : Version) → (prepare_ota_request c version).1.state ≡ c.state
unfolding prepare_ota_request
prepare_ota_request-state c version = ground arith

module _ {S : Type 0} where
  pub respond-keeps :
      (m : Machine S) (request : RpcRequest) → (respond m request).controller ≡ m.controller
  unfolding respond
  respond-keeps m request = ground arith

  begin_ota-may_move :
      (m : Machine S) (request : RpcRequest) (now_ms : ℕ)
      → m.controller.state ≡ online
      → may_move online (begin_ota m request now_ms).controller.state ≡ true
  unfolding begin_ota respond
  begin_ota-may_move m request now_ms h =
      ground (arith, prepare_ota_request-state m.controller request.version)

module _ {S : Type 0} (ota_start : Version → S → Bool × S) where
  handle_start_ota-may_move :
      (m : Machine S) (request : RpcRequest) (now_ms : ℕ)
      → m.controller.state ≡ online
      → may_move online (handle_start_ota ota_start m request now_ms).controller.state ≡ true
  unfolding handle_start_ota
  handle_start_ota-may_move m request now_ms h = ground (
    arith,
    begin_ota-may_move m request now_ms,
    begin_ota-may_move (record m { store = (ota_start request.version m.store).1 }) request now_ms,
    respond-keeps m request,
    respond-keeps (record m { store = (ota_start request.version m.store).1 }) request,
  )

  pub handle_request-may_move :
      (m : Machine S) (request : Option RpcRequest) (now_ms : ℕ)
      → m.controller.state ≡ online
      → may_move online (handle_request ota_start m request now_ms).controller.state ≡ true
  unfolding handle_request
  handle_request-may_move m none now_ms h = ground arith
  handle_request-may_move m (some request) now_ms h =
      ground (arith, handle_start_ota-may_move m request now_ms, respond-keeps m request)
