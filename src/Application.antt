-- ===== src/Application.antt =====
-- tm4c123gxl/application/src/app_main.c, built with the cloud: the callback of a request for an
-- update, and the loop over the modem's bytes. The globals (`g_handoff`, the request mailbox that
-- `app_ota_handoff_accept` stores to, and `g_app_millis`) are the store of the machine. A round is
-- given the bytes that are there to read, and whether the modem's link is still sending.
pub mod Reset
pub mod Accept
use tm4c123gxl_ota.Base.{ℕ, ◌+◌, List, [], ◌∷◌, none, Bool, true, false, if◌then◌else◌, u32}
use tm4c123gxl_ota.Types.{Version}
use tm4c123gxl_ota.Request.{RequestMailbox}
use tm4c123gxl_ota.Handoff.{Handoff, handoff_init, handoff_accept, handoff_should_reset}
use tm4c123gxl_ota.CloudOta.{zero_cloud}
use tm4c123gxl_ota.Update.{Update}
use tm4c123gxl_ota.Controller.{AtConfig, Machine, controller_init, set_ota_start}
use tm4c123gxl_ota.Controller.Retry.{tick}
use tm4c123gxl_ota.Controller.Receive.{receive}
use tm4c123gxl_ota.Controller.Unattached.{no_services}

-- The globals.
pub record AppStore : Type 0 where
  pub handoff : Handoff
  pub requests : RequestMailbox
  pub millis : ℕ

-- `app_start_ota`
unfoldable pub app_start_ota : Version → AppStore → Bool × AppStore
app_start_ota version s =
    let (accepted, h, mailbox) = handoff_accept s.handoff version s.millis s.requests in
    (accepted, record s { handoff = h; requests = mailbox })

-- The set-up of `main`, with the request mailbox that it finds. It attaches no update, so that `update` is
-- never reached and no service is ever called.
abbrev pub begin_app : AtConfig → Version → RequestMailbox → Update → Machine AppStore
begin_app config version requests update = record {
  controller = set_ota_start (controller_init config true 0).0 true;
  cloud = zero_cloud;
  update = update;
  store = record { handoff = handoff_init version; requests = requests; millis = 0 };
  out = [];
}

-- The inner loop, over the bytes that are there.
unfoldable pub drain : Machine AppStore → List ℕ → Machine AppStore
drain m [] = m
drain m (byte ∷ bytes) = drain (receive no_services app_start_ota m byte m.store.millis) bytes

-- A round of the loop, and whether it ends with the reset.
unfoldable pub app_round : Machine AppStore → List ℕ → Bool → Bool × Machine AppStore
app_round m bytes busy =
    let drained = drain m bytes in
    let ticked = tick no_services drained drained.store.millis in
    if handoff_should_reset ticked.store.handoff ticked.store.millis busy then (true, ticked) else (
      false,
      record ticked { store = record ticked.store { millis = u32 (ticked.store.millis + 1) } },
    )

-- The rounds of the loop up to one that resets, if there is one.
unfoldable pub run_app : Machine AppStore → List (List ℕ × Bool) → Bool × Machine AppStore
run_app m [] = (false, m)
run_app m ((bytes, busy) ∷ rounds) =
    let (resets, after) = app_round m bytes busy in
    let rest = run_app after rounds in if resets then (true, after) else rest
