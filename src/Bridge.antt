-- ===== src/Bridge.antt =====
-- tm4c_uart_esp32_bridge/bridge_uart.c: the bridge hands the modem's bytes and ticks to a controller
-- without an update and without a callback. A round is given the bytes that are there to read; the
-- store of the machine is `now_ms`.
use tm4c123gxl_ota.Base.{
  ℕ, ◌+◌, ◌≡◌, refl, arith, List, [], ◌∷◌, Option, none, some, true, false, ◌||◌, ◌==◌,
  if◌then◌else◌, u32, length,
}
use tm4c123gxl_ota.CloudOta.{zero_cloud}
use tm4c123gxl_ota.Update.{Update}
use tm4c123gxl_ota.Controller.{AtConfig, Machine, controller_init, ota_active}
use tm4c123gxl_ota.Controller.Retry.{tick}
use tm4c123gxl_ota.Controller.Receive.{receive}
use tm4c123gxl_ota.Controller.Unattached.{
  no_services, no_start, is_unattached, unattached_facts, receive-is_unattached, tick-is_unattached,
}

-- The set-up of `main`; none if the configuration is missing, where it waits for ever. `update` is
-- never reached.
unfoldable pub begin_bridge : AtConfig → Update → Option (Machine ℕ)
begin_bridge config update =
    if (length config.wifi_ssid == 0) || (length config.thingsboard_token == 0)
    then none
    else some (record {
      controller = (controller_init config true 0).0;
      cloud = zero_cloud;
      update = update;
      store = 0;
      out = [];
    })

-- The inner loop, over the bytes that are there.
unfoldable pub drain_bridge : Machine ℕ → List ℕ → Machine ℕ
drain_bridge m [] = m
drain_bridge m (byte ∷ bytes) = drain_bridge (receive no_services no_start m byte m.store) bytes

-- The rounds of the loop.
unfoldable pub run_bridge : Machine ℕ → List (List ℕ) → Machine ℕ
run_bridge m [] = m
run_bridge m (bytes ∷ rounds) =
    let drained = drain_bridge m bytes in
    let ticked = tick no_services drained drained.store in
    run_bridge (record ticked { store = u32 (ticked.store + 1) }) rounds

drain_bridge-is_unattached :
    (m : Machine ℕ) (bytes : List ℕ)
    → is_unattached m.controller ≡ true
    → is_unattached (drain_bridge m bytes).controller ≡ true
unfolding drain_bridge
drain_bridge-is_unattached m [] h = h
drain_bridge-is_unattached m (byte ∷ bytes) h =
    drain_bridge-is_unattached (receive no_services no_start m byte m.store) bytes
      (receive-is_unattached no_services no_start m byte m.store h)

run_bridge-is_unattached :
    (m : Machine ℕ) (rounds : List (List ℕ))
    → is_unattached m.controller ≡ true
    → is_unattached (run_bridge m rounds).controller ≡ true
unfolding run_bridge
run_bridge-is_unattached m [] h = h
run_bridge-is_unattached m (bytes ∷ rounds) h =
    let drained : Machine ℕ = drain_bridge m bytes in
    let ticked : Machine ℕ = tick no_services drained drained.store in
    run_bridge-is_unattached (record ticked { store = u32 (ticked.store + 1) }) rounds
      (tick-is_unattached no_services drained drained.store (drain_bridge-is_unattached m bytes h))

-- From the set-up of the bridge, whatever the modem sends: no download is ever under way, and the
-- controller never has an update or a callback.
pub bridge_downloads_nothing :
    (config : AtConfig) (update : Update) (m : Machine ℕ) (rounds : List (List ℕ))
    → begin_bridge config update ≡ some m
    → let c = (run_bridge m rounds).controller in
      (ota_active c ≡ false) × (c.attached ≡ false) × (c.has_ota_start ≡ false)
unfolding begin_bridge
bridge_downloads_nothing config update m rounds e = ground (
  arith,
  begun,
  run_bridge-is_unattached m rounds,
  unattached_facts (run_bridge m rounds).controller,
)
  where
    fresh : is_unattached (controller_init config true 0).0 ≡ true
    fresh = unfold is_unattached in unfold ota_active in refl

    begun : is_unattached m.controller ≡ true
    begun = ground (arith, e, fresh)
