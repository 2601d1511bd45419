-- ===== src/Application/Reset.antt =====
-- What the application leaves for the bootloader when it resets.
use tm4c123gxl_ota.Base.{
  ℕ, ◌≡◌, refl, ap, ◌∙◌, sym, arith, List, [], ◌∷◌, Option, none, some, Option-cases, inl, inr,
  Bool, true, false, ◌&&◌, ◌||◌, not,
}
use tm4c123gxl_ota.Types.{Version}
use tm4c123gxl_ota.Protocol.{Packet}
use tm4c123gxl_ota.Request.{RequestMailbox, request_consume, is_zero_version}
use tm4c123gxl_ota.Handoff.{handoff_init, handoff_should_reset, same_version}
use tm4c123gxl_ota.Handoff.Laws.{handoff_accept_lem}
use tm4c123gxl_ota.Metadata.{commit}
use tm4c123gxl_ota.Update.{
  Update, handle, handle_info, handle_abort, handle_start, handle_data, handle_end, fail,
  write_data, erase_page,
}
use tm4c123gxl_ota.Controller.{AtConfig, Machine}
use tm4c123gxl_ota.Controller.Receive.{receive}
use tm4c123gxl_ota.Controller.Keeps.{tick-keeps}
use tm4c123gxl_ota.Controller.Keeps.Events.{receive-keeps}
use tm4c123gxl_ota.Controller.Unattached.{no_services}
use tm4c123gxl_ota.Application.{AppStore, app_start_ota, begin_app, drain, app_round, run_app}

-- A request that the bootloader would consume, for a version other than the running one.
abbrev is_asked : Version → Option Version → Bool
is_asked current none = false
is_asked current (some v) = not (is_zero_version v) && not (same_version v current)

-- The running version, and whether a pending handoff has its request in the mailbox.
abbrev handoff_view : Update → AppStore → Version × Bool
handoff_view u s = (
  s.handoff.current_version,
  not s.handoff.pending || is_asked s.handoff.current_version (request_consume s.requests).0,
)

asked_lem :
    (current v : Version) (r : Option Version)
    → r ≡ some v
    → is_asked current r ≡ true
    → (is_zero_version v ≡ false) × (same_version v current ≡ false)
asked_lem current v none e h = ground arith
asked_lem current v (some w) e h = ground arith

not_asked : (current : Version) (r : Option Version) → r ≡ none → is_asked current r ≡ false
not_asked current none e = refl
not_asked current (some w) e = ground arith

handle-store :
    (u : Update) (s : AppStore) (request : Packet) → (handle no_services u s request).1 ≡ s
unfolding handle handle_info handle_abort handle_start handle_data handle_end fail write_data
    erase_page commit
handle-store u s request = ground arith

handle-view :
    (u : Update) (s : AppStore) (request : Packet)
    → handoff_view (handle no_services u s request).0 (handle no_services u s request).1
      ≡ handoff_view u s
handle-view u s request = ground (arith, handle-store u s request)

start-view :
    (v : Version) (u : Update) (s : AppStore)
    → handoff_view u (app_start_ota v s).1 ≡ handoff_view u s
unfolding app_start_ota
start-view v u s = ground (arith, handoff_accept_lem s.handoff v s.millis s.requests)

abbrev app_view : Machine AppStore → Version × Bool
app_view m = handoff_view m.update m.store

drain-view : (m : Machine AppStore) (bytes : List ℕ) → app_view (drain m bytes) ≡ app_view m
unfolding drain
drain-view m [] = refl
drain-view m (byte ∷ bytes) =
    drain-view (receive no_services app_start_ota m byte m.store.millis) bytes
    ∙ receive-keeps no_services handoff_view handle-view app_start_ota start-view m byte
        m.store.millis

app_round-view :
    (m : Machine AppStore) (bytes : List ℕ) (busy : Bool)
    → app_view (app_round m bytes busy).1 ≡ app_view m
unfolding app_round
app_round-view m bytes busy =
    let drained : Machine AppStore = drain m bytes in
    ground (
      arith,
      drain-view m bytes,
      tick-keeps no_services handoff_view handle-view drained drained.store.millis,
    )

run_app-view :
    (m : Machine AppStore) (rounds : List (List ℕ × Bool))
    → app_view (run_app m rounds).1 ≡ app_view m
unfolding run_app
run_app-view m [] = refl
run_app-view m ((bytes, busy) ∷ rounds) =
    ground (arith, app_round-view m bytes busy, run_app-view (app_round m bytes busy).1 rounds)

run_app-pending :
    (m : Machine AppStore) (rounds : List (List ℕ × Bool))
    → (run_app m rounds).0 ≡ true
    → (run_app m rounds).1.store.handoff.pending ≡ true
unfolding run_app app_round handoff_should_reset
run_app-pending m [] e = ground arith
run_app-pending m ((bytes, busy) ∷ rounds) e =
    ground (arith, run_app-pending (app_round m bytes busy).1 rounds)

-- From the set-up of the application: whatever bytes the modem sends, in whatever rounds, if the
-- application resets, the bootloader then consumes from the request mailbox a version that is neither
-- 0.0.0 nor the running one.
pub reset_leaves_request :
    (config : AtConfig) (version : Version) (requests : RequestMailbox) (update : Update)
    (rounds : List (List ℕ × Bool))
    → let (resets, after) = run_app (begin_app config version requests update) rounds in
      resets ≡ true
      → (v : Version) × ((request_consume after.store.requests).0 ≡ some v)
        × (is_zero_version v ≡ false)
        × (same_version v version ≡ false)
unfolding handoff_init
reset_leaves_request config version requests update rounds e =
    let begun : Machine AppStore = begin_app config version requests update in
    let after : AppStore = (run_app begun rounds).1.store in
    let current : Version = after.handoff.current_version in
    let asked : is_asked current (request_consume after.requests).0 ≡ true =
      ground (arith, run_app-view begun rounds, run_app-pending begun rounds e) in
    let same : current ≡ version = ground (arith, run_app-view begun rounds) in
    elim (Option-cases (request_consume after.requests).0) [
      | inl gone ↦
          absurd (ground (arith, asked, not_asked current (request_consume after.requests).0 gone))
      | inr (v, found) ↦
          let fits = asked_lem current v (request_consume after.requests).0 found asked in
          (v, found, fits.0, ap (same_version v) (sym same) ∙ fits.1)
    ]
