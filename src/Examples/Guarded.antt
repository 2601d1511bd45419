-- ===== src/Examples/Guarded.antt =====
-- The guarded flash, and the bootloader's loop over it, on a device whose flash is a function.
use tm4c123gxl_ota.Base.{
  ℕ, ◌+◌, ◌-◌, ◌%◌, ◌≡◌, ◌≢◌, ◌↔◌, ◌⊎◌, inl, refl, arith, List, [], ◌∷◌, Option, none, Bool, true,
  false, leb, ltb, ◌&&◌, ◌==◌, if◌then◌else◌, get_or, eq_bytes,
}
use tm4c123gxl_ota.Config.{
  flash_page_size, slot_a_payload_start, slot_b_payload_start, slot_b_start,
}
use tm4c123gxl_ota.Types.{Version, slot_a}
use tm4c123gxl_ota.Types.Layout.{header_of_bytes, metadata_of_bytes}
use tm4c123gxl_ota.Crc32
use tm4c123gxl_ota.Image.{
  image_validate, payload_validate, vector_validate, crc_loop, header_validate, header_crc32,
  all_zero, slot_payload_start,
}
use tm4c123gxl_ota.Image.Accept.{IsBootable}
use tm4c123gxl_ota.Metadata.{
  commit, next_record, finalize, record_crc, record_valid, load, select, valid_copy, newer,
}
use tm4c123gxl_ota.Metadata.Commit.{IoLaws}
use tm4c123gxl_ota.Boot.{boot_slot_a, boot_decide, decide_active}
use tm4c123gxl_ota.BootConfirm.{confirmation_clear, confirmation_consume}
use tm4c123gxl_ota.Request.{request_clear, request_consume, request_validate}
use tm4c123gxl_ota.Update.{poll}
use tm4c123gxl_ota.Hal.{flash_range_allowed, padded_length}
use tm4c123gxl_ota.Hal.Flash.{
  Device, services, hal_flash_erase, hal_flash_read, hal_flash_program, erase_loop, service_erase,
  metadata_read, metadata_erase, metadata_program,
}
use tm4c123gxl_ota.Hal.Protect.{DeviceLaws, hal_flash_erase_ends}
use tm4c123gxl_ota.Hal.Requests.{is_kept}
use tm4c123gxl_ota.Hal.Copies.{services-IoLaws}
use tm4c123gxl_ota.Controller.{AtConfig}
use tm4c123gxl_ota.Startup.{
  start, load_or_reconstruct, reconstruct, rebuilt, accepted_image, slot_from_image, image_probe,
}
use tm4c123gxl_ota.Startup.Loop.{
  Main, Input, Outcome, jumps, round_work, main_round, run_main, begin_loop, bl_main,
  confirmation_accepted, take_byte,
}
use tm4c123gxl_ota.Base.{◌++◌}
use tm4c123gxl_ota.Image.{ok}
use tm4c123gxl_ota.Image.Accept.{image_validate_iff}
use tm4c123gxl_ota.Startup.Loop.Boots.{bl_main_boots}
use tm4c123gxl_ota.Startup.Loop.Jump.{reader-Reads, reader, bl_main-IsBootable}
use tm4c123gxl_ota.Startup.Loop.Protect.{run_main_protects}
use tm4c123gxl_ota.Examples.{flash_a}
use tm4c123gxl_ota.Examples.Engine.{Flash}

-- Every erase and every write succeeds; 0xff leaves a byte as it is.
abbrev pub memory : Device Flash
memory = record {
  cell = λ d x. d x % 256;
  erase_page = λ d p. (true, λ x. if leb p x && ltb x (p + flash_page_size) then 255 else d x);
  program = λ d words a count. (
    true,
    λ x.
        if leb a x && ltb x (a + count) && not_erased words (x - a)
        then get_or words (x - a) 0
        else d x,
  );
  reset = λ d. d;
}
  where
    not_erased : List ℕ → ℕ → Bool
    not_erased words i = if get_or words i 0 == 255 then false else true

pub memory-DeviceLaws : DeviceLaws memory
memory-DeviceLaws = record {
  byte = λ d x. omega arith;
  erase_page = λ d p x a h. ground arith;
  program = λ d words a count x h. ground arith;
  reset = λ d x. refl;
}

hal_flash_erase_ends_example :
    hal_flash_erase memory flash_a slot_b_start flash_page_size slot_a ≢ none
hal_flash_erase_ends_example =
    hal_flash_erase_ends memory flash_a slot_b_start flash_page_size slot_a (omega arith)

services-IoLaws_example : IoLaws (services memory).metadata_io
services-IoLaws_example = services-IoLaws memory memory-DeviceLaws

-- No network is configured, so that the loop reads the host's link.
abbrev offline : AtConfig
offline = record {
  wifi_ssid = [];
  wifi_password = [];
  thingsboard_token = [];
  mqtt_host = [];
  mqtt_port = 1883;
  client_id = [];
}

abbrev no_request : Option Version
no_request = none

-- Nothing arrives for a minute.
abbrev quiet : Input
quiet = record { now = 60000; byte = none; later = 60000 }

-- The start on a flash with an image in slot A and no metadata, and the loop's variables behind it.
abbrev begun : Main Flash
begun =
    let (result, loaded, consumed) =
      start (services memory).metadata_io (reader memory) flash_a confirmation_clear in
    begin_loop offline loaded.0 loaded.1 loaded.2 consumed no_request false 0

begun_kept : is_kept begun.machine.update.metadata.active_slot 40000 ≡ true
unfolding begin_loop start load_or_reconstruct reconstruct rebuilt accepted_image slot_from_image
    image_validate payload_validate vector_validate crc_loop header_validate header_crc32 all_zero
    header_of_bytes metadata_of_bytes load select valid_copy newer commit next_record finalize
    record_crc record_valid eq_bytes boot_decide decide_active image_probe confirmation_consume
    hal_flash_read hal_flash_erase hal_flash_program erase_loop service_erase metadata_read
    metadata_erase metadata_program flash_range_allowed padded_length Crc32.crc32 Crc32.init
    Crc32.update Crc32.byte_step Crc32.bit_loop Crc32.bit_step Crc32.finish
begun_kept = refl

-- The whole run: after a quiet minute the bootloader jumps to slot A.
abbrev quiet_boot : Outcome × Main Flash
quiet_boot =
    bl_main (services memory) (reader memory) offline flash_a confirmation_clear request_clear 0
      (quiet ∷ [])

quiet_boot_active : quiet_boot.1.machine.update.metadata.active_slot ≡ slot_a
unfolding bl_main run_main confirmation_accepted request_consume request_validate main_round
    round_work take_byte poll begin_loop start load_or_reconstruct reconstruct rebuilt
    accepted_image slot_from_image image_validate payload_validate vector_validate crc_loop
    header_validate header_crc32 all_zero header_of_bytes metadata_of_bytes load select valid_copy
    newer commit next_record finalize record_crc record_valid eq_bytes boot_decide decide_active
    image_probe confirmation_consume hal_flash_read hal_flash_erase hal_flash_program erase_loop
    service_erase metadata_read metadata_erase metadata_program flash_range_allowed padded_length
    Crc32.crc32 Crc32.init Crc32.update Crc32.byte_step Crc32.bit_loop Crc32.bit_step Crc32.finish
quiet_boot_active = refl

quiet_boot_jumps : quiet_boot.0 ≡ jumps (slot_payload_start slot_a)
unfolding bl_main run_main confirmation_accepted request_consume request_validate main_round
    round_work take_byte poll begin_loop start load_or_reconstruct reconstruct rebuilt
    accepted_image slot_from_image image_validate payload_validate vector_validate crc_loop
    header_validate header_crc32 all_zero header_of_bytes metadata_of_bytes load select valid_copy
    newer commit next_record finalize record_crc record_valid eq_bytes boot_decide decide_active
    image_probe confirmation_consume hal_flash_read hal_flash_erase hal_flash_program erase_loop
    service_erase metadata_read metadata_erase metadata_program flash_range_allowed padded_length
    Crc32.crc32 Crc32.init Crc32.update Crc32.byte_step Crc32.bit_loop Crc32.bit_step Crc32.finish
quiet_boot_jumps = refl

bl_main-IsBootable_example : IsBootable (memory.cell quiet_boot.1.machine.store) slot_a
bl_main-IsBootable_example =
    bl_main-IsBootable memory memory-DeviceLaws offline flash_a confirmation_clear request_clear 0
      (quiet ∷ []) slot_a (inl refl) quiet_boot_active quiet_boot_jumps

image_accepted : (image_validate (reader memory flash_a) slot_a).0 ≡ ok
unfolding image_validate payload_validate vector_validate crc_loop header_validate header_crc32
    all_zero header_of_bytes hal_flash_read Crc32.crc32 Crc32.init Crc32.update Crc32.byte_step
    Crc32.bit_loop Crc32.bit_step Crc32.finish
image_accepted = refl

image-IsBootable : IsBootable (memory.cell flash_a) slot_a
image-IsBootable =
    let v : ((image_validate (reader memory flash_a) slot_a).0 ≡ ok)
        ↔ IsBootable (memory.cell flash_a) slot_a =
      (image_validate_iff (reader memory flash_a) (memory.cell flash_a) slot_a
        (reader-Reads memory flash_a)).0 in
    v.0 image_accepted

no_metadata : (load (services memory).metadata_io flash_a).1 ≡ none
unfolding load select valid_copy record_valid record_crc eq_bytes metadata_read hal_flash_read
    metadata_of_bytes Crc32.crc32 Crc32.init Crc32.update Crc32.byte_step Crc32.bit_loop
    Crc32.bit_step Crc32.finish
no_metadata = refl

-- Another round, half a minute into the window.
abbrev early : Input
early = record { now = 30000; byte = none; later = 30000 }

bl_main_boots_example :
    let outcome =
      (bl_main
        (services memory)
        (reader memory)
        offline
        flash_a
        confirmation_clear
        request_clear
        0
        ((early ∷ []) ++ quiet ∷ [])).0 in
    (outcome ≡ jumps slot_a_payload_start) ⊎ (outcome ≡ jumps slot_b_payload_start)
bl_main_boots_example =
    bl_main_boots memory memory-DeviceLaws offline flash_a confirmation_clear request_clear 0
      (early ∷ []) quiet (inl image-IsBootable) (inl no_metadata) refl (refl, tt) refl (omega arith)

run_main_protects_example :
    let after = (run_main (services memory) true boot_slot_a begun (quiet ∷ [])).1.machine in
    (memory.cell after.store 40000 ≡ memory.cell begun.machine.store 40000)
    × (after.update.metadata.active_slot ≡ begun.machine.update.metadata.active_slot)
run_main_protects_example =
    run_main_protects memory memory-DeviceLaws 40000 true boot_slot_a begun (quiet ∷ []) begun_kept
