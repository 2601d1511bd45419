-- ===== src/Examples/Restarts.antt =====
-- Starts without a confirmation, over a flash memory with a pending slot.
use tm4c123gxl_ota.Base.{
  ℕ, ◌+◌, ◌-◌, ◌≡◌, inl, refl, some, leb, ltb, ◌&&◌, if◌then◌else◌, get_or, eq_bytes,
}
use tm4c123gxl_ota.Config.{metadata_copy0_start}
use tm4c123gxl_ota.Types.{
  MetadataRecord, metadata_bytes, slot_a, slot_b, slot_none, slot_pending, slot_failed,
}
use tm4c123gxl_ota.Types.Layout.{header_of_bytes, metadata_of_bytes}
use tm4c123gxl_ota.Crc32
use tm4c123gxl_ota.Image.{
  image_validate, payload_validate, vector_validate, crc_loop, header_validate, header_crc32,
  all_zero,
}
use tm4c123gxl_ota.Metadata.{
  ok, load, select, valid_copy, newer, commit, next_record, finalize, record_crc, record_valid,
}
use tm4c123gxl_ota.BootConfirm.{confirmation_consume, confirmation_validate}
use tm4c123gxl_ota.Hal.{flash_range_allowed, padded_length}
use tm4c123gxl_ota.Startup.{image_probe, load_or_reconstruct, start}
use tm4c123gxl_ota.Boot.{
  slot_record, boot_decide, decide_pending, is_confirmed, count_attempt, give_up, decide_active,
}
use tm4c123gxl_ota.Hal.Flash.{
  services, hal_flash_read, hal_flash_erase, hal_flash_program, erase_loop, service_erase,
  metadata_read, metadata_erase, metadata_program,
}
use tm4c123gxl_ota.Hal.Copies.{services-IoLaws}
use tm4c123gxl_ota.Startup.Loop.Jump.{reader}
use tm4c123gxl_ota.Startup.Trials.{restarts, AllStored, restarts_give_up}
use tm4c123gxl_ota.Examples.{flash_a, pending_b}
use tm4c123gxl_ota.Examples.Engine.{Flash}
use tm4c123gxl_ota.Examples.Guarded.{memory, memory-DeviceLaws}

-- Slot A is pending after two attempts.
abbrev pending_a : MetadataRecord
pending_a = record pending_b {
  generation = 7;
  slot_a = record pending_b.slot_a { state = slot_pending; boot_count = 2 };
  active_slot = slot_b;
  pending_slot = slot_a;
  record_crc32 = 1673792620;
}

-- The image of slot A is in the flash, and the record in copy 0.
abbrev trial_flash : Flash
trial_flash x =
    if leb metadata_copy0_start x && ltb x (metadata_copy0_start + 80)
    then get_or (metadata_bytes pending_a) (x - metadata_copy0_start) 0
    else flash_a x

trial_loaded : load (services memory).metadata_io trial_flash ≡ (ok, some (pending_a, 0))
unfolding AllStored start load_or_reconstruct load select valid_copy newer commit next_record
    finalize record_crc record_valid eq_bytes boot_decide decide_pending is_confirmed count_attempt
    give_up decide_active image_probe confirmation_consume confirmation_validate image_validate
    payload_validate vector_validate crc_loop header_validate header_crc32 all_zero header_of_bytes
    metadata_of_bytes hal_flash_read hal_flash_erase hal_flash_program erase_loop service_erase
    metadata_read metadata_erase metadata_program flash_range_allowed padded_length Crc32.crc32
    Crc32.init Crc32.update Crc32.byte_step Crc32.bit_loop Crc32.bit_step Crc32.finish
trial_loaded = refl

trial_stored : AllStored (services memory).metadata_io (reader memory) 2 slot_a trial_flash
unfolding AllStored start load_or_reconstruct load select valid_copy newer commit next_record
    finalize record_crc record_valid eq_bytes boot_decide decide_pending is_confirmed count_attempt
    give_up decide_active image_probe confirmation_consume confirmation_validate image_validate
    payload_validate vector_validate crc_loop header_validate header_crc32 all_zero header_of_bytes
    metadata_of_bytes hal_flash_read hal_flash_erase hal_flash_program erase_loop service_erase
    metadata_read metadata_erase metadata_program flash_range_allowed padded_length Crc32.crc32
    Crc32.init Crc32.update Crc32.byte_step Crc32.bit_loop Crc32.bit_step Crc32.finish
trial_stored = (refl, refl, (refl, refl, tt))

restarts_give_up_example :
    (m' : MetadataRecord) × (k' : ℕ) × (load
        (services memory).metadata_io
        (restarts (services memory).metadata_io (reader memory) 2 trial_flash)
      ≡ (ok, some (m', k')))
    × (m'.pending_slot ≡ slot_none)
    × ((slot_record m' slot_a).state ≡ slot_failed)
    × (m'.active_slot ≡ slot_b)
restarts_give_up_example =
    restarts_give_up (services memory).metadata_io (reader memory)
      (services-IoLaws memory memory-DeviceLaws) 1 trial_flash pending_a 0 slot_a trial_loaded
      (inl refl) refl refl trial_stored
