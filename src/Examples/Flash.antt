-- ===== src/Examples/Flash.antt =====
-- An image and the guard of the flash at concrete values.
use tm4c123gxl_ota.Base.{◌+◌, ◌%◌, ◌≡◌, ◌↔◌, ◌⊎◌, refl, arith, none, some, true}
use tm4c123gxl_ota.Config.{
  flash_page_size, slot_size, metadata_copy0_start, flash_end, slot_b_start,
}
use tm4c123gxl_ota.Types.{slot_a}
use tm4c123gxl_ota.Types.Layout.{header_of_bytes}
use tm4c123gxl_ota.Crc32
use tm4c123gxl_ota.Image.{
  Reader, ok, slot_payload_start, header_crc32, header_validate, vector_validate, crc_loop,
  image_validate, payload_validate, all_zero,
}
use tm4c123gxl_ota.Image.Loop.{slice, Reads}
use tm4c123gxl_ota.Image.Accept.{IsBootable, stored_header, image_validate_iff}
use tm4c123gxl_ota.Hal.{flash_erase, flash_program, flash_range_allowed}
use tm4c123gxl_ota.Hal.Guard.{Inside, target_start, flash_range_allowed_iff}
use tm4c123gxl_ota.Examples.{flash_a, header_a}

abbrev read_a : Reader
read_a a n = some (slice flash_a a n)

read_a-Reads : Reads read_a flash_a
read_a-Reads a n h = refl

header_a_test : header_validate header_a slot_a ≡ ok
unfolding header_validate header_crc32 all_zero Crc32.crc32 Crc32.init Crc32.update Crc32.byte_step
    Crc32.bit_loop Crc32.bit_step Crc32.finish
header_a_test = refl

image_test : (image_validate read_a slot_a).0 ≡ ok
unfolding image_validate payload_validate vector_validate crc_loop header_validate header_crc32
    all_zero header_of_bytes Crc32.crc32 Crc32.init Crc32.update Crc32.byte_step Crc32.bit_loop
    Crc32.bit_step Crc32.finish
image_test = refl

image_validate_iff_example :
    (((image_validate read_a slot_a).0 ≡ ok) ↔ IsBootable flash_a slot_a)
    × ((image_validate read_a slot_a).1 ≡ elim (image_validate read_a slot_a).0 [
      | ok ↦ some (record {
        header = stored_header flash_a slot_a;
        payload_address = slot_payload_start slot_a;
      })
      | _ ↦ none
    ])
image_validate_iff_example = image_validate_iff read_a flash_a slot_a read_a-Reads

flash_range_allowed_iff_example :
    (flash_range_allowed slot_b_start flash_page_size slot_a flash_erase ≡ true) ↔ (
      (Inside (target_start slot_a) (target_start slot_a + slot_size) slot_b_start flash_page_size
        ⊎ Inside metadata_copy0_start flash_end slot_b_start flash_page_size)
      × ((flash_erase ≡ flash_program)
          ⊎ ((slot_b_start % flash_page_size ≡ 0) × (flash_page_size % flash_page_size ≡ 0))))
flash_range_allowed_iff_example =
    flash_range_allowed_iff slot_b_start flash_page_size slot_a flash_erase (omega arith)
