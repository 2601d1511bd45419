-- ===== src/Config.antt =====
-- tm4c123gxl/common/inc/ota_config.h: the flash map, the framing and the limits.
use tm4c123gxl_ota.Base.{ℕ, ◌+◌, ◌-◌, ◌*◌}

abbrev pub kibibyte : ℕ
kibibyte = 1024

abbrev pub flash_start : ℕ
flash_start = 0

abbrev pub flash_size : ℕ
flash_size = 256 * kibibyte

abbrev pub flash_end : ℕ
flash_end = flash_start + flash_size

abbrev pub flash_page_size : ℕ
flash_page_size = kibibyte

abbrev pub bootloader_start : ℕ
bootloader_start = flash_start

abbrev pub bootloader_size : ℕ
bootloader_size = 32 * kibibyte

abbrev pub slot_a_start : ℕ
slot_a_start = bootloader_start + bootloader_size

abbrev pub slot_size : ℕ
slot_size = 111 * kibibyte

abbrev pub slot_b_start : ℕ
slot_b_start = slot_a_start + slot_size

abbrev pub slot_header_size : ℕ
slot_header_size = flash_page_size

abbrev pub slot_a_payload_start : ℕ
slot_a_payload_start = slot_a_start + slot_header_size

abbrev pub slot_b_payload_start : ℕ
slot_b_payload_start = slot_b_start + slot_header_size

abbrev pub slot_payload_size : ℕ
slot_payload_size = slot_size - slot_header_size

abbrev pub metadata_copy0_start : ℕ
metadata_copy0_start = slot_b_start + slot_size

abbrev pub metadata_copy1_start : ℕ
metadata_copy1_start = metadata_copy0_start + flash_page_size

abbrev pub metadata_copy_size : ℕ
metadata_copy_size = flash_page_size

abbrev pub sram_start : ℕ
sram_start = 0x2000_0000

abbrev pub sram_size : ℕ
sram_size = 32 * kibibyte

abbrev pub sram_end : ℕ
sram_end = sram_start + sram_size

abbrev pub protocol_sof0 : ℕ
protocol_sof0 = 0x55

abbrev pub protocol_sof1 : ℕ
protocol_sof1 = 0xaa

abbrev pub protocol_version : ℕ
protocol_version = 1

abbrev pub protocol_max_payload_size : ℕ
protocol_max_payload_size = 256

abbrev pub crc32_initial_value : ℕ
crc32_initial_value = 0xffff_ffff

abbrev pub crc32_final_xor : ℕ
crc32_final_xor = 0xffff_ffff

abbrev pub crc32_reflected_polynomial : ℕ
crc32_reflected_polynomial = 0xedb8_8320

abbrev pub packet_timeout_ms : ℕ
packet_timeout_ms = 1000

abbrev pub max_retries : ℕ
max_retries = 3

abbrev pub pending_boot_max_attempts : ℕ
pending_boot_max_attempts = 3
