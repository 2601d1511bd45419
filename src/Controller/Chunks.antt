-- ===== src/Controller/Chunks.antt =====
-- The size of a range that the controller requests.
use tm4c123gxl_ota.Base.{ℕ, ◌+◌, ◌^◌, ◌≤◌, ◌<◌, ◌≡◌, ◌⊎◌, arith}
use tm4c123gxl_ota.Config.{slot_header_size}
use tm4c123gxl_ota.Types.{firmware_header_size}
use tm4c123gxl_ota.Controller.Range.{next_chunk_size, http_chunk_size}

-- A range has at least one byte and at most 256, it ends inside the package, and it does not cross
-- the end of the header page. The first range is the firmware header.
pub next_chunk_size_lem :
    (remote_size ota_offset : ℕ)
    → ota_offset < remote_size
    → slot_header_size < remote_size
    → remote_size < 2 ^ 32
    → (0 < next_chunk_size remote_size ota_offset)
      × (next_chunk_size remote_size ota_offset ≤ http_chunk_size)
      × (ota_offset + next_chunk_size remote_size ota_offset ≤ remote_size)
      × ((slot_header_size ≤ ota_offset)
          ⊎ (ota_offset + next_chunk_size remote_size ota_offset ≤ slot_header_size))
      × ((0 < ota_offset) ⊎ (next_chunk_size remote_size ota_offset ≡ firmware_header_size))
unfolding next_chunk_size
next_chunk_size_lem remote_size ota_offset h g l = ground arith
