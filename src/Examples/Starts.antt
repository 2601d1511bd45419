-- ===== src/Examples/Starts.antt =====
-- A start without valid metadata, over a flash memory with an image in slot A.
use tm4c123gxl_ota.Base.{◌≡◌, ◌⊎◌, refl, some}
use tm4c123gxl_ota.Types.{slot_a, slot_b}
use tm4c123gxl_ota.Image.{Reader}
use tm4c123gxl_ota.Image.Loop.{slice, Reads}
use tm4c123gxl_ota.Image.Accept.{IsBootable}
use tm4c123gxl_ota.Boot.{stay, boot_slot_a, boot_slot_b}
use tm4c123gxl_ota.BootConfirm.{confirmation_clear}
use tm4c123gxl_ota.Startup.{start, load_or_reconstruct}
use tm4c123gxl_ota.Startup.Rebuild.{start_safe}
use tm4c123gxl_ota.Examples.{flash_a}
use tm4c123gxl_ota.Examples.Engine.{Flash, flash_services}

abbrev read_flash : Flash → Reader
read_flash d a n = some (slice d a n)

read_flash-Reads : (d : Flash) → Reads (read_flash d) d
read_flash-Reads d a n h = refl

start_safe_example :
    let d = (start flash_services.metadata_io read_flash flash_a confirmation_clear).0.decision in
    let flash = (load_or_reconstruct flash_services.metadata_io read_flash flash_a).2 in
    (d ≡ stay)
    ⊎ ((d ≡ boot_slot_a) × IsBootable flash slot_a)
    ⊎ ((d ≡ boot_slot_b) × IsBootable flash slot_b)
start_safe_example =
    start_safe flash_services.metadata_io read_flash (λ d. d) flash_a confirmation_clear
      read_flash-Reads
