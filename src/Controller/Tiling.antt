-- ===== src/Controller/Tiling.antt =====
-- The ranges that the controller requests, from one complete chunk to the next.
use tm4c123gxl_ota.Base.{ℕ, ◌+◌, ◌<◌, ◌≡◌, List, [], ◌∷◌, if◌then◌else◌, ltb}
use tm4c123gxl_ota.Update.{Services}
use tm4c123gxl_ota.Controller.{Machine}
use tm4c123gxl_ota.Controller.Lines.{ok_chunk}

-- Ranges that follow one another without a gap from one offset to another.
abbrev pub IsTiling : List (ℕ × ℕ) → ℕ → ℕ → Type 0
IsTiling [] from to = from ≡ to
IsTiling ((offset, size) ∷ rest) from to =
    (offset ≡ from) × (0 < size) × IsTiling rest (from + size) to

module _ {S : Type 0} (services : Services S) where
  -- The ranges, as offset and size, that are requested from the one of the machine on, when an OK
  -- comes behind each complete chunk at one of the times, up to the end of the package.
  unfoldable pub requests : Machine S → List ℕ → List (ℕ × ℕ)
  requests m [] = (m.controller.ota_offset, m.controller.ota_chunk_size) ∷ []
  requests m (now_ms ∷ times) =
      let c = m.controller in
      let rest = requests (ok_chunk services m now_ms) times in
      (c.ota_offset, c.ota_chunk_size)
      ∷ (if ltb (c.ota_offset + c.ota_chunk_size) c.remote_size then rest else [])
