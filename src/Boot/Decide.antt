-- ===== src/Boot/Decide.antt =====
-- What one decision does.
use tm4c123gxl_ota.Base.{ℕ, ◌≡◌, ◌≢◌, ◌⊎◌, arith, true, false, some, Option, Bool}
use tm4c123gxl_ota.Types.{MetadataRecord, slot_a, slot_b}
use tm4c123gxl_ota.Metadata.Select.{IsWellFormed}
use tm4c123gxl_ota.Boot.{
  Confirmation, Probe, stay, boot_slot_a, boot_slot_b, is_confirmed, confirm, give_up,
  count_attempt, decide_active, decide_pending, boot_decide,
}

-- A slot is started only if the probe accepts its image.
pub boot_decide_safe :
    (m : MetadataRecord) (c : Option Confirmation) (probe : ℕ → Bool)
    → let d = (boot_decide m c (some probe)).0.decision in
      (d ≡ stay)
      ⊎ ((d ≡ boot_slot_a) × (probe slot_a ≡ true))
      ⊎ ((d ≡ boot_slot_b) × (probe slot_b ≡ true))
unfolding boot_decide decide_pending decide_active confirm give_up count_attempt is_confirmed
boot_decide_safe m c probe = ground arith

-- If the probe accepts the image of some slot, and slot A or B is the active one, some slot is
-- started.
pub boot_decide_live :
    (m : MetadataRecord) (c : Option Confirmation) (probe : ℕ → Bool)
    → (probe slot_a ≡ true) ⊎ (probe slot_b ≡ true)
    → (m.active_slot ≡ slot_a) ⊎ (m.active_slot ≡ slot_b)
    → (boot_decide m c (some probe)).0.decision ≢ stay
unfolding boot_decide decide_pending decide_active confirm give_up count_attempt is_confirmed
boot_decide_live m c probe some_image active = ground arith

-- A decision keeps the record well-formed.
pub boot_decide-IsWellFormed :
    (m : MetadataRecord) (c : Option Confirmation) (probe : Probe)
    → IsWellFormed m
    → IsWellFormed (boot_decide m c probe).1
unfolding boot_decide decide_pending confirm give_up count_attempt
boot_decide-IsWellFormed m c probe w = ground arith

-- A record is changed only where a commit is asked for.
pub boot_decide_quiet :
    (m : MetadataRecord) (c : Option Confirmation) (probe : Probe)
    → (boot_decide m c probe).0.commit_required ≡ false
    → (boot_decide m c probe).1 ≡ m
unfolding boot_decide decide_pending decide_active
boot_decide_quiet m c probe e = ground arith
