-- ===== src/Boot.antt =====
-- tm4c123gxl/common/src/ota_boot.c: which slot to start after a reset. The probe is an argument; a
-- record that is changed is returned.
pub mod Decide
pub mod Trials
use tm4c123gxl_ota.Base.{
  ℕ, ◌+◌, ◌^◌, List, Option, none, some, Bool, true, false, ◌&&◌, ◌||◌, not, ltb, leb, ◌==◌,
  eq_bytes, if◌then◌else◌, u8, u32,
}
use tm4c123gxl_ota.Config.{pending_boot_max_attempts}
use tm4c123gxl_ota.Types.{
  Version, SlotRecord, MetadataRecord, version_bytes, slot_a, slot_b, slot_none, slot_valid,
  slot_active, slot_failed,
}

-- `ota_confirmation_t`
pub record Confirmation : Type 0 where
  pub slot : ℕ
  pub version : Version

-- `ota_image_probe_fn`, none for a null pointer.
abbrev pub Probe : Type 0
Probe = Option (ℕ → Bool)

-- `ota_boot_decision_t`
pub data BootDecision : Type 0 where
  stay boot_slot_a boot_slot_b : BootDecision

-- `ota_boot_result_t`
pub record BootResult : Type 0 where
  pub decision : BootDecision
  pub commit_required : Bool

abbrev pub is_slot : ℕ → Bool
is_slot slot = (slot == slot_a) || (slot == slot_b)

abbrev pub slot_record : MetadataRecord → ℕ → SlotRecord
slot_record m slot = if slot == slot_a then m.slot_a else m.slot_b

-- A write through the pointer that `slot_record` returns.
abbrev pub set_slot_record : MetadataRecord → ℕ → SlotRecord → MetadataRecord
set_slot_record m slot s =
    if slot == slot_a then record m { slot_a = s } else record m { slot_b = s }

abbrev pub other_slot : ℕ → ℕ
other_slot slot = if slot == slot_a then slot_b else slot_a

abbrev pub decision_for : ℕ → BootDecision
decision_for slot = if slot == slot_a then boot_slot_a else boot_slot_b

unfoldable pub version_equal : Version → Version → Bool
version_equal left right = eq_bytes (version_bytes left) (version_bytes right)

abbrev pub bootable : Probe → ℕ → Bool
bootable none slot = false
bootable (some probe) slot = is_slot slot && probe slot

-- The confirmation is there, names the pending slot and its version, and the image is bootable.
unfoldable pub is_confirmed : Option Confirmation → Probe → ℕ → SlotRecord → Bool
is_confirmed none probe pending pending_record = false
is_confirmed (some c) probe pending pending_record =
    (c.slot == pending) && version_equal c.version pending_record.version && bootable probe pending

-- The writes for a confirmed pending slot, in their order.
unfoldable pub confirm : MetadataRecord → MetadataRecord
confirm m =
    let active = m.active_slot in
    let pending = m.pending_slot in
    let m1 =
      if is_slot active
      then set_slot_record m active (record (slot_record m active) { state = slot_valid })
      else m in
    let m2 =
      set_slot_record m1 pending
        (record (slot_record m1 pending) { state = slot_active; boot_count = 0 }) in
    record m2 { active_slot = u8 pending; pending_slot = slot_none }

-- The pending slot is given up.
unfoldable pub give_up : MetadataRecord → MetadataRecord
give_up m =
    record (set_slot_record m m.pending_slot
      (record (slot_record m m.pending_slot) { state = slot_failed })) { pending_slot = slot_none }

-- One more start of the pending slot.
unfoldable pub count_attempt : MetadataRecord → MetadataRecord
count_attempt m =
    let s = slot_record m m.pending_slot in
    set_slot_record m m.pending_slot (record s { boot_count = u32 (s.boot_count + 1) })

-- The part behind the pending slot's: the active slot, else the other one, else neither.
unfoldable pub decide_active : MetadataRecord → Probe → Bool → BootResult
decide_active m probe commit_required =
    let active = m.active_slot in
    let backup = other_slot active in
    if bootable probe active
    then record { decision = decision_for active; commit_required = commit_required }
    else if is_slot backup && bootable probe backup
    then record { decision = decision_for backup; commit_required = commit_required }
    else record { decision = stay; commit_required = commit_required }

-- The part for a pending slot.
unfoldable pub decide_pending :
    MetadataRecord → Option Confirmation → Probe → BootResult × MetadataRecord
decide_pending m confirmation probe =
    let pending = m.pending_slot in
    let pending_record = slot_record m pending in
    if is_confirmed confirmation probe pending pending_record
    then (record { decision = decision_for pending; commit_required = true }, confirm m)
    else if not (bootable probe pending) || leb pending_boot_max_attempts pending_record.boot_count
    then (decide_active (give_up m) probe true, give_up m)
    else (record { decision = decision_for pending; commit_required = true }, count_attempt m)

-- `ota_boot_decide`, without the refusal of a null record.
unfoldable pub boot_decide :
    MetadataRecord → Option Confirmation → Probe → BootResult × MetadataRecord
boot_decide m confirmation none = (record { decision = stay; commit_required = false }, m)
boot_decide m confirmation (some probe) =
    if is_slot m.pending_slot
    then decide_pending m confirmation (some probe)
    else (decide_active m (some probe) false, m)
