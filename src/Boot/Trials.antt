-- ===== src/Boot/Trials.antt =====
-- What a start does with a pending slot.
use tm4c123gxl_ota.Base.{ℕ, ◌+◌, ◌≤◌, ◌<◌, ◌≡◌, ◌⊎◌, arith, true, none, some, Bool, eq_bytes_refl}
use tm4c123gxl_ota.Config.{pending_boot_max_attempts}
use tm4c123gxl_ota.Types.{
  MetadataRecord, version_bytes, slot_a, slot_b, slot_none, slot_valid, slot_active, slot_failed,
}
use tm4c123gxl_ota.Boot.{
  Confirmation, slot_record, decision_for, is_confirmed, confirm, give_up, count_attempt,
  decide_active, decide_pending, boot_decide, version_equal, other_slot,
}

abbrev pub IsPending : MetadataRecord → ℕ → (ℕ → Bool) → Type 0
IsPending m slot probe =
    ((slot ≡ slot_a) ⊎ (slot ≡ slot_b)) × (m.pending_slot ≡ slot) × (probe slot ≡ true)

-- A start with attempts left starts the pending slot and counts one attempt more.
pub start_pending :
    (m : MetadataRecord) (slot : ℕ) (probe : ℕ → Bool)
    → IsPending m slot probe
    → (slot_record m slot).boot_count < pending_boot_max_attempts
    → let (result, m') = boot_decide m none (some probe) in
      (result.decision ≡ decision_for slot)
      × (result.commit_required ≡ true)
      × (m'.pending_slot ≡ slot)
      × (m'.active_slot ≡ m.active_slot)
      × ((slot_record m' slot).boot_count ≡ (slot_record m slot).boot_count + 1)
unfolding boot_decide decide_pending is_confirmed count_attempt
start_pending m slot probe p h = ground arith

-- A start with no attempt left gives the slot up, and starts another or stays.
pub start_exhausted :
    (m : MetadataRecord) (slot : ℕ) (probe : ℕ → Bool)
    → IsPending m slot probe
    → pending_boot_max_attempts ≤ (slot_record m slot).boot_count
    → let (result, m') = boot_decide m none (some probe) in
      (result.commit_required ≡ true)
      × (m'.pending_slot ≡ slot_none)
      × (m'.active_slot ≡ m.active_slot)
      × ((slot_record m' slot).state ≡ slot_failed)
unfolding boot_decide decide_pending is_confirmed give_up decide_active
start_exhausted m slot probe p h = ground arith

-- A matching confirmation of a pending slot whose image is accepted makes it the active slot, with
-- no pending slot and its attempts cleared, and the slot that was active before it VALID.
pub start_confirmed :
    (m : MetadataRecord) (slot : ℕ) (probe : ℕ → Bool)
    → IsPending m slot probe
    → m.active_slot ≡ other_slot slot
    → let c : Confirmation = record { slot = slot; version = (slot_record m slot).version } in
      let (result, m') = boot_decide m (some c) (some probe) in
      (result.decision ≡ decision_for slot)
      × (result.commit_required ≡ true)
      × (m'.active_slot ≡ slot)
      × (m'.pending_slot ≡ slot_none)
      × ((slot_record m' slot).state ≡ slot_active)
      × ((slot_record m' slot).boot_count ≡ 0)
      × ((slot_record m' (other_slot slot)).state ≡ slot_valid)
unfolding boot_decide decide_pending is_confirmed confirm version_equal
start_confirmed m slot probe p active =
    ground (arith, eq_bytes_refl (version_bytes (slot_record m slot).version))
