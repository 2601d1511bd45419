-- ===== src/Startup/Trials.antt =====
-- An image that does not confirm itself is given up, over several resets.
use tm4c123gxl_ota.Base.{
  ℕ, zero, suc, ◌+◌, ◌≤◌, ◌≡◌, ◌⊎◌, refl, sym, ap, ◌∙◌, subst, arith, true, none, some, Option,
  Bool,
}
use tm4c123gxl_ota.Config.{pending_boot_max_attempts}
use tm4c123gxl_ota.Crc32.Range.{crc32-lt}
use tm4c123gxl_ota.Types.{MetadataRecord, metadata_bytes, slot_a, slot_b, slot_none, slot_failed}
use tm4c123gxl_ota.Types.Layout.{IsMetadata, metadata_bytes-IsByte}
use tm4c123gxl_ota.Image.{Reader}
use tm4c123gxl_ota.Metadata.{
  MetadataIo, ok, record_crc, finalize, valid_copy, next_record, load, commit,
}
use tm4c123gxl_ota.Metadata.Select.{load-valid}
use tm4c123gxl_ota.Metadata.Commit.{IoLaws, destination, commit-load}
use tm4c123gxl_ota.Boot.{
  slot_record, boot_decide, decide_pending, count_attempt, give_up, is_confirmed,
}
use tm4c123gxl_ota.Boot.Trials.{start_pending, start_exhausted}
use tm4c123gxl_ota.BootConfirm.{confirmation_clear, confirmation_consume, confirmation_validate}
use tm4c123gxl_ota.Startup.{image_probe, load_or_reconstruct, start}

finalize-IsMetadata : (r : MetadataRecord) → IsMetadata r → IsMetadata (finalize r)
unfolding finalize record_crc
finalize-IsMetadata r is =
    ground
      (arith, crc32-lt (metadata_bytes cleared) (metadata_bytes-IsByte cleared cleared-IsMetadata))
  where
    cleared : MetadataRecord
    cleared = record r { record_crc32 = 0 }

    cleared-IsMetadata : IsMetadata cleared
    cleared-IsMetadata = ground arith

boot_decide-IsMetadata :
    (m : MetadataRecord) (probe : ℕ → Bool)
    → IsMetadata m
    → IsMetadata (boot_decide m none (some probe)).1
unfolding boot_decide decide_pending is_confirmed count_attempt give_up
boot_decide-IsMetadata m probe is = ground arith

boot_decide-generation :
    (m : MetadataRecord) (probe : ℕ → Bool)
    → (boot_decide m none (some probe)).1.generation ≡ m.generation
unfolding boot_decide decide_pending is_confirmed count_attempt give_up
boot_decide-generation m probe = ground arith

valid_copy-some :
    (c : Option MetadataRecord) (r : MetadataRecord) → valid_copy c ≡ some r → c ≡ some r
unfolding valid_copy
valid_copy-some none r e = ground arith
valid_copy-some (some x) r e = ground arith

from_some : {a b : MetadataRecord} → some a ≡ some b → a ≡ b
from_some {a = a} e = ap (λ m. elim m [ none ↦ a | some r ↦ r ]) e

-- What a start decides for a record without a confirmation.
abbrev pub decided : {S : Type 0} → (S → Reader) → S → MetadataRecord → MetadataRecord
decided read s m = (boot_decide m none (some (image_probe (read s)))).1

module _ {S : Type 0} (io : MetadataIo S) (read : S → Reader) where
  -- The store after so many starts without a confirmation.
  unfoldable pub restarts : ℕ → S → S
  restarts zero s = s
  restarts (suc n) s = restarts n (start io read s confirmation_clear).1.2

  -- At each of so many starts the image of the slot is accepted, and the record that the start
  -- decides for is stored if it asks for that.
  unfoldable pub AllStored : ℕ → ℕ → S → Type 0
  AllStored zero slot s = Unit
  AllStored (suc n) slot s =
      let (m, copy, t) = load_or_reconstruct io read s in
      (image_probe (read t) slot ≡ true)
      × ((commit io t (finalize (decided read t m)) copy).0 ≡ ok)
      × AllStored n slot (start io read s confirmation_clear).1.2

module _ {S : Type 0} (io : MetadataIo S) (read : S → Reader) (laws : IoLaws io) where
  loaded-IsMetadata :
      (s : S) (m : MetadataRecord) (k : ℕ) → load io s ≡ (ok, some (m, k)) → IsMetadata m
  loaded-IsMetadata s m k e =
      laws.reads_records s k m (valid_copy-some (io.read s k) m (load-valid io s m k e).1)

  loaded-copy : (s : S) (m : MetadataRecord) (k : ℕ) → load io s ≡ (ok, some (m, k)) → k ≤ 1
  loaded-copy s m k e = omega (arith, (load-valid io s m k e).0)

  load_or_reconstruct-loaded :
      (s : S) (m : MetadataRecord) (k : ℕ)
      → load io s ≡ (ok, some (m, k))
      → load_or_reconstruct io read s ≡ (m, k, s)
  unfolding load_or_reconstruct
  load_or_reconstruct-loaded s m k e = ground arith

  start-stored :
      (s : S) (m : MetadataRecord) (k : ℕ)
      → load io s ≡ (ok, some (m, k))
      → (boot_decide m none (some (image_probe (read s)))).0.commit_required ≡ true
      → (start io read s confirmation_clear).1.2 ≡ (commit io s (finalize (decided read s m)) k).1
  unfolding start confirmation_consume confirmation_validate
  start-stored s m k e c = ground (arith, load_or_reconstruct-loaded s m k e)

  generation-finalize : (m : MetadataRecord) → (finalize m).generation ≡ m.generation
  unfolding finalize
  generation-finalize m = refl

  -- The next start loads what this one has decided.
  load-start :
      (s : S) (m : MetadataRecord) (k : ℕ)
      → load io s ≡ (ok, some (m, k))
      → (boot_decide m none (some (image_probe (read s)))).0.commit_required ≡ true
      → (commit io s (finalize (decided read s m)) k).0 ≡ ok
      → load io (start io read s confirmation_clear).1.2
        ≡ (ok, some (next_record (finalize (decided read s m)), destination k))
  load-start s m k e c stored =
      let probe : ℕ → Bool = image_probe (read s) in
      let d = decided read s m in
      ap (load io) (start-stored s m k e c)
      ∙ commit-load io s (finalize d) k laws
          (finalize-IsMetadata d (boot_decide-IsMetadata m probe (loaded-IsMetadata s m k e)))
          (loaded-copy s m k e)
          (λ o found.
            ap (λ r. r.generation) (from_some (sym found ∙ (load-valid io s m k e).1))
            ∙ sym (generation-finalize d ∙ boot_decide-generation m probe))
          stored

  -- A record that is stored keeps the slots and their entries.
  stored-fields :
      (d : MetadataRecord) (slot : ℕ)
      → let n = next_record (finalize d) in
        (n.pending_slot ≡ d.pending_slot)
        × (n.active_slot ≡ d.active_slot)
        × (slot_record n slot ≡ slot_record d slot)
  unfolding next_record finalize
  stored-fields d slot = (refl, refl, refl)

  stored_first :
      (n slot : ℕ) (s : S) (m : MetadataRecord) (k : ℕ)
      → load io s ≡ (ok, some (m, k))
      → AllStored io read (suc n) slot s
      → (image_probe (read s) slot ≡ true)
        × ((commit io s (finalize (decided read s m)) k).0 ≡ ok)
        × AllStored io read n slot (start io read s confirmation_clear).1.2
  unfolding AllStored
  stored_first n slot s m k e a =
      subst
        (λ ((m', k', t) : MetadataRecord × ℕ × S).
          (image_probe (read t) slot ≡ true)
          × ((commit io t (finalize (decided read t m')) k').0 ≡ ok)
          × AllStored io read n slot (start io read s confirmation_clear).1.2)
        (load_or_reconstruct-loaded s m k e) a

  -- A valid copy names a pending slot, A or B, with `left` attempts left. After `left + 1` starts
  -- without a confirmation, from each of which the next one loads the metadata that it has committed,
  -- the metadata loaded have the slot FAILED and none pending, and the active slot is as before. At
  -- each start the image in the pending slot is accepted and the commit, if there is one, succeeds;
  -- erasing and programming one copy leave the other.
  pub restarts_give_up :
      (left : ℕ) (s : S) (m : MetadataRecord) (k slot : ℕ)
      → load io s ≡ (ok, some (m, k))
      → (slot ≡ slot_a) ⊎ (slot ≡ slot_b)
      → m.pending_slot ≡ slot
      → (slot_record m slot).boot_count + left ≡ pending_boot_max_attempts
      → AllStored io read (suc left) slot s
      → (m' : MetadataRecord) × (k' : ℕ) × (load io (restarts io read (suc left) s)
          ≡ (ok, some (m', k')))
        × (m'.pending_slot ≡ slot_none)
        × ((slot_record m' slot).state ≡ slot_failed)
        × (m'.active_slot ≡ m.active_slot)
  unfolding restarts
  restarts_give_up zero s m k slot e b p h a =
      let first = stored_first 0 slot s m k e a in
      let d = decided read s m in
      let x = start_exhausted m slot (image_probe (read s)) (b, p, first.0) (omega arith) in
      let same = stored-fields d slot in
      (
        next_record (finalize d),
        destination k,
        load-start s m k e x.0 first.1,
        same.0 ∙ x.1,
        ap (λ r. r.state) same.2 ∙ x.3,
        same.1 ∙ x.2,
      )
  restarts_give_up (suc left) s m k slot e b p h a =
      let first = stored_first (suc left) slot s m k e a in
      let d = decided read s m in
      let x = start_pending m slot (image_probe (read s)) (b, p, first.0) (omega arith) in
      let same = stored-fields d slot in
      let count : (slot_record (next_record (finalize d)) slot).boot_count
          ≡ (slot_record m slot).boot_count + 1 =
        ap (λ r. r.boot_count) same.2 ∙ x.4 in
      let (m', k', found, gone, failed, active) =
        restarts_give_up left (start io read s confirmation_clear).1.2 (next_record (finalize d))
          (destination k) slot (load-start s m k e x.1 first.1) b (same.0 ∙ x.2)
          (omega (arith, count)) first.2 in
      (m', k', found, gone, failed, active ∙ same.1 ∙ x.3)
