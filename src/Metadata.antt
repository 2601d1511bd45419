-- ===== src/Metadata.antt =====
-- tm4c123gxl/common/src/ota_metadata.c: two copies of the metadata record, of which the newer valid
-- one counts, and which are written in turn.
pub mod Commit
pub mod Select
use tm4c123gxl_ota.Base.{
  ℕ, ◌+◌, ◌^◌, List, Option, none, some, Bool, true, false, ◌&&◌, ◌||◌, not, ltb, leb, ◌==◌, ◌!=◌,
  eq_bytes, if◌then◌else◌, u32, sub32, replicate, bit_xor,
}
use tm4c123gxl_ota.Types.{
  SlotRecord, MetadataRecord, metadata_bytes, slot_a, slot_b, slot_none, slot_failed,
}
use tm4c123gxl_ota.Crc32

abbrev pub metadata_magic : ℕ
metadata_magic = 0x4f54_414d

abbrev pub metadata_schema_version : ℕ
metadata_schema_version = 1

-- `ota_metadata_result_t`
pub data MetadataResult : Type 0 where
  ok invalid_argument no_valid_copy io_error verify_error : MetadataResult

-- `ota_metadata_io_t` over a store of the type `S`: each function takes the number of a copy. A
-- read is none if it fails; erasing and programming say whether they succeeded.
pub record MetadataIo (S : Type 0) : Type 0 where
  pub read : S → ℕ → Option MetadataRecord
  pub erase : S → ℕ → Bool × S
  pub program : S → ℕ → MetadataRecord → Bool × S

abbrev pub slot_is_valid : ℕ → Bool
slot_is_valid slot = (slot == slot_a) || (slot == slot_b) || (slot == slot_none)

abbrev pub state_is_valid : ℕ → Bool
state_is_valid state = leb state slot_failed

-- `record_crc`
unfoldable pub record_crc : MetadataRecord → ℕ
record_crc r = Crc32.crc32 (metadata_bytes (record r { record_crc32 = 0 }))

-- `newer`: the sign of the wrapped difference.
unfoldable pub newer : ℕ → ℕ → Bool
newer left right = let d = sub32 left right in (d != 0) && ltb d (2 ^ 31)

-- `ota_metadata_record_valid`
unfoldable pub record_valid : MetadataRecord → Bool
record_valid r =
    if (r.magic != metadata_magic)
      || (r.schema_version != metadata_schema_version)
      || (r.reserved0 != 0)
      || not (state_is_valid r.slot_a.state)
      || not (state_is_valid r.slot_b.state)
      || not (slot_is_valid r.active_slot)
      || not (slot_is_valid r.pending_slot)
      || not (eq_bytes r.reserved (replicate 12 0))
      || not (eq_bytes r.slot_a.reserved0 (replicate 3 0))
      || (r.slot_a.reserved1 != 0)
      || not (eq_bytes r.slot_b.reserved0 (replicate 3 0))
      || (r.slot_b.reserved1 != 0)
    then false
    else r.record_crc32 == record_crc r

-- `ota_metadata_finalize`
unfoldable pub finalize : MetadataRecord → MetadataRecord
finalize r = record r { record_crc32 = record_crc r }

-- A copy that is read and valid: `copies[index]` with `valid[index]`.
unfoldable pub valid_copy : Option MetadataRecord → Option MetadataRecord
valid_copy none = none
valid_copy (some r) = if record_valid r then some r else none

-- The choice between the two copies, with the number of the copy chosen.
unfoldable pub select :
    Option MetadataRecord → Option MetadataRecord → MetadataResult × Option (MetadataRecord × ℕ)
select none none = (no_valid_copy, none)
select none (some b) = (ok, some (b, 1))
select (some a) none = (ok, some (a, 0))
select (some a) (some b) = (ok, some (if newer b.generation a.generation then (b, 1) else (a, 0)))

-- The record that a commit writes.
unfoldable pub next_record : MetadataRecord → MetadataRecord
next_record r = finalize (record r { generation = u32 (r.generation + 1) })

module _ {S : Type 0} (io : MetadataIo S) where
  -- `ota_metadata_load`
  unfoldable pub load : S → MetadataResult × Option (MetadataRecord × ℕ)
  load s = select (valid_copy (io.read s 0)) (valid_copy (io.read s 1))

  -- `ota_metadata_commit`
  unfoldable pub commit : S → MetadataRecord → ℕ → MetadataResult × S
  commit s r current_copy =
      if ltb 1 current_copy
      then (invalid_argument, s)
      else let destination = bit_xor current_copy 1 in
        let next = next_record r in
        let (erased, s1) = io.erase s destination in
        if not erased
        then (io_error, s1)
        else let (programmed, s2) = io.program s1 destination next in
          if not programmed then (io_error, s2) else elim (io.read s2 destination) [
            | none ↦ (io_error, s2)
            | some verified ↦
                if not (eq_bytes (metadata_bytes next) (metadata_bytes verified))
                  || not (record_valid verified)
                then (verify_error, s2)
                else (ok, s2)
          ]
