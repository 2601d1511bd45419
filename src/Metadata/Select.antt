-- ===== src/Metadata/Select.antt =====
-- Validity of a record, and which copy counts.
use tm4c123gxl_ota.Base.{
  ℕ, ◌+◌, ◌^◌, ◌<◌, ◌≡◌, ◌↔◌, refl, sym, ◌∙◌, arith, true, false, none, some, Option, List, ◌≤◌,
  bit_xor, eq_bytes, eq_bytes→eq, eq_bytes_refl, replicate, u32, ◌⊎◌,
}
use tm4c123gxl_ota.Types.{MetadataRecord, slot_a, slot_b, slot_none, slot_failed}
use tm4c123gxl_ota.Metadata.{
  MetadataIo, metadata_magic, metadata_schema_version, record_crc, newer, record_valid, finalize,
  valid_copy, select, load, ok, no_valid_copy,
}

abbrev pub IsSlotValue : ℕ → Type 0
IsSlotValue slot = (slot ≡ slot_a) ⊎ (slot ≡ slot_b) ⊎ (slot ≡ slot_none)

-- What `ota_metadata_record_valid` asks of a record besides its checksum.
pub record IsWellFormed (r : MetadataRecord) : Type 0 where
  pub magic : r.magic ≡ metadata_magic
  pub schema_version : r.schema_version ≡ metadata_schema_version
  pub reserved0 : r.reserved0 ≡ 0
  pub state_a : r.slot_a.state ≤ slot_failed
  pub state_b : r.slot_b.state ≤ slot_failed
  pub active_slot : IsSlotValue r.active_slot
  pub pending_slot : IsSlotValue r.pending_slot
  pub reserved : r.reserved ≡ replicate 12 0
  pub slot_a_reserved0 : r.slot_a.reserved0 ≡ replicate 3 0
  pub slot_a_reserved1 : r.slot_a.reserved1 ≡ 0
  pub slot_b_reserved0 : r.slot_b.reserved0 ≡ replicate 3 0
  pub slot_b_reserved1 : r.slot_b.reserved1 ≡ 0

eq_bytes_iff : (xs ys : List ℕ) → (eq_bytes xs ys ≡ true) ↔ (xs ≡ ys)
eq_bytes_iff xs ys = (eq_bytes→eq xs ys, λ e. rw e (eq_bytes_refl ys))

-- A record is valid exactly if it is well-formed and carries its own checksum.
pub record_valid_iff :
    (r : MetadataRecord)
    → (record_valid r ≡ true) ↔ (IsWellFormed r × (r.record_crc32 ≡ record_crc r))
unfolding record_valid
record_valid_iff r = ground (
  arith,
  eq_bytes_iff r.reserved (replicate 12 0),
  eq_bytes_iff r.slot_a.reserved0 (replicate 3 0),
  eq_bytes_iff r.slot_b.reserved0 (replicate 3 0),
)

record_crc-finalize : (r : MetadataRecord) → record_crc (finalize r) ≡ record_crc r
unfolding record_crc finalize
record_crc-finalize r = refl

finalize-IsWellFormed : (r : MetadataRecord) → IsWellFormed r → IsWellFormed (finalize r)
unfolding finalize
finalize-IsWellFormed r w = ground arith

record_crc32-finalize : (r : MetadataRecord) → (finalize r).record_crc32 ≡ record_crc r
unfolding finalize
record_crc32-finalize r = refl

-- Finalizing a well-formed record makes it valid.
pub finalize-record_valid : (r : MetadataRecord) → IsWellFormed r → record_valid (finalize r) ≡ true
finalize-record_valid r w =
    (record_valid_iff (finalize r)).1
      (finalize-IsWellFormed r w, record_crc32-finalize r ∙ sym (record_crc-finalize r))

-- In the order of the generations, which wraps, each record's successor is newer than it.
pub newer_suc :
    (g : ℕ) → g < 2 ^ 32 → (newer (u32 (g + 1)) g ≡ true) × (newer g (u32 (g + 1)) ≡ false)
unfolding newer
newer_suc g h = ground arith

-- Two generations less than half the range apart are ordered one way only.
pub newer_asym : (a b : ℕ) → a < 2 ^ 32 → b < 2 ^ 32 → newer a b ≡ true → newer b a ≡ false
unfolding newer
newer_asym a b ha hb h = ground arith

-- A generation less than half the range ahead is newer.
newer_ahead :
    (g ahead : ℕ) → g < 2 ^ 32 → 0 < ahead → ahead < 2 ^ 31 → newer (u32 (g + ahead)) g ≡ true
unfolding newer
newer_ahead g ahead h z l = ground arith

module _ {S : Type 0} (io : MetadataIo S) (s : S) where
  -- Loading fails exactly if neither copy is readable and valid.
  pub load-none_iff :
      ((load io s).0 ≡ no_valid_copy)
      ↔ ((valid_copy (io.read s 0) ≡ none) × (valid_copy (io.read s 1) ≡ none))
  unfolding load
  load-none_iff = cases (valid_copy (io.read s 0)) (valid_copy (io.read s 1))
    where
      cases :
          (a b : Option MetadataRecord)
          → ((select a b).0 ≡ no_valid_copy) ↔ ((a ≡ none) × (b ≡ none))
      cases none none = unfold select in ground arith
      cases none (some b) = unfold select in ground arith
      cases (some a) none = unfold select in ground arith
      cases (some a) (some b) = unfold select in ground arith

  -- A loaded record is the one of a readable, valid copy, whose number is given with it.
  pub load-valid :
      (r : MetadataRecord) (k : ℕ)
      → load io s ≡ (ok, some (r, k))
      → ((k ≡ 0) ⊎ (k ≡ 1)) × (valid_copy (io.read s k) ≡ some r)
  unfolding load select
  load-valid r k e = ground arith

  -- If a record is loaded and the other copy is readable and valid too, the latter is no successor of
  -- the former: its generation, counted on from the loaded one's over the wrap at 32 bits, is the same
  -- or half the range or more ahead.
  pub load_newest :
      (r o : MetadataRecord) (k ahead : ℕ)
      → r.generation < 2 ^ 32
      → ahead < 2 ^ 32
      → o.generation ≡ u32 (r.generation + ahead)
      → load io s ≡ (ok, some (r, k))
      → valid_copy (io.read s (bit_xor k 1)) ≡ some o
      → (ahead ≡ 0) ⊎ (2 ^ 31 ≤ ahead)
  unfolding load select
  load_newest r o k ahead hr ha g e f =
      ground (arith, newer_asym r.generation o.generation, newer_ahead r.generation ahead)
