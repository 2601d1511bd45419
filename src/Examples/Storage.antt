-- ===== src/Examples/Storage.antt =====
-- The metadata copies and the boot decision at concrete records.
use tm4c123gxl_ota.Base.{
  ℕ, ◌≡◌, ◌≢◌, ◌⊎◌, ◌≤◌, ◌^◌, inr, refl, sym, ap, ◌∙◌, subst, arith, Option, none, some, Bool, true,
  if◌then◌else◌, ◌==◌, sub32, u32, ◌+◌, bit_xor, eq_bytes,
}
use tm4c123gxl_ota.Types.{MetadataRecord, slot_b, slot_none, slot_active, slot_valid}
use tm4c123gxl_ota.Types.Layout.{IsMetadata}
use tm4c123gxl_ota.Crc32
use tm4c123gxl_ota.Metadata.{
  MetadataIo, ok, no_valid_copy, record_crc, newer, record_valid, finalize, valid_copy, select,
  load, next_record, commit,
}
use tm4c123gxl_ota.Metadata.Select.{load_newest}
use tm4c123gxl_ota.Metadata.Commit.{
  IoLaws, destination, cut_io, commit_cut, commit-load, next_record-IsMetadata,
}
use tm4c123gxl_ota.Boot.{Confirmation, slot_record, other_slot, decision_for, boot_decide}
use tm4c123gxl_ota.Boot.Trials.{IsPending, start_confirmed}
use tm4c123gxl_ota.Examples.{pending_b}

-- Two copies that differ in their generation alone, which is what the store holds of each.
abbrev Copies : Type 0
Copies = Option ℕ × Option ℕ

abbrev copy_of : ℕ → MetadataRecord
copy_of g = next_record (record pending_b { generation = sub32 g 1 })

abbrev stored : Option ℕ → Option MetadataRecord
stored none = none
stored (some g) = some (copy_of g)

abbrev put : Copies → ℕ → Option ℕ → Copies
put s k g = if k == 0 then (g, s.1) else if k == 1 then (s.0, g) else s

abbrev copies_io : MetadataIo Copies
copies_io = record {
  read = λ s k. stored (if k == 0 then s.0 else if k == 1 then s.1 else none);
  erase = λ s k. (true, put s k none);
  program = λ s k r. (true, put s k (some r.generation));
}

copy_of-IsMetadata : (g : ℕ) → IsMetadata (copy_of g)
copy_of-IsMetadata g =
    next_record-IsMetadata (record pending_b { generation = sub32 g 1 }) (ground arith)

from_some : {a b : MetadataRecord} → some a ≡ some b → a ≡ b
from_some {a = a} e = ap (λ m. elim m [ none ↦ a | some r ↦ r ]) e

stored-IsMetadata : (g : Option ℕ) (r : MetadataRecord) → stored g ≡ some r → IsMetadata r
stored-IsMetadata none r e = ground arith
stored-IsMetadata (some g) r e = subst IsMetadata (from_some e) (copy_of-IsMetadata g)

copies_io-IoLaws : IoLaws copies_io
copies_io-IoLaws = record {
  reads_records =
      λ s k r e. stored-IsMetadata (if k == 0 then s.0 else if k == 1 then s.1 else none) r e;
  erase_other = λ s k j hk hj h. ground arith;
  program_other = λ s k j r hk hj h. ground arith;
}

-- The record of generation 5 is in copy 0, and copy 1 is erased.
abbrev one_copy : Copies
one_copy = (some 5, none)

commit_test : (commit copies_io one_copy (copy_of 5) 0).0 ≡ ok
unfolding commit next_record finalize record_crc record_valid eq_bytes Crc32.crc32 Crc32.init
    Crc32.update Crc32.byte_step Crc32.bit_loop Crc32.bit_step Crc32.finish
commit_test = refl

copy_valid : valid_copy (some (copy_of 5)) ≡ some (copy_of 5)
unfolding valid_copy next_record finalize record_crc record_valid eq_bytes Crc32.crc32 Crc32.init
    Crc32.update Crc32.byte_step Crc32.bit_loop Crc32.bit_step Crc32.finish
copy_valid = refl

commit-load_example :
    load copies_io (commit copies_io one_copy (copy_of 5) 0).1
    ≡ (ok, some (next_record (copy_of 5), destination 0))
commit-load_example =
    commit-load copies_io one_copy (copy_of 5) 0 copies_io-IoLaws (copy_of-IsMetadata 5)
      (omega arith) (λ o e. ap (λ m. m.generation) (from_some (sym e ∙ copy_valid))) commit_test

-- What is cut is not readable.
abbrev torn : Copies → ℕ → Copies
torn s k = put s k none

-- The power lasts for the erase and is cut in the program.
commit_cut_example :
    let after = (commit (cut_io copies_io torn) (one_copy, 1) (copy_of 5) 0).1.0 in
    (copies_io.read after 0 ≡ copies_io.read one_copy 0)
    × ((load copies_io after).0 ≢ no_valid_copy)
commit_cut_example =
    commit_cut copies_io torn one_copy 1 (copy_of 5) 0 copies_io-IoLaws
      (λ t k j hk hj h. ground arith) (omega arith) (λ e. ground (arith, copy_valid, e))

-- Generations on the two sides of the wrap.
abbrev two_copies : Copies
two_copies = (some 0xffff_ffff, some 0)

load_test : load copies_io two_copies ≡ (ok, some (copy_of 0, 1))
unfolding load select newer valid_copy next_record finalize record_crc record_valid eq_bytes
    Crc32.crc32 Crc32.init Crc32.update Crc32.byte_step Crc32.bit_loop Crc32.bit_step Crc32.finish
load_test = refl

old_valid : valid_copy (copies_io.read two_copies (bit_xor 1 1)) ≡ some (copy_of 0xffff_ffff)
unfolding valid_copy next_record finalize record_crc record_valid eq_bytes Crc32.crc32 Crc32.init
    Crc32.update Crc32.byte_step Crc32.bit_loop Crc32.bit_step Crc32.finish
old_valid = refl

generations : (copy_of 0xffff_ffff).generation ≡ u32 ((copy_of 0).generation + 0xffff_ffff)
unfolding next_record finalize
generations = refl

load_newest_example : let ahead : ℕ = 0xffff_ffff in (ahead ≡ 0) ⊎ (2 ^ 31 ≤ ahead)
load_newest_example =
    load_newest copies_io two_copies (copy_of 0) (copy_of 0xffff_ffff) 1 0xffff_ffff
      ((copy_of-IsMetadata 0).generation) (omega arith) generations load_test old_valid

abbrev both : ℕ → Bool
both slot = true

pending_b-IsPending : IsPending pending_b slot_b both
pending_b-IsPending = (inr refl, refl, refl)

start_confirmed_example :
    let c : Confirmation = record {
      slot = slot_b;
      version = (slot_record pending_b slot_b).version;
    } in
    let (result, m') = boot_decide pending_b (some c) (some both) in
    (result.decision ≡ decision_for slot_b)
    × (result.commit_required ≡ true)
    × (m'.active_slot ≡ slot_b)
    × (m'.pending_slot ≡ slot_none)
    × ((slot_record m' slot_b).state ≡ slot_active)
    × ((slot_record m' slot_b).boot_count ≡ 0)
    × ((slot_record m' (other_slot slot_b)).state ≡ slot_valid)
start_confirmed_example = start_confirmed pending_b slot_b both pending_b-IsPending refl
