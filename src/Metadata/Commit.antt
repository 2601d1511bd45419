-- ===== src/Metadata/Commit.antt =====
-- A commit never touches the copy in use, and once it succeeds the new record is the one loaded.
use tm4c123gxl_ota.Base.{
  ℕ, zero, suc, ◌+◌, ◌^◌, ◌<◌, ◌≤◌, ◌≡◌, ◌≢◌, sym, ap, ◌∙◌, arith, true, false, some, eq_bytes→eq,
  u32, none, ◌↔◌, bit_xor, inl, inr, Option-cases,
}
use tm4c123gxl_ota.Types.{MetadataRecord, metadata_bytes}
use tm4c123gxl_ota.Types.Layout.{IsMetadata, metadata_bytes-injective, metadata_bytes-IsByte}
use tm4c123gxl_ota.Crc32.Range.{crc32-lt}
use tm4c123gxl_ota.Metadata.{
  MetadataIo, record_crc, newer, record_valid, finalize, valid_copy, select, load, next_record,
  commit, ok, no_valid_copy,
}
use tm4c123gxl_ota.Metadata.Select.{newer_suc, load-none_iff}

-- What the code relies on from the storage: what is read has fields of their widths, and erasing or
-- programming one of the copies 0 and 1, successfully or not, leaves what the other reads as.
pub record IoLaws {S : Type 0} (io : MetadataIo S) : Type 0 where
  pub reads_records : (s : S) (k : ℕ) (r : MetadataRecord) → io.read s k ≡ some r → IsMetadata r
  pub erase_other :
      (s : S) (k j : ℕ) → k ≤ 1 → j ≤ 1 → k ≢ j → io.read (io.erase s k).1 j ≡ io.read s j
  pub program_other :
      (s : S) (k j : ℕ) (r : MetadataRecord)
      → k ≤ 1
      → j ≤ 1
      → k ≢ j
      → io.read (io.program s k r).1 j ≡ io.read s j

-- The storage while the power lasts for so many more operations that erase or program: the one
-- behind them is cut, leaves what `torn` says of the copy that it works on, and is the last.
abbrev pub cut_io : {S : Type 0} → MetadataIo S → (S → ℕ → S) → MetadataIo (S × ℕ)
cut_io io torn = record {
  read = λ (s, left) k. io.read s k;
  erase = λ (s, left) k. elim left [
    | zero ↦ (false, (torn s k, 0))
    | suc n ↦ ((io.erase s k).0, ((io.erase s k).1, n))
  ];
  program = λ (s, left) k r. elim left [
    | zero ↦ (false, (torn s k, 0))
    | suc n ↦ ((io.program s k r).0, ((io.program s k r).1, n))
  ];
}

-- The copy that a commit writes.
abbrev pub destination : ℕ → ℕ
destination current = bit_xor current 1

destination_le : (current : ℕ) → current ≤ 1 → destination current ≤ 1
destination_le zero h = omega arith
destination_le (suc zero) h = omega arith
destination_le (suc (suc c)) h = absurd (omega arith)

destination_ne : (current : ℕ) → current ≤ 1 → destination current ≢ current
destination_ne zero h = omega arith
destination_ne (suc zero) h = omega arith
destination_ne (suc (suc c)) h = absurd (omega arith)

pub next_record-IsMetadata : (r : MetadataRecord) → IsMetadata r → IsMetadata (next_record r)
unfolding next_record finalize record_crc
next_record-IsMetadata r is =
    ground
      (arith, crc32-lt (metadata_bytes cleared) (metadata_bytes-IsByte cleared cleared-IsMetadata))
  where
    cleared : MetadataRecord
    cleared = record r { generation = u32 (r.generation + 1); record_crc32 = 0 }

    cleared-IsMetadata : IsMetadata cleared
    cleared-IsMetadata = ground arith

newer-next :
    (r o : MetadataRecord)
    → r.generation < 2 ^ 32
    → o.generation ≡ r.generation
    → (newer (next_record r).generation o.generation ≡ true)
      × (newer o.generation (next_record r).generation ≡ false)
unfolding next_record finalize
newer-next r o h e = rw e (newer_suc r.generation h)

module _ {S : Type 0} (io : MetadataIo S) where
  erased_keeps :
      (s : S) (current : ℕ)
      → IoLaws io
      → current ≤ 1
      → io.read (io.erase s (destination current)).1 current ≡ io.read s current
  erased_keeps s current laws h =
      laws.erase_other s (destination current) current (destination_le current h) h
        (destination_ne current h)

  programmed_keeps :
      (s : S) (r : MetadataRecord) (current : ℕ)
      → IoLaws io
      → current ≤ 1
      → io.read (io.program s (destination current) r).1 current ≡ io.read s current
  programmed_keeps s r current laws h =
      laws.program_other s (destination current) current r (destination_le current h) h
        (destination_ne current h)

  -- Whatever a commit returns, the copy in use, 0 or 1, reads as before, if erasing and programming
  -- one copy leave the other.
  pub commit_keeps :
      (s : S) (r : MetadataRecord) (current : ℕ)
      → IoLaws io
      → current ≤ 1
      → io.read (commit io s r current).1 current ≡ io.read s current
  unfolding commit
  commit_keeps s r current laws h =
      let erased = (io.erase s (destination current)).1 in
      ground (
        arith,
        erased_keeps s current laws h,
        programmed_keeps erased (next_record r) current laws h,
      )

  -- A commit that succeeds leaves the new record, valid, in the other copy.
  pub commit-ok :
      (s : S) (r : MetadataRecord) (current : ℕ)
      → IoLaws io
      → IsMetadata r
      → current ≤ 1
      → (commit io s r current).0 ≡ ok
      → (io.read (commit io s r current).1 (destination current) ≡ some (next_record r))
        × (record_valid (next_record r) ≡ true)
  unfolding commit
  commit-ok s r current laws is h e = elim (Option-cases (io.read stored (destination current))) [
    | inl gone ↦ ground arith
    | inr (v, there) ↦ ground (
      arith,
      eq_bytes→eq (metadata_bytes (next_record r)) (metadata_bytes v),
      metadata_bytes-injective (next_record r) v (next_record-IsMetadata r is)
          (laws.reads_records stored (destination current) v there),
    )
  ]
    where
      stored : S
      stored =
          (io.program (io.erase s (destination current)).1 (destination current) (next_record r)).1

  -- Loading a store in which the record `n` of the copy that is not `current` is valid, and newer
  -- than a valid record of `current`.
  load_other :
      (s : S) (n : MetadataRecord) (current : ℕ)
      → current ≤ 1
      → valid_copy (io.read s (destination current)) ≡ some n
      → ((o : MetadataRecord)
          → valid_copy (io.read s current) ≡ some o
          → (newer n.generation o.generation ≡ true) × (newer o.generation n.generation ≡ false))
      → load io s ≡ (ok, some (n, destination current))
  unfolding load select
  load_other s n zero h there older = elim (Option-cases (valid_copy (io.read s 0))) [
    | inl e ↦ ground arith
    | inr (o, e) ↦ ground (arith, older o e)
  ]
  load_other s n (suc zero) h there older = elim (Option-cases (valid_copy (io.read s 1))) [
    | inl e ↦ ground arith
    | inr (o, e) ↦ ground (arith, older o e)
  ]
  load_other s n (suc (suc c)) h there older = absurd (omega arith)

  -- After a commit that succeeds, loading gives the new record and the number of its copy, if erasing
  -- and programming one copy leave the other, the record has fields of their widths, and the copy
  -- in use, 0 or 1, is unreadable, invalid or of the generation that was committed upon.
  pub commit-load :
      (s : S) (r : MetadataRecord) (current : ℕ)
      → IoLaws io
      → IsMetadata r
      → current ≤ 1
      → ((o : MetadataRecord)
          → valid_copy (io.read s current) ≡ some o
          → o.generation ≡ r.generation)
      → (commit io s r current).0 ≡ ok
      → load io (commit io s r current).1 ≡ (ok, some (next_record r, destination current))
  commit-load s r current laws is h gen e =
      load_other (commit io s r current).1 (next_record r) current h
        (ap valid_copy written.0 ∙ valid)
        λ o found.
          newer-next r o is.generation
            (gen o (ap valid_copy (sym (commit_keeps s r current laws h)) ∙ found))
    where
      written :
          (io.read (commit io s r current).1 (destination current) ≡ some (next_record r))
          × (record_valid (next_record r) ≡ true)
      written = commit-ok s r current laws is h e

      valid : valid_copy (some (next_record r)) ≡ some (next_record r)
      valid = unfold valid_copy in rw written.1

cut_io-IoLaws :
    {S : Type 0} (io : MetadataIo S) (torn : S → ℕ → S)
    → IoLaws io
    → ((s : S) (k j : ℕ) → k ≤ 1 → j ≤ 1 → k ≢ j → io.read (torn s k) j ≡ io.read s j)
    → IoLaws (cut_io io torn)
cut_io-IoLaws io torn laws tears = record {
  reads_records = λ (s, left) k r e. laws.reads_records s k r e;
  erase_other =
      λ (s, left) k j hk hj h. ground (arith, tears s k j hk hj h, laws.erase_other s k j hk hj h);
  program_other = λ (s, left) k j r hk hj h.
      ground (arith, tears s k j hk hj h, laws.program_other s k j r hk hj h);
}

-- A commit whose power is cut in its erase or its program, or not at all, leaves the copy in use, 0
-- or 1, as it is, so that loading still finds a record if that copy is readable and valid. Erasing
-- and programming one copy, cut or not, leave the other.
pub commit_cut :
    {S : Type 0} (io : MetadataIo S) (torn : S → ℕ → S) (s : S) (left : ℕ) (r : MetadataRecord)
    (current : ℕ)
    → IoLaws io
    → ((t : S) (k j : ℕ) → k ≤ 1 → j ≤ 1 → k ≢ j → io.read (torn t k) j ≡ io.read t j)
    → current ≤ 1
    → valid_copy (io.read s current) ≢ none
    → let after = (commit (cut_io io torn) (s, left) r current).1.0 in
      (io.read after current ≡ io.read s current) × ((load io after).0 ≢ no_valid_copy)
commit_cut {S} io torn s left r current laws tears h valid =
    let after = (commit (cut_io io torn) (s, left) r current).1.0 in
    let kept : io.read after current ≡ io.read s current =
      commit_keeps (cut_io io torn) (s, left) r current (cut_io-IoLaws io torn laws tears) h in
    let found : ((load io after).0 ≡ no_valid_copy)
        ↔ ((valid_copy (io.read after 0) ≡ none) × (valid_copy (io.read after 1) ≡ none)) =
      load-none_iff io after in
    (kept, λ gone. valid (ap valid_copy (sym kept) ∙ empty_copy after current h (found.0 gone)))
  where
    empty_copy :
        (after : S) (k : ℕ)
        → k ≤ 1
        → (valid_copy (io.read after 0) ≡ none) × (valid_copy (io.read after 1) ≡ none)
        → valid_copy (io.read after k) ≡ none
    empty_copy after zero l e = e.0
    empty_copy after (suc zero) l e = e.1
    empty_copy after (suc (suc k)) l e = absurd (omega arith)
