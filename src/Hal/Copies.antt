-- ===== src/Hal/Copies.antt =====
-- The two copies of the metadata in the guarded flash.
use tm4c123gxl_ota.Base.{
  subst, ℕ, zero, suc, ◌+◌, ◌≡◌, ◌≢◌, ◌≤◌, ◌<◌, refl, ap, arith, List, none, some, All, IsByte,
  length, length-take, take,
}
use tm4c123gxl_ota.Config.{metadata_copy_size}
use tm4c123gxl_ota.Types.{MetadataRecord, metadata_bytes, slot_none}
use tm4c123gxl_ota.Types.Layout.{IsMetadata, metadata_of_bytes, metadata_of_bytes-IsMetadata}
use tm4c123gxl_ota.Image.Loop.{slice, slice_agree}
use tm4c123gxl_ota.Metadata.Commit.{IoLaws}
use tm4c123gxl_ota.Hal.Flash.{
  Device, hal_flash_read, metadata_read, metadata_erase, metadata_program, metadata_record_size,
  copy_start, services,
}
use tm4c123gxl_ota.Hal.Protect.{DeviceLaws, service_erase-keeps, hal_flash_program-keeps}

length-slice : (mem : ℕ → ℕ) (a n : ℕ) → length (slice mem a n) ≡ n
length-slice mem a zero = refl
length-slice mem a (suc n) = ap suc (length-slice mem (a + 1) n)

slice-All : (mem : ℕ → ℕ) (a n : ℕ) → ((x : ℕ) → mem x < 256) → All IsByte (slice mem a n)
slice-All mem a zero h = tt
slice-All mem a (suc n) h = (h a, slice-All mem (a + 1) n h)

module _ {D : Type 0} (device : Device D) (laws : DeviceLaws device) where
  read_agree :
      (d e : D) (copy : ℕ)
      → ((x : ℕ)
          → copy_start copy ≤ x
          → x < copy_start copy + metadata_record_size
          → device.cell d x ≡ device.cell e x)
      → metadata_read device d copy ≡ metadata_read device e copy
  unfolding metadata_read hal_flash_read
  read_agree d e copy h =
      ap (λ bs. some (metadata_of_bytes bs))
        (slice_agree (device.cell d) (device.cell e) (copy_start copy) metadata_record_size h)

  reads_records :
      (d : D) (copy : ℕ) (r : MetadataRecord) → metadata_read device d copy ≡ some r → IsMetadata r
  unfolding metadata_read hal_flash_read
  reads_records d copy r e =
      let bs : List ℕ = slice (device.cell d) (copy_start copy) metadata_record_size in
      subst IsMetadata (ap (λ m. elim m [ none ↦ metadata_of_bytes bs | some found ↦ found ]) e) (
        metadata_of_bytes-IsMetadata bs
          (length-slice (device.cell d) (copy_start copy) metadata_record_size)
          (slice-All (device.cell d) (copy_start copy) metadata_record_size (laws.byte d)))

  erase_other :
      (d : D) (k j : ℕ)
      → k ≤ 1
      → j ≤ 1
      → k ≢ j
      → metadata_read device (metadata_erase device d k).1 j ≡ metadata_read device d j
  unfolding metadata_erase
  erase_other d k j hk hj ne = read_agree (metadata_erase device d k).1 d j (λ x l u.
      service_erase-keeps device laws d (copy_start k) metadata_copy_size slot_none x
        (ground arith))

  program_other :
      (d : D) (k j : ℕ) (r : MetadataRecord)
      → k ≤ 1
      → j ≤ 1
      → k ≢ j
      → metadata_read device (metadata_program device d k r).1 j ≡ metadata_read device d j
  unfolding metadata_program
  program_other d k j r hk hj ne = read_agree (metadata_program device d k r).1 d j (λ x l u.
      hal_flash_program-keeps device laws d (copy_start k)
        (take metadata_record_size (metadata_bytes r)) slot_none x
        (ground (arith, length-take metadata_record_size (metadata_bytes r))))

  -- The storage of the metadata that the bootloader makes of the guarded flash does what a commit
  -- relies on, if the device keeps to its data sheet.
  pub services-IoLaws : IoLaws (services device).metadata_io
  services-IoLaws = record {
    reads_records = reads_records;
    erase_other = erase_other;
    program_other = program_other;
  }
