-- ===== src/Image/Agree.antt =====
-- tm4c123gxl/common/src/ota_image.c: a bootable image depends on the bytes of its slot alone.
use tm4c123gxl_ota.Base.{ℕ, ◌+◌, ◌≡◌, ◌≤◌, ◌<◌, ◌⊎◌, sym, ap, ◌∙◌, subst, arith, List}
use tm4c123gxl_ota.Config.{slot_size}
use tm4c123gxl_ota.Types.{slot_a, slot_b, firmware_header_size}
use tm4c123gxl_ota.Types.Layout.{header_of_bytes}
use tm4c123gxl_ota.Crc32
use tm4c123gxl_ota.Image.{slot_payload_start, vector_size, vector_msp, vector_reset}
use tm4c123gxl_ota.Image.Loop.{slice, slice_agree}
use tm4c123gxl_ota.Image.Accept.{
  IsBootable, HeaderFits, VectorFits, image_start, stored_header, stored_vector,
}

-- Whether an image is bootable is a matter of the bytes in its slot.
pub IsBootable-agree :
    (mem mem' : ℕ → ℕ) (slot : ℕ)
    → ((x : ℕ) → image_start slot ≤ x → x < image_start slot + slot_size → mem x ≡ mem' x)
    → IsBootable mem slot
    → IsBootable mem' slot
IsBootable-agree mem mem' slot h b = record {
  header = subst (λ bs. HeaderFits (header_of_bytes bs) slot) header_bytes b.header;
  vector = subst (λ bs. VectorFits (vector_msp bs) (vector_reset bs) slot) vector_bytes b.vector;
  payload =
      subst
        (λ (hs : List ℕ).
          Crc32.crc32 (slice mem' (slot_payload_start slot) (header_of_bytes hs).payload_size)
          ≡ (header_of_bytes hs).payload_crc32)
        header_bytes (ap Crc32.crc32 (sym payload_bytes) ∙ b.payload);
}
  where
    a_slot : (slot ≡ slot_a) ⊎ (slot ≡ slot_b)
    a_slot = b.header.a_slot

    header_bytes :
        slice mem (image_start slot) firmware_header_size
        ≡ slice mem' (image_start slot) firmware_header_size
    header_bytes =
        slice_agree mem mem' (image_start slot) firmware_header_size (λ x l u. h x l (omega arith))

    vector_bytes : stored_vector mem slot ≡ stored_vector mem' slot
    vector_bytes =
        slice_agree mem mem' (slot_payload_start slot) vector_size
          (λ x l u. h x (ground arith) (ground arith))

    payload_bytes :
        slice mem (slot_payload_start slot) (stored_header mem slot).payload_size
        ≡ slice mem' (slot_payload_start slot) (stored_header mem slot).payload_size
    payload_bytes =
        slice_agree mem mem' (slot_payload_start slot) (stored_header mem slot).payload_size
          (λ x l u. h x (ground arith) (ground (arith, b.header.payload_fits)))
