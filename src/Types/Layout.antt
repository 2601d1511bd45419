-- ===== src/Types/Layout.antt =====
-- Copying bytes into a structure and back: `memcpy` to and from the packed structures.
use tm4c123gxl_ota.Base.{
  zero, suc, ◌≤◌, length-take, length-drop, All-take, ℕ, ◌+◌, ◌<◌, ◌^◌, List, [], ◌∷◌, ◌≡◌, sym, ap,
  ◌∙◌, take-length, arith, join16, join32, get_or, take, drop, length, All, IsByte,
}
use tm4c123gxl_ota.Types.{
  Version, FirmwareHeader, SlotRecord, MetadataRecord, header_bytes, metadata_bytes,
}

abbrev u16_at : List ℕ → ℕ → ℕ
u16_at bs i = join16 (get_or bs i 0) (get_or bs (i + 1) 0)

abbrev u32_at : List ℕ → ℕ → ℕ
u32_at bs i =
    join32 (get_or bs i 0) (get_or bs (i + 1) 0) (get_or bs (i + 2) 0) (get_or bs (i + 3) 0)

-- The 32 bytes of a firmware header, read as its fields.
unfoldable pub header_of_bytes : List ℕ → FirmwareHeader
header_of_bytes bs = record {
  magic = u32_at bs 0;
  schema_version = u16_at bs 4;
  target_slot = get_or bs 6 0;
  reserved0 = get_or bs 7 0;
  version = record { major = u16_at bs 8; minor = u16_at bs 10; patch = u16_at bs 12 };
  payload_size = u32_at bs 14;
  payload_crc32 = u32_at bs 18;
  header_crc32 = u32_at bs 22;
  reserved = take 6 (drop 26 bs);
}

slot_record_of_bytes : List ℕ → SlotRecord
slot_record_of_bytes bs = record {
  state = get_or bs 0 0;
  reserved0 = take 3 (drop 1 bs);
  version = record { major = u16_at bs 4; minor = u16_at bs 6; patch = u16_at bs 8 };
  reserved1 = u16_at bs 10;
  payload_size = u32_at bs 12;
  payload_crc32 = u32_at bs 16;
  boot_count = u32_at bs 20;
}

-- The 80 bytes of a metadata record, read as its fields.
unfoldable pub metadata_of_bytes : List ℕ → MetadataRecord
unfolding slot_record_of_bytes
metadata_of_bytes bs = record {
  magic = u32_at bs 0;
  schema_version = u16_at bs 4;
  reserved0 = u16_at bs 6;
  generation = u32_at bs 8;
  slot_a = slot_record_of_bytes (take 24 (drop 12 bs));
  slot_b = slot_record_of_bytes (take 24 (drop 36 bs));
  active_slot = get_or bs 60 0;
  pending_slot = get_or bs 61 0;
  last_error = u16_at bs 62;
  record_crc32 = u32_at bs 64;
  reserved = take 12 (drop 68 bs);
}

-- The fields have their widths.
pub record IsHeader (h : FirmwareHeader) : Type 0 where
  pub magic : h.magic < 2 ^ 32
  pub schema_version : h.schema_version < 2 ^ 16
  pub target_slot : IsByte h.target_slot
  pub reserved0 : IsByte h.reserved0
  pub major : h.version.major < 2 ^ 16
  pub minor : h.version.minor < 2 ^ 16
  pub patch : h.version.patch < 2 ^ 16
  pub payload_size : h.payload_size < 2 ^ 32
  pub payload_crc32 : h.payload_crc32 < 2 ^ 32
  pub header_crc32 : h.header_crc32 < 2 ^ 32
  pub reserved_length : length h.reserved ≡ 6
  pub reserved_bytes : All IsByte h.reserved

-- A header that is stored and read again is the same header.
pub header_of_bytes-header_bytes :
    (h : FirmwareHeader) → IsHeader h → header_of_bytes (header_bytes h) ≡ h
unfolding header_of_bytes
header_of_bytes-header_bytes h is = ground (arith, is.reserved_length)

pub record IsVersion (v : Version) : Type 0 where
  pub major : v.major < 2 ^ 16
  pub minor : v.minor < 2 ^ 16
  pub patch : v.patch < 2 ^ 16

pub record IsSlotRecord (s : SlotRecord) : Type 0 where
  pub state : IsByte s.state
  pub reserved0_length : length s.reserved0 ≡ 3
  pub reserved0_bytes : All IsByte s.reserved0
  pub version : IsVersion s.version
  pub reserved1 : s.reserved1 < 2 ^ 16
  pub payload_size : s.payload_size < 2 ^ 32
  pub payload_crc32 : s.payload_crc32 < 2 ^ 32
  pub boot_count : s.boot_count < 2 ^ 32

pub record IsMetadata (m : MetadataRecord) : Type 0 where
  pub magic : m.magic < 2 ^ 32
  pub schema_version : m.schema_version < 2 ^ 16
  pub reserved0 : m.reserved0 < 2 ^ 16
  pub generation : m.generation < 2 ^ 32
  pub slot_a : IsSlotRecord m.slot_a
  pub slot_b : IsSlotRecord m.slot_b
  pub active_slot : IsByte m.active_slot
  pub pending_slot : IsByte m.pending_slot
  pub last_error : m.last_error < 2 ^ 16
  pub record_crc32 : m.record_crc32 < 2 ^ 32
  pub reserved_length : length m.reserved ≡ 12
  pub reserved_bytes : All IsByte m.reserved

metadata_round :
    (m : MetadataRecord) (r q : List ℕ)
    → length r ≡ 3
    → length q ≡ 3
    → IsMetadata m
    → let n = record m {
      slot_a = record m.slot_a { reserved0 = r };
      slot_b = record m.slot_b { reserved0 = q };
    } in
      metadata_of_bytes (metadata_bytes n) ≡ n
unfolding metadata_of_bytes slot_record_of_bytes
metadata_round m (a ∷ b ∷ c ∷ []) (d ∷ e ∷ f ∷ []) three three' is =
    ground (arith, is.reserved_length, take-length m.reserved)
metadata_round m _ _ three three' is = absurd (omega arith)

-- A metadata record that is stored and read again is the same record.
pub metadata_of_bytes-metadata_bytes :
    (m : MetadataRecord) → IsMetadata m → metadata_of_bytes (metadata_bytes m) ≡ m
metadata_of_bytes-metadata_bytes m is =
    metadata_round m m.slot_a.reserved0 m.slot_b.reserved0 is.slot_a.reserved0_length
      is.slot_b.reserved0_length is

-- Records with the same bytes are the same record.
pub metadata_bytes-injective :
    (m n : MetadataRecord)
    → IsMetadata m
    → IsMetadata n
    → metadata_bytes m ≡ metadata_bytes n
    → m ≡ n
metadata_bytes-injective m n im is e =
    sym (metadata_of_bytes-metadata_bytes m im)
    ∙ ap metadata_of_bytes e
    ∙ metadata_of_bytes-metadata_bytes n is

metadata_bytes_round :
    (m : MetadataRecord) (r q : List ℕ)
    → length r ≡ 3
    → length q ≡ 3
    → All IsByte r
    → All IsByte q
    → IsMetadata m
    → All IsByte (
        metadata_bytes (record m {
          slot_a = record m.slot_a { reserved0 = r };
          slot_b = record m.slot_b { reserved0 = q };
        }))
metadata_bytes_round m (a ∷ b ∷ c ∷ []) (d ∷ e ∷ f ∷ []) three three' hr hq is = grind arith
metadata_bytes_round m _ _ three three' hr hq is = absurd (omega arith)

-- The bytes of a record are bytes.
pub metadata_bytes-IsByte : (m : MetadataRecord) → IsMetadata m → All IsByte (metadata_bytes m)
metadata_bytes-IsByte m is =
    metadata_bytes_round m m.slot_a.reserved0 m.slot_b.reserved0 is.slot_a.reserved0_length
      is.slot_b.reserved0_length is.slot_a.reserved0_bytes is.slot_b.reserved0_bytes is

get_or-IsByte : (bs : List ℕ) (i : ℕ) → All IsByte bs → get_or bs i 0 < 256
get_or-IsByte [] i h = omega arith
get_or-IsByte (b ∷ bs) zero h = h.0
get_or-IsByte (b ∷ bs) (suc i) h = get_or-IsByte bs i h.1

All-drop : (n : ℕ) (bs : List ℕ) → All IsByte bs → All IsByte (drop n bs)
All-drop zero bs h = h
All-drop (suc n) [] h = tt
All-drop (suc n) (b ∷ bs) h = All-drop n bs h.1

u16_at-lt : (bs : List ℕ) (i : ℕ) → All IsByte bs → u16_at bs i < 2 ^ 16
u16_at-lt bs i h = omega (arith, get_or-IsByte bs i h, get_or-IsByte bs (i + 1) h)

u32_at-lt : (bs : List ℕ) (i : ℕ) → All IsByte bs → u32_at bs i < 2 ^ 32
u32_at-lt bs i h = omega (
  arith,
  get_or-IsByte bs i h,
  get_or-IsByte bs (i + 1) h,
  get_or-IsByte bs (i + 2) h,
  get_or-IsByte bs (i + 3) h,
)

slot_record_of_bytes-IsSlotRecord :
    (bs : List ℕ) → length bs ≡ 24 → All IsByte bs → IsSlotRecord (slot_record_of_bytes bs)
unfolding slot_record_of_bytes
slot_record_of_bytes-IsSlotRecord bs l h = record {
  state = get_or-IsByte bs 0 h;
  reserved0_length = omega (arith, length-take 3 (drop 1 bs), length-drop 1 bs);
  reserved0_bytes = All-take IsByte 3 (drop 1 bs) (All-drop 1 bs h);
  version = record { major = u16_at-lt bs 4 h; minor = u16_at-lt bs 6 h; patch = u16_at-lt bs 8 h };
  reserved1 = u16_at-lt bs 10 h;
  payload_size = u32_at-lt bs 12 h;
  payload_crc32 = u32_at-lt bs 16 h;
  boot_count = u32_at-lt bs 20 h;
}

-- 80 bytes read as a record give fields of their widths.
pub metadata_of_bytes-IsMetadata :
    (bs : List ℕ) → length bs ≡ 80 → All IsByte bs → IsMetadata (metadata_of_bytes bs)
unfolding metadata_of_bytes
metadata_of_bytes-IsMetadata bs l h = record {
  magic = u32_at-lt bs 0 h;
  schema_version = u16_at-lt bs 4 h;
  reserved0 = u16_at-lt bs 6 h;
  generation = u32_at-lt bs 8 h;
  slot_a = slot 12 (omega arith);
  slot_b = slot 36 (omega arith);
  active_slot = get_or-IsByte bs 60 h;
  pending_slot = get_or-IsByte bs 61 h;
  last_error = u16_at-lt bs 62 h;
  record_crc32 = u32_at-lt bs 64 h;
  reserved_length = omega (arith, length-take 12 (drop 68 bs), length-drop 68 bs);
  reserved_bytes = All-take IsByte 12 (drop 68 bs) (All-drop 68 bs h);
}
  where
    slot : (i : ℕ) → i + 24 ≤ 80 → IsSlotRecord (slot_record_of_bytes (take 24 (drop i bs)))
    slot i fits =
        slot_record_of_bytes-IsSlotRecord (take 24 (drop i bs))
          (omega (arith, length-take 24 (drop i bs), length-drop i bs))
          (All-take IsByte 24 (drop i bs) (All-drop i bs h))
