-- ===== src/Base/Word.antt =====
-- The fixed-width integers of C: casts, wrapping arithmetic and little-endian bytes.
use Prim.Native.Nat.{ℕ, ◌+◌, ◌-◌, ◌*◌, ◌/◌, ◌%◌, ◌^◌, ◌<◌}
use mathlib.Core.Path.{◌≡◌}
use mathlib.Core.List.{List, [], ◌∷◌}
use native.Mathlib.Omega.{arith}

abbrev pub u8 : ℕ → ℕ
u8 n = n % 2 ^ 8

abbrev pub u16 : ℕ → ℕ
u16 n = n % 2 ^ 16

abbrev pub u32 : ℕ → ℕ
u32 n = n % 2 ^ 32

-- `(uint32_t)(a - b)`. `-` on ℕ stops at 0, so the modulus is added first.
abbrev pub sub32 : ℕ → ℕ → ℕ
sub32 a b = (a + 2 ^ 32 - b) % 2 ^ 32

abbrev pub IsByte : ℕ → Type 0
IsByte b = b < 256

-- The two and the four bytes of an integer in memory, lowest first.
abbrev pub le16 : ℕ → List ℕ
le16 v = u8 v ∷ u8 (v / 2 ^ 8) ∷ []

abbrev pub le32 : ℕ → List ℕ
le32 v = u8 v ∷ u8 (v / 2 ^ 8) ∷ u8 (v / 2 ^ 16) ∷ u8 (v / 2 ^ 24) ∷ []

-- `a | b << 8` and `a | b << 8 | c << 16 | d << 24` of bytes: the bits are disjoint.
abbrev pub join16 : ℕ → ℕ → ℕ
join16 a b = a + b * 2 ^ 8

abbrev pub join32 : ℕ → ℕ → ℕ → ℕ → ℕ
join32 a b c d = a + b * 2 ^ 8 + c * 2 ^ 16 + d * 2 ^ 24

pub join16-le16 : (v : ℕ) → v < 2 ^ 16 → join16 (u8 v) (u8 (v / 2 ^ 8)) ≡ v
join16-le16 v h = omega arith

pub join32-le32 :
    (v : ℕ) → v < 2 ^ 32 → join32 (u8 v) (u8 (v / 2 ^ 8)) (u8 (v / 2 ^ 16)) (u8 (v / 2 ^ 24)) ≡ v
join32-le32 v h = omega arith
