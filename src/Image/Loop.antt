-- ===== src/Image/Loop.antt =====
-- The checksum loop over a payload, against the bytes in the flash.
use tm4c123gxl_ota.Base.{
  ℕ, zero, suc, ◌+◌, ◌-◌, ◌≤◌, ◌<◌, List, [], ◌∷◌, ◌++◌, some, ◌≡◌, ◌≢◌, refl, sym, ap, ap₂, ◌∙◌,
  arith, ==_false, ltb, if◌then◌else◌, u32,
}
use tm4c123gxl_ota.Config.{flash_end}
use tm4c123gxl_ota.Crc32
use tm4c123gxl_ota.Image.{Reader, crc_loop, crc_buffer_size}

-- The `n` bytes of a memory from the address `a` on.
abbrev pub slice : (ℕ → ℕ) → ℕ → ℕ → List ℕ
slice mem a zero = []
slice mem a (suc n) = mem a ∷ slice mem (a + 1) n

-- The reader copies what the flash memory `mem` holds, as `memcpy` does.
abbrev pub Reads : Reader → (ℕ → ℕ) → Type 0
Reads read mem = (a n : ℕ) → a + n ≤ flash_end → read a n ≡ some (slice mem a n)

slice-add : (mem : ℕ → ℕ) (a m n : ℕ) → slice mem a (m + n) ≡ slice mem a m ++ slice mem (a + m) n
slice-add mem a zero n = ap₂ (slice mem) (omega arith) (omega arith)
slice-add mem a (suc m) n =
    ap (slice mem a) suc_out
    ∙ ap (λ xs. mem a ∷ xs) (slice-add mem (a + 1) m n)
    ∙ ap (λ k. slice mem a (suc m) ++ slice mem k n) shift
  where
    suc_out : suc m + n ≡ suc (m + n)
    suc_out = omega arith

    shift : (a + 1) + m ≡ a + suc m
    shift = omega arith

pub slice_agree :
    (mem mem' : ℕ → ℕ) (a n : ℕ)
    → ((x : ℕ) → a ≤ x → x < a + n → mem x ≡ mem' x)
    → slice mem a n ≡ slice mem' a n
slice_agree mem mem' a zero h = refl
slice_agree mem mem' a (suc n) h =
    ap₂ (λ (b : ℕ) (bs : List ℕ). b ∷ bs) (h a (omega arith) (omega arith))
      (slice_agree mem mem' (a + 1) n (λ x l u. h x (omega arith) (omega arith)))

-- The size of one piece.
abbrev pub piece : ℕ → ℕ
piece n = if ltb crc_buffer_size n then crc_buffer_size else n

piece_bounds : (n : ℕ) → n ≢ 0 → (0 < piece n) × (piece n ≤ n)
piece_bounds n h = ground arith

crc_loop_round :
    (fuel : ℕ) (read : Reader) (mem : ℕ → ℕ) (a n crc : ℕ)
    → Reads read mem
    → n ≢ 0
    → a + n ≤ flash_end
    → crc_loop (suc fuel) read a n crc
      ≡ crc_loop fuel read (a + piece n) (n - piece n) (Crc32.update crc (slice mem a (piece n)))
unfolding crc_loop
crc_loop_round fuel read mem a n crc reads ne inside =
    rw (==_false n 0 ne, reads a (piece n) (omega (arith, piece_bounds n ne)), no_wrap)
  where
    no_wrap : u32 (a + piece n) ≡ a + piece n
    no_wrap = omega (arith, piece_bounds n ne)

-- With a round for each byte, over a reader that copies the flash and a range inside it, the loop ends with the checksum of the bytes in the flash.
pub crc_loop_lem :
    (fuel : ℕ) (read : Reader) (mem : ℕ → ℕ) (a n crc : ℕ)
    → Reads read mem
    → n ≤ fuel
    → a + n ≤ flash_end
    → crc_loop fuel read a n crc ≡ some (Crc32.update crc (slice mem a n))
unfolding crc_loop Crc32.update
crc_loop_lem zero read mem a zero crc reads enough inside = refl
crc_loop_lem (suc fuel) read mem a zero crc reads enough inside = refl
crc_loop_lem zero read mem a (suc n) crc reads enough inside = absurd (omega arith)
crc_loop_lem (suc fuel) read mem a (suc n) crc reads enough inside =
    crc_loop_round fuel read mem a (suc n) crc reads (omega arith) inside
    ∙ crc_loop_lem fuel read mem (a + size) (suc n - size) (Crc32.update crc (slice mem a size))
        reads (omega (arith, bounds)) (omega (arith, bounds))
    ∙ ap some (
        sym (Crc32.update-append crc (slice mem a size) (slice mem (a + size) (suc n - size)))
        ∙ ap (Crc32.update crc)
            (sym (slice-add mem a size (suc n - size)) ∙ ap (slice mem a) whole))
  where
    size : ℕ
    size = piece (suc n)

    bounds : (0 < size) × (size ≤ suc n)
    bounds = piece_bounds (suc n) (omega arith)

    whole : size + (suc n - size) ≡ suc n
    whole = omega (arith, bounds)
