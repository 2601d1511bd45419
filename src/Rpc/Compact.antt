-- ===== src/Rpc/Compact.antt =====
-- Compacting a payload removes the blanks between its tokens, and only once.
use tm4c123gxl_ota.Base.{ℕ, ◌≡◌, ◌≤◌, refl, arith, [], ◌∷◌, some, Bool, false, length}
use tm4c123gxl_ota.Text.{Text}
use tm4c123gxl_ota.Rpc.{compact, compact_json, next_mode}

compact_twice : (i e : Bool) (s : Text) → compact i e (compact i e s).0 ≡ compact i e s
unfolding compact
compact_twice i e [] = refl
compact_twice i e (c ∷ s) =
    ground (arith, compact_twice i e s, compact_twice (next_mode i e c).0 (next_mode i e c).1 s)

compact_length : (i e : Bool) (s : Text) → length (compact i e s).0 ≤ length s
unfolding compact
compact_length i e [] = omega arith
compact_length i e (c ∷ s) =
    ground (arith, compact_length i e s, compact_length (next_mode i e c).0 (next_mode i e c).1 s)

-- A compacted payload is no longer than the payload, and compacting it again, in the same room,
-- gives it back.
pub compact_json_idem :
    (payload copy : Text) (size : ℕ)
    → compact_json payload size ≡ some copy
    → (length copy ≤ length payload) × (compact_json copy size ≡ some copy)
unfolding compact_json
compact_json_idem payload copy size h =
    ground (arith, compact_twice false false payload, compact_length false false payload)
