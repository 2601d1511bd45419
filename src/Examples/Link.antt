-- ===== src/Examples/Link.antt =====
-- The serial link at a concrete packet.
use tm4c123gxl_ota.Base.{
  ℕ, zero, suc, ◌≡◌, ◌≢◌, refl, arith, List, [], ◌∷◌, drop, replicate, All, IsByte, inl, some,
}
use tm4c123gxl_ota.Config.{protocol_sof0}
use tm4c123gxl_ota.Crc32
use tm4c123gxl_ota.Crc32.Detect.{crc32_detects_byte}
use tm4c123gxl_ota.Protocol.{parser_init, ok, encode, feed, consume, body}
use tm4c123gxl_ota.Protocol.Frame.{IsPacket}
use tm4c123gxl_ota.Protocol.Sound.{StandsIn, bytes_of, feed_sound}
use tm4c123gxl_ota.Protocol.Runs.{OnTime, Ready, Delivers}
use tm4c123gxl_ota.Protocol.Complete.{feed_complete}
use tm4c123gxl_ota.Protocol.Safe.{IsValid, parser_init-IsValid, consume-IsValid}
use tm4c123gxl_ota.Examples.{info_request}

All-replicate : (n a : ℕ) → IsByte a → All IsByte (replicate n a)
All-replicate zero a h = tt
All-replicate (suc n) a h = (h, All-replicate n a h)

info_request-IsPacket : IsPacket info_request
info_request-IsPacket = record {
  command = omega arith;
  sequence = omega arith;
  fits = omega arith;
  array = refl;
  bytes = All-replicate 256 0 (omega arith);
}

-- Every byte at the time 100.
abbrev stamp : List ℕ → List (ℕ × ℕ)
stamp [] = []
stamp (b ∷ bs) = (b, 100) ∷ stamp bs

stamp-OnTime : (bs : List ℕ) → OnTime 100 (stamp bs)
stamp-OnTime [] = tt
stamp-OnTime (b ∷ bs) = (omega arith, stamp-OnTime bs)

bytes_of-stamp : (bs : List ℕ) → bytes_of (stamp bs) ≡ bs
bytes_of-stamp [] = refl
bytes_of-stamp (b ∷ bs) = rw (bytes_of-stamp bs)

abbrev info_tail : List ℕ
info_tail = drop 1 (encode info_request 268).1

info_frame : protocol_sof0 ∷ bytes_of (stamp info_tail) ≡ (encode info_request 268).1
unfolding encode
info_frame = rw (bytes_of-stamp info_tail)

parser_init-Ready : Ready parser_init
parser_init-Ready = ((refl, refl, refl), inl refl)

feed_complete_example :
    Delivers info_request (feed parser_init ((protocol_sof0, 100) ∷ stamp info_tail))
feed_complete_example =
    feed_complete info_request parser_init 100 (stamp info_tail) info_request-IsPacket
      parser_init-Ready (stamp-OnTime info_tail) info_frame

abbrev info_wire : List ℕ
info_wire = 85 ∷ 170 ∷ 1 ∷ 1 ∷ 7 ∷ 0 ∷ 0 ∷ 0 ∷ 15 ∷ 99 ∷ 41 ∷ 218 ∷ []

encode_test : encode info_request 268 ≡ (ok, info_wire, some 12)
unfolding encode body Crc32.crc32 Crc32.init Crc32.update Crc32.byte_step Crc32.bit_loop
    Crc32.bit_step Crc32.finish
encode_test = refl

feed_sound_example :
    All (StandsIn (bytes_of (stamp info_wire))) (feed parser_init (stamp info_wire)).1
feed_sound_example = feed_sound (stamp info_wire) (ground arith)

consume-IsValid_example : IsValid (consume parser_init protocol_sof0 5).0
consume-IsValid_example = consume-IsValid parser_init protocol_sof0 5 parser_init-IsValid

crc32_detects_byte_example : Crc32.crc32 (49 ∷ 50 ∷ 51 ∷ []) ≢ Crc32.crc32 (49 ∷ 18 ∷ 51 ∷ [])
crc32_detects_byte_example =
    crc32_detects_byte (49 ∷ []) (51 ∷ []) 50 18 (omega arith, tt) (omega arith, tt) (omega arith)
      (omega arith) (λ e. omega arith)
