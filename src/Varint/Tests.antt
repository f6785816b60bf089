-- ===== src/Varint/Tests.antt =====
-- Concrete runs, and the theorems at concrete inputs.
use barnard_stormdragon_ai_f.Prelude.{ℕ, ◌-◌, ◌^◌, ◌≡◌, refl, arith, [], ◌∷◌, ◌++◌, List, length}
use barnard_stormdragon_ai_f.Prelude.Int.{ℤ, pos, negsuc}
use barnard_stormdragon_ai_f.Varint.{encode, encode_nat, decode, big_endian}
use barnard_stormdragon_ai_f.Varint.RoundTrip.{decode-encode}

abbrev min_int64 : ℤ
min_int64 = negsuc (2 ^ 63 - 1)

encode_least_run : encode min_int64 ≡ 0xF8 ∷ 0xF4 ∷ 0x80 ∷ 0 ∷ 0 ∷ 0 ∷ 0 ∷ 0 ∷ 0 ∷ 0 ∷ []
unfolding encode big_endian
encode_least_run = refl

encode_runs :
    (encode (pos 300) ≡ 0x81 ∷ 0x2C ∷ [])
    × (encode (negsuc 0) ≡ 0xFC ∷ [])
    × (encode (negsuc 4) ≡ 0xF8 ∷ 5 ∷ [])
unfolding encode encode_nat big_endian
encode_runs = (refl, refl, refl)

decode_truncated : decode (0x80 ∷ []) ≡ (pos 0, 0)
unfolding decode
decode_truncated = refl

decode-encode_example :
    decode (encode min_int64 ++ (7 ∷ [])) ≡ (min_int64, length (encode min_int64))
decode-encode_example = decode-encode min_int64 (7 ∷ []) (omega arith)

abbrev three_bytes : List ℕ
three_bytes = 1 ∷ 2 ∷ 3 ∷ []
