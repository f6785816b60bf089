-- ===== src/Protobuf/Tests.antt =====
-- Concrete runs, and the theorems at concrete inputs.
use barnard_stormdragon_ai_f.Prelude.{ℕ, ◌≡◌, refl, arith, List, [], ◌∷◌, ◌++◌, some, none, length}
use barnard_stormdragon_ai_f.Protobuf.{pb_encode, pb_decode, pb_decode_loop}
use barnard_stormdragon_ai_f.Protobuf.RoundTrip.{pb_decode-pb_encode}

bytes_300 : pb_encode 10 300 ≡ some (0xAC ∷ 0x02 ∷ [])
unfolding pb_encode
bytes_300 = refl

no_room : pb_encode 1 300 ≡ none
unfolding pb_encode
no_room = refl

eleven_bytes :
    pb_decode (0x80 ∷ 0x80 ∷ 0x80 ∷ 0x80 ∷ 0x80 ∷ 0x80 ∷ 0x80 ∷ 0x80 ∷ 0x80 ∷ 0x80 ∷ 1 ∷ [])
    ≡ (0, 0)
unfolding pb_decode pb_decode_loop
eleven_bytes = refl

pb_decode-pb_encode_example :
    (bytes : List ℕ) × (pb_encode 10 (18446744073709551615) ≡ some bytes)
    × (pb_decode (bytes ++ (9 ∷ [])) ≡ (18446744073709551615, length bytes))
pb_decode-pb_encode_example = pb_decode-pb_encode (18446744073709551615) (9 ∷ []) (omega arith)

abbrev overlong : List ℕ
overlong = 0x80 ∷ 0x00 ∷ 5 ∷ []
