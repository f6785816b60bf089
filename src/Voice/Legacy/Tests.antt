-- ===== src/Voice/Legacy/Tests.antt =====
-- Runs of the legacy voice payload of gumble/gumble/udp15.go, and the theorems at them.
use barnard_stormdragon_ai_f.Prelude.{◌≡◌, [], ◌∷◌, ◌++◌, none, some, true, drop, arith}
use barnard_stormdragon_ai_f.Prelude.Int.{pos, negsuc}
use barnard_stormdragon_ai_f.Varint.{encode}
use barnard_stormdragon_ai_f.Voice.Legacy.{encode_legacy_udp_audio, parse_legacy, voice, panicked}
use barnard_stormdragon_ai_f.Voice.Legacy.RoundTrip.{parse-encode_legacy, parse_legacy_negative}

parse-encode_legacy_example :
    parse_legacy (
      encode (pos 9)
      ++ drop 1 (encode_legacy_udp_audio 4 0 (pos 300) (1 ∷ 2 ∷ 3 ∷ []) true (some 1) none none))
    ≡ voice 9 (pos 300) (1 ∷ 2 ∷ 3 ∷ []) true
parse-encode_legacy_example =
    parse-encode_legacy 4 0 9 (pos 300) (1 ∷ 2 ∷ 3 ∷ []) true (some 1) none none (omega arith)
      (omega arith) (omega arith)

parse_legacy_negative_example :
    parse_legacy (encode (pos 9) ++ (encode (pos 300) ++ (encode (negsuc 4) ++ (1 ∷ []))))
    ≡ panicked
parse_legacy_negative_example =
    parse_legacy_negative (pos 9) (pos 300) 4 (1 ∷ []) (omega arith) (omega arith) (omega arith)
