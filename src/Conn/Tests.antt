-- ===== src/Conn/Tests.antt =====
-- Packets of gumble/gumble/conn.go, and the theorems at them.
use barnard_stormdragon_ai_f.Prelude.{
  ℕ, ◌≡◌, refl, List, [], ◌∷◌, ◌++◌, none, some, true, false, arith, map,
}
use barnard_stormdragon_ai_f.Prelude.Int.{negsuc}
use barnard_stormdragon_ai_f.Varint.{big_endian, from_big_endian}
use barnard_stormdragon_ai_f.Voice.Legacy.{encode_legacy_udp_audio}
use barnard_stormdragon_ai_f.Conn.{
  packet, too_large, read_packet, Wire, write_packet, write_header, then_write, delivered,
  write_audio, coordinates, user_state, write_proto, write_typed, write_marshalled, proto_type,
}
use barnard_stormdragon_ai_f.Conn.Frames.{write_packets, read_packets, read_packets-write_packets}
use barnard_stormdragon_ai_f.Conn.Audio.{as_packet, write_audio-encode_legacy_udp_audio}

abbrev quiet_wire : Wire
quiet_wire = record { sent = []; fate = [] }

-- The second call of Write breaks off.
abbrev broken_wire : Wire
broken_wire = record { sent = []; fate = none ∷ some 1 ∷ [] }

user_state_frame :
    write_proto user_state (some (8 ∷ 3 ∷ [])) quiet_wire
    ≡ (record { sent = 0 ∷ 9 ∷ 0 ∷ 0 ∷ 0 ∷ 2 ∷ 8 ∷ 3 ∷ []; fate = [] }, true)
unfolding write_proto write_typed write_marshalled proto_type write_packet write_header then_write
    delivered big_endian
user_state_frame = refl

broken_frame :
    write_packet 9 (8 ∷ 3 ∷ []) broken_wire
    ≡ (record { sent = 0 ∷ 9 ∷ 0 ∷ 0 ∷ 0 ∷ 2 ∷ 8 ∷ []; fate = [] }, false)
unfolding write_packet write_header then_write delivered big_endian
broken_frame = refl

refused_size :
    (read_packet
      (record { maximum = 1; buffer = []; input = 0 ∷ 9 ∷ 0 ∷ 0 ∷ 0 ∷ 2 ∷ 8 ∷ 3 ∷ [] })).1
    ≡ too_large
unfolding read_packet from_big_endian
refused_size = refl

abbrev packets : List (ℕ × List ℕ)
packets = (9, 8 ∷ 3 ∷ []) ∷ (3, []) ∷ []

read_packets-write_packets_example :
    read_packets packets (record {
      maximum = 10;
      buffer = 7 ∷ [];
      input = (write_packets packets quiet_wire).sent ++ (1 ∷ []);
    })
    ≡ map (λ p. packet p.0 p.1) packets
read_packets-write_packets_example = read_packets-write_packets packets 10 (7 ∷ []) (1 ∷ []) (
  record { kind = omega arith; size = omega arith; fits = omega arith },
  (record { kind = omega arith; size = omega arith; fits = omega arith }, tt),
)

write_audio-encode_legacy_udp_audio_example :
    write_audio 4 0 (negsuc 6) true (5 ∷ 6 ∷ []) (some 1) (some 2) (some 3) quiet_wire
    ≡ as_packet
        (encode_legacy_udp_audio 4 0 (negsuc 6) (5 ∷ 6 ∷ []) true (some 1) (some 2) (some 3))
        quiet_wire
        (coordinates (some 1) (some 2) (some 3))
write_audio-encode_legacy_udp_audio_example =
    write_audio-encode_legacy_udp_audio 4 0 (negsuc 6) true (5 ∷ 6 ∷ []) (some 1) (some 2) (some 3)
      [] (omega arith) (omega arith)
