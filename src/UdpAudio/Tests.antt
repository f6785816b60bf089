-- ===== src/UdpAudio/Tests.antt =====
-- Concrete runs, and the theorems at concrete inputs.
use barnard_stormdragon_ai_f.Prelude.{ℕ, ◌≡◌, refl, arith, List, [], ◌∷◌, some, none, true, false}
use barnard_stormdragon_ai_f.Protobuf.{pb_encode, pb_decode, pb_decode_loop}
use barnard_stormdragon_ai_f.UdpAudio.{
  Audio, encode_udp_audio, decode_udp_audio, varint_field, opus_field, position_field,
  terminator_field, rounds, round, set_varint, set_bytes, set_fixed, store, uint32_at,
}
use barnard_stormdragon_ai_f.UdpAudio.Total.{decode_udp_audio_total}
use barnard_stormdragon_ai_f.UdpAudio.RoundTrip.{received, decode-encode_udp_audio}

two_bytes_sent :
    encode_udp_audio 0 7 (0xAA ∷ 0xBB ∷ []) true none none none
    ≡ some (0x08 ∷ 0 ∷ 0x20 ∷ 7 ∷ 0x2A ∷ 2 ∷ 0xAA ∷ 0xBB ∷ 0x80 ∷ 1 ∷ 1 ∷ [])
unfolding encode_udp_audio varint_field opus_field position_field terminator_field pb_encode
two_bytes_sent = refl

-- From a server: context 2, session 300, a fixed volume, and a payload cut short.
abbrev from_server : List ℕ
from_server = 0x10 ∷ 2 ∷ 0x18 ∷ 0xAC ∷ 2 ∷ 0x3D ∷ 0 ∷ 0 ∷ 0x80 ∷ 0x3F ∷ 0x2A ∷ 9 ∷ 1 ∷ []

from_server_read :
    decode_udp_audio from_server
    ≡ some (record {
      session = 300;
      frame = 0;
      opus = [];
      terminator = false;
      context = 2;
      position = none;
      volume = 0x3F800000;
    })
unfolding decode_udp_audio rounds round set_varint set_bytes set_fixed store pb_decode
    pb_decode_loop uint32_at
from_server_read = refl

decode_udp_audio_total_example : (a : Audio) × (decode_udp_audio from_server ≡ some a)
decode_udp_audio_total_example = decode_udp_audio_total from_server

decode-encode_udp_audio_example :
    (bytes : List ℕ) × (encode_udp_audio 31 1000 (1 ∷ 2 ∷ []) true (some 5) (some 6) (some 7)
      ≡ some bytes)
    × (decode_udp_audio bytes ≡ some (received 1000 (1 ∷ 2 ∷ []) true (some 5) (some 6) (some 7)))
decode-encode_udp_audio_example =
    decode-encode_udp_audio 31 1000 (1 ∷ 2 ∷ []) true (some 5) (some 6) (some 7) (omega arith)
      (omega arith) (omega arith) (omega arith) (omega arith) (omega arith)
