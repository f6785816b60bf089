-- ===== src/Voice/Tests.antt =====
-- Runs of the incoming voice of gumble/gumble/udp15.go, and the theorems at them.
use barnard_stormdragon_ai_f.Prelude.{
  ℕ, ◌+◌, ◌≡◌, refl, List, [], ◌∷◌, ◌++◌, none, some, true, arith,
}
use barnard_stormdragon_ai_f.Prelude.Int.{pos}
use barnard_stormdragon_ai_f.Voice.{Stream, Voice, decode_and_dispatch, sub64}
use barnard_stormdragon_ai_f.Voice.Gaps.{
  lost_packets_concealed, concealing, behind_lost, stream_behind, heard_of,
}

-- A decoder that counts its calls and gives a frame of silence.
abbrev sound : ℕ → List ℕ → List ℕ
sound d bytes = 0 ∷ 0 ∷ []

abbrev next : ℕ → List ℕ → ℕ
next d bytes = d + 1

abbrev reset : ℕ → ℕ
reset d = 0

abbrev stream : Stream ℕ
stream = record { decoder = some 5; sequence = pos 40; valid = true; step = 2 }

-- After frames 42, 44 and 46 were lost.
abbrev voice : Voice
voice = record {
  frame = pos 48;
  opus = 7 ∷ [];
  final = true;
  context = 0;
  position = none;
  volume = 0;
}

gap_of_eight : sub64 (pos 48) (pos 40) ≡ pos 8
unfolding sub64
gap_of_eight = refl

lost_packets_concealed_example :
    decode_and_dispatch ℕ (λ d bytes. (some (sound d bytes), next d bytes)) reset stream 5 voice ≡ (
      stream_behind ℕ sound next reset (behind_lost ℕ sound next reset 3 5) voice,
      concealing ℕ sound next reset 3 1 2 (pos 40) 5
          ++ heard_of ℕ sound next reset (behind_lost ℕ sound next reset 3 5) voice,
    )
lost_packets_concealed_example =
    lost_packets_concealed ℕ sound next reset stream 5 voice 2 refl (omega arith) (omega arith)
      gap_of_eight
