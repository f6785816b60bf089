-- ===== src/Server/Config/Recording.antt =====
-- Strings before the field that parseServerConfigRecordingAllowed of gumble/gumble/handlers.go looks for.
use barnard_stormdragon_ai_f.Prelude.{
  ℕ, zero, suc, ◌+◌, ◌%◌, ◌<◌, ◌≤◌, ◌≡◌, refl, ◌∙◌, List, [], ◌∷◌, ◌++◌, none, some, not, ◌==◌,
  length, drop, arith, length-drop, bit_and, ==-false_of_pos, ltb-false_of_le,
}
use native.Mathlib.Decide.{ℕ_discrete}
use barnard_stormdragon_ai_f.Prelude.Bits.{and_0x80}
use barnard_stormdragon_ai_f.Prelude.Int.{pos}
use barnard_stormdragon_ai_f.Varint.{decode, to_uint64}
use barnard_stormdragon_ai_f.Protobuf.{pb_encode}
use barnard_stormdragon_ai_f.Server.Config.{
  is_zero, string_skip, skip_of, flag_of, recording_rounds, parse_recording_allowed, ServerConfig,
  handle_server_config,
}

-- One byte below 128 reads the same in both formats.
small : (b : ℕ) (bs : List ℕ) → b < 128 → decode (b ∷ bs) ≡ (pos b, 1)
unfolding decode
small b bs h = let e : bit_and b 0x80 ≡ 0 = and_0x80 b (omega arith) ∙ omega arith in rw e refl

-- The length 128 reads as 1.
misread : (t : List ℕ) → decode (0x80 ∷ 1 ∷ t) ≡ (pos 1, 2)
unfolding decode
misread t = ground arith

-- A string field, by the length that the loop reads.
string_round :
    (k len n : ℕ) (buffer : List ℕ)
    → decode buffer ≡ (pos len, n)
    → 1 ≤ n
    → n + len ≤ length buffer
    → recording_rounds (suc k) (0x12 ∷ buffer) ≡ recording_rounds k (drop (n + len) buffer)
unfolding recording_rounds skip_of string_skip
string_round k len n buffer e some_byte room =
    rw
      (
        small 0x12 buffer (omega arith),
        e,
        ==-false_of_pos n some_byte,
        ==-false_of_pos (n + len) (omega (arith, some_byte)),
        ltb-false_of_le (n + len) (length buffer) room,
      )
      refl

flag_round :
    (k v : ℕ) (rest : List ℕ)
    → v < 128
    → recording_rounds (suc k) (56 ∷ v ∷ rest) ≡ some (not (v == 0))
unfolding recording_rounds flag_of is_zero
flag_round k v rest h = rw (small 56 (v ∷ rest) (omega arith), small v rest h) refl

-- A ServerConfig message that says nothing of recording, and whose welcome text is 128 bytes with an `8`
-- in second place: the event says that recording is allowed, or, where the third byte is 0, forbidden.
pub phantom_recording_allowed :
    (p : ServerConfig) (a v : ℕ) (rest len : List ℕ)
    → p.recording_allowed ≡ none
    → v < 128
    → pb_encode 10 128 ≡ some len
    → length (a ∷ 56 ∷ v ∷ rest) ≡ 128
    → (handle_server_config (0x12 ∷ (len ++ (a ∷ 56 ∷ v ∷ rest))) p).recording_allowed
      ≡ some (not (v == 0))
unfolding handle_server_config parse_recording_allowed pb_encode
phantom_recording_allowed p a v rest len silent hv hl size =
    let bytes : 0x80 ∷ 1 ∷ [] ≡ len = cc hl in
    rw (silent, ← bytes)
      (string_round (suc (suc (suc (suc (suc (length rest)))))) 1 2 (0x80 ∷ 1 ∷ a ∷ 56 ∷ v ∷ rest)
          (misread (a ∷ 56 ∷ v ∷ rest)) (omega arith) (omega arith)
        ∙ flag_round (suc (suc (suc (suc (length rest))))) v rest hv)

-- The bytes of the buffer are rounds enough: more rounds find the same.
pub enough_rounds :
    (k j : ℕ) (buffer : List ℕ)
    → length buffer ≤ k
    → length buffer ≤ j
    → recording_rounds k buffer ≡ recording_rounds j buffer
unfolding recording_rounds
enough_rounds zero zero buffer hk hj = refl
enough_rounds zero (suc j) [] hk hj = refl
enough_rounds zero (suc j) (b ∷ bs) hk hj = absurd (omega (arith, hk))
enough_rounds (suc k) zero [] hk hj = refl
enough_rounds (suc k) zero (b ∷ bs) hk hj = absurd (omega (arith, hj))
enough_rounds (suc k) (suc j) [] hk hj = refl
enough_rounds (suc k) (suc j) (b ∷ bs) hk hj =
    let n = (decode (b ∷ bs)).1 in
    let buffer = drop n (b ∷ bs) in
    let skip = skip_of (to_uint64 (decode (b ∷ bs)).0 % 8) buffer in
    elim (ℕ_discrete n 0) [
      | yes e ↦ rw e refl
      | no some_byte ↦
          rw
            (enough_rounds k j (drop skip buffer)
              (omega (arith, hk, some_byte, length-drop n (b ∷ bs), length-drop skip buffer))
              (omega (arith, hj, some_byte, length-drop n (b ∷ bs), length-drop skip buffer)))
            refl
    ]
