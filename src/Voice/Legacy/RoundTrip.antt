-- ===== src/Voice/Legacy/RoundTrip.antt =====
-- Packets of encodeLegacyUDPAudio, as the server relays them, in handleLegacyUDPVoice of
-- gumble/gumble/udp15.go.
use barnard_stormdragon_ai_f.Prelude.{
  ℕ, zero, suc, ◌+◌, ◌-◌, ◌*◌, ◌/◌, ◌%◌, ◌^◌, ◌<◌, ◌≡◌, refl, ap, ◌∙◌, bit_and, bit_or, List, ◌++◌,
  Option, Bool, true, false, not, length, length-append, drop, take-length_append,
  drop-length_append, ltb, ◌==◌, if◌then◌else◌, arith, ltb-false_of_le, ==-false_of_pos,
}
use barnard_stormdragon_ai_f.Prelude.Bits.{and_digit, or_shifted_low, and_zero}
use barnard_stormdragon_ai_f.Prelude.Int.{ℤ, pos, negsuc}
use barnard_stormdragon_ai_f.Varint.{encode, decode, IsInt64}
use barnard_stormdragon_ai_f.Varint.RoundTrip.{decode-encode}
use barnard_stormdragon_ai_f.Varint.Bounds.{encode_bounds}
use barnard_stormdragon_ai_f.Voice.Legacy.{
  encode_legacy_udp_audio, panicked, voice, slice, exceeds, without_terminator, has_terminator,
  slice_to, sliced, parse_length, parse_sequence, parse_session, parse_legacy, floats,
}

parse_session_lem :
    (s : ℤ) (rest : List ℕ)
    → IsInt64 s
    → parse_legacy (encode s ++ rest) ≡ parse_sequence s rest (decode rest)
unfolding parse_legacy parse_session
parse_session_lem s rest h =
    let (a, b, c) = encode_bounds s h in
    rw
      (
        decode-encode s rest h,
        ==-false_of_pos (length (encode s)) b,
        drop-length_append (encode s) rest,
      )
      refl

parse_sequence_lem :
    (s q : ℤ) (rest : List ℕ)
    → IsInt64 q
    → parse_sequence s (encode q ++ rest) (decode (encode q ++ rest))
      ≡ parse_length s q rest (decode rest)
unfolding parse_sequence
parse_sequence_lem s q rest h =
    let (a, b, c) = encode_bounds q h in
    rw
      (
        decode-encode q rest h,
        ==-false_of_pos (length (encode q)) b,
        drop-length_append (encode q) rest,
      )
      refl

parse_length_lem :
    (s q len : ℤ) (rest : List ℕ)
    → IsInt64 len
    → parse_length s q (encode len ++ rest) (decode (encode len ++ rest)) ≡ slice s q len rest
unfolding parse_length
parse_length_lem s q len rest h =
    let (a, b, c) = encode_bounds len h in
    rw
      (
        decode-encode len rest h,
        ==-false_of_pos (length (encode len)) b,
        drop-length_append (encode len) rest,
      )
      refl

parsed :
    (s q len : ℤ) (rest : List ℕ)
    → IsInt64 s
    → IsInt64 q
    → IsInt64 len
    → parse_legacy (encode s ++ (encode q ++ (encode len ++ rest))) ≡ slice s q len rest
parsed s q len rest hs hq hl =
    parse_session_lem s _ hs ∙ parse_sequence_lem s q _ hq ∙ parse_length_lem s q len rest hl

-- A length varint that is negative makes `handleLegacyUDPVoice` slice out of bounds and panic, whatever
-- the session, the sequence number and the bytes that follow.
pub parse_legacy_negative :
    (s q : ℤ) (n : ℕ) (rest : List ℕ)
    → IsInt64 s
    → IsInt64 q
    → IsInt64 (negsuc n)
    → parse_legacy (encode s ++ (encode q ++ (encode (negsuc n) ++ rest))) ≡ panicked
unfolding slice exceeds without_terminator slice_to sliced
parse_legacy_negative s q n rest hs hq hn = parsed s q (negsuc n) rest hs hq hn

and_twice : (a m : ℕ) → bit_and a (m * 2) ≡ bit_and (a / 2) m * 2
and_twice a m =
    let half : m * 2 / 2 ≡ m = omega arith in
    let even : m * 2 % 2 ≡ 0 = omega arith in and_digit a (m * 2) ∙ rw (half, even) (omega arith)

and_one : (a : ℕ) → bit_and a 1 ≡ a % 2
and_one a = and_digit a 1 ∙ rw (and_zero (a / 2)) (omega arith)

abbrev halves : ℕ → ℕ → ℕ
halves zero a = a
halves (suc k) a = halves k (a / 2)

abbrev power : ℕ → ℕ
power zero = 1
power (suc k) = power k * 2

and_halves : (k a : ℕ) → bit_and a (power k) ≡ halves k a % 2 * power k
and_halves zero a = and_one a ∙ omega arith
and_halves (suc k) a = and_twice a (power k) ∙ rw (and_halves k (a / 2)) (omega arith)

pub and_0x2000 : (a : ℕ) → bit_and a 0x2000 ≡ a / 0x2000 % 2 * 0x2000
and_0x2000 a = and_halves 13 a ∙ ap (λ n. n * 0x2000) (ap (λ n. n % 2) (omega arith))

-- The length field: its bit 13 is the terminator, and the others are the length.
abbrev pub len_field : Bool → ℕ → ℕ
len_field final n = if final then bit_or n 0x2000 else n

slice_at :
    (s : ℕ) (q : ℤ) (l : ℕ) (final : Bool) (bytes tail : List ℕ)
    → s < 2 ^ 32
    → l - bit_and l 0x2000 ≡ length bytes
    → not (bit_and l 0x2000 == 0) ≡ final
    → slice (pos s) q (pos l) (bytes ++ tail) ≡ voice s q bytes final
unfolding slice exceeds without_terminator has_terminator slice_to sliced
slice_at s q l final bytes tail hs e f =
    let wide : s % 2 ^ 32 ≡ s = omega arith in
    let fits : ltb (length (bytes ++ tail)) (length bytes) ≡ false =
      ltb-false_of_le (length bytes) (length (bytes ++ tail))
        (omega (arith, length-append bytes tail)) in
    rw (e, f, fits, take-length_append bytes tail, wide) refl

slice_field :
    (s : ℕ) (q : ℤ) (final : Bool) (bytes tail : List ℕ)
    → s < 2 ^ 32
    → length bytes < 0x2000
    → slice (pos s) q (pos (len_field final (length bytes))) (bytes ++ tail) ≡ voice s q bytes final
slice_field s q true bytes tail hs h =
    let len : bit_or (length bytes) 0x2000 ≡ length bytes + 0x2000 =
      or_shifted_low 13 1 (length bytes) h in
    rw len (
      slice_at s q (length bytes + 0x2000) true bytes tail hs
        (omega (arith, and_0x2000 (length bytes + 0x2000)))
        (rw (and_0x2000 (length bytes + 0x2000)) (ground arith)))
slice_field s q false bytes tail hs h =
    slice_at s q (length bytes) false bytes tail hs (omega (arith, and_0x2000 (length bytes)))
      (rw (and_0x2000 (length bytes)) (ground arith))

pub len_field-IsInt64 : (final : Bool) (n : ℕ) → n < 0x2000 → IsInt64 (pos (len_field final n))
len_field-IsInt64 true n h = omega (arith, or_shifted_low 13 1 n h)
len_field-IsInt64 false n h = omega arith

-- The server puts the session before what follows the header byte. For a session below 2 ^ 32, an int64
-- sequence number and fewer than 0x2000 bytes of sound, `handleLegacyUDPVoice` finds in the packet that
-- session, and the sequence number, the sound and the terminator that `encodeLegacyUDPAudio` put there; a
-- position behind the sound changes none of them and is not read.
pub parse-encode_legacy :
    (format target s : ℕ) (q : ℤ) (bytes : List ℕ) (final : Bool) (x y z : Option ℕ)
    → s < 2 ^ 32
    → IsInt64 q
    → length bytes < 0x2000
    → parse_legacy
        (encode (pos s) ++ drop 1 (encode_legacy_udp_audio format target q bytes final x y z))
      ≡ voice s q bytes final
unfolding encode_legacy_udp_audio
parse-encode_legacy format target s q bytes final x y z hs hq hd =
    parsed (pos s) q (pos (len_field final (length bytes))) (bytes ++ floats x y z) (omega arith) hq
      (len_field-IsInt64 final (length bytes) hd)
    ∙ slice_field s q final bytes (floats x y z) hs hd
