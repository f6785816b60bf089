-- ===== src/Voice/Legacy.antt =====
-- The voice payload before Mumble 1.5: encodeLegacyUDPAudio and the parser in handleLegacyUDPVoice of
-- gumble/gumble/udp15.go. A float32 is its bits.
pub mod RoundTrip
mod Tests
use barnard_stormdragon_ai_f.Prelude.{
  ℕ, ◌+◌, ◌-◌, ◌*◌, ◌/◌, ◌%◌, ◌^◌, bit_and, bit_or, List, [], ◌∷◌, ◌++◌, Option, none, some, Bool,
  true, false, not, if◌then◌else◌, ltb, ◌==◌, length, take, drop,
}
use barnard_stormdragon_ai_f.Prelude.Int.{ℤ, pos, negsuc}
use barnard_stormdragon_ai_f.Varint.{encode, decode, to_uint64}
use barnard_stormdragon_ai_f.UdpAudio.{little_endian_32}

-- The position, where all three pointers are set.
unfoldable pub floats : Option ℕ → Option ℕ → Option ℕ → List ℕ
floats (some x) (some y) (some z) = little_endian_32 x ++ (little_endian_32 y ++ little_endian_32 z)
floats _ _ _ = []

-- The header array has room for two varints of ten bytes, so `Encode` never fails here.
unfoldable pub encode_legacy_udp_audio :
    ℕ → ℕ → ℤ → List ℕ → Bool → Option ℕ → Option ℕ → Option ℕ → List ℕ
encode_legacy_udp_audio format target sequence bytes final x y z =
    let len = if final then bit_or (length bytes) 0x2000 else length bytes in
    bit_or (format * 2 ^ 5 % 256) target
    ∷ (encode sequence ++ (encode (pos len) ++ (bytes ++ floats x y z)))

-- A packet is dropped, or makes the slice expression panic, or goes on to dispatchOpus15.
pub data Parsed : Type 0 where
  dropped panicked : Parsed
  voice : (session : ℕ) (sequence : ℤ) (opus : List ℕ) (terminator : Bool) → Parsed

-- `length &^ 0x2000` on an int64, and whether the bit is set.
unfoldable pub without_terminator : ℤ → ℤ
without_terminator (pos n) = pos (n - bit_and n 0x2000)
without_terminator (negsuc n) = negsuc (bit_or n 0x2000)

unfoldable pub has_terminator : ℤ → Bool
has_terminator (pos n) = not (bit_and n 0x2000 == 0)
has_terminator (negsuc n) = bit_and n 0x2000 == 0

-- `buffer[:size]`, which panics for a negative size and one above the length.
unfoldable pub slice_to : List ℕ → ℤ → Option (List ℕ)
slice_to buffer (negsuc n) = none
slice_to buffer (pos n) = if ltb (length buffer) n then none else some (take n buffer)

-- `size > len(buffer)`
unfoldable pub exceeds : ℤ → ℕ → Bool
exceeds (pos n) len = ltb len n
exceeds (negsuc n) len = false

unfoldable pub sliced : ℤ → ℤ → Bool → Option (List ℕ) → Parsed
sliced session sequence final none = panicked
sliced session sequence final (some opus) = voice (to_uint64 session % 2 ^ 32) sequence opus final

-- The check of the length and the slice expression `data[pos : pos+audioLen]`.
unfoldable pub slice : ℤ → ℤ → ℤ → List ℕ → Parsed
slice session sequence len rest =
    let size = without_terminator len in
    if exceeds size (length rest)
    then dropped
    else sliced session sequence (has_terminator len) (slice_to rest size)

unfoldable pub parse_length : ℤ → ℤ → List ℕ → ℤ × ℕ → Parsed
parse_length session sequence bytes (len, n) =
    if n == 0 then dropped else slice session sequence len (drop n bytes)

unfoldable pub parse_sequence : ℤ → List ℕ → ℤ × ℕ → Parsed
parse_sequence session bytes (sequence, n) =
    let parsed = parse_length session sequence (drop n bytes) (decode (drop n bytes)) in
    if n == 0 then dropped else parsed

unfoldable pub parse_session : List ℕ → ℤ × ℕ → Parsed
parse_session bytes (session, n) =
    let parsed = parse_sequence session (drop n bytes) (decode (drop n bytes)) in
    if n == 0 then dropped else parsed

unfoldable pub parse_legacy : List ℕ → Parsed
parse_legacy bytes = parse_session bytes (decode bytes)
