-- ===== src/Protobuf.antt =====
-- The protobuf varint helpers of gumble/gumble/udp15.go (pbEncodeVarint and pbDecodeVarint).
pub mod RoundTrip
pub mod Bounds
mod Tests
use barnard_stormdragon_ai_f.Prelude.{
  ℕ, zero, suc, ◌+◌, ◌*◌, ◌/◌, ◌%◌, ◌^◌, bit_and, bit_or, List, [], ◌∷◌, Option, none, some, ◌&&◌,
  ◌||◌, if◌then◌else◌, ltb, leb, ◌==◌,
}

-- The bytes that `pbEncodeVarint` writes to a buffer with `room` bytes left, `none` where it would
-- write past the end of the buffer (a panic). Every caller hands it ten bytes.
unfoldable pub pb_encode : ℕ → ℕ → Option (List ℕ)
pb_encode zero v = none
pb_encode (suc room) v =
    let rest = pb_encode room (v / 2 ^ 7) in
    if leb 0x80 v
    then elim rest [ none ↦ none | some bytes ↦ some (bit_or (v % 256) 0x80 ∷ bytes) ]
    else some ((v % 256) ∷ [])

-- `v |= uint64(b&0x7F) << (7 * i)`
abbrev pub add_group : ℕ → ℕ → ℕ → ℕ
add_group v b i = bit_or v (bit_and b 0x7F * 2 ^ (7 * i) % 2 ^ 64)

-- The loop of `pbDecodeVarint` on what `range buf` has not reached.
unfoldable pub pb_decode_loop : List ℕ → ℕ → ℕ → ℕ × ℕ
pb_decode_loop [] i v = (0, 0)
pb_decode_loop (b ∷ rest) i v =
    let more = pb_decode_loop rest (i + 1) (add_group v b i) in
    if i == 10 || (i == 9 && ltb 1 b)
    then (0, 0)
    else if ltb b 0x80
    then (add_group v b i, i + 1)
    else more

-- The value, and the number of bytes read, which is 0 for an error.
unfoldable pub pb_decode : List ℕ → ℕ × ℕ
pb_decode buf = pb_decode_loop buf 0 0
