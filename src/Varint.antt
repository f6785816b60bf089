-- ===== src/Varint.antt =====
-- gumble/gumble/varint: Mumble's variable-length integers (read.go and write.go).
-- An int64 is an integer in range, a byte slice a list of numbers below 256. `encode` is handed a
-- buffer of ten bytes and here returns the bytes that it writes to its front.
pub mod Bytes
pub mod Shape
pub mod RoundTrip
pub mod Bounds
pub mod Buffer
mod Tests
use barnard_stormdragon_ai_f.Prelude.{
  ℕ, ◌+◌, ◌-◌, ◌*◌, ◌/◌, ◌%◌, ◌^◌, ◌<◌, ◌≤◌, bit_and, bit_or, List, [], ◌∷◌, ◌++◌, Bool, ◌&&◌,
  if◌then◌else◌, ltb, leb, ◌==◌, length, get_or, take, drop,
}
use barnard_stormdragon_ai_f.Prelude.Int.{ℤ, pos, negsuc}

abbrev pub max_varint_len : ℕ
max_varint_len = 10

abbrev pub IsInt64 : ℤ → Type 0
IsInt64 (pos n) = n < 2 ^ 63
IsInt64 (negsuc n) = n < 2 ^ 63

-- `int64(u)` of a uint64, and `uint64(v)` of an int64.
abbrev pub to_int64 : ℕ → ℤ
to_int64 u = if ltb u (2 ^ 63) then pos u else negsuc (2 ^ 64 - 1 - u)

abbrev pub to_uint64 : ℤ → ℕ
to_uint64 (pos n) = n
to_uint64 (negsuc n) = 2 ^ 64 - 1 - n

-- `-v` on int64: the least value is its own negation.
abbrev pub neg64 : ℤ → ℤ
neg64 (pos n) = if n == 0 then pos 0 else negsuc (n - 1)
neg64 (negsuc n) = if n == 2 ^ 63 - 1 then negsuc n else pos (n + 1)

-- binary.BigEndian: the bytes that PutUint32 and PutUint64 write, and what Uint32 and Uint64 read
-- from the front of a slice that is long enough.
unfoldable pub big_endian : ℕ → ℕ → List ℕ
big_endian ℕ.zero v = []
big_endian (ℕ.suc k) v = (v / 256 ^ k % 256) ∷ big_endian k v

unfoldable pub from_big_endian : ℕ → List ℕ → ℕ
from_big_endian ℕ.zero bytes = 0
from_big_endian (ℕ.suc k) [] = 0
from_big_endian (ℕ.suc k) (b ∷ bytes) = b * 256 ^ k + from_big_endian k bytes

-- The branches of `encode` for a value that is not negative. `byte(x)` is `x % 256`.
unfoldable pub encode_nat : ℕ → List ℕ
encode_nat v =
    if leb v 0x7F
    then (v % 256) ∷ []
    else if leb v 0x3FFF
    then bit_or (bit_and (v / 2 ^ 8 % 256) 0x3F) 0x80 ∷ (v % 256) ∷ []
    else if leb v 0x1FFFFF
    then bit_or (bit_and (v / 2 ^ 16 % 256) 0x1F) 0xC0 ∷ (v / 2 ^ 8 % 256) ∷ (v % 256) ∷ []
    else if leb v 0xFFFFFFF
    then bit_or (bit_and (v / 2 ^ 24 % 256) 0x0F) 0xE0
      ∷ (v / 2 ^ 16 % 256)
      ∷ (v / 2 ^ 8 % 256)
      ∷ (v % 256)
      ∷ []
    else if leb v 0x7FFFFFFF
    then 0xF0 ∷ big_endian 4 (v % 2 ^ 32)
    else 0xF4 ∷ big_endian 8 v

-- `encode`. `^value` of -(n + 1) is n, so the first branch takes -4 to -1; its recursive call is at
-- a positive value.
unfoldable pub encode : ℤ → List ℕ
encode (pos v) = encode_nat v
encode (negsuc n) =
    if ltb n 4
    then bit_or 0xFC (bit_and n 0xFF % 256) ∷ []
    else if n == 2 ^ 63 - 1
    then 0xF8 ∷ 0xF4 ∷ big_endian 8 (to_uint64 (negsuc n))
    else 0xF8 ∷ encode_nat (n + 1)

-- `Encode`: the buffer after the call, and the number of bytes written.
unfoldable pub encode_into : List ℕ → ℤ → List ℕ × ℕ
encode_into b value =
    let bytes = encode value in
    if length bytes == 0
    then (b, 0)
    else if ltb (length b) (length bytes)
    then (b, 0)
    else (bytes ++ drop (length bytes) b, length bytes)

-- The branch of `Decode` for a negated varint, from what the recursive call returns.
abbrev pub negated : ℤ × ℕ → ℤ × ℕ
negated (v, n) = if ltb 0 n then (neg64 v, n + 1) else (pos 0, 0)

-- `Decode`: the value and the number of bytes read.
unfoldable pub decode : List ℕ → ℤ × ℕ
decode [] = (pos 0, 0)
decode (b ∷ bs) =
    let len : ℕ = length (b ∷ bs) in
    let inner = negated (decode bs) in
    if bit_and b 0x80 == 0
    then (pos b, 1)
    else if bit_and b 0xC0 == 0x80 && leb 2 len
    then (pos (bit_or (bit_and b 0x3F * 2 ^ 8) (get_or bs 0 0)), 2)
    else if bit_and b 0xE0 == 0xC0 && leb 3 len
    then (
      pos (bit_or (bit_or (bit_and b 0x1F * 2 ^ 16) (get_or bs 0 0 * 2 ^ 8)) (get_or bs 1 0)),
      3,
    )
    else if bit_and b 0xF0 == 0xE0 && leb 4 len
    then (
      pos (
          bit_or
            (bit_or (bit_or (bit_and b 0x0F * 2 ^ 24) (get_or bs 0 0 * 2 ^ 16))
              (get_or bs 1 0 * 2 ^ 8))
            (get_or bs 2 0)),
      4,
    )
    else if bit_and b 0xFC == 0xF0 && leb 5 len
    then (pos (from_big_endian 4 bs), 5)
    else if bit_and b 0xFC == 0xF4 && leb 9 len
    then (to_int64 (from_big_endian 8 bs), 9)
    else if bit_and b 0xFC == 0xF8
    then inner
    else if bit_and b 0xFC == 0xFC
    then (negsuc (bit_and b 0x03), 1)
    else (pos 0, 0)
