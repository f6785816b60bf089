-- ===== src/UdpAudio.antt =====
-- The MumbleUDP.Audio message of gumble/gumble/udp15.go (encodeUDPAudio and decodeUDPAudio).
-- A float32 is its 32 bits, so Float32bits and Float32frombits are the identity.
pub mod Words
pub mod Total
pub mod Steps
pub mod RoundTrip
mod Tests
use barnard_stormdragon_ai_f.Prelude.{
  ℕ, zero, suc, ◌+◌, ◌*◌, ◌/◌, ◌%◌, ◌^◌, bit_and, List, [], ◌∷◌, ◌++◌, Option, none, some, Bool,
  true, false, not, ◌&&◌, if◌then◌else◌, ltb, ◌==◌, length, get_or, set, take, drop,
}
use barnard_stormdragon_ai_f.Protobuf.{pb_encode, pb_decode}

-- Where a write past the scratch array of ten bytes would panic, the result is `none`.
infixl 5 ◌>>=◌
abbrev pub ◌>>=◌ : {A B : Type 0} → Option A → (A → Option B) → Option B
none >>= f = none
some a >>= f = f a

-- binary.LittleEndian
abbrev pub little_endian_32 : ℕ → List ℕ
little_endian_32 v = (v % 256) ∷ (v / 2 ^ 8 % 256) ∷ (v / 2 ^ 16 % 256) ∷ (v / 2 ^ 24 % 256) ∷ []

abbrev pub from_little_endian_32 : List ℕ → ℕ
from_little_endian_32 b =
    get_or b 0 0 + get_or b 1 0 * 2 ^ 8 + get_or b 2 0 * 2 ^ 16 + get_or b 3 0 * 2 ^ 24

-- `Uint32(bytes[k:])`; `none` is the panic where `bytes` ends before the four bytes do.
unfoldable pub uint32_at : ℕ → List ℕ → Option ℕ
uint32_at k bytes =
    if ltb (length bytes) (k + 4) then none else some (from_little_endian_32 (drop k bytes))

-- `pbEncodeVarint` to the scratch array, then `buf.Write(tmp[:n])`.
abbrev pub varint : ℕ → Option (List ℕ)
varint v = pb_encode 10 v

-- One `key`, `value` pair of wire type 0.
unfoldable pub varint_field : ℕ → ℕ → Option (List ℕ)
varint_field number v = do key ← varint (number * 8 + 0); value ← varint v; some (key ++ value)

unfoldable pub opus_field : List ℕ → Option (List ℕ)
opus_field opus =
    if ltb 0 (length opus)
    then (do key ← varint (5 * 8 + 2); len ← varint (length opus); some (key ++ (len ++ opus)))
    else some []

-- The position is written where all three pointers are set.
unfoldable pub position_field : Option ℕ → Option ℕ → Option ℕ → Option (List ℕ)
position_field (some x) (some y) (some z) = do
  key ← varint (6 * 8 + 2)
  len ← varint 12
  some (key ++ (len ++ (little_endian_32 x ++ (little_endian_32 y ++ little_endian_32 z))))
position_field _ _ _ = some []

unfoldable pub terminator_field : Bool → Option (List ℕ)
terminator_field true = varint_field 16 1
terminator_field false = some []

unfoldable pub encode_udp_audio :
    ℕ → ℕ → List ℕ → Bool → Option ℕ → Option ℕ → Option ℕ → Option (List ℕ)
encode_udp_audio target frame opus terminator x y z = do
  header ← varint_field 1 target
  number ← varint_field 4 frame
  payload ← opus_field opus
  position ← position_field x y z
  last ← terminator_field terminator
  some (header ++ (number ++ (payload ++ (position ++ last))))

-- The named results of `decodeUDPAudio` and its two locals.
pub record Fields : Type 0 where
  pub session : ℕ
  pub frame : ℕ
  pub opus : List ℕ
  pub terminator : Bool
  pub context : ℕ
  pub volume : ℕ
  pub position_values : List ℕ
  pub position_count : ℕ

abbrev pub no_fields : Fields
no_fields = record {
  session = 0;
  frame = 0;
  opus = [];
  terminator = false;
  context = 0;
  volume = 0;
  position_values = 0 ∷ 0 ∷ 0 ∷ [];
  position_count = 0;
}

pub record Audio : Type 0 where
  pub session : ℕ
  pub frame : ℕ
  pub opus : List ℕ
  pub terminator : Bool
  pub context : ℕ
  pub position : Option (List ℕ)
  pub volume : ℕ

-- What a round of the loop does: go on behind the bytes that it read, `break`, `return` at once, or
-- panic at a slice or an index out of range.
pub data Round : Type 0 where
  next : List ℕ → Fields → Round
  break : Fields → Round
  return : Fields → Round
  panic : Round

-- The fields that carry a varint.
unfoldable pub set_varint : ℕ → ℕ → Fields → Fields
set_varint number v f =
    if number == 2
    then record f { context = v % 2 ^ 32 }
    else if number == 3
    then record f { session = v % 2 ^ 32 }
    else if number == 4
    then record f { frame = v }
    else if number == 16
    then record f { terminator = not (v == 0) }
    else f

unfoldable pub set_position : Fields → Option ℕ → Option ℕ → Option ℕ → Option Fields
set_position f (some x) (some y) (some z) =
    some (record f { position_values = x ∷ y ∷ z ∷ []; position_count = 3 })
set_position f _ _ _ = none

-- The fields that carry bytes; `rest` is what stands from the value on. `none` is a panic:
-- `data[pos:end]` behind the end of the data, or a float32 cut off.
unfoldable pub set_bytes : ℕ → ℕ → List ℕ → Fields → Option Fields
unfolding set_position
set_bytes number len rest f =
    if number == 5
    then (if ltb (length rest) len then none else some (record f { opus = take len rest }))
    else if number == 6 && len == 12
    then set_position f (uint32_at 0 rest) (uint32_at 4 rest) (uint32_at 8 rest)
    else some f

-- `positionValues[positionCount] = value`, which panics behind the array of three.
unfoldable pub store : ℕ → Fields → Option Fields
store v f =
    if ltb f.position_count 3
    then some (record f {
      position_values = set f.position_values f.position_count v;
      position_count = f.position_count + 1;
    })
    else none

unfoldable pub set_fixed : ℕ → ℕ → Fields → Option Fields
unfolding store
set_fixed number v f =
    if number == 6 && ltb f.position_count 3
    then store v f
    else if number == 7
    then some (record f { volume = v })
    else some f

unfoldable pub goes_on : List ℕ → Option Fields → Round
goes_on rest (some f) = next rest f
goes_on rest none = panic

-- `data[pos:]`, from `n` bytes further on, to what reads there.
unfoldable pub slice_from : ℕ → List ℕ → (List ℕ → Round) → Round
slice_from n rest read = if ltb (length rest) n then panic else read (drop n rest)

unfoldable pub varint_round : ℕ → List ℕ → Fields → Round
varint_round number rest f =
    let (v, n) = pb_decode rest in
    if n == 0 then return f else next (drop n rest) (set_varint number v f)

unfoldable pub bytes_round : ℕ → List ℕ → Fields → Round
unfolding goes_on
bytes_round number rest f =
    let (len, n) = pb_decode rest in
    let after = drop n rest in
    if n == 0
    then return f
    else if ltb (length after) len
    then return f
    else goes_on (drop len after) (set_bytes number len after f)

unfoldable pub fixed_word : ℕ → List ℕ → Fields → Option ℕ → Round
unfolding goes_on
fixed_word number rest f none = panic
fixed_word number rest f (some v) = goes_on (drop 4 rest) (set_fixed number v f)

unfoldable pub fixed_round : ℕ → List ℕ → Fields → Round
unfolding fixed_word
fixed_round number rest f =
    if ltb (length rest) 4 then return f else fixed_word number rest f (uint32_at 0 rest)

-- `key >> 3` is `key / 8`, `key & 0x7` the wire type.
unfoldable pub round : List ℕ → Fields → Round
unfolding varint_round bytes_round fixed_round slice_from
round rest f =
    let (key, n) = pb_decode rest in
    let after = drop n rest in
    let wire = bit_and key 0x7 in
    if n == 0
    then break f
    else if wire == 0
    then slice_from n rest (λ value. varint_round (key / 8) value f)
    else if wire == 2
    then slice_from n rest (λ value. bytes_round (key / 8) value f)
    else if wire == 1
    then (if ltb (length after) 8 then return f else next (drop 8 after) f)
    else if wire == 5
    then fixed_round (key / 8) after f
    else return f

-- The results, with or without the assignment of `position` behind the loop.
abbrev pub audio : Fields → Option (List ℕ) → Audio
audio f p = record {
  session = f.session;
  frame = f.frame;
  opus = f.opus;
  terminator = f.terminator;
  context = f.context;
  position = p;
  volume = f.volume;
}

unfoldable pub finish : Fields → Audio
finish f = audio f (if f.position_count == 3 then some f.position_values else none)

unfoldable pub after_round : (List ℕ → Fields → Option Audio) → Round → Option Audio
unfolding finish
after_round more (next rest f) = more rest f
after_round more (break f) = some (finish f)
after_round more (return f) = some (audio f none)
after_round more panic = none

-- The loop on `data[pos:]`, with fuel; `none` means that a round panicked or that the fuel ran out.
unfoldable pub rounds : ℕ → List ℕ → Fields → Option Audio
unfolding finish after_round
rounds fuel [] f = some (finish f)
rounds zero (b ∷ bs) f = none
rounds (suc fuel) (b ∷ bs) f = after_round (rounds fuel) (round (b ∷ bs) f)

-- A round that goes on takes a byte at least, so one unit of fuel for each byte is enough.
unfoldable pub decode_udp_audio : List ℕ → Option Audio
decode_udp_audio bytes = rounds (length bytes) bytes no_fields
