-- ===== src/Conn.antt =====
-- The control connection of gumble/gumble/conn.go. What the network still delivers is the list `input`,
-- and its end is an error of the read; a call of Write answers what `fate` says. A float32 is its bits.

pub mod Frames
pub mod Audio
mod Tests
use barnard_stormdragon_ai_f.Prelude.{
  ℕ, ◌+◌, ◌-◌, ◌*◌, ◌%◌, ◌^◌, bit_or, List, [], ◌∷◌, ◌++◌, Option, none, some, Bool, true, false,
  ◌&&◌, ◌||◌, not, if◌then◌else◌, ltb, leb, ◌==◌, length, take, drop, replicate,
}
use barnard_stormdragon_ai_f.Prelude.Int.{ℤ, pos}
use barnard_stormdragon_ai_f.Varint.{big_endian, from_big_endian, encode_into, max_varint_len}
use barnard_stormdragon_ai_f.UdpAudio.{little_endian_32}

abbrev pub retained_packet_bytes : ℕ
retained_packet_bytes = 64 * 1024

pub record Reader : Type 0 where
  pub maximum : ℕ
  pub buffer : List ℕ
  pub input : List ℕ

pub data Packet : Type 0 where
  too_large cut_off : Packet
  packet : (kind : ℕ) (bytes : List ℕ) → Packet

unfoldable pub zeroed : ℕ → List ℕ
zeroed n = replicate n 0

-- The buffer for a packet of `len` bytes.
unfoldable pub resized : List ℕ → ℕ → List ℕ
resized buffer len =
    if ltb (length buffer) len
    then zeroed len
    else if ltb retained_packet_bytes (length buffer) && leb len retained_packet_bytes
    then zeroed retained_packet_bytes
    else buffer

-- `io.ReadFull` into the front of the buffer, which keeps what came in before an error.
unfoldable pub read_body : Reader → (kind len : ℕ) → Reader × Packet
read_body c kind len =
    let got = take len c.input in
    let buffer = got ++ drop (length got) (resized c.buffer len) in
    let read : Reader = record c { buffer = buffer; input = drop len c.input } in
    if ltb (length c.input) len then (read, cut_off) else (read, packet kind (take len buffer))

-- `ReadPacket`
unfoldable pub read_packet : Reader → Reader × Packet
read_packet c =
    let kind = from_big_endian 2 c.input in
    let len = from_big_endian 4 (drop 2 c.input) in
    let behind : Reader = record c { input = drop 6 c.input } in
    if ltb (length c.input) 6
    then (behind, cut_off)
    else if ltb c.maximum len
    then (behind, too_large)
    else read_body behind kind len

-- What was sent, and for each call of Write to come how many bytes an error lets through; then none
-- fails.
pub record Wire : Type 0 where
  pub sent : List ℕ
  pub fate : List (Option ℕ)

unfoldable pub delivered : List ℕ → List ℕ → List (Option ℕ) → Wire × Bool
delivered sent bytes [] = (record { sent = sent ++ bytes; fate = [] }, true)
delivered sent bytes (none ∷ fate) = (record { sent = sent ++ bytes; fate = fate }, true)
delivered sent bytes (some n ∷ fate) = (record { sent = sent ++ take n bytes; fate = fate }, false)

-- One call of Write, unless one before has failed.
unfoldable pub then_write : List ℕ → Wire × Bool → Wire × Bool
then_write bytes (w, true) = delivered w.sent bytes w.fate
then_write bytes (w, false) = (w, false)

unfoldable pub write_header : (kind len : ℕ) → Wire → Wire × Bool
write_header kind len w = then_write (big_endian 2 kind ++ big_endian 4 len) (w, true)

-- `WritePacket`
unfoldable pub write_packet : ℕ → List ℕ → Wire → Wire × Bool
write_packet kind bytes w = then_write bytes (write_header kind (length bytes % 2 ^ 32) w)

pub data AudioError : Type 0 where
  out_of_range needs_position : AudioError

-- The coordinates, where all three pointers are set; an error, where only some are.
unfoldable pub coordinates : Option ℕ → Option ℕ → Option ℕ → Option (List (List ℕ))
coordinates none none none = some []
coordinates (some x) (some y) (some z) =
    some (little_endian_32 x ∷ little_endian_32 y ∷ little_endian_32 z ∷ [])
coordinates (some x) (some y) none = none
coordinates (some x) none z = none
coordinates none (some y) z = none
coordinates none none (some z) = none

unfoldable pub write_all : List (List ℕ) → Wire × Bool → Wire × Bool
write_all [] r = r
write_all (bytes ∷ rest) r = write_all rest (then_write bytes r)

unfoldable pub send_audio :
    List ℕ → List ℕ → Wire → Option (List (List ℕ)) → (Wire × Bool) × Option AudioError
send_audio header bytes w none = ((w, false), some needs_position)
send_audio header bytes w (some at) = (
  write_all (header ∷ bytes ∷ at)
      (write_header 1 ((length header + length bytes + 4 * length at) % 2 ^ 32) w),
  none,
)

-- `WriteAudio`
unfoldable pub write_audio :
    (format target : ℕ)
    → ℤ
    → Bool
    → List ℕ
    → Option ℕ
    → Option ℕ
    → Option ℕ
    → Wire
    → (Wire × Bool) × Option AudioError
write_audio format target sequence final bytes x y z w =
    let first = bit_or (format * 2 ^ 5 % 256) target in
    let (front, n) = encode_into (replicate (max_varint_len * 2) 0) sequence in
    let l = if final then bit_or (length bytes) 0x2000 else length bytes in
    let (back, m) = encode_into (drop n front) (pos l) in
    if n == 0
    then ((w, false), some out_of_range)
    else if m == 0
    then ((w, false), some out_of_range)
    else send_audio (first ∷ (take n front ++ take m back)) bytes w (coordinates x y z)

-- The messages of the protocol, and any other type.
pub data Message : Type 0 where
  version authenticate ping reject server_sync channel_remove channel_state user_remove user_state
        ban_list text_message permission_denied acl query_users crypt_setup context_action_modify
        context_action user_list voice_target permission_query codec_version user_stats request_blob
        server_config suggest_config other :
      Message

-- The type switch of `WriteProto`.
unfoldable pub proto_type : Message → Option ℕ
proto_type version = some 0
proto_type authenticate = some 2
proto_type ping = some 3
proto_type reject = some 4
proto_type server_sync = some 5
proto_type channel_remove = some 6
proto_type channel_state = some 7
proto_type user_remove = some 8
proto_type user_state = some 9
proto_type ban_list = some 10
proto_type text_message = some 11
proto_type permission_denied = some 12
proto_type acl = some 13
proto_type query_users = some 14
proto_type crypt_setup = some 15
proto_type context_action_modify = some 16
proto_type context_action = some 17
proto_type user_list = some 18
proto_type voice_target = some 19
proto_type permission_query = some 20
proto_type codec_version = some 21
proto_type user_stats = some 22
proto_type request_blob = some 23
proto_type server_config = some 24
proto_type suggest_config = some 25
proto_type other = none

unfoldable pub write_marshalled : Option (List ℕ) → ℕ → Wire → Wire × Bool
write_marshalled none kind w = (w, false)
write_marshalled (some bytes) kind w = write_packet kind bytes w

unfoldable pub write_typed : Option ℕ → Option (List ℕ) → Wire → Wire × Bool
write_typed none marshalled w = (w, false)
write_typed (some kind) marshalled w = write_marshalled marshalled kind w

-- `WriteProto`, with what `proto.Marshal` answers for the message.
unfoldable pub write_proto : Message → Option (List ℕ) → Wire → Wire × Bool
write_proto message marshalled w = write_typed (proto_type message) marshalled w
