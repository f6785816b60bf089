-- ===== src/UdpAudio/RoundTrip.antt =====
-- `decodeUDPAudio` after `encodeUDPAudio`.
use barnard_stormdragon_ai_f.Prelude.{
  take-length_append, ℕ, ◌+◌, ◌*◌, ◌^◌, ◌<◌, ◌≡◌, refl, ap, ap₂, ◌∙◌, arith, List, [], ◌∷◌, ◌++◌,
  Option, some, none, Bool, true, false, length, ltb-false_of_le, length-append, lt→ltb, append-nil,
}
use barnard_stormdragon_ai_f.Protobuf.RoundTrip.{groups, pb_encode-groups}
use barnard_stormdragon_ai_f.Protobuf.{pb_encode}
use barnard_stormdragon_ai_f.UdpAudio.{
  ◌>>=◌, Fields, no_fields, Audio, finish, varint_field, opus_field, position_field,
  terminator_field, encode_udp_audio, decode_udp_audio, set_varint, set_bytes, set_position, rounds,
  little_endian_32,
}
use barnard_stormdragon_ai_f.UdpAudio.Words.{uint32_at-fits}
use barnard_stormdragon_ai_f.UdpAudio.Steps.{Reads, Runs, Reads-append, Reads-varint, Reads-bytes}

varint-groups : (v : ℕ) → v < 2 ^ 64 → pb_encode 10 v ≡ some (groups 10 v)
varint-groups v h = pb_encode-groups 10 v (omega arith) (omega arith)

varint_bytes : ℕ → ℕ → List ℕ
varint_bytes number v = groups 10 (number * 8 + 0) ++ groups 10 v

bind_two :
    {p q : Option (List ℕ)} {a b : List ℕ}
    → p ≡ some a
    → q ≡ some b
    → (p >>= λ key. q >>= λ value. some (key ++ value)) ≡ some (a ++ b)
bind_two e f = rw (e, f)

varint_field_lem :
    (number v : ℕ)
    → number < 2 ^ 32
    → v < 2 ^ 64
    → varint_field number v ≡ some (varint_bytes number v)
unfolding varint_field varint_bytes
varint_field_lem number v hn hv =
    bind_two (varint-groups (number * 8 + 0) (omega arith)) (varint-groups v hv)

opus_bytes : List ℕ → List ℕ
opus_bytes [] = []
opus_bytes (b ∷ bs) = groups 10 (5 * 8 + 2) ++ (groups 10 (length (b ∷ bs)) ++ (b ∷ bs))

opus_field_lem : (opus : List ℕ) → length opus < 2 ^ 63 → opus_field opus ≡ some (opus_bytes opus)
unfolding opus_field opus_bytes
opus_field_lem [] h = refl
opus_field_lem (b ∷ bs) h = rw (
  lt→ltb 0 (length (b ∷ bs)) (omega arith),
  varint-groups (5 * 8 + 2) (omega arith),
  varint-groups (length (b ∷ bs)) (omega arith),
)

-- The three words of a position.
abbrev words : ℕ → ℕ → ℕ → List ℕ
words x y z = little_endian_32 x ++ (little_endian_32 y ++ little_endian_32 z)

position_bytes : Option ℕ → Option ℕ → Option ℕ → List ℕ
position_bytes (some x) (some y) (some z) = groups 10 (6 * 8 + 2) ++ (groups 10 12 ++ words x y z)
position_bytes _ _ _ = []

position_field_lem : (x y z : Option ℕ) → position_field x y z ≡ some (position_bytes x y z)
unfolding position_field position_bytes
position_field_lem (some x) (some y) (some z) =
    rw (varint-groups (6 * 8 + 2) (omega arith), varint-groups 12 (omega arith))
position_field_lem (some x) (some y) none = refl
position_field_lem (some x) none z = refl
position_field_lem none y z = refl

terminator_bytes : Bool → List ℕ
terminator_bytes true = varint_bytes 16 1
terminator_bytes false = []

terminator_field_lem : (t : Bool) → terminator_field t ≡ some (terminator_bytes t)
unfolding terminator_field terminator_bytes
terminator_field_lem true = varint_field_lem 16 1 (omega arith) (omega arith)
terminator_field_lem false = refl

message : ℕ → ℕ → List ℕ → Bool → Option ℕ → Option ℕ → Option ℕ → List ℕ
message target frame opus t x y z =
    varint_bytes 1 target
    ++ (varint_bytes 4 frame ++ (opus_bytes opus ++ (position_bytes x y z ++ terminator_bytes t)))

encode_udp_audio-message :
    (target frame : ℕ) (opus : List ℕ) (t : Bool) (x y z : Option ℕ)
    → target < 2 ^ 32
    → frame < 2 ^ 64
    → length opus < 2 ^ 63
    → encode_udp_audio target frame opus t x y z ≡ some (message target frame opus t x y z)
unfolding encode_udp_audio message
encode_udp_audio-message target frame opus t x y z ht hf ho = rw (
  varint_field_lem 1 target (omega arith) (omega arith),
  varint_field_lem 4 frame (omega arith) hf,
  opus_field_lem opus ho,
  position_field_lem x y z,
  terminator_field_lem t,
)

Reads-nil : (f : Fields) → Reads [] f f
Reads-nil f rest out run = run

opus-Reads :
    (opus : List ℕ) (f : Fields)
    → length opus < 2 ^ 63
    → f.opus ≡ []
    → Reads (opus_bytes opus) f (record f { opus = opus })
unfolding opus_bytes set_bytes
opus-Reads [] f h e = rw (← e) (Reads-nil f)
opus-Reads (b ∷ bs) f h e = Reads-bytes 5 (b ∷ bs) f _ (omega arith) (omega arith) (λ rest.
    rw
      (
        ltb-false_of_le (length (b ∷ bs)) (length ((b ∷ bs) ++ rest))
            (omega (arith, length-append bs rest)),
        take-length_append (b ∷ bs) rest,
      )
      refl)

-- What the position fields of the loop hold behind the position.
placed : Option ℕ → Option ℕ → Option ℕ → Fields → Fields
placed (some x) (some y) (some z) f = record f {
  position_values = x ∷ y ∷ z ∷ [];
  position_count = 3;
}
placed _ _ _ f = f

abbrev IsFloat : Option ℕ → Type 0
IsFloat none = Unit
IsFloat (some v) = v < 2 ^ 32

position-Reads :
    (x y z : Option ℕ) (f : Fields)
    → IsFloat x
    → IsFloat y
    → IsFloat z
    → Reads (position_bytes x y z) f (placed x y z f)
unfolding position_bytes placed set_bytes set_position
position-Reads (some x) (some y) (some z) f hx hy hz =
    Reads-bytes 6 (words x y z) f _ (omega arith) (omega arith) (λ rest.
      rw
        (
          uint32_at-fits 0 (words x y z ++ rest) (omega arith),
          uint32_at-fits 4 (words x y z ++ rest) (omega arith),
          uint32_at-fits 8 (words x y z ++ rest) (omega arith),
        )
        (ap (λ l. some (record f { position_values = l; position_count = 3 }))
          (ap₂ ◌∷◌ (omega arith) (ap₂ ◌∷◌ (omega arith) (ap (λ w. w ∷ []) (omega arith))))))
position-Reads (some x) (some y) none f hx hy hz = Reads-nil f
position-Reads (some x) none z f hx hy hz = Reads-nil f
position-Reads none y z f hx hy hz = Reads-nil f

terminator-Reads :
    (t : Bool) (f : Fields)
    → f.terminator ≡ false
    → Reads (terminator_bytes t) f (record f { terminator = t })
unfolding terminator_bytes varint_bytes set_varint
terminator-Reads true f e = Reads-varint 16 1 f (omega arith) (omega arith)
terminator-Reads false f e = rw (← e) (Reads-nil f)

abbrev position_of : Option ℕ → Option ℕ → Option ℕ → Option (List ℕ)
position_of (some x) (some y) (some z) = some (x ∷ y ∷ z ∷ [])
position_of _ _ _ = none

-- What a receiver gets of an outgoing packet.
abbrev pub received : ℕ → List ℕ → Bool → Option ℕ → Option ℕ → Option ℕ → Audio
received frame opus t x y z = record {
  session = 0;
  frame = frame;
  opus = opus;
  terminator = t;
  context = 0;
  position = position_of x y z;
  volume = 0;
}

abbrev all_fields : ℕ → List ℕ → Bool → Option ℕ → Option ℕ → Option ℕ → Fields
all_fields frame opus t x y z =
    record (placed x y z (record no_fields { frame = frame; opus = opus })) { terminator = t }

finish-all_fields :
    (frame : ℕ) (opus : List ℕ) (t : Bool) (x y z : Option ℕ)
    → finish (all_fields frame opus t x y z) ≡ received frame opus t x y z
unfolding finish placed
finish-all_fields frame opus t (some x) (some y) (some z) = refl
finish-all_fields frame opus t (some x) (some y) none = refl
finish-all_fields frame opus t (some x) none z = refl
finish-all_fields frame opus t none y z = refl

terminator-placed : (x y z : Option ℕ) (f : Fields) → (placed x y z f).terminator ≡ f.terminator
unfolding placed
terminator-placed (some x) (some y) (some z) f = refl
terminator-placed (some x) (some y) none f = refl
terminator-placed (some x) none z f = refl
terminator-placed none y z f = refl

header-Reads : (target : ℕ) → target < 2 ^ 32 → Reads (varint_bytes 1 target) no_fields no_fields
unfolding varint_bytes set_varint
header-Reads target h = Reads-varint 1 target no_fields (omega arith) (omega arith)

frame-Reads :
    (frame : ℕ)
    → frame < 2 ^ 64
    → Reads (varint_bytes 4 frame) no_fields (record no_fields { frame = frame })
unfolding varint_bytes set_varint
frame-Reads frame h = Reads-varint 4 frame no_fields (omega arith) h

message-Reads :
    (target frame : ℕ) (opus : List ℕ) (t : Bool) (x y z : Option ℕ)
    → target < 2 ^ 32
    → frame < 2 ^ 64
    → length opus < 2 ^ 63
    → IsFloat x
    → IsFloat y
    → IsFloat z
    → Reads (message target frame opus t x y z) no_fields (all_fields frame opus t x y z)
unfolding message
message-Reads target frame opus t x y z ht hf ho hx hy hz =
    Reads-append (varint_bytes 1 target) _ no_fields no_fields _ (header-Reads target ht) (
      Reads-append (varint_bytes 4 frame) _ no_fields f1 _ (frame-Reads frame hf) (
        Reads-append (opus_bytes opus) _ f1 f2 _ (opus-Reads opus f1 ho refl) (
          Reads-append (position_bytes x y z) _ f2 (placed x y z f2) _
            (position-Reads x y z f2 hx hy hz)
            (terminator-Reads t (placed x y z f2) (terminator-placed x y z f2)))))
  where
    f1 : Fields
    f1 = record no_fields { frame = frame }

    f2 : Fields
    f2 = record f1 { opus = opus }

rounds-nil : (f : Fields) → Runs [] f (finish f)
unfolding rounds
rounds-nil f fuel h = refl

-- For a target below 2 ^ 32, a frame number below 2 ^ 64, a payload shorter than 2 ^ 63 bytes and
-- positions of 32 bits, `encodeUDPAudio` writes a message, and `decodeUDPAudio` reads the frame
-- number, the payload and the terminator back from it, the position exactly when all three
-- coordinates were given, and the defaults for what an outgoing packet leaves out.
pub decode-encode_udp_audio :
    (target frame : ℕ) (opus : List ℕ) (t : Bool) (x y z : Option ℕ)
    → target < 2 ^ 32
    → frame < 2 ^ 64
    → length opus < 2 ^ 63
    → IsFloat x
    → IsFloat y
    → IsFloat z
    → (bytes : List ℕ) × (encode_udp_audio target frame opus t x y z ≡ some bytes)
      × (decode_udp_audio bytes ≡ some (received frame opus t x y z))
unfolding decode_udp_audio
decode-encode_udp_audio target frame opus t x y z ht hf ho hx hy hz = (
  message target frame opus t x y z,
  encode_udp_audio-message target frame opus t x y z ht hf ho,
  run ∙ ap some (finish-all_fields frame opus t x y z),
)
  where
    all : Fields
    all = all_fields frame opus t x y z

    bytes : List ℕ
    bytes = message target frame opus t x y z

    run : rounds (length bytes) bytes no_fields ≡ some (finish all)
    run = rw (← append-nil bytes) (
        message-Reads target frame opus t x y z ht hf ho hx hy hz [] (finish all) (rounds-nil all)
          (length (bytes ++ [])) (omega arith))
