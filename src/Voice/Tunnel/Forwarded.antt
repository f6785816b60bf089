-- ===== src/Voice/Tunnel/Forwarded.antt =====
-- Audio that a client sends through its control connection, tunnelled on by the server, in
-- handleUDPTunnel of gumble/gumble/handlers.go.
use barnard_stormdragon_ai_f.Prelude.{
  ℕ, ◌+◌, ◌*◌, ◌/◌, ◌%◌, ◌^◌, ◌<◌, ◌≤◌, ◌≡◌, refl, ap, ◌∙◌, bit_and, bit_or, List, [], ◌∷◌, ◌++◌,
  map, Option, none, some, Bool, true, false, not, ◌&&◌, length, length-append, drop, take,
  take-length_append, drop-length_append, ◌==◌, if◌then◌else◌, arith, ltb-false_of_le,
  ==-false_of_pos,
}
use barnard_stormdragon_ai_f.Prelude.Bits.{and_0x1f, or_shifted, or_shifted_low}
use barnard_stormdragon_ai_f.Prelude.Int.{ℤ, pos}
use barnard_stormdragon_ai_f.Prelude.Table.{Table, lookup, insert}
use barnard_stormdragon_ai_f.Varint.{encode, decode, IsInt64}
use barnard_stormdragon_ai_f.Varint.RoundTrip.{decode-encode}
use barnard_stormdragon_ai_f.Varint.Bounds.{encode_bounds}
use barnard_stormdragon_ai_f.UdpAudio.{uint32_at, little_endian_32, from_little_endian_32}
use barnard_stormdragon_ai_f.Voice.{Event, packet, terminator, Stream, onward, sub64}
use barnard_stormdragon_ai_f.Voice.Legacy.{encode_legacy_udp_audio, floats}
use barnard_stormdragon_ai_f.Voice.Legacy.RoundTrip.{and_0x2000, len_field, len_field-IsInt64}
use barnard_stormdragon_ai_f.Voice.Legacy.{without_terminator, has_terminator, slice_to}
use barnard_stormdragon_ai_f.Voice.Tunnel.{
  handled, tunnel_gap, out_of_range, position_of, coordinates, tunnel_heard, tunnel_deliver,
  tunnel_slice, tunnel_length, tunnel_sequenced, tunnel_after_gap, tunnel_sequence, tunnel_user,
  keep, tunnel_known, tunnel_session, handle_udp_tunnel,
}

-- The position that a listener is told, where all three coordinates were given.
unfoldable pub given : Option ℕ → Option ℕ → Option ℕ → Option (List ℕ)
given (some x) (some y) (some z) = some (x ∷ y ∷ z ∷ [])
given (some x) (some y) none = none
given (some x) none z = none
given none y z = none

-- A float32, by its bits.
abbrev pub IsFloat32 : Option ℕ → Type 0
IsFloat32 none = Unit
IsFloat32 (some x) = x < 2 ^ 32

read_float :
    (x : ℕ) (rest : List ℕ) → x < 2 ^ 32 → from_little_endian_32 (little_endian_32 x ++ rest) ≡ x
read_float x rest h = omega arith

position_of-floats :
    (x y z : Option ℕ)
    → IsFloat32 x
    → IsFloat32 y
    → IsFloat32 z
    → position_of (floats x y z) ≡ some (given x y z)
unfolding position_of floats given coordinates uint32_at
position_of-floats (some x) (some y) (some z) hx hy hz =
    ap (λ p. some (some p))
      (rw
        (
          read_float x (little_endian_32 y ++ little_endian_32 z) hx,
          read_float y (little_endian_32 z) hy,
          read_float z [] hz,
        )
        refl)
position_of-floats (some x) (some y) none hx hy hz = refl
position_of-floats (some x) none z hx hy hz = refl
position_of-floats none y z hx hy hz = refl

length_lem :
    (final : Bool) (n : ℕ)
    → n < 0x2000
    → (without_terminator (pos (len_field final n)) ≡ pos n)
      × (has_terminator (pos (len_field final n)) ≡ final)
unfolding without_terminator has_terminator
length_lem true n h =
    let len : bit_or n 0x2000 ≡ n + 0x2000 = or_shifted_low 13 1 n h in
    rw (len, and_0x2000 (n + 0x2000)) (ap pos (omega arith), ground arith)
length_lem false n h = rw (and_0x2000 n) (ap pos (omega arith), ground arith)

-- What the first byte says.
header_lem :
    (t : ℕ) (protobuf : Bool)
    → t < 32
    → let b = bit_or (4 * 2 ^ 5 % 256) t in
      ((protobuf && b == 0) ≡ false) × (not (b / 2 ^ 5 % 8 == 4) ≡ false) × (bit_and b 0x1F ≡ t)
header_lem t protobuf h =
    let b : bit_or (4 * 2 ^ 5 % 256) t ≡ 128 + t = or_shifted 5 4 t h in
    rw b (
      apart protobuf (128 + t) (omega arith),
      kind (128 + t) (omega arith),
      and_0x1f (128 + t) (omega arith) ∙ omega arith,
    )
  where
    apart : (p : Bool) (b : ℕ) → 1 ≤ b → (p && b == 0) ≡ false
    apart true b h = ==-false_of_pos b h
    apart false b h = refl

    kind : (b : ℕ) → b / 2 ^ 5 % 8 ≡ 4 → not (b / 2 ^ 5 % 8 == 4) ≡ false
    kind b e = rw e refl

module _ (D : Type 0) (sound_of : D → List ℕ → Option (List ℕ) × D) (reset : D → D) where
  -- Each step of the parser on the field that was written for it.
  length_field_lem :
      (s : Stream D) (d : D) (target : ℕ) (q l : ℤ) (rest : List ℕ)
      → IsInt64 l
      → (size : ℕ) → without_terminator l ≡ pos size
      → size < length rest + 1
      → tunnel_length D sound_of reset s d target q (encode l ++ rest) (decode (encode l ++ rest))
        ≡ tunnel_deliver D sound_of reset s target q
            (has_terminator l)
            (drop (length (take size rest)) rest)
            (sound_of d (take size rest))
  unfolding tunnel_length tunnel_slice slice_to out_of_range
  length_field_lem s d target q l rest hl size e h =
      let (a, b, c) = encode_bounds l hl in
      rw
        (
          decode-encode l rest hl,
          ==-false_of_pos (length (encode l)) b,
          ltb-false_of_le (length (encode l)) (length (encode l ++ rest))
              (omega (arith, length-append (encode l) rest)),
          drop-length_append (encode l) rest,
          e,
          ltb-false_of_le size (length rest) (omega (arith, h)),
        )
        refl

  sequence_field_lem :
      (s : Stream D) (d : D) (target : ℕ) (q : ℤ) (rest : List ℕ)
      → IsInt64 q
      → tunnel_gap s.valid (sub64 q s.sequence) ≡ onward
      → tunnel_sequence D sound_of reset s d target (encode q ++ rest) (decode (encode q ++ rest))
        ≡ tunnel_sequenced D sound_of reset s d target q rest
  unfolding tunnel_sequence tunnel_after_gap
  sequence_field_lem s d target q rest hq gap =
      let (a, b, c) = encode_bounds q hq in
      rw
        (
          decode-encode q rest hq,
          ==-false_of_pos (length (encode q)) b,
          ltb-false_of_le (length (encode q)) (length (encode q ++ rest))
              (omega (arith, length-append (encode q) rest)),
          drop-length_append (encode q) rest,
          gap,
        )
        refl

  session_field_lem :
      (codec : Option D) (users : Table (Stream D)) (target k : ℕ) (rest : List ℕ)
      → k < 2 ^ 32
      → tunnel_session D sound_of reset codec users target
          (encode (pos k) ++ rest)
          (decode (encode (pos k) ++ rest))
        ≡ tunnel_known D sound_of reset codec users k target rest (lookup k users)
  unfolding tunnel_session
  session_field_lem codec users target k rest hk =
      let (a, b, c) = encode_bounds (pos k) (omega arith) in
      let wide : k % 2 ^ 32 ≡ k = omega arith in
      rw
        (
          decode-encode (pos k) rest (omega arith),
          ==-false_of_pos (length (encode (pos k))) b,
          ltb-false_of_le (length (encode (pos k))) (length (encode (pos k) ++ rest))
              (omega (arith, length-append (encode (pos k)) rest)),
          drop-length_append (encode (pos k)) rest,
          wide,
        )
        refl

  abbrev pub after_packet : Stream D → ℤ → Bool → D → Stream D
  after_packet s q final d =
      if final
      then record s { decoder = some (reset d); sequence = q; valid = false }
      else record s { decoder = some d; sequence = q; valid = true }

  abbrev pub heard_packet : ℤ → List ℕ → ℕ → Bool → Option (List ℕ) → List Event
  heard_packet q pcm target final at =
      packet q pcm target 0 at ∷ (if final then terminator ∷ [] else [])

  deliver_lem :
      (s : Stream D) (d0 d : D) (target : ℕ) (q : ℤ) (final : Bool) (rest pcm : List ℕ)
      (at : Option (List ℕ))
      → position_of rest ≡ some at
      → tunnel_deliver D sound_of reset
          (record s { decoder = some d0; sequence = q; valid = true })
          target
          q
          final
          rest
          (some pcm, d)
        ≡ (after_packet s q final d, heard_packet q pcm target final at, handled)
  unfolding tunnel_deliver tunnel_heard
  deliver_lem s d0 d target q true rest pcm at e = rw e refl
  deliver_lem s d0 d target q false rest pcm at e = rw e refl

  -- What follows the sequence number.
  sound_lem :
      (s : Stream D) (d d' : D) (target : ℕ) (q : ℤ) (bytes pcm : List ℕ) (final : Bool)
      (x y z : Option ℕ)
      → length bytes < 0x2000
      → IsFloat32 x
      → IsFloat32 y
      → IsFloat32 z
      → sound_of d bytes ≡ (some pcm, d')
      → tunnel_sequenced D sound_of reset s d target q
          (encode (pos (len_field final (length bytes))) ++ (bytes ++ floats x y z))
        ≡ (after_packet s q final d', heard_packet q pcm target final (given x y z), handled)
  unfolding tunnel_sequenced
  sound_lem s d d' target q bytes pcm final x y z hb hx hy hz sound =
      let (size, last) = length_lem final (length bytes) hb in
      length_field_lem (record s { decoder = some d; sequence = q; valid = true }) d target q
        (pos (len_field final (length bytes))) (bytes ++ floats x y z)
        (len_field-IsInt64 final (length bytes) hb) (length bytes) size
        (omega (arith, length-append bytes (floats x y z)))
      ∙ rw
          (
            take-length_append bytes (floats x y z),
            drop-length_append bytes (floats x y z),
            last,
            sound,
          )
          (deliver_lem s d d' target q final (floats x y z) pcm (given x y z)
            (position_of-floats x y z hx hy hz))

  -- For a known session, a target below 32, an int64 sequence number that is no repetition, reordering or
  -- loss, fewer than 0x2000 bytes of sound and a decoder that takes them: the payload that WriteAudio and
  -- encodeLegacyUDPAudio make, with the session that the server puts behind its first byte, is heard as one
  -- packet, with its sequence number, target and position, and an end of the burst where it is the last;
  -- the user's stream stands at that number.
  pub tunnel_forwarded :
      (codec : Option D) (users : Table (Stream D)) (s : Stream D) (d d' : D) (session target : ℕ)
      (q : ℤ) (bytes pcm : List ℕ) (final : Bool) (x y z : Option ℕ) (protobuf : Bool)
      → session < 2 ^ 32
      → target < 32
      → IsInt64 q
      → length bytes < 0x2000
      → IsFloat32 x
      → IsFloat32 y
      → IsFloat32 z
      → lookup session users ≡ some s
      → (elim s.decoder [ some old ↦ some old | none ↦ codec ]) ≡ some d
      → tunnel_gap s.valid (sub64 q s.sequence) ≡ onward
      → sound_of d bytes ≡ (some pcm, d')
      → let payload = encode_legacy_udp_audio 4 target q bytes final x y z in
        handle_udp_tunnel D sound_of reset protobuf codec users
          (take 1 payload ++ (encode (pos session) ++ drop 1 payload))
        ≡ (
          insert session (after_packet s q final d') users,
          map (λ e. (session, e)) (heard_packet q pcm target final (given x y z)),
          handled,
        )
  unfolding handle_udp_tunnel tunnel_known tunnel_user keep encode_legacy_udp_audio
  tunnel_forwarded codec users s d d' session target q bytes pcm final x y z protobuf hk ht hq hb hx
        hy hz known decoder gap sound =
      let (new, opus, low) = header_lem target protobuf ht in
      rw (new, opus, low)
        (session_field_lem codec users target session
            (encode q ++ (encode (pos (len_field final (length bytes))) ++ (bytes ++ floats x y z)))
            hk
          ∙ rw (known, decoder)
              (ap (keep D sound_of reset users session) (
                sequence_field_lem s d target q
                  (encode (pos (len_field final (length bytes))) ++ (bytes ++ floats x y z)) hq gap
                ∙ sound_lem s d d' target q bytes pcm final x y z hb hx hy hz sound)))
