-- ===== src/Conn/Audio.antt =====
-- WriteAudio of gumble/gumble/conn.go sends, in a packet of its own, what encodeLegacyUDPAudio of
-- gumble/gumble/udp15.go makes of the same audio.
use barnard_stormdragon_ai_f.Prelude.{
  ℕ, ◌+◌, ◌*◌, ◌%◌, ◌^◌, ◌<◌, ◌≤◌, ◌≡◌, refl, sym, ap, ◌∙◌, List, [], ◌∷◌, ◌++◌, Option, none, some,
  Bool, true, false, if◌then◌else◌, if_ind, ltb, ◌==◌, length, take, drop, arith, bit_or,
  length-append, length-drop, take-length_append, drop-length_append, append-nil, append_assoc,
  replicate,
}
use barnard_stormdragon_ai_f.Prelude.Int.{ℤ, pos}
use barnard_stormdragon_ai_f.Varint.{encode, encode_into, IsInt64}
use barnard_stormdragon_ai_f.Varint.Bounds.{encode_bounds}
use barnard_stormdragon_ai_f.Voice.Legacy.{floats, encode_legacy_udp_audio}
use barnard_stormdragon_ai_f.Voice.Legacy.RoundTrip.{len_field-IsInt64}
use barnard_stormdragon_ai_f.Conn.{
  Wire, delivered, then_write, write_header, write_packet, AudioError, needs_position, coordinates,
  write_all, send_audio, write_audio,
}

-- `Encode` into a buffer that has room.
encode_into_fits :
    (b : List ℕ) (v : ℤ)
    → 1 ≤ length (encode v)
    → length (encode v) ≤ length b
    → encode_into b v ≡ (encode v ++ drop (length (encode v)) b, length (encode v))
unfolding encode_into
encode_into_fits b v some_byte room =
    if_ind (λ r. r ≡ (encode v ++ drop (length (encode v)) b, length (encode v)))
      (length (encode v) == 0) (λ e. absurd (grind (arith, some_byte)))
      (λ e.
        if_ind (λ r. r ≡ (encode v ++ drop (length (encode v)) b, length (encode v)))
          (ltb (length b) (length (encode v))) (λ f. absurd (grind (arith, room))) (λ f. refl))

unfoldable joined : List (List ℕ) → List ℕ
joined [] = []
joined (b ∷ bs) = b ++ joined bs

write_all_sent :
    (bs : List (List ℕ)) (sent : List ℕ)
    → write_all bs (record { sent = sent; fate = [] }, true)
      ≡ (record { sent = sent ++ joined bs; fate = [] }, true)
unfolding write_all then_write delivered joined
write_all_sent [] sent =
    ap (λ (s : List ℕ). (record { sent = s; fate = [] }, true)) (sym (append-nil sent))
write_all_sent (b ∷ bs) sent =
    write_all_sent bs (sent ++ b)
    ∙ ap (λ (s : List ℕ). (record { sent = s; fate = [] }, true)) (simp append_assoc)

same_list : (a b : List (List ℕ)) → some a ≡ some b → a ≡ b
same_list a b h = cc h

-- The coordinates that are sent are those of the datagram.
joined-coordinates :
    (x y z : Option ℕ) (at : List (List ℕ))
    → coordinates x y z ≡ some at
    → (joined at ≡ floats x y z) × (4 * length at ≡ length (floats x y z))
unfolding coordinates floats joined
joined-coordinates none none none at e = rw (← same_list [] at e) (refl, refl)
joined-coordinates (some x) (some y) (some z) at e = rw (← same_list _ at e) (refl, refl)
joined-coordinates (some x) (some y) none at e = absurd (cc e)
joined-coordinates (some x) none z at e = absurd (cc e)
joined-coordinates none (some y) z at e = absurd (cc e)
joined-coordinates none none (some z) at e = absurd (cc e)

-- What WriteAudio answers, from the coordinates.
unfoldable pub as_packet :
    List ℕ → Wire → Option (List (List ℕ)) → (Wire × Bool) × Option AudioError
as_packet payload w none = ((w, false), some needs_position)
as_packet payload w (some at) = (write_packet 1 payload w, none)

send_audio-as_packet :
    (header bytes sent : List ℕ) (x y z : Option ℕ) (at : Option (List (List ℕ)))
    → coordinates x y z ≡ at
    → send_audio header bytes (record { sent = sent; fate = [] }) at
      ≡ as_packet (header ++ (bytes ++ floats x y z)) (record { sent = sent; fate = [] }) at
unfolding send_audio as_packet write_packet write_header then_write delivered joined
send_audio-as_packet header bytes sent x y z none e = refl
send_audio-as_packet header bytes sent x y z (some at) e =
    let (same, size) = joined-coordinates x y z at e in
    let whole : length header + length bytes + 4 * length at
        ≡ length (header ++ (bytes ++ floats x y z)) =
      omega (
        arith,
        size,
        length-append header (bytes ++ floats x y z),
        length-append bytes (floats x y z),
      ) in
    rw (whole, write_all_sent (header ∷ bytes ∷ at) _, ← same)
      (ap (λ (s : List ℕ). ((record { sent = s; fate = [] }, true), none)) refl)

-- The bytes in front of the sound.
encoded_lengths :
    (s l : ℤ)
    → IsInt64 s
    → IsInt64 l
    → let (front, n) = encode_into (replicate 20 0) s in
      let (back, m) = encode_into (drop n front) l in
      (take n front ≡ encode s) × (take m back ≡ encode l) × (1 ≤ n) × (1 ≤ m)
encoded_lengths s l hs hl =
    let (_, s1, s10) = encode_bounds s hs in
    let (_, l1, l10) = encode_bounds l hl in
    let zeros : List ℕ = replicate 20 0 in
    let front = encode_into_fits zeros s s1 (omega (arith, s10)) in
    let room = drop-length_append (encode s) (drop (length (encode s)) zeros) in
    rw (front, room)
      (rw
        (encode_into_fits (drop (length (encode s)) zeros) l l1
          (omega (arith, l10, s10, length-drop (length (encode s)) zeros)))
        (
          take-length_append (encode s) (drop (length (encode s)) zeros),
          take-length_append (encode l) (drop (length (encode l)) (drop (length (encode s)) zeros)),
          s1,
          l1,
        ))

-- For an int64 sequence number and fewer than 0x2000 bytes of sound, over a connection that does not fail:
-- WriteAudio is refused, with nothing sent, where only some coordinates are given; else it sends, as one
-- packet of kind 1, exactly the payload that encodeLegacyUDPAudio makes for UDP.
pub write_audio-encode_legacy_udp_audio :
    (format target : ℕ) (sequence : ℤ) (final : Bool) (bytes : List ℕ) (x y z : Option ℕ)
    (sent : List ℕ)
    → IsInt64 sequence
    → length bytes < 0x2000
    → let w : Wire = record { sent = sent; fate = [] } in
      write_audio format target sequence final bytes x y z w
      ≡ as_packet
          (encode_legacy_udp_audio format target sequence bytes final x y z)
          w
          (coordinates x y z)
unfolding write_audio encode_legacy_udp_audio
write_audio-encode_legacy_udp_audio format target sequence final bytes x y z sent hs hb =
    let l : ℤ = pos (if final then bit_or (length bytes) 0x2000 else length bytes) in
    let (front_is, back_is, n1, m1) =
      encoded_lengths sequence l hs (len_field-IsInt64 final (length bytes) hb) in
    let w : Wire = record { sent = sent; fate = [] } in
    let first = bit_or (format * 2 ^ 5 % 256) target in
    let header = first ∷ (encode sequence ++ encode l) in
    let goal : (Wire × Bool) × Option AudioError =
      as_packet (encode_legacy_udp_audio format target sequence bytes final x y z) w
        (coordinates x y z) in
    let n = (encode_into (replicate 20 0) sequence).1 in
    let m = (encode_into (drop n (encode_into (replicate 20 0) sequence).0) l).1 in
    if_ind (λ r. r ≡ goal) (n == 0) (λ e. absurd (grind (arith, n1)))
      (λ e.
        if_ind (λ r. r ≡ goal) (m == 0) (λ f. absurd (grind (arith, m1)))
          (λ f.
            rw (front_is, back_is)
              (send_audio-as_packet header bytes sent x y z (coordinates x y z) refl
                ∙ ap (λ (p : List ℕ). as_packet (first ∷ p) w (coordinates x y z))
                    (simp append_assoc))))
