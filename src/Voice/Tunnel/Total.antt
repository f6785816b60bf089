-- ===== src/Voice/Tunnel/Total.antt =====
-- No tunnelled packet makes handleUDPTunnel of gumble/gumble/handlers.go panic.
use barnard_stormdragon_ai_f.Prelude.{
  ℕ, ◌≡◌, ◌≢◌, List, [], ◌∷◌, Option, none, some, Bool, true, false, ◌&&◌, not, ◌==◌, if_ind, drop,
  length, ltb, ltb-false_of_le, ◌≤◌, refl, arith, All, IsByte, All-drop, ◌/◌, ◌%◌, ◌^◌, bit_and,
}
use barnard_stormdragon_ai_f.Prelude.Int.{ℤ, pos, negsuc}
use barnard_stormdragon_ai_f.Prelude.Table.{Table, lookup}
use barnard_stormdragon_ai_f.Varint.{decode}
use barnard_stormdragon_ai_f.UdpAudio.{Audio, decode_udp_audio}
use barnard_stormdragon_ai_f.UdpAudio.Total.{decode_udp_audio_total}
use barnard_stormdragon_ai_f.UdpAudio.Words.{uint32_at-fits}
use barnard_stormdragon_ai_f.Varint.Bounds.{decode_bounds}
use barnard_stormdragon_ai_f.Voice.{Event, Stream, Gap, onward, reordered, duplicate, lost}
use barnard_stormdragon_ai_f.Voice.Legacy.{without_terminator, has_terminator, slice_to}
use barnard_stormdragon_ai_f.Voice.Tunnel.{
  Ending, handled, panicked, failed, out_of_range, position_of, coordinates, tunnel_heard, Heard,
  tunnel_deliver, tunnel_slice, tunnel_length, tunnel_sequenced, tunnel_after_gap, tunnel_sequence,
  tunnel_user, keep, tunnel_known, tunnel_session, tunnel_opus15, tunnel_message, handle_udp_tunnel,
}

unfoldable IsOver : Ending → Type 0
IsOver handled = Unit
IsOver panicked = ⊥
IsOver (failed e) = Unit

-- Where twelve bytes are left the three reads of four are in range.
position_of-some : (rest : List ℕ) → (at : Option (List ℕ)) × (position_of rest ≡ some at)
unfolding position_of coordinates
position_of-some rest =
    if_ind (λ r. (at : Option (List ℕ)) × (r ≡ some at)) (length rest == 12)
      (λ e.
        let twelve : 12 ≤ length rest = ground arith in
        rw
          (
            uint32_at-fits 0 rest (omega arith),
            uint32_at-fits 4 rest (omega arith),
            uint32_at-fits 8 rest (omega arith),
          )
          (_, refl))
      (λ _. (none, refl))

-- What `Decode` has read of a buffer of bytes is in the buffer.
behind_in_range : (bytes : List ℕ) → All IsByte bytes → ltb (length bytes) (decode bytes).1 ≡ false
behind_in_range bytes h = ltb-false_of_le (decode bytes).1 (length bytes) (decode_bounds bytes h).0

module _ (D : Type 0) (sound_of : D → List ℕ → Option (List ℕ) × D) (reset : D → D) where
  abbrev Ends : Heard D → Type 0
  Ends r = IsOver r.2

  abbrev EndsAll : Table (Stream D) × List (ℕ × Event) × Ending → Type 0
  EndsAll r = IsOver r.2

  heard-Ends :
      (s : Stream D) (target : ℕ) (q : ℤ) (final : Bool) (pcm : List ℕ) (d : D)
      (at : Option (List ℕ))
      → Ends (tunnel_heard D sound_of reset s target q final pcm d (some at))
  unfolding tunnel_heard IsOver
  heard-Ends s target q true pcm d at = tt
  heard-Ends s target q false pcm d at = tt

  deliver-Ends :
      (s : Stream D) (target : ℕ) (q : ℤ) (final : Bool) (rest : List ℕ) (r : Option (List ℕ) × D)
      → Ends (tunnel_deliver D sound_of reset s target q final rest r)
  unfolding tunnel_deliver IsOver
  deliver-Ends s target q final rest (none, d) = tt
  deliver-Ends s target q final rest (some pcm, d) =
      let (at, e) = position_of-some rest in rw e (heard-Ends s target q final pcm d at)

  -- A size that passes the test of the handler is in range.
  slice-Ends :
      (s : Stream D) (d : D) (target : ℕ) (q : ℤ) (final : Bool) (buffer : List ℕ) (size : ℤ)
      → out_of_range buffer size ≡ false
      → Ends (tunnel_slice D sound_of reset s d target q final buffer (slice_to buffer size))
  unfolding tunnel_slice slice_to out_of_range
  slice-Ends s d target q final buffer (negsuc n) e = absurd (cc e)
  slice-Ends s d target q final buffer (pos n) e =
      rw e (deliver-Ends s target q final _ (sound_of d _))

  length-Ends :
      (s : Stream D) (d : D) (target : ℕ) (q : ℤ) (bytes : List ℕ)
      → All IsByte bytes
      → Ends (tunnel_length D sound_of reset s d target q bytes (decode bytes))
  unfolding tunnel_length IsOver
  length-Ends s d target q bytes h = rw (behind_in_range bytes h) (
      if_ind Ends (n == 0) (λ e. tt)
        (λ e.
          if_ind Ends (out_of_range buffer (without_terminator len)) (λ f. tt)
            (λ f. slice-Ends s d target q (has_terminator len) buffer (without_terminator len) f)))
    where
      len : ℤ
      len = (decode bytes).0

      n : ℕ
      n = (decode bytes).1

      buffer : List ℕ
      buffer = drop n bytes

  after_gap-Ends :
      (s : Stream D) (d : D) (target : ℕ) (q : ℤ) (bytes : List ℕ) (gap : Gap)
      → All IsByte bytes
      → Ends (tunnel_after_gap D sound_of reset s d target q bytes gap)
  unfolding tunnel_after_gap tunnel_sequenced IsOver
  after_gap-Ends s d target q bytes onward h = length-Ends _ d target q bytes h
  after_gap-Ends s d target q bytes reordered h = length-Ends _ (reset d) target q bytes h
  after_gap-Ends s d target q bytes duplicate h = tt
  after_gap-Ends s d target q bytes (lost n) h = length-Ends _ _ target q bytes h

  sequence-Ends :
      (s : Stream D) (d : D) (target : ℕ) (bytes : List ℕ)
      → All IsByte bytes
      → Ends (tunnel_sequence D sound_of reset s d target bytes (decode bytes))
  unfolding tunnel_sequence IsOver
  sequence-Ends s d target bytes h =
      let (q, n) = decode bytes in
      rw (behind_in_range bytes h) (
        if_ind Ends (n == 0) (λ e. tt)
          (λ e. after_gap-Ends s d target q (drop n bytes) _ (All-drop IsByte n bytes h)))

  user-Ends :
      (s : Stream D) (target : ℕ) (bytes : List ℕ) (d : Option D)
      → All IsByte bytes
      → Ends (tunnel_user D sound_of reset s target bytes d)
  unfolding tunnel_user IsOver
  user-Ends s target bytes none h = tt
  user-Ends s target bytes (some d) h = sequence-Ends s d target bytes h

  known-Ends :
      (codec : Option D) (users : Table (Stream D)) (k target : ℕ) (bytes : List ℕ)
      (s : Option (Stream D))
      → All IsByte bytes
      → EndsAll (tunnel_known D sound_of reset codec users k target bytes s)
  unfolding tunnel_known keep IsOver
  known-Ends codec users k target bytes none h = tt
  known-Ends codec users k target bytes (some s) h = user-Ends s target bytes _ h

  session-Ends :
      (codec : Option D) (users : Table (Stream D)) (target : ℕ) (bytes : List ℕ)
      → All IsByte bytes
      → EndsAll (tunnel_session D sound_of reset codec users target bytes (decode bytes))
  unfolding tunnel_session IsOver
  session-Ends codec users target bytes h =
      let (k, n) = decode bytes in
      rw (behind_in_range bytes h) (
        if_ind EndsAll (n == 0) (λ e. tt)
          (λ e. known-Ends codec users _ target (drop n bytes) _ (All-drop IsByte n bytes h)))

  opus15-Ends :
      (codec : Option D) (users : Table (Stream D)) (a : Audio) (s : Option (Stream D))
      → EndsAll (tunnel_opus15 D sound_of reset codec users a s)
  unfolding tunnel_opus15 keep IsOver
  opus15-Ends codec users a none = tt
  opus15-Ends codec users a (some s) = tt

  message-Ends :
      (codec : Option D) (users : Table (Stream D)) (bytes : List ℕ)
      → EndsAll (tunnel_message D sound_of reset codec users (decode_udp_audio bytes))
  unfolding tunnel_message IsOver
  message-Ends codec users bytes =
      let (a, e) = decode_udp_audio_total bytes in
      rw e (
        if_ind EndsAll (a.session == 0) (λ _. tt)
          (λ _. opus15-Ends codec users a (lookup a.session users)))

  tunnel-Ends :
      (protobuf : Bool) (codec : Option D) (users : Table (Stream D)) (bytes : List ℕ)
      → All IsByte bytes
      → EndsAll (handle_udp_tunnel D sound_of reset protobuf codec users bytes)
  unfolding handle_udp_tunnel IsOver
  tunnel-Ends protobuf codec users [] h = tt
  tunnel-Ends protobuf codec users (b ∷ bytes) h =
      if_ind EndsAll (protobuf && b == 0) (λ e. message-Ends codec users bytes)
        (λ e.
          if_ind EndsAll (not (b / 2 ^ 5 % 8 == 4)) (λ f. tt)
            (λ f. session-Ends codec users (bit_and b 0x1F) bytes h.1))

  over_not_panicked : (e : Ending) → IsOver e → e ≢ panicked
  unfolding IsOver
  over_not_panicked handled h = λ e. cc e
  over_not_panicked panicked h = absurd h
  over_not_panicked (failed x) h = λ e. cc e

  -- Whatever bytes the server tunnels, with whatever streams, decoder and codec, handleUDPTunnel does not
  -- slice or read its buffer out of range: it is done with the packet, or it refuses it with an error.
  pub handle_udp_tunnel_safe :
      (protobuf : Bool) (codec : Option D) (users : Table (Stream D)) (bytes : List ℕ)
      → All IsByte bytes
      → (handle_udp_tunnel D sound_of reset protobuf codec users bytes).2 ≢ panicked
  handle_udp_tunnel_safe protobuf codec users bytes h =
      over_not_panicked _ (tunnel-Ends protobuf codec users bytes h)
