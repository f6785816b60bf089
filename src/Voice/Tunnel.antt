-- ===== src/Voice/Tunnel.antt =====
-- Voice that the server tunnels through the control connection: handleUDPTunnel and dispatchPLC of
-- gumble/gumble/handlers.go. A user's stream stands under its session, and what reaches the listeners is
-- a list of events with the session of the sender. The Opus decoder is a parameter.
pub mod Forwarded
pub mod Total
mod Tests
use barnard_stormdragon_ai_f.Prelude.{
  ℕ, zero, suc, ◌+◌, ◌-◌, ◌*◌, ◌/◌, ◌%◌, ◌^◌, bit_and, bit_or, List, [], ◌∷◌, ◌++◌, map, Option,
  none, some, Bool, true, false, not, ◌&&◌, ◌||◌, if◌then◌else◌, ltb, ◌==◌, length, take, drop,
}
use barnard_stormdragon_ai_f.Prelude.Int.{ℤ, pos, negsuc, pos_part}
use barnard_stormdragon_ai_f.Prelude.Table.{Table, lookup, insert}
use barnard_stormdragon_ai_f.Varint.{decode, to_int64, to_uint64}
use barnard_stormdragon_ai_f.UdpAudio.{Audio, decode_udp_audio, uint32_at}
use barnard_stormdragon_ai_f.Voice.Legacy.{without_terminator, has_terminator, slice_to}
use barnard_stormdragon_ai_f.Voice.{
  Event, packet, terminator, Stream, Voice, Gap, onward, reordered, duplicate, lost, sub64, add64,
  dispatch_opus15,
}

pub data TunnelError : Type 0 where
  malformed unsupported_audio no_codec decode_failed : TunnelError

-- How the handler ends; a slice expression or a read out of range panics.
pub data Ending : Type 0 where
  handled panicked : Ending
  failed : TunnelError → Ending

-- `seq - user.audioSequence`, where there is one.
unfoldable pub tunnel_gap : Bool → ℤ → Gap
tunnel_gap false gap = onward
tunnel_gap true (pos n) =
    if n == 0 then duplicate else if ltb 1 n && ltb n 100 then lost (n - 1) else onward
tunnel_gap true (negsuc n) = if ltb n 99 then reordered else onward

unfoldable pub out_of_range : List ℕ → ℤ → Bool
out_of_range buffer (negsuc n) = true
out_of_range buffer (pos n) = ltb (length buffer) n

unfoldable pub coordinates : Option ℕ → Option ℕ → Option ℕ → Option (Option (List ℕ))
coordinates (some x) (some y) (some z) = some (some (x ∷ y ∷ z ∷ []))
coordinates _ _ _ = none

-- What follows the sound is a position, if it is three float32; `none` is the panic of a read behind
-- the end of the buffer.
unfoldable pub position_of : List ℕ → Option (Option (List ℕ))
unfolding coordinates
position_of rest =
    if length rest == 12
    then coordinates (uint32_at 0 rest) (uint32_at 4 rest) (uint32_at 8 rest)
    else some none

abbrev pub Heard : Type 0 → Type 0
Heard D = Stream D × List Event × Ending

module _ (D : Type 0) (sound_of : D → List ℕ → Option (List ℕ) × D) (reset : D → D) where
  -- `dispatchPLC`, from what the decoder makes of no data.
  unfoldable pub tunnel_plc : ℕ → Stream D → Option (List ℕ) × D → (Stream D × D) × List Event
  tunnel_plc target s (none, d) = ((s, reset d), [])
  tunnel_plc target s (some pcm, d) =
      let next = add64 s.sequence (pos 1) in
      ((record s { sequence = next }, d), packet next pcm target 0 none ∷ [])

  unfoldable pub tunnel_conceal : ℕ → ℕ → Stream D → D → (Stream D × D) × List Event
  unfolding tunnel_plc
  tunnel_conceal zero target s d = ((s, d), [])
  tunnel_conceal (suc n) target s d =
      let ((s', d'), now) = tunnel_plc target s (sound_of d []) in
      let (r, later) = tunnel_conceal n target s' d' in (r, now ++ later)

  -- The packet, with where it is heard, and the end of the burst.
  unfoldable pub tunnel_heard :
      Stream D → (target : ℕ) → ℤ → Bool → List ℕ → D → Option (Option (List ℕ)) → Heard D
  tunnel_heard s target seq final pcm d none = (record s { decoder = some d }, [], panicked)
  tunnel_heard s target seq final pcm d (some at) =
      let heard = packet seq pcm target 0 at in
      if final
      then (record s { decoder = some (reset d); valid = false }, heard ∷ terminator ∷ [], handled)
      else (record s { decoder = some d }, heard ∷ [], handled)

  -- Behind the Opus decoder.
  unfoldable pub tunnel_deliver :
      Stream D → (target : ℕ) → ℤ → Bool → List ℕ → Option (List ℕ) × D → Heard D
  unfolding tunnel_heard
  tunnel_deliver s target seq final rest (none, d) =
      (record s { decoder = some (reset d) }, [], failed decode_failed)
  tunnel_deliver s target seq final rest (some pcm, d) =
      tunnel_heard s target seq final pcm d (position_of rest)

  unfoldable pub tunnel_slice :
      Stream D → D → (target : ℕ) → ℤ → Bool → List ℕ → Option (List ℕ) → Heard D
  unfolding tunnel_deliver
  tunnel_slice s d target seq final buffer none = (s, [], panicked)
  tunnel_slice s d target seq final buffer (some opus) =
      tunnel_deliver s target seq final (drop (length opus) buffer) (sound_of d opus)

  unfoldable pub tunnel_length : Stream D → D → (target : ℕ) → ℤ → List ℕ → ℤ × ℕ → Heard D
  unfolding tunnel_slice
  tunnel_length s d target seq bytes (len, n) =
      let buffer = drop n bytes in
      let size = without_terminator len in
      let rest = tunnel_slice s d target seq (has_terminator len) buffer (slice_to buffer size) in
      if n == 0
      then (s, [], failed malformed)
      else if ltb (length bytes) n
      then (s, [], panicked)
      else if out_of_range buffer size
      then (s, [], failed malformed)
      else rest

  unfoldable pub tunnel_sequenced : Stream D → D → (target : ℕ) → ℤ → List ℕ → Heard D
  unfolding tunnel_length
  tunnel_sequenced s d target seq bytes =
      tunnel_length (record s { decoder = some d; sequence = seq; valid = true }) d target seq bytes
        (decode bytes)

  unfoldable pub tunnel_after_gap : Stream D → D → (target : ℕ) → ℤ → List ℕ → Gap → Heard D
  unfolding tunnel_sequenced tunnel_conceal
  tunnel_after_gap s d target seq bytes onward = tunnel_sequenced s d target seq bytes
  tunnel_after_gap s d target seq bytes reordered = tunnel_sequenced s (reset d) target seq bytes
  tunnel_after_gap s d target seq bytes duplicate = (record s { decoder = some d }, [], handled)
  tunnel_after_gap s d target seq bytes (lost n) =
      let ((s', d'), concealed) = tunnel_conceal n target s d in
      let (s'', events, ending) = tunnel_sequenced s' d' target seq bytes in
      (s'', concealed ++ events, ending)

  unfoldable pub tunnel_sequence : Stream D → D → (target : ℕ) → List ℕ → ℤ × ℕ → Heard D
  unfolding tunnel_after_gap
  tunnel_sequence s d target bytes (seq, n) =
      let rest =
        tunnel_after_gap s d target seq (drop n bytes)
          (tunnel_gap s.valid (sub64 seq s.sequence)) in
      if n == 0
      then (record s { decoder = some d }, [], failed malformed)
      else if ltb (length bytes) n
      then (record s { decoder = some d }, [], panicked)
      else rest

  unfoldable pub tunnel_user : Stream D → (target : ℕ) → List ℕ → Option D → Heard D
  unfolding tunnel_sequence
  tunnel_user s target bytes none = (s, [], failed no_codec)
  tunnel_user s target bytes (some d) = tunnel_sequence s d target bytes (decode bytes)

  -- The streams of the users, with the one of this session as the handler leaves it.
  unfoldable pub keep :
      Table (Stream D) → ℕ → Heard D → Table (Stream D) × List (ℕ × Event) × Ending
  keep users session (s, events, ending) =
      (insert session s users, map (λ e. (session, e)) events, ending)

  unfoldable pub tunnel_known :
      Option D
      → Table (Stream D)
      → (session target : ℕ) → List ℕ
      → Option (Stream D)
      → Table (Stream D) × List (ℕ × Event) × Ending
  unfolding tunnel_user keep
  tunnel_known codec users session target bytes none = (users, [], failed malformed)
  tunnel_known codec users session target bytes (some s) =
      keep users session
        (tunnel_user s target bytes (elim s.decoder [ some d ↦ some d | none ↦ codec ]))

  unfoldable pub tunnel_session :
      Option D
      → Table (Stream D)
      → (target : ℕ) → List ℕ
      → ℤ × ℕ
      → Table (Stream D) × List (ℕ × Event) × Ending
  unfolding tunnel_known
  tunnel_session codec users target bytes (session, n) =
      let k = to_uint64 session % 2 ^ 32 in
      let rest = tunnel_known codec users k target (drop n bytes) (lookup k users) in
      if n == 0
      then (users, [], failed malformed)
      else if ltb (length bytes) n
      then (users, [], panicked)
      else rest

  -- A message of the newer format goes to dispatchOpus15, which drops what has no known user.
  unfoldable pub tunnel_opus15 :
      Option D
      → Table (Stream D)
      → Audio
      → Option (Stream D)
      → Table (Stream D) × List (ℕ × Event) × Ending
  unfolding keep
  tunnel_opus15 codec users a none = (users, [], handled)
  tunnel_opus15 codec users a (some s) =
      let (s', events) = dispatch_opus15 D sound_of reset codec s (record {
        frame = to_int64 a.frame;
        opus = a.opus;
        final = a.terminator;
        context = a.context;
        position = a.position;
        volume = a.volume;
      }) in
      keep users a.session (s', events, handled)

  -- `none` is where `decodeUDPAudio` would panic.
  unfoldable pub tunnel_message :
      Option D → Table (Stream D) → Option Audio → Table (Stream D) × List (ℕ × Event) × Ending
  unfolding tunnel_opus15
  tunnel_message codec users none = (users, [], panicked)
  tunnel_message codec users (some a) =
      if a.session == 0
      then (users, [], failed malformed)
      else tunnel_opus15 codec users a (lookup a.session users)

  -- `handleUDPTunnel`, with whether the server speaks the newer format, and what NewDecoder would return.
  unfoldable pub handle_udp_tunnel :
      Bool → Option D → Table (Stream D) → List ℕ → Table (Stream D) × List (ℕ × Event) × Ending
  unfolding tunnel_message tunnel_session
  handle_udp_tunnel protobuf codec users [] = (users, [], failed malformed)
  handle_udp_tunnel protobuf codec users (b ∷ buffer) =
      let message = tunnel_message codec users (decode_udp_audio buffer) in
      let voice = tunnel_session codec users (bit_and b 0x1F) buffer (decode buffer) in
      if protobuf && b == 0
      then message
      else if not (b / 2 ^ 5 % 8 == 4)
      then (users, [], failed unsupported_audio)
      else voice
