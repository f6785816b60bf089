-- ===== src/Voice.antt =====
-- Incoming voice of gumble/gumble/udp15.go: missingAudioPackets, audioFrameStep, dispatchPLC15,
-- decodeAndDispatch and dispatchOpus15 for one user. The Opus decoder is a parameter; its Decode may
-- fail, and changes its state either way. What reaches the listeners is a list of events.
pub mod Gaps
pub mod Legacy
pub mod Socket
pub mod Tunnel
mod Tests
use barnard_stormdragon_ai_f.Prelude.{
  ℕ, zero, suc, ◌+◌, ◌-◌, ◌*◌, ◌/◌, ◌%◌, ◌^◌, List, [], ◌∷◌, ◌++◌, Option, none, some, Bool, true,
  false, not, ◌&&◌, ◌||◌, if◌then◌else◌, ltb, leb, ◌==◌, length,
}
use barnard_stormdragon_ai_f.Prelude.Int.{ℤ, pos, negsuc, ltb_ℤ}
use barnard_stormdragon_ai_f.Varint.{to_int64, to_uint64}

abbrev pub audio_channels : ℕ
audio_channels = 2

abbrev pub audio_default_frame_size : ℕ
audio_default_frame_size = 480

-- int64 subtraction and addition wrap.
unfoldable pub sub64 : ℤ → ℤ → ℤ
sub64 a b = to_int64 ((to_uint64 a + 2 ^ 64 - to_uint64 b) % 2 ^ 64)

unfoldable pub add64 : ℤ → ℤ → ℤ
add64 a b = to_int64 ((to_uint64 a + to_uint64 b) % 2 ^ 64)

-- A frame step is never negative.
unfoldable pub missing_audio_packets : ℤ → ℕ → ℕ
missing_audio_packets (negsuc n) step = 0
missing_audio_packets (pos gap) step =
    if ltb step 1 || (leb gap step || not (gap % step == 0)) then 0 else gap / step - 1

unfoldable pub audio_frame_step : ℕ → ℕ
audio_frame_step samples =
    let step = samples / audio_channels / audio_default_frame_size in if ltb step 1 then 1 else step

-- A decoded packet, with the fields of AudioPacket that its origin decides, or the end of a burst.
pub data Event : Type 0 where
  packet : (sequence : ℤ) (pcm : List ℕ) (target volume : ℕ) (position : Option (List ℕ)) → Event
  terminator : Event

-- The audio fields of a User.
pub record Stream (D : Type 0) : Type 0 where
  pub decoder : Option D
  pub sequence : ℤ
  pub valid : Bool
  pub step : ℕ

-- One voice packet, however it was framed.
pub record Voice : Type 0 where
  pub frame : ℤ
  pub opus : List ℕ
  pub final : Bool
  pub context : ℕ
  pub position : Option (List ℕ)
  pub volume : ℕ

-- What the frame number says of a packet, seen after another one.
pub data Gap : Type 0 where
  onward reordered duplicate : Gap
  lost : ℕ → Gap

unfoldable pub classify : Bool → ℤ → ℕ → Gap
classify valid gap step =
    let step = if ltb step 1 then 1 else step in
    if not valid
    then onward
    else if ltb_ℤ (pos step) gap && ltb_ℤ gap (pos 100)
    then lost (missing_audio_packets gap step)
    else if ltb_ℤ gap (pos 0) && ltb_ℤ (negsuc 99) gap
    then reordered
    else if elim gap [ pos n ↦ n == 0 | negsuc n ↦ false ]
    then duplicate
    else onward

module _ (D : Type 0) (decode : D → List ℕ → Option (List ℕ) × D) (reset : D → D) where
  -- `dispatchPLC15`, from what the decoder makes of no data.
  unfoldable pub plc : ℤ → Option (List ℕ) × D → D × List Event
  plc sequence (none, d) = (reset d, [])
  plc sequence (some pcm, d) = (d, packet sequence pcm 0 0 none ∷ [])

  -- The loop over the missing packets: `n` are left, the next one is number `i`.
  unfoldable pub conceal : ℕ → ℕ → ℕ → ℤ → D → D × List Event
  unfolding plc
  conceal zero i step sequence d = (d, [])
  conceal (suc n) i step sequence d =
      let (d', now) = plc (add64 sequence (pos (i * step))) (decode d []) in
      let (d'', later) = conceal n (i + 1) step sequence d' in (d'', now ++ later)

  -- Behind the gap: the packet itself, and the end of the burst.
  unfoldable pub deliver :
      Stream D → Voice → List Event → Option (List ℕ) × D → Stream D × List Event
  deliver s v events (none, d) = (record s { decoder = some (reset d) }, events)
  deliver s v events (some pcm, d) =
      let heard = packet v.frame pcm v.context v.volume v.position in
      if v.final
      then (
        record { decoder = some (reset d); sequence = v.frame; valid = false; step = 0 },
        events ++ (heard ∷ terminator ∷ []),
      )
      else (
        record {
          decoder = some d;
          sequence = v.frame;
          valid = true;
          step = audio_frame_step (length pcm);
        },
        events ++ (heard ∷ []),
      )

  unfoldable pub after_gap : Stream D → D → Voice → Gap → Stream D × List Event
  unfolding deliver conceal
  after_gap s d v onward = deliver s v [] (decode d v.opus)
  after_gap s d v reordered = deliver s v [] (decode (reset d) v.opus)
  after_gap s d v duplicate = (record s { decoder = some d }, [])
  after_gap s d v (lost n) =
      let (d', events) = conceal n 1 (if ltb s.step 1 then 1 else s.step) s.sequence d in
      deliver s v events (decode d' v.opus)

  unfoldable pub decode_and_dispatch : Stream D → D → Voice → Stream D × List Event
  unfolding after_gap
  decode_and_dispatch s d v = after_gap s d v (classify s.valid (sub64 v.frame s.sequence) s.step)

  -- With a decoder, the user's own or a new one.
  unfoldable pub with_decoder : Stream D → Voice → Option D → Stream D × List Event
  unfolding decode_and_dispatch
  with_decoder s v none = (s, [])
  with_decoder s v (some d) =
      if v.final && length v.opus == 0
      then (record s { decoder = some (reset d); valid = false; step = 0 }, terminator ∷ [])
      else decode_and_dispatch s d v

  -- `dispatchOpus15` for a known user; `codec` is what NewDecoder would return, if there is a codec.
  unfoldable pub dispatch_opus15 : Option D → Stream D → Voice → Stream D × List Event
  unfolding with_decoder
  dispatch_opus15 codec s v =
      if length v.opus == 0 && not v.final
      then (s, [])
      else with_decoder s v (elim s.decoder [ some d ↦ some d | none ↦ codec ])
