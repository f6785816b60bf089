-- ===== src/Voice/Gaps.antt =====
-- Lost packets in decodeAndDispatch of gumble/gumble/udp15.go.
use barnard_stormdragon_ai_f.Prelude.{
  ℕ, zero, suc, ◌+◌, ◌*◌, ◌/◌, ◌%◌, ◌≤◌, ◌<◌, ◌≡◌, refl, ap, ◌∙◌, List, ◌++◌, Option, none, some,
  Bool, true, false, [], ◌∷◌, not, length, ltb, if◌then◌else◌, arith,
}
use barnard_stormdragon_ai_f.Prelude.Int.{ℤ, pos}
use native.Mathlib.Nat.{mul-div_cancel, mul-mod_left}
use barnard_stormdragon_ai_f.Voice.{
  sub64, missing_audio_packets, Event, packet, terminator, audio_frame_step, Stream, Voice, lost,
  classify, add64, plc, conceal, deliver, after_gap, decode_and_dispatch,
}

missing_of :
    (g step n : ℕ)
    → g / step ≡ n + 2
    → g % step ≡ 0
    → 1 ≤ step
    → step < g
    → missing_audio_packets (pos g) step ≡ n + 1
unfolding missing_audio_packets
missing_of g step n d m hs hg = rw (d, m) (ground arith)

lost_gap :
    (g step : ℕ)
    → 1 ≤ step
    → step < g
    → g < 100
    → classify true (pos g) step ≡ lost (missing_audio_packets (pos g) step)
unfolding classify
lost_gap g step hs hg h = ground arith

above_step : (n step : ℕ) → 1 ≤ step → step < (n + 2) * step
above_step n step h = grind arith

-- `n + 1` lost packets, by their frame numbers.
classify_lost :
    (n step : ℕ)
    → 1 ≤ step
    → (n + 2) * step < 100
    → classify true (pos ((n + 2) * step)) step ≡ lost (n + 1)
classify_lost n step h lt =
    lost_gap ((n + 2) * step) step h (above_step n step h) lt
    ∙ ap lost (
        missing_of ((n + 2) * step) step n (mul-div_cancel (n + 2) (omega arith))
          (mul-mod_left (n + 2) step) h (above_step n step h))

-- A decoder that gives sound for every packet: `sound` is what is heard, `next` its state behind it.
module _ (D : Type 0) (sound : D → List ℕ → List ℕ) (next : D → List ℕ → D) (reset : D → D) where
  abbrev decodes : D → List ℕ → Option (List ℕ) × D
  decodes d bytes = (some (sound d bytes), next d bytes)

  -- The packets that conceal `n` lost ones: number `i`, `i + 1`, … behind `sequence`, at this step.
  unfoldable pub concealing : (n i step : ℕ) → ℤ → D → List Event
  concealing zero i step sequence d = []
  concealing (suc n) i step sequence d =
      packet (add64 sequence (pos (i * step))) (sound d []) 0 0 none
      ∷ concealing n (i + 1) step sequence (next d [])

  unfoldable pub behind_lost : ℕ → D → D
  behind_lost zero d = d
  behind_lost (suc n) d = behind_lost n (next d [])

  conceal_lem :
      (n i step : ℕ) (sequence : ℤ) (d : D)
      → conceal D decodes reset n i step sequence d
        ≡ (behind_lost n d, concealing n i step sequence d)
  unfolding conceal plc concealing behind_lost
  conceal_lem zero i step sequence d = refl
  conceal_lem (suc n) i step sequence d = rw (conceal_lem n (i + 1) step sequence (next d [])) refl

  -- The stream behind a packet, and what is heard of it, from the decoder `d` that is given it.
  unfoldable pub stream_behind : D → Voice → Stream D
  stream_behind d v = record {
    decoder = some (if v.final then reset (next d v.opus) else next d v.opus);
    sequence = v.frame;
    valid = not v.final;
    step = if v.final then 0 else audio_frame_step (length (sound d v.opus));
  }

  unfoldable pub heard_of : D → Voice → List Event
  heard_of d v =
      packet v.frame (sound d v.opus) v.context v.volume v.position
      ∷ (if v.final then terminator ∷ [] else [])

  deliver_lem :
      (s : Stream D) (d : D) (v : Voice) (events : List Event) (final : Bool)
      → v.final ≡ final
      → deliver D decodes reset s v events (decodes d v.opus)
        ≡ (stream_behind d v, events ++ heard_of d v)
  unfolding deliver stream_behind heard_of
  deliver_lem s d v events true e = rw e refl
  deliver_lem s d v events false e = rw e refl

  -- With a decoder that gives sound for every packet, when `n + 1` packets of the stream's frame step
  -- are lost, less than 100 frames in all, the listeners hear, in this order: `n + 1` packets from the
  -- decoder without data, numbered one step apart from the last number on; the packet itself, under its
  -- frame number; and a terminator if it ends the burst. The stream stands at that frame, with the
  -- decoder reset and no frame step if the burst has ended.
  pub lost_packets_concealed :
      (s : Stream D) (d : D) (v : Voice) (n : ℕ)
      → s.valid ≡ true
      → 1 ≤ s.step
      → (n + 2) * s.step < 100
      → sub64 v.frame s.sequence ≡ pos ((n + 2) * s.step)
      → decode_and_dispatch D decodes reset s d v ≡ (
        stream_behind (behind_lost (n + 1) d) v,
        concealing (n + 1) 1 s.step s.sequence d ++ heard_of (behind_lost (n + 1) d) v,
      )
  unfolding decode_and_dispatch after_gap
  lost_packets_concealed s d v n valid step lt gap =
      let e : classify s.valid (sub64 v.frame s.sequence) s.step ≡ lost (n + 1) =
        rw (valid, gap) (classify_lost n s.step step lt) in
      let one : (if ltb s.step 1 then 1 else s.step) ≡ s.step = ground (arith, step) in
      rw (e, one, conceal_lem (n + 1) 1 s.step s.sequence d)
        (deliver_lem s (behind_lost (n + 1) d) v (concealing (n + 1) 1 s.step s.sequence d) v.final
          refl)
