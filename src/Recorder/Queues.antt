-- ===== src/Recorder/Queues.antt =====
-- The queues of recording/recorder.go: run and RecordAudioFrame keep every queue bounded, and run hands
-- whole chunks to the encoder.
use barnard_stormdragon_ai_f.Prelude.{
  ℕ, ◌*◌, ◌≤◌, ◌≡◌, List, [], ◌∷◌, Option, none, some, Bool, false, length, length-append,
  length-drop, length-replicate, take, All, All-append, All-replicate, arith, leb, ◌==◌, ◌||◌,
  if_ind, if◌then◌else◌, replicate,
}
use barnard_stormdragon_ai_f.Prelude.Int.{ℤ, pos}
use barnard_stormdragon_ai_f.Recorder.{
  Recorder, Frame, fresh, record_audio_frame, enqueue, mix, mix_queues, set_error, close_encoder,
  receive, tick, run_step, step, steps, Op, op_record, op_receive, op_tick, op_stop,
}
use barnard_stormdragon_ai_f.Recorder.Samples.{IsInt16, mix-IsInt16, append_capped-IsNewest}

abbrev pub IsCapped : Frame → Type 0
IsCapped f = length f.samples ≤ 480000

-- A chunk of `size` int16 samples.
abbrev pub IsChunk : ℕ → List ℤ → Type 0
IsChunk size chunk = All IsInt16 chunk × (length chunk ≡ size)

pub record IsWellFormed (size : ℕ) (r : Recorder) : Type 0 where
  pub input : length r.input ≤ 512
  pub queues : All IsCapped r.queues
  pub written : All (IsChunk size) r.written

enqueue-IsCapped :
    (queues : List Frame) (source : ℕ) (samples : List ℤ)
    → All IsCapped queues
    → All IsCapped (enqueue queues source samples)
unfolding enqueue
enqueue-IsCapped [] source samples h = ((append_capped-IsNewest [] samples).size, tt)
enqueue-IsCapped (q ∷ queues) source samples h =
    if_ind (All IsCapped) (q.source == source)
      (λ e. ((append_capped-IsNewest q.samples samples).size, h.1))
      (λ e. (h.0, enqueue-IsCapped queues source samples h.1))

-- What a range over the queues leaves.
record IsMixed (size : ℕ) (m : List ℤ × List Frame) : Type 0 where
  chunk : IsChunk size m.0
  queues : All IsCapped m.1

mix-IsChunk : (size : ℕ) (c s : List ℤ) → IsChunk size c → IsChunk size (mix c s)
mix-IsChunk size c s h = let (a, b) = mix-IsInt16 c s h.0 in (a, omega arith)

mix_queues-IsMixed :
    (n size : ℕ) (chunk : List ℤ) (queues : List Frame)
    → IsChunk n chunk
    → All IsCapped queues
    → IsMixed n (mix_queues size chunk queues)
unfolding mix_queues
mix_queues-IsMixed n size chunk [] hc hq = record { chunk = hc; queues = tt }
mix_queues-IsMixed n size chunk (q ∷ queues) hc hq =
    let more =
      mix_queues-IsMixed n size (mix chunk (take size q.samples)) queues
        (mix-IsChunk n chunk (take size q.samples) hc) hq.1 in
    if_ind (IsMixed n) (length q.samples == 0) (λ e. mix_queues-IsMixed n size chunk queues hc hq.1)
      λ e.
        if_ind (IsMixed n) (leb (length q.samples) size)
          (λ f.
            mix_queues-IsMixed n size (mix chunk q.samples) queues
              (mix-IsChunk n chunk q.samples hc) hq.1)
          λ f. record {
            chunk = more.chunk;
            queues = (omega (arith, length-drop size q.samples), more.queues);
          }

set_error-IsWellFormed :
    (size : ℕ) (r : Recorder) (e : Option ℕ)
    → IsWellFormed size r
    → IsWellFormed size (set_error r e)
unfolding set_error
set_error-IsWellFormed size r none h = h
set_error-IsWellFormed size r (some e) h = record {
  input = h.input;
  queues = h.queues;
  written = h.written;
}

close_encoder-IsWellFormed :
    (size : ℕ) (r : Recorder) (c w : Option ℕ)
    → IsWellFormed size r
    → IsWellFormed size (close_encoder r c w)
unfolding close_encoder
close_encoder-IsWellFormed size r c w h =
    let k = set_error-IsWellFormed size _ w (set_error-IsWellFormed size r c h) in
    record { input = k.input; queues = k.queues; written = k.written }

receive-IsWellFormed :
    (size : ℕ) (r : Recorder) (input : List Frame)
    → length input ≤ 512
    → IsWellFormed size r
    → IsWellFormed size (receive r input)
unfolding receive
receive-IsWellFormed size r [] l h = h
receive-IsWellFormed size r (f ∷ input) l h = record {
  input = omega arith;
  queues = enqueue-IsCapped r.queues f.source f.samples h.queues;
  written = h.written;
}

second_small : (a : Bool) (k : ℕ) → (a || leb 512 k) ≡ false → k ≤ 511
second_small a k h = ground arith

record_audio_frame-IsWellFormed :
    (size : ℕ) (r : Recorder) (source : ℕ) (samples : List ℤ) (stereo : Bool)
    → IsWellFormed size r
    → IsWellFormed size (record_audio_frame r source samples stereo)
unfolding record_audio_frame
record_audio_frame-IsWellFormed size r source samples stereo h =
    if_ind (IsWellFormed size) (length samples == 0 || leb 512 (length r.input)) (λ e. h)
      (λ e. record {
        input = omega (arith, second_small _ (length r.input) e, length-append r.input (_ ∷ []));
        queues = h.queues;
        written = h.written;
      })

mixed :
    (n : ℕ) (r : Recorder)
    → IsWellFormed (n * 2) r
    → IsMixed (n * 2) (mix_queues (n * 2) (replicate (n * 2) (pos 0)) r.queues)
mixed n r h =
    mix_queues-IsMixed (n * 2) (n * 2) (replicate (n * 2) (pos 0)) r.queues
      (
        All-replicate IsInt16 (n * 2) (pos 0) (omega arith, omega arith),
        length-replicate (n * 2) (pos 0),
      )
      h.queues

tick-IsWellFormed :
    (n : ℕ) (r : Recorder) (write c w : Option ℕ)
    → IsWellFormed (n * 2) r
    → IsWellFormed (n * 2) (tick n r write c w)
unfolding tick
tick-IsWellFormed n r none c w h =
    let m = mixed n r h in
    record {
      input = h.input;
      queues = m.queues;
      written = All-append (IsChunk (n * 2)) r.written (_ ∷ []) h.written (m.chunk, tt);
    }
tick-IsWellFormed n r (some e) c w h = close_encoder-IsWellFormed (n * 2) _ c w (
    set_error-IsWellFormed (n * 2) _ (some e)
      (record { input = h.input; queues = (mixed n r h).queues; written = h.written }))

run_step-IsWellFormed :
    (n : ℕ) (r : Recorder) (o : Op) → IsWellFormed (n * 2) r → IsWellFormed (n * 2) (run_step n r o)
unfolding run_step
run_step-IsWellFormed n r (op_record source samples stereo) h =
    record_audio_frame-IsWellFormed (n * 2) r source samples stereo h
run_step-IsWellFormed n r op_receive h = receive-IsWellFormed (n * 2) r r.input h.input h
run_step-IsWellFormed n r (op_tick write c w) h = tick-IsWellFormed n r write c w h
run_step-IsWellFormed n r (op_stop c w) h = close_encoder-IsWellFormed (n * 2) r c w h

while_running :
    (n : ℕ) (r : Recorder) (o : Op)
    → IsWellFormed (n * 2) r
    → IsWellFormed (n * 2) (if r.running then run_step n r o else r)
while_running n r o h =
    if_ind (IsWellFormed (n * 2)) r.running (λ e. run_step-IsWellFormed n r o h) (λ e. h)

step-IsWellFormed :
    (n : ℕ) (r : Recorder) (o : Op) → IsWellFormed (n * 2) r → IsWellFormed (n * 2) (step n r o)
unfolding step
step-IsWellFormed n r (op_record source samples stereo) h = run_step-IsWellFormed n r _ h
step-IsWellFormed n r op_receive h = while_running n r op_receive h
step-IsWellFormed n r (op_tick write c w) h = while_running n r (op_tick write c w) h
step-IsWellFormed n r (op_stop c w) h = while_running n r (op_stop c w) h

steps-IsWellFormed :
    (n : ℕ) (r : Recorder) (ops : List Op)
    → IsWellFormed (n * 2) r
    → IsWellFormed (n * 2) (steps n r ops)
unfolding steps
steps-IsWellFormed n r [] h = h
steps-IsWellFormed n r (o ∷ ops) h =
    steps-IsWellFormed n (step n r o) ops (step-IsWellFormed n r o h)

-- Whatever calls, frames, ticks and errors come in whatever order: at most 512 frames wait, no source
-- has more than 480000 samples queued, and every chunk that the encoder got has two int16 samples for
-- each of the `n` of a frame.
pub reachable_recorder-IsWellFormed :
    (n : ℕ) (ops : List Op) → IsWellFormed (n * 2) (steps n fresh ops)
reachable_recorder-IsWellFormed n ops =
    steps-IsWellFormed n fresh ops (record { input = omega arith; queues = tt; written = tt })
