-- ===== src/Recorder.antt =====
-- The mixer of recording/recorder.go: RecordAudioFrame, run, Stop and what they call. An int16 is an
-- integer in range. The encoder process is input and output: what its pipe answers comes with the step
-- that asks. An error is a number.
pub mod Samples
pub mod Queues
mod Tests
use barnard_stormdragon_ai_f.Prelude.{
  ℕ, zero, suc, ◌+◌, ◌-◌, ◌*◌, ◌/◌, ◌%◌, ◌^◌, List, [], ◌∷◌, ◌++◌, Option, none, some, Bool, true,
  false, not, ◌||◌, if◌then◌else◌, ltb, leb, ◌==◌, length, take, drop, replicate,
}
use barnard_stormdragon_ai_f.Prelude.Int.{ℤ, pos, negsuc, ltb_ℤ, ◌+ℤ◌}

abbrev pub max_queued_samples : ℕ
max_queued_samples = 480000

abbrev pub input_capacity : ℕ
input_capacity = 512

abbrev pub audio_channels : ℕ
audio_channels = 2

-- The sum of two samples, cut to an int16.
unfoldable pub saturate : ℤ → ℤ
saturate sum =
    if ltb_ℤ (pos 32767) sum
    then pos 32767
    else if ltb_ℤ sum (negsuc 32767)
    then negsuc 32767
    else sum

-- `mix`, which writes to `dst` as far as `src` reaches.
unfoldable pub mix : List ℤ → List ℤ → List ℤ
mix [] src = []
mix (x ∷ dst) [] = x ∷ dst
mix (x ∷ dst) (y ∷ src) = saturate (x +ℤ y) ∷ mix dst src

unfoldable pub append_capped : List ℤ → List ℤ → List ℤ
append_capped queue incoming =
    let all = queue ++ incoming in
    if ltb max_queued_samples (length all) then drop (length all - max_queued_samples) all else all

unfoldable pub doubled : List ℤ → List ℤ
doubled [] = []
doubled (s ∷ samples) = s ∷ s ∷ doubled samples

unfoldable pub normalize_stereo_frame : List ℤ → Bool → List ℤ
normalize_stereo_frame samples stereo = if stereo then samples else doubled samples

-- `uint16(sample)`
unfoldable pub to_uint16 : ℤ → ℕ
to_uint16 (pos n) = n % 2 ^ 16
to_uint16 (negsuc n) = 2 ^ 16 - 1 - n % 2 ^ 16

-- The bytes that `writePCM` hands to the encoder.
unfoldable pub pcm_bytes : List ℤ → List ℕ
pcm_bytes [] = []
pcm_bytes (s ∷ samples) = to_uint16 s % 256 ∷ to_uint16 s / 256 ∷ pcm_bytes samples

pub record Frame : Type 0 where
  pub source : ℕ
  pub samples : List ℤ

-- The fields of a Recorder and the variables of `run`. The map of queues is a list in the order in
-- which a range visits it; `written` is what the encoder got; `running` is false after `run` returns.
pub record Recorder : Type 0 where
  pub input : List Frame
  pub queues : List Frame
  pub written : List (List ℤ)
  pub running : Bool
  pub error : Option ℕ

abbrev pub fresh : Recorder
fresh = record { input = []; queues = []; written = []; running = true; error = none }

-- An empty frame is dropped, and so is one that finds the channel full.
unfoldable pub record_audio_frame : Recorder → ℕ → List ℤ → Bool → Recorder
record_audio_frame r source samples stereo =
    let frame : Frame = record {
      source = source;
      samples = normalize_stereo_frame samples stereo;
    } in
    if length samples == 0 || leb input_capacity (length r.input)
    then r
    else record r { input = r.input ++ (frame ∷ []) }

-- `queues[source] = appendCapped(queues[source], samples)`
unfoldable pub enqueue : List Frame → ℕ → List ℤ → List Frame
enqueue [] source samples = record { source = source; samples = append_capped [] samples } ∷ []
enqueue (q ∷ queues) source samples =
    let later = enqueue queues source samples in
    if q.source == source
    then record q { samples = append_capped q.samples samples } ∷ queues
    else q ∷ later

-- The range over the queues in a tick: the mixed chunk and what is left of the queues.
unfoldable pub mix_queues : ℕ → List ℤ → List Frame → List ℤ × List Frame
mix_queues size chunk [] = (chunk, [])
mix_queues size chunk (q ∷ queues) =
    let skipped = mix_queues size chunk queues in
    let (last, rest) = mix_queues size (mix chunk q.samples) queues in
    let (more, kept) = mix_queues size (mix chunk (take size q.samples)) queues in
    if length q.samples == 0
    then skipped
    else if leb (length q.samples) size
    then (last, rest)
    else (more, record q { samples = drop size q.samples } ∷ kept)

-- Only the first error is kept.
unfoldable pub set_error : Recorder → Option ℕ → Recorder
set_error r none = r
set_error r (some e) = record r { error = elim r.error [ none ↦ some e | some first ↦ some first ] }

-- `closeEncoder` and the return of `run`; `close` is an error other than os.ErrClosed.
unfoldable pub close_encoder : Recorder → (close wait : Option ℕ) → Recorder
close_encoder r close wait = record (set_error (set_error r close) wait) { running = false }

-- One turn of the select in `run`, or a call of RecordAudioFrame.
pub data Op : Type 0 where
  op_record : (source : ℕ) (samples : List ℤ) (stereo : Bool) → Op
  op_receive : Op
  op_tick : (write close wait : Option ℕ) → Op
  op_stop : (close wait : Option ℕ) → Op

unfoldable pub receive : Recorder → List Frame → Recorder
receive r [] = r
receive r (f ∷ input) = record r { input = input; queues = enqueue r.queues f.source f.samples }

unfoldable pub tick : ℕ → Recorder → (write close wait : Option ℕ) → Recorder
tick frame_size r write close wait =
    let size = frame_size * audio_channels in
    let (chunk, queues) = mix_queues size (replicate size (pos 0)) r.queues in
    let mixed : Recorder = record r { queues = queues; written = r.written ++ (chunk ∷ []) } in
    elim write [
      | none ↦ mixed
      | some e ↦ close_encoder (set_error (record r { queues = queues }) (some e)) close wait
    ]

unfoldable pub run_step : ℕ → Recorder → Op → Recorder
run_step frame_size r (op_record source samples stereo) = record_audio_frame r source samples stereo
run_step frame_size r op_receive = receive r r.input
run_step frame_size r (op_tick write close wait) = tick frame_size r write close wait
run_step frame_size r (op_stop close wait) = close_encoder r close wait

-- After `run` returns only RecordAudioFrame still acts.
unfoldable pub step : ℕ → Recorder → Op → Recorder
step frame_size r (op_record source samples stereo) =
    run_step frame_size r (op_record source samples stereo)
step frame_size r op_receive = if r.running then run_step frame_size r op_receive else r
step frame_size r (op_tick write close wait) =
    if r.running then run_step frame_size r (op_tick write close wait) else r
step frame_size r (op_stop close wait) =
    if r.running then run_step frame_size r (op_stop close wait) else r

unfoldable pub steps : ℕ → Recorder → List Op → Recorder
steps frame_size r [] = r
steps frame_size r (o ∷ ops) = steps frame_size (step frame_size r o) ops
