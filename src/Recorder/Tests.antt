-- ===== src/Recorder/Tests.antt =====
-- Runs of the recorder of recording/recorder.go, and the theorems at them.
use barnard_stormdragon_ai_f.Prelude.{◌≡◌, ◌*◌, refl, List, [], ◌∷◌, none, some, false}
use barnard_stormdragon_ai_f.Prelude.Int.{ℤ, pos, negsuc, ◌+ℤ◌}
use barnard_stormdragon_ai_f.Recorder.{
  fresh, Op, op_record, op_receive, op_tick, op_stop, steps, mix, saturate, pcm_bytes, to_uint16,
}
use barnard_stormdragon_ai_f.Recorder.Queues.{IsWellFormed, reachable_recorder-IsWellFormed}

abbrev loud : List ℤ
loud = pos 30000 ∷ negsuc 29999 ∷ pos 5 ∷ []

abbrev quiet : List ℤ
quiet = pos 3000 ∷ negsuc 2999 ∷ []

clipped : mix loud quiet ≡ pos 32767 ∷ negsuc 32767 ∷ pos 5 ∷ []
unfolding mix saturate ◌+ℤ◌
clipped = refl

little_endian : pcm_bytes (negsuc 0 ∷ pos 258 ∷ []) ≡ 255 ∷ 255 ∷ 2 ∷ 1 ∷ []
unfolding pcm_bytes to_uint16
little_endian = refl

abbrev ops : List Op
ops =
    op_record 4 (pos 1 ∷ pos 2 ∷ pos 3 ∷ []) false
    ∷ op_receive
    ∷ op_tick none none none
    ∷ op_stop none (some 1)
    ∷ op_receive
    ∷ []

reachable_recorder-IsWellFormed_example : IsWellFormed (2 * 2) (steps 2 fresh ops)
reachable_recorder-IsWellFormed_example = reachable_recorder-IsWellFormed 2 ops
