-- ===== src/Listeners/Tests.antt =====
-- Listeners of gumble/gumble/listeners.go that come and go, and the theorem there.
use barnard_stormdragon_ai_f.Prelude.{◌≡◌, refl, List, [], ◌∷◌, map}
use barnard_stormdragon_ai_f.Prelude.Table.{change}
use barnard_stormdragon_ai_f.Listeners.{
  no_listeners, dispatch, attach, detach, set_next, set_prev, walk,
}
use barnard_stormdragon_ai_f.Listeners.Plain.{Op, op_attach, op_detach, run, step, plain_run}
use barnard_stormdragon_ai_f.Listeners.Refined.{nobody_attached, dispatch-run}

-- The middle one of three is taken out, twice.
abbrev ops : List Op
ops = op_attach 5 ∷ op_attach 6 ∷ op_attach 7 ∷ op_detach 1 ∷ op_detach 1 ∷ []

two_left : dispatch (run ops no_listeners) ≡ 5 ∷ 7 ∷ []
unfolding dispatch run step attach detach set_next set_prev walk change
two_left = refl

dispatch-run_example :
    dispatch (run ops no_listeners)
    ≡ map (plain_run ops nobody_attached).who (plain_run ops nobody_attached).order
dispatch-run_example = dispatch-run ops
