-- ===== src/Listeners/Audio/Tests.antt =====
-- Runs of the audio listeners.
use barnard_stormdragon_ai_f.Prelude.{◌≡◌, refl, List, [], ◌∷◌, true, false}
use barnard_stormdragon_ai_f.Prelude.Int.{pos}
use barnard_stormdragon_ai_f.Prelude.Table.{lookup, insert, delete, change}
use barnard_stormdragon_ai_f.Listeners.{attach, detach, set_next, set_prev}
use barnard_stormdragon_ai_f.Listeners.Audio.{
  Section, attaches, detaches, leaves, notes, delivers, enter_section, enter_all, silent_hub,
  attach_audio, detach_audio, close_all, close_pipe, items_from, drop_user, drop_stream,
  note_deliveries, open_stream, buffer_size, deliver_audio, send, is_pipe,
}
use barnard_stormdragon_ai_f.Listeners.Audio.Fewer.{IsQuiet}
use barnard_stormdragon_ai_f.Listeners.Audio.Safety.{enter_all-IsQuiet, silent_hub-IsQuiet}

-- User 5 speaks to the listeners 7 and 8 and leaves before the second delivery; then 7 detaches.
abbrev talk : List Section
talk =
    attaches 7
    ∷ attaches 8
    ∷ notes (pos 1) 5
    ∷ delivers 5 90 (record { item = 0; pipe = 0; is_new = true })
    ∷ delivers 5 91 (record { item = 0; pipe = 0; is_new = false })
    ∷ leaves 5
    ∷ delivers 5 90 (record { item = 1; pipe = 1; is_new = true })
    ∷ detaches 0
    ∷ detaches 0
    ∷ []

talk-queue : ((enter_all talk silent_hub).pipe_at 0).queue ≡ 90 ∷ []
unfolding enter_all enter_section attach attach_audio detach detach_audio close_all close_pipe
    items_from drop_user drop_stream note_deliveries open_stream buffer_size deliver_audio send
    is_pipe lookup insert delete change set_next set_prev
talk-queue = refl

talk-closed : ((enter_all talk silent_hub).pipe_at 1).closed ≡ true
unfolding enter_all enter_section attach attach_audio detach detach_audio close_all close_pipe
    items_from drop_user drop_stream note_deliveries open_stream buffer_size deliver_audio send
    is_pipe lookup insert delete change set_next set_prev
talk-closed = refl

enter_all-IsQuiet_example : IsQuiet (enter_all talk silent_hub)
enter_all-IsQuiet_example = enter_all-IsQuiet talk silent_hub silent_hub-IsQuiet
