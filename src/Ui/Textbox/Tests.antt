-- ===== src/Ui/Textbox/Tests.antt =====
-- Runs of the input line of uiterm/textbox.go, and the theorems at them.
use barnard_stormdragon_ai_f.Prelude.{◌≡◌, [], ◌∷◌, some, true, get_elem?, arith}
use barnard_stormdragon_ai_f.Ui.Textbox.{Textbox, previous_history, next_history}
use barnard_stormdragon_ai_f.Ui.Textbox.History.{next-previous_history}

abbrev box : Textbox
box = record {
  text = 97 ∷ [];
  history = (98 ∷ []) ∷ (99 ∷ []) ∷ [];
  history_index = 2;
  history_draft = [];
}

next-previous_history_example :
    (u : Textbox) × (previous_history box ≡ some (u, true))
    × (some u.text ≡ get_elem? box.history 1)
    × (next_history u ≡ some (box, true))
next-previous_history_example =
    next-previous_history (97 ∷ []) [] ((98 ∷ []) ∷ (99 ∷ []) ∷ []) (omega arith)
