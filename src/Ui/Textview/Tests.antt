-- ===== src/Ui/Textview/Tests.antt =====
-- Runs of the text view of uiterm/textview.go, and the theorems at them.
use barnard_stormdragon_ai_f.Prelude.{
  ℕ, ◌+◌, ◌-◌, ◌≤◌, ◌<◌, ◌≡◌, refl, List, [], ◌∷◌, arith, true, false, All,
}
use barnard_stormdragon_ai_f.Prelude.Int.{pos}
use barnard_stormdragon_ai_f.Ui.Textview.{
  Textview, fresh, Op, op_add, op_bounds, op_toggle, op_up, steps, visible_start_line, scroll_up,
  scroll_top, scroll_bottom, wrap_line, shown_text, trim_space, trim_left, trim_right, is_space,
  cut,
}
use barnard_stormdragon_ai_f.Ui.Textview.Wrap.{wrap_line_lem, concat, Fits}
use barnard_stormdragon_ai_f.Ui.Textview.Rebuild.{IsWellFormed, reachable-IsWellFormed}
use barnard_stormdragon_ai_f.Ui.Textview.Scroll.{visible_start_line_lem}

-- "[1] abcde"
abbrev message : List ℕ
message = 0x5B ∷ 0x31 ∷ 0x5D ∷ 0x20 ∷ 97 ∷ 98 ∷ 99 ∷ 100 ∷ 101 ∷ []

abbrev ops : List Op
ops = op_bounds (pos 0) (pos 0) (pos 4) (pos 2) ∷ op_add message ∷ op_up ∷ op_toggle ∷ []

abbrev view : Textview
view = record {
  lines = message ∷ [];
  current_line = 1;
  show_timestamps = true;
  parsed_lines = (0x5B ∷ 0x31 ∷ 0x5D ∷ 0x20 ∷ []) ∷ (97 ∷ 98 ∷ 99 ∷ 100 ∷ []) ∷ (101 ∷ []) ∷ [];
  x0 = pos 0;
  y0 = pos 0;
  x1 = pos 4;
  y1 = pos 2;
}

without_timestamp : shown_text false message ≡ 97 ∷ 98 ∷ 99 ∷ 100 ∷ 101 ∷ []
unfolding shown_text cut trim_space trim_left trim_right is_space
without_timestamp = refl

wrap_line_lem_example :
    (concat (wrap_line true message 4) ≡ shown_text true message)
    × All (Fits 4) (wrap_line true message 4)
wrap_line_lem_example = wrap_line_lem true message 4 (omega arith)

reachable-IsWellFormed_example : IsWellFormed (steps fresh ops)
reachable-IsWellFormed_example = reachable-IsWellFormed ops

visible_start_line_lem_example :
    (visible_start_line view 2 < 3)
    × (visible_start_line (scroll_bottom view) 2 ≡ 3 - 2)
    × (visible_start_line (scroll_top view) 2 ≡ 0)
    × (visible_start_line (scroll_up view) 2 ≤ visible_start_line view 2)
    × (visible_start_line view 2 ≤ visible_start_line (scroll_up view) 2 + 1)
visible_start_line_lem_example = visible_start_line_lem view 2 (omega arith) (omega arith)
