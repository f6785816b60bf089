-- ===== src/Ui/Tree/Tests.antt =====
-- Runs of the tree view of uiterm/tree.go, and the theorems at them.
use barnard_stormdragon_ai_f.Prelude.{ℕ, ◌≡◌, refl, List, [], ◌∷◌, Option, some, true, ◌==◌, arith}
use barnard_stormdragon_ai_f.Prelude.Int.{pos}
use barnard_stormdragon_ai_f.Ui.Tree.{
  Tree, fresh, Op, op_rebuild, op_line, steps, other, ui_key_event,
}
use barnard_stormdragon_ai_f.Ui.Tree.Bounds.{
  IsWellFormed, inside, reachable_tree-IsWellFormed, ui_key_event_total,
}

-- A channel that is its own only child.
abbrev cyclic : Option ℕ → List (Option ℕ)
cyclic item = some 7 ∷ []

abbrev ops : List (Op ℕ)
ops = op_rebuild (some cyclic) true (some (λ a b. a == b)) ∷ op_line (pos 70) true ∷ []

abbrev two_lines : Tree ℕ
two_lines = record {
  lines = record { level = 0; item = 5 } ∷ record { level = 1; item = 6 } ∷ [];
  active_line = pos 1;
}

abbrev two_lines-IsWellFormed : IsWellFormed ℕ two_lines
two_lines-IsWellFormed = record {
  bound = record { size = omega arith; depth = (omega arith, (omega arith, tt)) };
  within = inside 1 refl (omega arith);
}

reachable_tree-IsWellFormed_example : IsWellFormed ℕ (steps ℕ (fresh ℕ) ops)
reachable_tree-IsWellFormed_example = reachable_tree-IsWellFormed ℕ ops

ui_key_event_total_example :
    (u : Tree ℕ) × (item : Option ℕ) × (ui_key_event ℕ two_lines other ≡ some (u, item))
    × IsWellFormed ℕ u
ui_key_event_total_example = ui_key_event_total ℕ two_lines other two_lines-IsWellFormed
