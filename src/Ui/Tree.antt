-- ===== src/Ui/Tree.antt =====
-- The tree view of uiterm/tree.go. The items are of any type; the generator, which lists the children
-- of an item and may list nil, and the comparison of items are arguments. Drawing is left out.
pub mod Bounds
mod Tests
use barnard_stormdragon_ai_f.Prelude.{
  ℕ, zero, suc, ◌+◌, ◌-◌, List, [], ◌∷◌, ◌++◌, Option, none, some, Bool, true, false, not, ◌&&◌,
  if◌then◌else◌, leb, ◌==◌, length, get_elem?,
}
use barnard_stormdragon_ai_f.Prelude.Int.{ℤ, pos, negsuc, ltb_ℤ, ◌+ℤ◌, ◌-ℤ◌}

abbrev pub max_tree_depth : ℕ
max_tree_depth = 64

abbrev pub max_tree_lines : ℕ
max_tree_lines = 100000

unfoldable pub bounded : ℤ → ℤ → ℤ → ℤ
bounded i lower upper = if ltb_ℤ i lower then lower else if ltb_ℤ upper i then upper else i

pub data Key : Type 0 where
  arrow_up arrow_down other : Key

module _ (A : Type 0) where
  pub record Rendered : Type 0 where
    pub level : ℕ
    pub item : A

  pub record Tree : Type 0 where
    pub lines : List Rendered
    pub active_line : ℤ

  -- The zero value.
  abbrev pub fresh : Tree
  fresh = record { lines = []; active_line = pos 0 }

  -- `lines[i]`, `none` out of bounds (a panic).
  unfoldable pub at : {B : Type 0} → List B → ℤ → Option B
  at l (pos n) = get_elem? l n
  at l (negsuc n) = none

  unfoldable pub set_active_line : Tree → ℤ → Bool → Tree
  set_active_line t num relative =
      let to = if relative then t.active_line +ℤ num else num in
      record t { active_line = bounded to (pos 0) (pos (length t.lines) -ℤ pos 1) }

  unfoldable pub active_item : Tree → Option A
  active_item t =
      if length t.lines == 0
      then none
      else elim (at t.lines (bounded t.active_line (pos 0) (pos (length t.lines) -ℤ pos 1))) [
        | none ↦ none
        | some r ↦ some r.item
      ]

  -- The first line, from number `i` on, that is the same item.
  unfoldable pub find_line : (A → Bool) → List Rendered → ℕ → Option ℕ
  find_line same [] i = none
  find_line same (r ∷ lines) i =
      let later = find_line same lines (i + 1) in if same r.item then some i else later

  unfoldable pub move_to : Tree → Option ℕ → Tree
  move_to t none = t
  move_to t (some line) = set_active_line t (pos line) false

  -- The tree, and whether the item is in it. A nil target or comparison finds nothing.
  unfoldable pub set_active_item : Tree → Option A → Option (A → A → Bool) → Tree × Bool
  set_active_item t (some target) (some same) =
      let found = find_line (same target) t.lines 0 in
      (move_to t found, elim found [ none ↦ false | some line ↦ true ])
  set_active_item t none same = (t, false)
  set_active_item t (some target) none = (t, false)

  -- `for _, item := range ... { if len(lines) >= maxTreeLines { break }; lines = f(lines, item) }`
  unfoldable pub append_each :
      (List Rendered → Option A → List Rendered) → List Rendered → List (Option A) → List Rendered
  append_each f lines [] = lines
  append_each f lines (i ∷ items) =
      let rest = append_each f (f lines i) items in
      if leb max_tree_lines (length lines) then lines else rest

  -- `rebuild_rec` at level `max_tree_depth - left`.
  unfoldable pub rebuild_rec :
      (Option A → List (Option A)) → ℕ → List Rendered → Option A → List Rendered
  rebuild_rec gen zero lines parent = lines
  rebuild_rec gen (suc left) lines none = lines
  rebuild_rec gen (suc left) lines (some parent) =
      let new : Rendered = record { level = max_tree_depth - suc left; item = parent } in
      let all = append_each (rebuild_rec gen left) (lines ++ (new ∷ [])) (gen (some parent)) in
      if leb max_tree_lines (length lines) then lines else all

  unfoldable pub rebuilt_lines : (Option A → List (Option A)) → List Rendered
  rebuilt_lines gen = append_each (rebuild_rec gen max_tree_depth) [] (gen none)

  -- Back to the item that was active, if it is still there.
  unfoldable pub restore : Option A → Option (A → A → Bool) → Tree → Tree
  restore (some previous) (some same) t = move_to t (find_line (same previous) t.lines 0)
  restore none same t = t
  restore (some previous) none t = t

  unfoldable pub rebuild :
      Option (Option A → List (Option A)) → Bool → Option (A → A → Bool) → Tree → Tree
  rebuild none preserve same t = record t { lines = [] }
  rebuild (some gen) preserve same t =
      let new : Tree = record t { lines = rebuilt_lines gen } in
      if preserve
      then restore (active_item t) same (set_active_line new t.active_line false)
      else set_active_line new (pos 0) false

  -- The tree, and the item that the key listener is called with; `none` for a panic.
  unfoldable pub ui_key_event : Tree → Key → Option (Tree × Option A)
  ui_key_event t arrow_up =
      if length t.lines == 0 then some (t, none) else some (set_active_line t (negsuc 0) true, none)
  ui_key_event t arrow_down =
      if length t.lines == 0 then some (t, none) else some (set_active_line t (pos 1) true, none)
  ui_key_event t other =
      if length t.lines == 0
      then some (t, none)
      else elim (at t.lines t.active_line) [ none ↦ none | some r ↦ some (t, some r.item) ]

  -- The item that the character listener is called with; `none` for a panic.
  unfoldable pub ui_character_event : Tree → Option (Option A)
  ui_character_event t =
      if length t.lines == 0
      then some none
      else elim (at t.lines t.active_line) [ none ↦ none | some r ↦ some (some r.item) ]

  -- What the program does to a tree.
  pub data Op : Type 0 where
    op_rebuild :
        Option (Option A → List (Option A)) → (preserve : Bool) → Option (A → A → Bool) → Op
    op_line : ℤ → (relative : Bool) → Op
    op_item : Option A → Option (A → A → Bool) → Op

  unfoldable pub step : Tree → Op → Tree
  step t (op_rebuild gen preserve same) = rebuild gen preserve same t
  step t (op_line num relative) = set_active_line t num relative
  step t (op_item target same) = (set_active_item t target same).0

  unfoldable pub steps : Tree → List Op → Tree
  steps t [] = t
  steps t (o ∷ ops) = steps (step t o) ops
