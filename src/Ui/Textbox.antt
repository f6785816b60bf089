-- ===== src/Ui/Textbox.antt =====
-- The history of the input line in uiterm/textbox.go: addHistory, previousHistory, nextHistory,
-- resetHistoryNavigation, and the keys that submit and discard a line. A string is the list of its
-- runes. The cursor and the editing of a line are left out.
pub mod History
mod Tests
use barnard_stormdragon_ai_f.Prelude.{
  ℕ, zero, suc, ◌+◌, ◌-◌, List, [], ◌∷◌, ◌++◌, Option, none, some, Bool, true, false, ◌&&◌,
  if◌then◌else◌, ltb, ◌==◌, length, get_elem?, same_text,
}
use barnard_stormdragon_ai_f.Ui.Textview.{trim_space}

pub record Textbox : Type 0 where
  pub text : List ℕ
  pub history : List (List ℕ)
  pub history_index : ℕ
  pub history_draft : List ℕ

abbrev pub fresh : Textbox
fresh = record { text = []; history = []; history_index = 0; history_draft = [] }

-- Whether the newest entry is `text`.
unfoldable pub repeats : List (List ℕ) → List ℕ → Bool
repeats history text = elim (get_elem? history (length history - 1)) [
  | none ↦ false
  | some last ↦ same_text last text
]

unfoldable pub add_history : Textbox → List ℕ → Textbox
add_history t text =
    if length (trim_space text) == 0
    then t
    else if ltb 0 (length t.history) && repeats t.history text
    then record t { history_index = length t.history }
    else record t { history = t.history ++ (text ∷ []); history_index = length t.history + 1 }

unfoldable pub reset_history_navigation : Textbox → Textbox
reset_history_navigation t = record t { history_index = length t.history; history_draft = [] }

-- `t.setText(t.history[t.historyIndex])`; `none` for an index out of range, a panic.
unfoldable pub show_entry : Textbox → Option (List ℕ) → Option (Textbox × Bool)
show_entry t none = none
show_entry t (some text) = some (record t { text = text }, true)

-- The text box, and whether to draw it.
unfoldable pub previous_history : Textbox → Option (Textbox × Bool)
previous_history t =
    let draft = if t.history_index == length t.history then t.text else t.history_draft in
    let index = t.history_index - 1 in
    let back : Textbox = record t { history_draft = draft; history_index = index } in
    if length t.history == 0 then some (t, false) else show_entry back (get_elem? t.history index)

unfoldable pub next_history : Textbox → Option (Textbox × Bool)
next_history t =
    let index = t.history_index + 1 in
    let on : Textbox = record t { history_index = index } in
    let end : Textbox = record t {
      history_index = length t.history;
      text = t.history_draft;
      history_draft = [];
    } in
    let shown = show_entry on (get_elem? t.history index) in
    if length t.history == 0
    then some (t, false)
    else if t.history_index == length t.history
    then some (t, false)
    else if ltb t.history_index (length t.history - 1)
    then shown
    else some (end, true)

-- KeyEnter, behind the call of the input callback with the text, and KeyCtrlC.
unfoldable pub enter : Textbox → Textbox
enter t = reset_history_navigation (record (add_history t t.text) { text = [] })

unfoldable pub discard : Textbox → Textbox
discard t = reset_history_navigation (record t { text = [] })
