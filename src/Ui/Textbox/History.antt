-- ===== src/Ui/Textbox/History.antt =====
-- Moves through the history of uiterm/textbox.go.
use barnard_stormdragon_ai_f.Prelude.{
  ℕ, zero, suc, ◌-◌, ◌≤◌, ◌<◌, ◌≡◌, refl, sym, List, [], ◌∷◌, some, true, length, get_elem?, arith,
}
use barnard_stormdragon_ai_f.Ui.Textbox.{Textbox, show_entry, previous_history, next_history}

entry : (l : List (List ℕ)) (k : ℕ) → k < length l → (x : List ℕ) × (get_elem? l k ≡ some x)
entry [] k h = absurd (omega arith)
entry (x ∷ l) zero h = (x, refl)
entry (x ∷ l) (suc k) h = entry l k (omega arith)

-- At the end of a history that is not empty: `previousHistory` shows the newest entry, and `nextHistory`
-- then restores the line as it was typed, at the end of the history again.
pub next-previous_history :
    (text draft : List ℕ) (history : List (List ℕ))
    → 1 ≤ length history
    → let t : Textbox = record {
      text = text;
      history = history;
      history_index = length history;
      history_draft = draft;
    } in
      (u : Textbox) × (previous_history t ≡ some (u, true))
      × (some u.text ≡ get_elem? history (length history - 1))
      × (next_history u ≡ some (record t { history_draft = [] }, true))
unfolding previous_history next_history show_entry
next-previous_history text draft history h =
    let (x, e) = entry history (length history - 1) (omega arith) in
    (
      record {
        text = x;
        history = history;
        history_index = length history - 1;
        history_draft = text;
      },
      rw e (ground arith),
      sym e,
      ground arith,
    )
