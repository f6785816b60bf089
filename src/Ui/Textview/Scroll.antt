-- ===== src/Ui/Textview/Scroll.antt =====
-- What stands on the screen in uiterm/textview.go: visibleStartLine and the scroll keys.
use barnard_stormdragon_ai_f.Prelude.{ℕ, ◌+◌, ◌-◌, ◌≤◌, ◌<◌, ◌≡◌, length, arith, ltb, if_ind}
use barnard_stormdragon_ai_f.Ui.Textview.{
  Textview, visible_start_line, scroll_up, scroll_top, scroll_bottom,
}

start_at :
    (t : Textview) (h : ℕ)
    → 1 ≤ h
    → visible_start_line t h ≡ length t.parsed_lines - h - t.current_line
unfolding visible_start_line
start_at t h hh = ground arith

-- The first row of `u` is that of `t`, or the line before it.
record IsStepUp (t : Textview) (h : ℕ) (u : Textview) : Type 0 where
  above : visible_start_line u h ≤ visible_start_line t h
  close : visible_start_line t h ≤ visible_start_line u h + 1

scroll_up-IsStepUp : (t : Textview) (h : ℕ) → 1 ≤ h → IsStepUp t h (scroll_up t)
unfolding scroll_up
scroll_up-IsStepUp t h hh =
    let up = start_at (record t { current_line = t.current_line + 1 }) h hh in
    if_ind (IsStepUp t h) (ltb (t.current_line + 1) (length t.parsed_lines))
      (λ e. record {
        above = omega (arith, up, start_at t h hh);
        close = omega (arith, up, start_at t h hh);
      })
      (λ e. record { above = omega arith; close = omega arith })

-- In a view of `h` rows over `n` wrapped lines, `h` and `n` not 0, the first row is one of the lines;
-- scrolled to the bottom, it is `n - h`, so the last line is in view; scrolled to the top, it is 0; and
-- one step up moves it by at most one line, never down.
pub visible_start_line_lem :
    (t : Textview) (h : ℕ)
    → 1 ≤ h
    → 1 ≤ length t.parsed_lines
    → (visible_start_line t h < length t.parsed_lines)
      × (visible_start_line (scroll_bottom t) h ≡ length t.parsed_lines - h)
      × (visible_start_line (scroll_top t) h ≡ 0)
      × (visible_start_line (scroll_up t) h ≤ visible_start_line t h)
      × (visible_start_line t h ≤ visible_start_line (scroll_up t) h + 1)
unfolding scroll_bottom scroll_top
visible_start_line_lem t h hh hn =
    let up = scroll_up-IsStepUp t h hh in
    (
      omega (arith, start_at t h hh),
      omega (arith, start_at (scroll_bottom t) h hh),
      omega (arith, start_at (scroll_top t) h hh),
      up.above,
      up.close,
    )
