-- ===== src/Ui/Textview/Rebuild.antt =====
-- What a view keeps in uiterm/textview.go: the wrapped lines that AddLine extends are those that
-- updateParsedLines would build.
use barnard_stormdragon_ai_f.Prelude.{
  ℕ, ◌+◌, ◌-◌, ◌≤◌, ◌≡◌, refl, sym, List, [], ◌∷◌, ◌++◌, Bool, length, length-drop, arith,
  append-nil, if◌then◌else◌, ◌==◌, ◌||◌, ltb, if_ind, ltb→lt, ltb-false→le, ◌≢◌, true, false,
}
use barnard_stormdragon_ai_f.Ui.Textview.{
  Textview, fresh, Op, op_add, op_clear, op_toggle, op_up, op_down, op_top, op_bottom, op_bounds,
  wrap_all, wrap_line, width, clamp, clamp_current_line, update_parsed_lines, add_line, clear,
  toggle_timestamps, set_bounds, scroll_up, scroll_down, scroll_top, scroll_bottom, step, steps,
}
use barnard_stormdragon_ai_f.Ui.Textview.Wrap.{wrap_all-append}

-- All stored lines, wrapped anew.
abbrev pub rebuilt : Bool → ℕ → List (List ℕ) → List (List ℕ)
rebuilt show w lines = if w == 0 then [] else wrap_all show w lines

-- The wrapped lines are what a rebuild gives, the history is bounded, and the scroll position is a line.
pub record IsWellFormed (t : Textview) : Type 0 where
  pub parsed : t.parsed_lines ≡ rebuilt t.show_timestamps (width t) t.lines
  pub bounded : length t.lines ≤ 10000
  pub within : t.current_line ≤ length t.parsed_lines - 1

clamp_le : (i n : ℕ) → clamp i n ≤ n - 1
unfolding clamp
clamp_le i n = ground arith

wrap_one :
    (show : Bool) (w : ℕ) (line : List ℕ) → wrap_all show w (line ∷ []) ≡ wrap_line show line w
unfolding wrap_all
wrap_one show w line = append-nil (wrap_line show line w)

rebuilt_nothing :
    (show : Bool) (w : ℕ) (lines : List (List ℕ))
    → (length lines == 0 || w == 0) ≡ true
    → [] ≡ rebuilt show w lines
unfolding wrap_all
rebuilt_nothing show w [] h = ground arith
rebuilt_nothing show w (l ∷ lines) h = ground arith

rebuilt_all :
    (show : Bool) (w : ℕ) (lines : List (List ℕ))
    → w ≢ 0
    → rebuilt show w lines ≡ wrap_all show w lines
rebuilt_all show w lines h = ground arith

second_false : (a : Bool) (w : ℕ) → (a || w == 0) ≡ false → w ≢ 0
second_false a w h = ground arith

update_parsed_lines-IsWellFormed :
    (t : Textview) → length t.lines ≤ 10000 → IsWellFormed (update_parsed_lines t)
unfolding update_parsed_lines clamp_current_line
update_parsed_lines-IsWellFormed t h =
    if_ind IsWellFormed (length t.lines == 0 || width t == 0)
      (λ e. record {
        parsed = rebuilt_nothing t.show_timestamps (width t) t.lines e;
        bounded = h;
        within = omega arith;
      })
      (λ e. record {
        parsed = sym (rebuilt_all t.show_timestamps (width t) t.lines (second_false _ (width t) e));
        bounded = h;
        within = clamp_le t.current_line _;
      })

extended :
    (show : Bool) (w : ℕ) (lines parsed : List (List ℕ)) (line : List ℕ)
    → parsed ≡ rebuilt show w lines
    → ltb 0 w ≡ true
    → parsed ++ wrap_line show line w ≡ rebuilt show w (lines ++ (line ∷ []))
extended show w lines parsed line h e =
    let ne : w ≢ 0 = λ z. omega (arith, ltb→lt 0 w e) in
    rw
      (
        h,
        rebuilt_all show w lines ne,
        rebuilt_all show w (lines ++ (line ∷ [])) ne,
        wrap_all-append show w lines (line ∷ []),
        wrap_one show w line,
      )
      refl

unseen :
    (show : Bool) (w : ℕ) (lines more : List (List ℕ)) (parsed : List (List ℕ))
    → parsed ≡ rebuilt show w lines
    → ltb 0 w ≡ false
    → parsed ≡ rebuilt show w more
unseen show w lines more parsed h e = ground arith

add_line-IsWellFormed :
    (t : Textview) (line : List ℕ) → IsWellFormed t → IsWellFormed (add_line t line)
unfolding add_line clamp_current_line
add_line-IsWellFormed t line h =
    let lines = t.lines ++ (line ∷ []) in
    if_ind IsWellFormed (ltb 10000 (length lines))
      (λ e.
        update_parsed_lines-IsWellFormed _ (omega (arith, length-drop (length lines - 9000) lines)))
      (λ e.
        if_ind IsWellFormed (ltb 0 (width t))
          (λ w. record {
            parsed = extended t.show_timestamps (width t) t.lines t.parsed_lines line h.parsed w;
            bounded = omega (arith, ltb-false→le 10000 (length lines) e);
            within = clamp_le t.current_line _;
          })
          (λ w. record {
            parsed = unseen t.show_timestamps (width t) t.lines lines t.parsed_lines h.parsed w;
            bounded = omega (arith, ltb-false→le 10000 (length lines) e);
            within = h.within;
          }))

scroll_up-IsWellFormed : (t : Textview) → IsWellFormed t → IsWellFormed (scroll_up t)
unfolding scroll_up
scroll_up-IsWellFormed t h =
    if_ind IsWellFormed (ltb (t.current_line + 1) (length t.parsed_lines))
      (λ e. record { parsed = h.parsed; bounded = h.bounded; within = omega (arith, ltb→lt _ _ e) })
      (λ e. h)

-- The view after any scroll: only the scroll position differs.
moved :
    (t : Textview) (i : ℕ)
    → IsWellFormed t
    → i ≤ length t.parsed_lines - 1
    → IsWellFormed (record t { current_line = i })
moved t i h le = record { parsed = h.parsed; bounded = h.bounded; within = le }

step-IsWellFormed : (t : Textview) (o : Op) → IsWellFormed t → IsWellFormed (step t o)
unfolding step clear toggle_timestamps set_bounds scroll_down scroll_top scroll_bottom
step-IsWellFormed t (op_add line) h = add_line-IsWellFormed t line h
step-IsWellFormed t op_clear h = record {
  parsed = rebuilt_nothing t.show_timestamps (width t) [] refl;
  bounded = omega arith;
  within = omega arith;
}
step-IsWellFormed t op_toggle h = update_parsed_lines-IsWellFormed _ h.bounded
step-IsWellFormed t op_up h = scroll_up-IsWellFormed t h
step-IsWellFormed t op_down h = moved t (t.current_line - 1) h (omega (arith, h.within))
step-IsWellFormed t op_top h = moved t (length t.parsed_lines - 1) h (omega arith)
step-IsWellFormed t op_bottom h = moved t 0 h (omega arith)
step-IsWellFormed t (op_bounds x0 y0 x1 y1) h = update_parsed_lines-IsWellFormed _ h.bounded

steps-IsWellFormed : (t : Textview) (ops : List Op) → IsWellFormed t → IsWellFormed (steps t ops)
unfolding steps
steps-IsWellFormed t [] h = h
steps-IsWellFormed t (o ∷ ops) h = steps-IsWellFormed (step t o) ops (step-IsWellFormed t o h)

-- Whatever is done to a new view, its wrapped lines stay those of a full rebuild, its history holds
-- at most 10000 lines, and its scroll position is one of the wrapped lines, or 0 without any.
pub reachable-IsWellFormed : (ops : List Op) → IsWellFormed (steps fresh ops)
reachable-IsWellFormed ops = steps-IsWellFormed fresh ops (record {
  parsed = rebuilt_nothing true (width fresh) [] refl;
  bounded = omega arith;
  within = omega arith;
})
