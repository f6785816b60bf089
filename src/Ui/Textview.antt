-- ===== src/Ui/Textview.antt =====
-- The scrolling text of uiterm/textview.go. A string is the list of its runes. `uiDraw` only draws;
-- the row it starts from is `visible_start_line`.
pub mod Wrap
pub mod Rebuild
pub mod Scroll
mod Tests
use barnard_stormdragon_ai_f.Prelude.{
  ℕ, zero, suc, ◌+◌, ◌-◌, List, [], ◌∷◌, ◌++◌, Option, none, some, Bool, true, false, not, ◌&&◌,
  ◌||◌, if◌then◌else◌, ltb, leb, ◌==◌, length, drop,
}
use barnard_stormdragon_ai_f.Prelude.Int.{ℤ, pos, negsuc, ◌-ℤ◌}

pub record Textview : Type 0 where
  pub lines : List (List ℕ)
  pub current_line : ℕ
  pub show_timestamps : Bool
  pub parsed_lines : List (List ℕ)
  pub x0 : ℤ
  pub y0 : ℤ
  pub x1 : ℤ
  pub y1 : ℤ

-- After `uiInitialize`.
abbrev pub fresh : Textview
fresh = record {
  lines = [];
  current_line = 0;
  show_timestamps = true;
  parsed_lines = [];
  x0 = pos 0;
  y0 = pos 0;
  x1 = pos 0;
  y1 = pos 0;
}

abbrev pub max_scrollback_lines : ℕ
max_scrollback_lines = 10000

abbrev pub scrollback_trim_chunk : ℕ
scrollback_trim_chunk = 1000

-- `hi - lo`, with 0 for what is not positive.
unfoldable pub extent : ℤ → ℤ → ℕ
extent lo hi = elim (hi -ℤ lo) [ pos n ↦ n | negsuc n ↦ 0 ]

abbrev pub width : Textview → ℕ
width t = extent t.x0 t.x1

-- unicode.IsSpace
unfoldable pub is_space : ℕ → Bool
is_space c =
    (leb 9 c && leb c 13)
    || c == 0x20
    || c == 0x85
    || c == 0xA0
    || c == 0x1680
    || (leb 0x2000 c && leb c 0x200A)
    || c == 0x2028
    || c == 0x2029
    || c == 0x202F
    || c == 0x205F
    || c == 0x3000

unfoldable pub trim_left : List ℕ → List ℕ
trim_left [] = []
trim_left (c ∷ l) = let rest = trim_left l in if is_space c then rest else c ∷ l

unfoldable pub trim_right : List ℕ → List ℕ
trim_right [] = []
trim_right (c ∷ l) =
    let rest = trim_right l in if is_space c && length rest == 0 then [] else c ∷ rest

-- strings.TrimSpace
unfoldable pub trim_space : List ℕ → List ℕ
trim_space l = trim_right (trim_left l)

-- What follows the first `sep`: the second result of strings.Cut, where it is found.
unfoldable pub cut : ℕ → List ℕ → Option (List ℕ)
cut sep [] = none
cut sep (c ∷ l) = let rest = cut sep l in if c == sep then some l else rest

-- The text of a line, with or without the timestamp, which ends in "]".
unfoldable pub shown_text : Bool → List ℕ → List ℕ
shown_text true line = line
shown_text false line = elim (cut 0x5D line) [ some text ↦ trim_space text | none ↦ line ]

-- The loop of `wrapLine`: `chars` runes stand in `current`.
unfoldable pub wrap_runes : ℕ → List ℕ → List ℕ → ℕ → List (List ℕ)
wrap_runes width [] current chars = if ltb 0 chars then current ∷ [] else []
wrap_runes width (c ∷ l) current chars =
    let full = current ∷ wrap_runes width l (c ∷ []) 1 in
    let more = wrap_runes width l (current ++ (c ∷ [])) (chars + 1) in
    if leb width chars then full else more

unfoldable pub wrap_line : Bool → List ℕ → ℕ → List (List ℕ)
wrap_line show line width = wrap_runes width (shown_text show line) [] 0

unfoldable pub wrap_all : Bool → ℕ → List (List ℕ) → List (List ℕ)
wrap_all show width [] = []
wrap_all show width (line ∷ lines) = wrap_line show line width ++ wrap_all show width lines

-- `bounded(i, 0, n - 1)` for `n` lines, and 0 without lines.
unfoldable pub clamp : ℕ → ℕ → ℕ
clamp i n = if n == 0 then 0 else if ltb (n - 1) i then n - 1 else i

unfoldable pub clamp_current_line : Textview → Textview
clamp_current_line t = record t { current_line = clamp t.current_line (length t.parsed_lines) }

unfoldable pub update_parsed_lines : Textview → Textview
update_parsed_lines t =
    if length t.lines == 0 || width t == 0
    then record t { parsed_lines = []; current_line = 0 }
    else clamp_current_line
        (record t { parsed_lines = wrap_all t.show_timestamps (width t) t.lines })

unfoldable pub add_line : Textview → List ℕ → Textview
add_line t line =
    let lines = t.lines ++ (line ∷ []) in
    let keep = max_scrollback_lines - scrollback_trim_chunk in
    let trimmed = update_parsed_lines (record t { lines = drop (length lines - keep) lines }) in
    let wrapped = t.parsed_lines ++ wrap_line t.show_timestamps line (width t) in
    if ltb max_scrollback_lines (length lines)
    then trimmed
    else if ltb 0 (width t)
    then clamp_current_line (record t { lines = lines; parsed_lines = wrapped })
    else record t { lines = lines }

unfoldable pub clear : Textview → Textview
clear t = record t { lines = []; current_line = 0; parsed_lines = [] }

unfoldable pub toggle_timestamps : Textview → Textview
toggle_timestamps t = update_parsed_lines (record t { show_timestamps = not t.show_timestamps })

unfoldable pub set_bounds : Textview → ℤ → ℤ → ℤ → ℤ → Textview
set_bounds t x0 y0 x1 y1 = update_parsed_lines (record t { x0 = x0; y0 = y0; x1 = x1; y1 = y1 })

unfoldable pub scroll_up : Textview → Textview
scroll_up t =
    if ltb (t.current_line + 1) (length t.parsed_lines)
    then record t { current_line = t.current_line + 1 }
    else t

-- At 0 the new line would be -1, and is not taken.
unfoldable pub scroll_down : Textview → Textview
scroll_down t = record t { current_line = t.current_line - 1 }

unfoldable pub scroll_top : Textview → Textview
scroll_top t = record t { current_line = length t.parsed_lines - 1 }

unfoldable pub scroll_bottom : Textview → Textview
scroll_bottom t = record t { current_line = 0 }

-- The parsed line in the first row.
unfoldable pub visible_start_line : Textview → ℕ → ℕ
visible_start_line t writeable_lines =
    if writeable_lines == 0 || length t.parsed_lines == 0
    then 0
    else length t.parsed_lines - writeable_lines - t.current_line

-- What the program does to a view.
pub data Op : Type 0 where
  op_add : List ℕ → Op
  op_clear op_toggle op_up op_down op_top op_bottom : Op
  op_bounds : (x0 y0 x1 y1 : ℤ) → Op

unfoldable pub step : Textview → Op → Textview
step t (op_add line) = add_line t line
step t op_clear = clear t
step t op_toggle = toggle_timestamps t
step t op_up = scroll_up t
step t op_down = scroll_down t
step t op_top = scroll_top t
step t op_bottom = scroll_bottom t
step t (op_bounds x0 y0 x1 y1) = set_bounds t x0 y0 x1 y1

unfoldable pub steps : Textview → List Op → Textview
steps t [] = t
steps t (o ∷ ops) = steps (step t o) ops
