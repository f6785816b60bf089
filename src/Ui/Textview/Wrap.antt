-- ===== src/Ui/Textview/Wrap.antt =====
-- wrapLine of uiterm/textview.go: nothing is lost, and every piece fits.
use barnard_stormdragon_ai_f.Prelude.{
  ℕ, ◌+◌, ◌≤◌, ◌≡◌, refl, sym, ◌∙◌, List, [], ◌∷◌, ◌++◌, Bool, length, length-append, All, arith,
  append_assoc,
}
use barnard_stormdragon_ai_f.Ui.Textview.{wrap_runes, wrap_line, wrap_all, shown_text}

unfoldable pub concat : List (List ℕ) → List ℕ
concat [] = []
concat (l ∷ ls) = l ++ concat ls

-- A display line of one to `width` runes.
abbrev pub Fits : ℕ → List ℕ → Type 0
Fits width l = (1 ≤ length l) × (length l ≤ width)

concat-wrap_runes :
    (width : ℕ) (l current : List ℕ) (chars : ℕ)
    → chars ≡ length current
    → concat (wrap_runes width l current chars) ≡ current ++ l
unfolding wrap_runes concat
concat-wrap_runes width [] [] chars e = ground arith
concat-wrap_runes width [] (x ∷ current) chars e = ground arith
concat-wrap_runes width (c ∷ l) current chars e =
    let full = concat-wrap_runes width l (c ∷ []) 1 refl in
    let more =
      concat-wrap_runes width l (current ++ (c ∷ [])) (chars + 1)
        (omega (arith, length-append current (c ∷ [])))
      ∙ append_assoc current (c ∷ []) l in
    ground (arith, full, more)

wrap_runes-Fits :
    (width : ℕ) (l current : List ℕ) (chars : ℕ)
    → 1 ≤ width
    → chars ≡ length current
    → chars ≤ width
    → All (Fits width) (wrap_runes width l current chars)
unfolding wrap_runes
wrap_runes-Fits width [] current chars w e h = ground arith
wrap_runes-Fits width (c ∷ l) current chars w e h =
    let full = wrap_runes-Fits width l (c ∷ []) 1 w refl w in
    ground (
      arith,
      full,
      wrap_runes-Fits width l (current ++ (c ∷ [])) (chars + 1) w
          (omega (arith, length-append current (c ∷ []))),
    )

-- On a view that is not empty, the display lines of a line have one to `width` runes each, and
-- together they are the text shown.
pub wrap_line_lem :
    (show : Bool) (line : List ℕ) (width : ℕ)
    → 1 ≤ width
    → (concat (wrap_line show line width) ≡ shown_text show line)
      × All (Fits width) (wrap_line show line width)
unfolding wrap_line
wrap_line_lem show line width h = (
  concat-wrap_runes width (shown_text show line) [] 0 refl,
  wrap_runes-Fits width (shown_text show line) [] 0 h refl (omega arith),
)

pub wrap_all-append :
    (show : Bool) (width : ℕ) (a b : List (List ℕ))
    → wrap_all show width (a ++ b) ≡ wrap_all show width a ++ wrap_all show width b
unfolding wrap_all
wrap_all-append show width [] b = refl
wrap_all-append show width (l ∷ a) b =
    rw (wrap_all-append show width a b)
      (sym (append_assoc (wrap_line show l width) (wrap_all show width a) (wrap_all show width b)))
