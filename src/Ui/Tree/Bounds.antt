-- ===== src/Ui/Tree/Bounds.antt =====
-- What uiterm/tree.go bounds: the size and depth of the tree, and the active line.
use barnard_stormdragon_ai_f.Prelude.{
  ℕ, zero, suc, ◌+◌, ◌≤◌, ◌<◌, ◌≡◌, ◌⊎◌, inl, inr, refl, List, [], ◌∷◌, Option, none, some, Bool,
  true, false, if_ind, leb, ◌==◌, length, length-append, All, All-append, get_elem?, arith,
  ltb-false→le, leb-false→lt, ==-false→ne,
}
use barnard_stormdragon_ai_f.Prelude.Int.{ℤ, pos, negsuc, ltb_ℤ, ◌-ℤ◌}
use barnard_stormdragon_ai_f.Ui.Tree.{
  Rendered, Tree, fresh, at, bounded, set_active_line, active_item, move_to, set_active_item,
  append_each, rebuild_rec, rebuilt_lines, restore, rebuild, Key, arrow_up, arrow_down, other,
  ui_key_event, Op, op_rebuild, op_line, op_item, step, steps,
}

-- The active line of `n` lines is one of them, where there are any.
pub data IsInside (n : ℕ) (i : ℤ) : Type 0 where
  empty : n ≡ 0 → IsInside n i
  inside : (k : ℕ) → i ≡ pos k → k < n → IsInside n i

last_line : (n : ℕ) → pos (suc n) -ℤ pos 1 ≡ pos n
unfolding ◌-ℤ◌
last_line n = ground arith

bounded-IsInside : (i : ℤ) (n : ℕ) → IsInside n (bounded i (pos 0) (pos n -ℤ pos 1))
unfolding bounded
bounded-IsInside i zero = empty refl
bounded-IsInside (pos k) (suc n) = rw (last_line n) (
    if_ind (IsInside (suc n)) (ltb_ℤ (pos k) (pos 0)) (λ e. inside 0 refl (omega arith))
      λ e.
        if_ind (IsInside (suc n)) (ltb_ℤ (pos n) (pos k)) (λ f. inside n refl (omega arith))
          λ f. inside k refl (omega (arith, ltb-false→le _ _ f)))
bounded-IsInside (negsuc k) (suc n) = rw (last_line n) (
    if_ind (IsInside (suc n)) (ltb_ℤ (negsuc k) (pos 0)) (λ e. inside 0 refl (omega arith))
      λ e. absurd (omega (arith, ltb-false→le 0 (0 + suc k) e)))

get_elem?-some :
    {B : Type 0} (l : List B) (k : ℕ) → k < length l → (x : B) × (get_elem? l k ≡ some x)
get_elem?-some [] k h = absurd (omega arith)
get_elem?-some (x ∷ l) zero h = (x, refl)
get_elem?-some (x ∷ l) (suc k) h = get_elem?-some l k (omega arith)

module _ (A : Type 0) where
  pub record IsBounded (lines : List (Rendered A)) : Type 0 where
    pub size : length lines ≤ 100000
    pub depth : All (λ (r : Rendered A). r.level < 64) lines

  append_each-IsBounded :
      (f : List (Rendered A) → Option A → List (Rendered A))
      → ((l : List (Rendered A)) (i : Option A) → IsBounded l → IsBounded (f l i))
      → (lines : List (Rendered A)) (items : List (Option A)) → IsBounded lines
      → IsBounded (append_each A f lines items)
  unfolding append_each
  append_each-IsBounded f hf lines [] h = h
  append_each-IsBounded f hf lines (i ∷ items) h =
      if_ind IsBounded (leb 100000 (length lines)) (λ e. h)
        (λ e. append_each-IsBounded f hf (f lines i) items (hf lines i h))

  rebuild_rec-IsBounded :
      (gen : Option A → List (Option A)) (left : ℕ) (lines : List (Rendered A)) (parent : Option A)
      → IsBounded lines
      → IsBounded (rebuild_rec A gen left lines parent)
  unfolding rebuild_rec
  rebuild_rec-IsBounded gen zero lines parent h = h
  rebuild_rec-IsBounded gen (suc left) lines none h = h
  rebuild_rec-IsBounded gen (suc left) lines (some parent) h =
      if_ind IsBounded (leb 100000 (length lines)) (λ e. h)
        (λ e.
          append_each-IsBounded (rebuild_rec A gen left) (rebuild_rec-IsBounded gen left) _
            (gen (some parent))
            (record {
              size =
                  omega (arith, length-append lines (_ ∷ []), leb-false→lt 100000 (length lines) e);
              depth =
                  All-append (λ (r : Rendered A). r.level < 64) lines _ h.depth (omega arith, tt);
            }))

  -- The tree has at most 100000 lines, at levels below 64, and its active line is one of them.
  pub record IsWellFormed (t : Tree A) : Type 0 where
    pub bound : IsBounded t.lines
    pub within : IsInside (length t.lines) t.active_line

  set_active_line-IsWellFormed :
      (t : Tree A) (i : ℤ) (r : Bool) → IsBounded t.lines → IsWellFormed (set_active_line A t i r)
  unfolding set_active_line
  set_active_line-IsWellFormed t i r h = record {
    bound = h;
    within = bounded-IsInside _ (length t.lines);
  }

  move_to-IsWellFormed : (t : Tree A) (o : Option ℕ) → IsWellFormed t → IsWellFormed (move_to A t o)
  unfolding move_to
  move_to-IsWellFormed t none h = h
  move_to-IsWellFormed t (some i) h = set_active_line-IsWellFormed t (pos i) false h.bound

  restore-IsWellFormed :
      (p : Option A) (same : Option (A → A → Bool)) (t : Tree A)
      → IsWellFormed t
      → IsWellFormed (restore A p same t)
  unfolding restore
  restore-IsWellFormed none same t h = h
  restore-IsWellFormed (some p) none t h = h
  restore-IsWellFormed (some p) (some same) t h = move_to-IsWellFormed t _ h

  rebuilt_lines-IsBounded : (gen : Option A → List (Option A)) → IsBounded (rebuilt_lines A gen)
  unfolding rebuilt_lines
  rebuilt_lines-IsBounded gen =
      append_each-IsBounded (rebuild_rec A gen 64) (rebuild_rec-IsBounded gen 64) [] (gen none)
        (record { size = omega arith; depth = tt })

  step-IsWellFormed : (t : Tree A) (o : Op A) → IsWellFormed t → IsWellFormed (step A t o)
  unfolding step rebuild set_active_item
  step-IsWellFormed t (op_rebuild none preserve same) h = record {
    bound = record { size = omega arith; depth = tt };
    within = empty refl;
  }
  step-IsWellFormed t (op_rebuild (some gen) true same) h =
      restore-IsWellFormed (active_item A t) same _
        (set_active_line-IsWellFormed _ _ false (rebuilt_lines-IsBounded gen))
  step-IsWellFormed t (op_rebuild (some gen) false same) h =
      set_active_line-IsWellFormed _ _ false (rebuilt_lines-IsBounded gen)
  step-IsWellFormed t (op_line i r) h = set_active_line-IsWellFormed t i r h.bound
  step-IsWellFormed t (op_item (some target) (some same)) h = move_to-IsWellFormed t _ h
  step-IsWellFormed t (op_item none same) h = h
  step-IsWellFormed t (op_item (some target) none) h = h

  steps-IsWellFormed :
      (t : Tree A) (ops : List (Op A)) → IsWellFormed t → IsWellFormed (steps A t ops)
  unfolding steps
  steps-IsWellFormed t [] h = h
  steps-IsWellFormed t (o ∷ ops) h = steps-IsWellFormed (step A t o) ops (step-IsWellFormed t o h)

  -- Whatever is done to a new tree, over any generators, cyclic ones too, it has at most 100000 lines,
  -- at levels below 64, and its active line is one of them, where there are any.
  pub reachable_tree-IsWellFormed : (ops : List (Op A)) → IsWellFormed (steps A (fresh A) ops)
  reachable_tree-IsWellFormed ops =
      steps-IsWellFormed (fresh A) ops
        (record { bound = record { size = omega arith; depth = tt }; within = empty refl })

  at_active :
      (lines : List (Rendered A)) (i : ℤ)
      → IsInside (length lines) i
      → (length lines ≡ 0) ⊎ ((r : Rendered A) × (at A lines i ≡ some r))
  unfolding at
  at_active lines i (empty h) = inl h
  at_active lines i (inside k e h) = let (r, f) = get_elem?-some lines k h in inr (r, rw e f)

  -- The event returns, and what it leaves is well-formed.
  data IsHandled (r : Option (Tree A × Option A)) : Type 0 where
    handled : (u : Tree A) (item : Option A) → r ≡ some (u, item) → IsWellFormed u → IsHandled r

  listener :
      (t : Tree A)
      → IsWellFormed t
      → (length t.lines == 0) ≡ false
      → IsHandled
          (elim (at A t.lines t.active_line) [ none ↦ none | some r ↦ some (t, some r.item) ])
  listener t h e = elim (at_active t.lines t.active_line h.within) [
    | inl z ↦ absurd (==-false→ne (length t.lines) 0 e z)
    | inr (r, f) ↦ handled t (some r.item) (rw f refl) h
  ]

  ui_key_event-IsHandled :
      (t : Tree A) (key : Key) → IsWellFormed t → IsHandled (ui_key_event A t key)
  unfolding ui_key_event
  ui_key_event-IsHandled t arrow_up h =
      if_ind IsHandled (length t.lines == 0) (λ e. handled t none refl h)
        (λ e. handled _ none refl (set_active_line-IsWellFormed t (negsuc 0) true h.bound))
  ui_key_event-IsHandled t arrow_down h =
      if_ind IsHandled (length t.lines == 0) (λ e. handled t none refl h)
        (λ e. handled _ none refl (set_active_line-IsWellFormed t (pos 1) true h.bound))
  ui_key_event-IsHandled t other h =
      if_ind IsHandled (length t.lines == 0) (λ e. handled t none refl h) (λ e. listener t h e)

  -- On a well-formed tree no key makes `uiKeyEvent` index `lines` out of bounds, and the tree it leaves
  -- is well-formed.
  pub ui_key_event_total :
      (t : Tree A) (key : Key)
      → IsWellFormed t
      → (u : Tree A) × (item : Option A) × (ui_key_event A t key ≡ some (u, item)) × IsWellFormed u
  ui_key_event_total t key h = elim (ui_key_event-IsHandled t key h) [
    | handled u item e w ↦ (u, item, e, w)
  ]
