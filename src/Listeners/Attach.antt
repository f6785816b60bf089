-- ===== src/Listeners/Attach.antt =====
-- Attach of gumble/gumble/listeners.go appends to the plain list.
use barnard_stormdragon_ai_f.Prelude.{
  ℕ, ◌≡◌, refl, sym, ap, ◌∙◌, List, [], ◌∷◌, ◌++◌, none, some, Bool, true, false, if◌then◌else◌,
  ◌==◌, not, Bool-cases, inl, inr, arith, length-append,
}
use native.Mathlib.Decide.{ℕ_discrete}
use barnard_stormdragon_ai_f.Prelude.Table.{change, field_changed}
use barnard_stormdragon_ai_f.Listeners.{Item, Listeners, or_else, attach}
use barnard_stormdragon_ai_f.Listeners.Order.{
  among, names, among-append, distinct-append, last-append, after-append, before-append,
}
use barnard_stormdragon_ai_f.Listeners.Removal.{last-none-among, after-append_new, or_else-append}
use barnard_stormdragon_ai_f.Listeners.Plain.{
  Attached, op_attach, plain_step, IsRefined, set_next-other, set_next-next,
}

joined_live :
    (x r : ℕ) (xs : List ℕ) (d : Bool)
    → d ≡ not (among x xs)
    → (if r == x then false else d) ≡ not (among x (xs ++ (r ∷ [])))
joined_live x r xs d h = rw (h, among-append x r xs) (ground arith)

pub attach-IsRefined :
    (l : ℕ) (s : Listeners) (a : Attached)
    → IsRefined s a
    → IsRefined (attach l s) (plain_step (op_attach l) a)
unfolding attach plain_step
attach-IsRefined l s a h =
    let r = s.fresh in
    let item : Item = record { prev = s.tail; next = none; listener = l; detached = false } in
    let added : ℕ → Item = change s.item_at r (λ old. item) in
    let new : among r a.order ≡ false = elim (Bool-cases (among r a.order)) [
      | inl e ↦ absurd (omega (arith, h.below r e))
      | inr e ↦ e
    ] in
    let unnamed : names s.tail r ≡ false = elim (Bool-cases (names s.tail r)) [
      | inl e ↦
          absurd (cc (sym (last-none-among r a.order (ap (λ t. names t r) (sym h.tail) ∙ e)), new))
      | inr e ↦ e
    ] in
    rw (← h.count) (record {
      head = ap (λ p. or_else p (some r)) h.head ∙ or_else-append r a.order;
      tail = sym (last-append none r a.order);
      count = refl;
      distinct_order = distinct-append r a.order new h.distinct_order;
      few = omega (arith, h.few, length-append a.order (r ∷ []));
      below = λ x e. grind (arith, e, among-append x r a.order, h.below x);
      live = λ x.
          set_next-other (λ (y : Item). y.detached) (some r) added x (λ y. refl) s.tail
          ∙ field_changed (λ (y : Item). y.detached) s.item_at r x _
          ∙ joined_live x r a.order (s.item_at x).detached (h.live x);
      prev = λ x e.
          set_next-other (λ (y : Item). y.prev) (some r) added x (λ y. refl) s.tail
          ∙ field_changed (λ (y : Item). y.prev) s.item_at r x _
          ∙ grind (
            arith,
            e,
            new,
            h.tail,
            h.prev x,
            among-append x r a.order,
            before-append x r none a.order new,
          );
      next = λ x e.
          set_next-next s.tail (some r) added x
          ∙ ap (λ q. if names s.tail x then some r else q)
              (field_changed (λ (y : Item). y.next) s.item_at r x _)
          ∙ elim (ℕ_discrete r x) [
            | yes i ↦ rw (← i, unnamed, after-append_new r a.order new) (grind arith)
            | no n ↦
                let old : among x a.order ≡ true = grind (arith, e, among-append x r a.order) in
                rw (after-append x r none a.order h.distinct_order old, ← h.tail, ← h.next x old)
                  (grind arith)
          ];
      listener = λ x.
          set_next-other (λ (y : Item). y.listener) (some r) added x (λ y. refl) s.tail
          ∙ field_changed (λ (y : Item). y.listener) s.item_at r x _
          ∙ rw (h.listener x) (sym (field_changed (λ n. n) a.who r x _));
    })
