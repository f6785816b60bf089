-- ===== src/Listeners/Detach.antt =====
-- Detach of gumble/gumble/listeners.go takes one out of the plain list.
use barnard_stormdragon_ai_f.Prelude.{
  ℕ, ◌≡◌, ◌≢◌, refl, sym, ap, ◌∙◌, List, none, Bool, true, false, if◌then◌else◌, ◌==◌, not,
  Bool-cases, inl, inr, arith,
}
use barnard_stormdragon_ai_f.Prelude.Table.{change, change_ne, change-field, field_changed}
use barnard_stormdragon_ai_f.Listeners.{Item, Listeners, set_next, set_prev, detach}
use barnard_stormdragon_ai_f.Listeners.Order.{among, distinct, after, before, remove, names}
use barnard_stormdragon_ai_f.Listeners.Removal.{
  among-remove, distinct-remove, after-remove, before-remove, head-remove, tail-remove,
  length-remove, remove-absent,
}
use barnard_stormdragon_ai_f.Listeners.Plain.{
  Attached, op_detach, plain_step, IsRefined, set_next-other, set_prev-other, set_next-next,
  set_prev-prev,
}

left_live :
    (x r : ℕ) (xs : List ℕ) (d : Bool)
    → distinct xs ≡ true
    → d ≡ not (among x xs)
    → (if r == x then true else d) ≡ not (among x (remove r xs))
left_live x r xs d u h = rw (h, among-remove x r xs u) (ground arith)

still :
    (x r : ℕ) (xs : List ℕ)
    → distinct xs ≡ true
    → among x (remove r xs) ≡ true
    → (r ≢ x) × (among x xs ≡ true)
still x r xs d e =
    let there = sym (among-remove x r xs d) ∙ e in (grind (arith, there), grind (arith, there))

names-none : (x : ℕ) → names none x ≡ false
unfolding names
names-none x = refl

-- The item `r` is taken out.
detached-IsRefined :
    (r : ℕ) (s : Listeners) (a : Attached)
    → IsRefined s a
    → among r a.order ≡ true
    → (s.item_at r).detached ≡ false
    → IsRefined (detach r s) (plain_step (op_detach r) a)
unfolding detach plain_step
detached-IsRefined r s a h known attached =
    let prev = (s.item_at r).prev in
    let next = (s.item_at r).next in
    let prev_is : prev ≡ before none a.order r = h.prev r known in
    let next_is : next ≡ after a.order r = h.next r known in
    let marked : ℕ → Item = change s.item_at r (λ x. record x { detached = true }) in
    let passed : ℕ → Item = set_next prev next marked in
    let joined : ℕ → Item = set_prev next prev passed in
    rw attached (record {
      head = rw (prev_is, next_is, h.head) (head-remove r a.order known);
      tail = rw (prev_is, next_is, h.tail) (tail-remove r none a.order h.distinct_order known);
      count = h.count;
      distinct_order = distinct-remove r a.order h.distinct_order;
      few = omega (arith, h.few, length-remove r a.order);
      below = λ x e. grind (arith, e, among-remove x r a.order h.distinct_order, h.below x);
      live = λ x.
          change-field (λ (y : Item). y.detached) joined r x _ (λ y. refl)
          ∙ set_prev-other (λ (y : Item). y.detached) prev passed x (λ y. refl) next
          ∙ set_next-other (λ (y : Item). y.detached) next marked x (λ y. refl) prev
          ∙ field_changed (λ (y : Item). y.detached) s.item_at r x _
          ∙ left_live x r a.order (s.item_at x).detached h.distinct_order (h.live x);
      prev = λ x e.
          let (other, old) = still x r a.order h.distinct_order e in
          ap (λ (y : Item). y.prev) (change_ne joined r x _ other)
          ∙ set_prev-prev next prev passed x
          ∙ ap (λ q. if names next x then prev else q)
              (set_next-other (λ (y : Item). y.prev) next marked x (λ y. refl) prev
                ∙ change-field (λ (y : Item). y.prev) s.item_at r x _ (λ y. refl)
                ∙ h.prev x old)
          ∙ rw (next_is, prev_is)
              (sym (before-remove x r none a.order h.distinct_order known old other));
      next = λ x e.
          let (other, old) = still x r a.order h.distinct_order e in
          ap (λ (y : Item). y.next) (change_ne joined r x _ other)
          ∙ set_prev-other (λ (y : Item). y.next) prev passed x (λ y. refl) next
          ∙ set_next-next prev next marked x
          ∙ ap (λ q. if names prev x then next else q)
              (change-field (λ (y : Item). y.next) s.item_at r x _ (λ y. refl) ∙ h.next x old)
          ∙ rw (next_is, prev_is)
              (sym (after-remove x r none a.order h.distinct_order known old other (names-none x)));
      listener = λ x.
          change-field (λ (y : Item). y.listener) joined r x _ (λ y. refl)
          ∙ set_prev-other (λ (y : Item). y.listener) prev passed x (λ y. refl) next
          ∙ set_next-other (λ (y : Item). y.listener) next marked x (λ y. refl) prev
          ∙ change-field (λ (y : Item). y.listener) s.item_at r x _ (λ y. refl)
          ∙ h.listener x;
    })

absent-IsRefined :
    (r : ℕ) (s : Listeners) (a : Attached)
    → IsRefined s a
    → among r a.order ≡ false
    → (s.item_at r).detached ≡ true
    → IsRefined (detach r s) (plain_step (op_detach r) a)
unfolding detach plain_step
absent-IsRefined r s a h absent gone = rw (gone, remove-absent r a.order absent) h

pub detach-IsRefined :
    (r : ℕ) (s : Listeners) (a : Attached)
    → IsRefined s a
    → IsRefined (detach r s) (plain_step (op_detach r) a)
detach-IsRefined r s a h = elim (Bool-cases (among r a.order)) [
  | inl e ↦ detached-IsRefined r s a h e (h.live r ∙ ap not e)
  | inr e ↦ absent-IsRefined r s a h e (h.live r ∙ ap not e)
]
