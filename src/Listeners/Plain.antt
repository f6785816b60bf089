-- ===== src/Listeners/Plain.antt =====
-- The plain list that the linked list of gumble/gumble/listeners.go stands for.
use barnard_stormdragon_ai_f.Prelude.{
  ℕ, ◌+◌, ◌<◌, ◌≤◌, ◌≡◌, refl, sym, List, [], ◌∷◌, ◌++◌, Option, none, some, true, if◌then◌else◌,
  not, arith, length,
}
use barnard_stormdragon_ai_f.Prelude.Table.{change, change-field, field_changed}
use barnard_stormdragon_ai_f.Listeners.{
  Item, Listeners, no_listeners, set_next, set_prev, attach, detach,
}
use barnard_stormdragon_ai_f.Listeners.Order.{
  among, distinct, first, last, after, before, remove, names,
}

-- What a client sees: the attached items in their order, the listener of each, and how many there were.
pub record Attached : Type 0 where
  pub order : List ℕ
  pub who : ℕ → ℕ
  pub count : ℕ

pub data Op : Type 0 where
  op_attach op_detach : ℕ → Op

unfoldable pub plain_step : Op → Attached → Attached
plain_step (op_attach listener) a = record {
  order = a.order ++ (a.count ∷ []);
  who = change a.who a.count (λ old. listener);
  count = a.count + 1;
}
plain_step (op_detach r) a = record a { order = remove r a.order }

unfoldable pub step : Op → Listeners → Listeners
step (op_attach listener) s = attach listener s
step (op_detach r) s = detach r s

unfoldable pub plain_run : List Op → Attached → Attached
plain_run [] a = a
plain_run (op ∷ ops) a = plain_run ops (plain_step op a)

unfoldable pub run : List Op → Listeners → Listeners
run [] s = s
run (op ∷ ops) s = run ops (step op s)

pub record IsRefined (s : Listeners) (a : Attached) : Type 0 where
  pub head : s.head ≡ first a.order
  pub tail : s.tail ≡ last none a.order
  pub count : s.fresh ≡ a.count
  pub distinct_order : distinct a.order ≡ true
  pub few : length a.order ≤ s.fresh
  pub below : (x : ℕ) → among x a.order ≡ true → x < s.fresh
  pub live : (x : ℕ) → (s.item_at x).detached ≡ not (among x a.order)
  pub prev : (x : ℕ) → among x a.order ≡ true → (s.item_at x).prev ≡ before none a.order x
  pub next : (x : ℕ) → among x a.order ≡ true → (s.item_at x).next ≡ after a.order x
  pub listener : (x : ℕ) → (s.item_at x).listener ≡ a.who x

module _ {B : Type 0} (field : Item → B) (q : Option ℕ) (at : ℕ → Item) (x : ℕ) where
  pub set_next-other :
      ((y : Item) → field (record y { next = q }) ≡ field y)
      → (p : Option ℕ) → field (set_next p q at x) ≡ field (at x)
  unfolding set_next
  set_next-other h none = refl
  set_next-other h (some r) = change-field field at r x _ h

  pub set_prev-other :
      ((y : Item) → field (record y { prev = q }) ≡ field y)
      → (p : Option ℕ) → field (set_prev p q at x) ≡ field (at x)
  unfolding set_prev
  set_prev-other h none = refl
  set_prev-other h (some r) = change-field field at r x _ h

pub set_next-next :
    (p q : Option ℕ) (at : ℕ → Item) (x : ℕ)
    → (set_next p q at x).next ≡ (if names p x then q else (at x).next)
unfolding set_next names
set_next-next none q at x = refl
set_next-next (some r) q at x = field_changed (λ (y : Item). y.next) at r x _

pub set_prev-prev :
    (p q : Option ℕ) (at : ℕ → Item) (x : ℕ)
    → (set_prev p q at x).prev ≡ (if names p x then q else (at x).prev)
unfolding set_prev names
set_prev-prev none q at x = refl
set_prev-prev (some r) q at x = field_changed (λ (y : Item). y.prev) at r x _

pub no_listeners-IsRefined :
    (who : ℕ → ℕ)
    → ((x : ℕ) → who x ≡ 0)
    → IsRefined no_listeners (record { order = []; who = who; count = 0 })
unfolding first last distinct among
no_listeners-IsRefined who h = record {
  head = refl;
  tail = refl;
  count = refl;
  distinct_order = refl;
  few = omega arith;
  below = λ x e. absurd (cc e);
  live = λ x. refl;
  prev = λ x e. absurd (cc e);
  next = λ x e. absurd (cc e);
  listener = λ x. sym (h x);
}
