-- ===== src/Listeners.antt =====
-- Listeners of gumble/gumble/listeners.go, a doubly linked list. Items are shared by pointer, so they stand
-- in a store and a pointer is an index; a listener is a number. A method that locks is one step.
pub mod Order
pub mod Audio
pub mod Removal
pub mod Plain
pub mod Attach
pub mod Detach
pub mod Refined
mod Tests
use barnard_stormdragon_ai_f.Prelude.{
  ℕ, zero, suc, ◌+◌, ◌≡◌, List, [], ◌∷◌, ◌++◌, Option, none, some, Bool, true, false, if◌then◌else◌,
  ◌==◌,
}
use barnard_stormdragon_ai_f.Prelude.Table.{change}

pub record Item : Type 0 where
  pub prev : Option ℕ
  pub next : Option ℕ
  pub listener : ℕ
  pub detached : Bool

-- Pointers from `fresh` on are not in use yet.
pub record Listeners : Type 0 where
  pub head : Option ℕ
  pub tail : Option ℕ
  pub item_at : ℕ → Item
  pub fresh : ℕ

abbrev pub unused_item : Item
unused_item = record { prev = none; next = none; listener = 0; detached = true }

abbrev pub no_listeners : Listeners
no_listeners = record { head = none; tail = none; item_at = λ r. unused_item; fresh = 0 }

abbrev pub or_else : Option ℕ → Option ℕ → Option ℕ
or_else none b = b
or_else (some a) b = some a

abbrev pub or_keep : Option ℕ → Option ℕ → Option ℕ → Option ℕ
or_keep none a b = a
or_keep (some x) a b = b

unfoldable pub set_next : Option ℕ → Option ℕ → (ℕ → Item) → ℕ → Item
set_next none q at = at
set_next (some r) q at = change at r (λ x. record x { next = q })

unfoldable pub set_prev : Option ℕ → Option ℕ → (ℕ → Item) → ℕ → Item
set_prev none q at = at
set_prev (some r) q at = change at r (λ x. record x { prev = q })

-- `Attach`
unfoldable pub attach : ℕ → Listeners → Listeners
attach listener s =
    let item : Item = record {
      prev = s.tail;
      next = none;
      listener = listener;
      detached = false;
    } in
    record {
      head = or_else s.head (some s.fresh);
      tail = some s.fresh;
      item_at = set_next s.tail (some s.fresh) (change s.item_at s.fresh (λ old. item));
      fresh = s.fresh + 1;
    }

-- `Detach`
unfoldable pub detach : ℕ → Listeners → Listeners
detach r s =
    let e = s.item_at r in
    let marked = change s.item_at r (λ x. record x { detached = true }) in
    let joined = set_prev e.next e.prev (set_next e.prev e.next marked) in
    if e.detached then s else record s {
      head = or_keep e.prev e.next s.head;
      tail = or_keep e.next e.prev s.tail;
      item_at = change joined r (λ x. record x { prev = none; next = none });
    }

-- The loop of `dispatch`, with the items that it may still pass.
unfoldable pub walk : ℕ → (ℕ → Item) → Option ℕ → List ℕ
walk zero at p = []
walk (suc items) at none = []
walk (suc items) at (some r) = (at r).listener ∷ walk items at (at r).next

-- The snapshot of `dispatch`: whom an event goes to, in order.
unfoldable pub dispatch : Listeners → List ℕ
dispatch s = walk s.fresh s.item_at s.head
