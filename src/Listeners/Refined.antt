-- ===== src/Listeners/Refined.antt =====
-- The linked list of gumble/gumble/listeners.go implements a plain list of listeners.
use barnard_stormdragon_ai_f.Prelude.{
  ℕ, zero, suc, ◌≤◌, ◌≡◌, refl, ap, ◌∙◌, List, [], ◌∷◌, true, arith, map, length,
}
use barnard_stormdragon_ai_f.Listeners.{Item, Listeners, no_listeners, walk, dispatch}
use barnard_stormdragon_ai_f.Listeners.Order.{among, distinct, first, after}
use barnard_stormdragon_ai_f.Listeners.Removal.{distinct_tail, behind_head}
use barnard_stormdragon_ai_f.Listeners.Plain.{
  Attached, Op, op_attach, op_detach, plain_step, step, plain_run, run, IsRefined,
  no_listeners-IsRefined,
}
use barnard_stormdragon_ai_f.Listeners.Attach.{attach-IsRefined}
use barnard_stormdragon_ai_f.Listeners.Detach.{detach-IsRefined}

step-IsRefined :
    (op : Op) (s : Listeners) (a : Attached)
    → IsRefined s a
    → IsRefined (step op s) (plain_step op a)
unfolding step
step-IsRefined (op_attach l) s a h = attach-IsRefined l s a h
step-IsRefined (op_detach r) s a h = detach-IsRefined r s a h

run-IsRefined :
    (ops : List Op) (s : Listeners) (a : Attached)
    → IsRefined s a
    → IsRefined (run ops s) (plain_run ops a)
unfolding run plain_run
run-IsRefined [] s a h = h
run-IsRefined (op ∷ ops) s a h =
    run-IsRefined ops (step op s) (plain_step op a) (step-IsRefined op s a h)

-- The walk of dispatch passes the items of the order.
walked :
    (items : ℕ) (at : ℕ → Item) (who : ℕ → ℕ) (xs : List ℕ)
    → length xs ≤ items
    → distinct xs ≡ true
    → ((x : ℕ) → among x xs ≡ true → (at x).next ≡ after xs x)
    → ((x : ℕ) → (at x).listener ≡ who x)
    → walk items at (first xs) ≡ map who xs
unfolding walk first
walked zero at who [] few d next listener = refl
walked zero at who (x ∷ xs) few d next listener = absurd (omega (arith, few))
walked (suc items) at who [] few d next listener = refl
walked (suc items) at who (x ∷ xs) few d next listener =
    let (here, there) = behind_head x xs d in
    let follows : (at x).next ≡ first xs = next x here.0 ∙ here.1 in
    rw (listener x, follows)
      (ap (λ ys. who x ∷ ys)
        (walked items at who xs (omega (arith, few)) (distinct_tail x xs d)
          (λ y e. next y (there y e).0 ∙ (there y e).1) listener))

abbrev pub nobody_attached : Attached
nobody_attached = record { order = []; who = λ r. 0; count = 0 }

-- Whatever is attached and detached, in whatever order and how often, an event goes to the listeners that a
-- plain list would have: those attached and not yet detached, in the order of their attachment.
pub dispatch-run :
    (ops : List Op)
    → dispatch (run ops no_listeners)
      ≡ map (plain_run ops nobody_attached).who (plain_run ops nobody_attached).order
unfolding dispatch
dispatch-run ops =
    let h =
      run-IsRefined ops no_listeners nobody_attached
        (no_listeners-IsRefined (λ r. 0) (λ x. refl)) in
    rw h.head (walked _ _ _ _ h.few h.distinct_order h.next h.listener)
