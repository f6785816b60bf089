-- ===== src/Listeners/Audio/Pipes.antt =====
-- The channels of one item in gumble/gumble/audiolisteners.go, and what closing some of them changes.
use barnard_stormdragon_ai_f.Prelude.{
  ℕ, ◌≡◌, ◌≢◌, refl, sym, ap, ◌∙◌, List, [], ◌∷◌, some, true, false, arith,
}
use native.Mathlib.Decide.{ℕ_discrete}
use barnard_stormdragon_ai_f.Prelude.Table.{
  Table, lookup, delete, change, change_ne, change_self, change-field, field_changed,
}
use barnard_stormdragon_ai_f.Listeners.Order.{among, distinct}
use barnard_stormdragon_ai_f.Listeners.Removal.{distinct_tail}
use barnard_stormdragon_ai_f.Listeners.Audio.{Pipe, Hub, close_pipe, close_all}

unfoldable pub pipes : Table ℕ → List ℕ
pipes [] = []
pipes ((u, c) ∷ t) = c ∷ pipes t

pub lookup-pipes : (u c : ℕ) (t : Table ℕ) → lookup u t ≡ some c → among c (pipes t) ≡ true
unfolding lookup pipes among
lookup-pipes u c [] h = absurd (cc h)
lookup-pipes u c ((v, d) ∷ t) h = grind (arith, h, lookup-pipes u c t)

pub pipes-delete :
    (u c : ℕ) (t : Table ℕ) → among c (pipes (delete u t)) ≡ true → among c (pipes t) ≡ true
unfolding delete pipes among
pipes-delete u c [] h = h
pipes-delete u c ((v, d) ∷ t) h = grind (arith, h, pipes-delete u c t)

pub distinct-delete :
    (u : ℕ) (t : Table ℕ) → distinct (pipes t) ≡ true → distinct (pipes (delete u t)) ≡ true
unfolding delete pipes distinct among
distinct-delete u [] h = h
distinct-delete u ((v, d) ∷ t) h = grind (arith, h, distinct-delete u t, pipes-delete u d t)

-- The channel of a user is gone with the user.
pub gone-delete :
    (u c : ℕ) (t : Table ℕ)
    → lookup u t ≡ some c
    → distinct (pipes t) ≡ true
    → among c (pipes (delete u t)) ≡ false
unfolding lookup delete pipes distinct among
gone-delete u c [] h d = absurd (cc h)
gone-delete u c ((v, e) ∷ t) h d =
    grind (arith, h, d, gone-delete u c t, lookup-pipes u c t, pipes-delete u c t)

-- The hub `k` is `h` with the channels `xs` closed.
pub record IsClosed (h k : Hub) (xs : List ℕ) : Type 0 where
  pub crashed : k.crashed ≡ h.crashed
  pub streams : k.streams ≡ h.streams
  pub list : k.list ≡ h.list
  pub next : k.next_pipe ≡ h.next_pipe
  pub closed : (x : ℕ) → among x xs ≡ false → (k.pipe_at x).closed ≡ (h.pipe_at x).closed
  pub queue : (x : ℕ) → (k.pipe_at x).queue ≡ (h.pipe_at x).queue
  pub capacity : (x : ℕ) → (k.pipe_at x).capacity ≡ (h.pipe_at x).capacity

pub close_pipe-IsClosed :
    (c : ℕ) (h : Hub) → (h.pipe_at c).closed ≡ false → IsClosed h (close_pipe c h) (c ∷ [])
unfolding close_pipe among
close_pipe-IsClosed c h e = rw e (record {
  crashed = refl;
  streams = refl;
  list = refl;
  next = refl;
  closed = λ x o. grind (
    arith,
    o,
    field_changed (λ (p : Pipe). p.closed) h.pipe_at c x (λ p. record p { closed = true }),
  );
  queue = λ x. change-field (λ (p : Pipe). p.queue) h.pipe_at c x _ (λ p. refl);
  capacity = λ x. change-field (λ (p : Pipe). p.capacity) h.pipe_at c x _ (λ p. refl);
})

pub among_head : (c : ℕ) (xs : List ℕ) → among c (c ∷ xs) ≡ true
unfolding among
among_head c xs = grind arith

pub among_tail : (x c : ℕ) (xs : List ℕ) → among x xs ≡ true → among x (c ∷ xs) ≡ true
unfolding among
among_tail x c xs h = grind (arith, h)

pub apart_head :
    (x c : ℕ) (xs : List ℕ)
    → distinct (c ∷ xs) ≡ true
    → among x xs ≡ true
    → among x (c ∷ []) ≡ false
unfolding among distinct
apart_head x c xs d h = elim (ℕ_discrete c x) [
  | yes e ↦ absurd (grind (arith, d, h, e, ap (λ n. among n xs) e))
  | no n ↦ grind (arith, n)
]

outside_head :
    (x c : ℕ) (xs : List ℕ)
    → among x (c ∷ xs) ≡ false
    → (among x (c ∷ []) ≡ false) × (among x xs ≡ false)
unfolding among
outside_head x c xs h = (grind (arith, h), grind (arith, h))

pub close_all-IsClosed :
    (t : Table ℕ) (h : Hub)
    → distinct (pipes t) ≡ true
    → ((c : ℕ) → among c (pipes t) ≡ true → (h.pipe_at c).closed ≡ false)
    → IsClosed h (close_all t h) (pipes t)
unfolding close_all pipes
close_all-IsClosed [] h d o = record {
  crashed = refl;
  streams = refl;
  list = refl;
  next = refl;
  closed = λ x e. refl;
  queue = λ x. refl;
  capacity = λ x. refl;
}
close_all-IsClosed ((u, c) ∷ t) h d o =
    let one = close_pipe-IsClosed c h (o c (among_head c (pipes t))) in
    let rest =
      close_all-IsClosed t (close_pipe c h) (distinct_tail c (pipes t) d)
        (λ x e. one.closed x (apart_head x c (pipes t) d e) ∙ o x (among_tail x c (pipes t) e)) in
    record {
      crashed = rest.crashed ∙ one.crashed;
      streams = rest.streams ∙ one.streams;
      list = rest.list ∙ one.list;
      next = rest.next ∙ one.next;
      closed = λ x e.
          rest.closed x (outside_head x c (pipes t) e).1
          ∙ one.closed x (outside_head x c (pipes t) e).0;
      queue = λ x. rest.queue x ∙ one.queue x;
      capacity = λ x. rest.capacity x ∙ one.capacity x;
    }

-- A change of the streams of one item that adds none.
module _ (s : ℕ → Table ℕ) (r : ℕ) (f : Table ℕ → Table ℕ) where
  pub among-change :
      (q c : ℕ)
      → (among c (pipes (f (s r))) ≡ true → among c (pipes (s r)) ≡ true)
      → among c (pipes (change s r f q)) ≡ true
      → among c (pipes (s q)) ≡ true
  among-change q c k h = elim (ℕ_discrete r q) [
    | yes e ↦
        let here = ap (change s r f) (sym e) ∙ change_self s r f in
        ap (λ i. among c (pipes (s i))) (sym e) ∙ k (sym (ap (λ t. among c (pipes t)) here) ∙ h)
    | no n ↦ sym (ap (λ t. among c (pipes t)) (change_ne s r q f n)) ∙ h
  ]

  pub distinct-change :
      (q : ℕ)
      → distinct (pipes (f (s r))) ≡ true
      → distinct (pipes (s q)) ≡ true
      → distinct (pipes (change s r f q)) ≡ true
  distinct-change q k d = elim (ℕ_discrete r q) [
    | yes e ↦ ap (λ t. distinct (pipes t)) (ap (change s r f) (sym e) ∙ change_self s r f) ∙ k
    | no n ↦ ap (λ t. distinct (pipes t)) (change_ne s r q f n) ∙ d
  ]

  pub elsewhere :
      (q c : ℕ)
      → among c (pipes (f (s r))) ≡ false
      → among c (pipes (change s r f q)) ≡ true
      → r ≢ q
  elsewhere q c n h e =
      absurd
        (cc (ap (λ t. among c (pipes t)) (ap (change s r f) (sym e) ∙ change_self s r f), n, h))
