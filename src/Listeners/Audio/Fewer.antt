-- ===== src/Listeners/Audio/Fewer.antt =====
-- The sections of gumble/gumble/audiolisteners.go and dispatchAudio that open no stream: each closes only
-- channels that its item then forgets, and sends only to open ones.
use barnard_stormdragon_ai_f.Prelude.{
  ℕ, ◌≤◌, ◌<◌, ◌≡◌, refl, sym, ap, ◌∙◌, List, [], ◌∷◌, ◌++◌, Option, none, some, Bool, true, false,
  not, ◌&&◌, if_ind, ltb, Bool-cases, inl, inr, arith, length, length-append,
}
use native.Mathlib.Decide.{ℕ_discrete}
use barnard_stormdragon_ai_f.Prelude.Table.{
  Table, lookup, delete, change, change_ne, change_self, change-field,
}
use barnard_stormdragon_ai_f.Listeners.{Listeners, detach}
use barnard_stormdragon_ai_f.Listeners.Order.{among, distinct}
use barnard_stormdragon_ai_f.Listeners.Audio.{
  Pipe, Hub, close_pipe, close_all, set_streams, attach_audio, detach_audio, drop_stream, drop_user,
  take_packet, taken, is_pipe, deliver_audio, send, Delivery,
}
use barnard_stormdragon_ai_f.Listeners.Audio.Pipes.{
  pipes, lookup-pipes, pipes-delete, distinct-delete, gone-delete, IsClosed, close_pipe-IsClosed,
  close_all-IsClosed, among-change, distinct-change, elsewhere,
}

-- Each open stream has a channel of its own, which is open, and no queue is longer than its channel.
pub record IsQuiet (h : Hub) : Type 0 where
  pub calm : h.crashed ≡ false
  pub live : (r c : ℕ) → among c (pipes (h.streams r)) ≡ true → (h.pipe_at c).closed ≡ false
  pub used : (r c : ℕ) → among c (pipes (h.streams r)) ≡ true → c < h.next_pipe
  pub apart : (r : ℕ) → distinct (pipes (h.streams r)) ≡ true
  pub owned :
      (r q c : ℕ)
      → among c (pipes (h.streams r)) ≡ true
      → among c (pipes (h.streams q)) ≡ true
      → r ≡ q
  pub room : (c : ℕ) → length (h.pipe_at c).queue ≤ (h.pipe_at c).capacity

-- What a section does that opens no stream.
pub record IsFewer (h k : Hub) : Type 0 where
  pub crashed : k.crashed ≡ h.crashed
  pub next : k.next_pipe ≡ h.next_pipe
  pub sub : (r c : ℕ) → among c (pipes (k.streams r)) ≡ true → among c (pipes (h.streams r)) ≡ true
  pub apart : (r : ℕ) → distinct (pipes (k.streams r)) ≡ true
  pub closed :
      (r c : ℕ) → among c (pipes (k.streams r)) ≡ true → (k.pipe_at c).closed ≡ (h.pipe_at c).closed
  pub room : (c : ℕ) → length (k.pipe_at c).queue ≤ (k.pipe_at c).capacity

pub fewer : (h k : Hub) → IsQuiet h → IsFewer h k → IsQuiet k
fewer h k q f = record {
  calm = f.crashed ∙ q.calm;
  live = λ r c e. f.closed r c e ∙ q.live r c (f.sub r c e);
  used = λ r c e. rw f.next (q.used r c (f.sub r c e));
  apart = f.apart;
  owned = λ r p c e g. q.owned r p c (f.sub r c e) (f.sub p c g);
  room = f.room;
}

none_among : (c : ℕ) → among c [] ≡ false
unfolding among
none_among c = refl

from_none : (c : ℕ) (xs : List ℕ) → among c [] ≡ true → among c xs ≡ true
unfolding among
from_none c xs e = absurd (cc e)

none_distinct : distinct [] ≡ true
unfolding distinct
none_distinct = refl

same : (h : Hub) → IsQuiet h → IsFewer h h
same h w = record {
  crashed = refl;
  next = refl;
  sub = λ r c e. e;
  apart = w.apart;
  closed = λ r c e. refl;
  room = w.room;
}

pub attach_audio-IsFewer : (l : ℕ) (h : Hub) → IsQuiet h → IsFewer h (attach_audio l h)
unfolding attach_audio pipes
attach_audio-IsFewer l h w = record {
  crashed = refl;
  next = refl;
  sub = λ r c e. among-change h.streams h.list.fresh (λ old. []) r c (from_none c _) e;
  apart = λ r. distinct-change h.streams h.list.fresh (λ old. []) r none_distinct (w.apart r);
  closed = λ r c e. refl;
  room = w.room;
}

-- Some channels of an item close, and its map forgets them.
closing-IsFewer :
    (h k : Hub) (r : ℕ) (f : Table ℕ → Table ℕ) (xs : List ℕ) (l : Listeners)
    → IsQuiet h
    → IsClosed h k xs
    → ((c : ℕ) → among c (pipes (f (h.streams r))) ≡ true → among c (pipes (h.streams r)) ≡ true)
    → distinct (pipes (f (h.streams r))) ≡ true
    → ((c : ℕ) → among c xs ≡ true → among c (pipes (h.streams r)) ≡ true)
    → ((c : ℕ) → among c xs ≡ true → among c (pipes (f (h.streams r))) ≡ false)
    → IsFewer h (record (set_streams r f k) { list = l })
closing-IsFewer h k r f xs l w z kept d from lost =
    let moved : (q c : ℕ)
        → among c (pipes (change k.streams r f q)) ≡ true
        → among c (pipes (change h.streams r f q)) ≡ true =
      λ q c i. ap (λ s. among c (pipes (change s r f q))) (sym z.streams) ∙ i in
    record {
      crashed = z.crashed;
      next = z.next;
      sub = λ q c i. among-change h.streams r f q c (kept c) (moved q c i);
      apart = λ q.
          ap (λ s. distinct (pipes (change s r f q))) z.streams
          ∙ distinct-change h.streams r f q d (w.apart q);
      closed = λ q c i. z.closed c (elim (Bool-cases (among c xs)) [
        | inl e ↦
            let n = elsewhere h.streams r f q c (lost c e) (moved q c i) in
            let there = among-change h.streams r f q c (kept c) (moved q c i) in
            absurd (n (w.owned r q c (from c e) there))
        | inr e ↦ e
      ]);
      room = λ c. rw (z.queue c, z.capacity c) (w.room c);
    }

pub detach_audio-IsFewer : (r : ℕ) (h : Hub) → IsQuiet h → IsFewer h (detach_audio r h)
unfolding detach_audio pipes
detach_audio-IsFewer r h w =
    let k = close_all-IsClosed (h.streams r) h (w.apart r) (w.live r) in
    if_ind (λ t. IsFewer h t) (h.list.item_at r).detached (λ e. same h w)
      (λ e.
        closing-IsFewer h (close_all (h.streams r) h) r (λ old. []) (pipes (h.streams r))
          (detach r h.list) w k (λ c i. from_none c _ i) none_distinct (λ c i. i)
          (λ c i. none_among c))

only_among : (P : ℕ → Type 0) (x c : ℕ) → P c → among x (c ∷ []) ≡ true → P x
unfolding among
only_among P x c p h = elim (ℕ_discrete c x) [
  | yes e ↦ rw (← e) p
  | no n ↦ absurd (grind (arith, n, h))
]

drop_stream-IsFewer :
    (u r : ℕ) (h : Hub)
    → IsQuiet h
    → (o : Option ℕ) → lookup u (h.streams r) ≡ o
    → IsFewer h (drop_stream u r o h)
unfolding drop_stream
drop_stream-IsFewer u r h w none e = same h w
drop_stream-IsFewer u r h w (some c) e =
    let t = h.streams r in
    let here = lookup-pipes u c t e in
    let k = close_pipe-IsClosed c h (w.live r c here) in
    closing-IsFewer h (close_pipe c h) r (λ t. delete u t) (c ∷ []) (close_pipe c h).list w k
      (λ x i. pipes-delete u x t i) (distinct-delete u t (w.apart r))
      (λ x i. only_among (λ y. among y (pipes t) ≡ true) x c here i)
      (λ x i.
        only_among (λ y. among y (pipes (delete u t)) ≡ false) x c (gone-delete u c t e (w.apart r))
          i)

pub drop_user-IsQuiet : (u : ℕ) (rs : List ℕ) (h : Hub) → IsQuiet h → IsQuiet (drop_user u rs h)
unfolding drop_user
drop_user-IsQuiet u [] h w = w
drop_user-IsQuiet u (r ∷ rs) h w =
    drop_user-IsQuiet u rs (drop_stream u r (lookup u (h.streams r)) h)
      (fewer h _ w (drop_stream-IsFewer u r h w (lookup u (h.streams r)) refl))

-- One channel changes its queue.
queue-IsFewer :
    (h : Hub) (c : ℕ) (f : Pipe → Pipe)
    → IsQuiet h
    → ((p : Pipe) → (f p).closed ≡ p.closed)
    → length (f (h.pipe_at c)).queue ≤ (f (h.pipe_at c)).capacity
    → IsFewer h (record h { pipe_at = change h.pipe_at c f })
queue-IsFewer h c f w k g = record {
  crashed = refl;
  next = refl;
  sub = λ r x e. e;
  apart = w.apart;
  closed = λ r x e. change-field (λ (p : Pipe). p.closed) h.pipe_at c x f k;
  room = λ x. elim (ℕ_discrete c x) [
    | yes e ↦ rw (← e, change_self h.pipe_at c f) g
    | no n ↦ let e = change_ne h.pipe_at c x f n in rw e (w.room x)
  ];
}

taken_fewer : (queue : List ℕ) (n : ℕ) → length queue ≤ n → length (taken queue) ≤ n
unfolding taken
taken_fewer [] n h = h
taken_fewer (packet ∷ queue) n h = omega (arith, h)

sent_fewer :
    (packet : ℕ) (queue : List ℕ) (n : ℕ)
    → ltb (length queue) n ≡ true
    → length (queue ++ (packet ∷ [])) ≤ n
sent_fewer packet queue n h = grind (arith, h, length-append queue (packet ∷ []))

active_pipe : (c : ℕ) (b : Bool) (o : Option ℕ) → (b && is_pipe c o) ≡ true → o ≡ some c
unfolding is_pipe
active_pipe c b none h = absurd (grind (arith, h))
active_pipe c b (some d) h = grind (arith, h)

pub take_packet-IsFewer : (c : ℕ) (h : Hub) → IsQuiet h → IsFewer h (take_packet c h)
unfolding take_packet
take_packet-IsFewer c h w =
    queue-IsFewer h c _ w (λ p. refl)
      (taken_fewer (h.pipe_at c).queue (h.pipe_at c).capacity (w.room c))

send-IsFewer :
    (c packet : ℕ) (h : Hub)
    → IsQuiet h
    → (h.pipe_at c).closed ≡ false
    → IsFewer h (send c packet h)
unfolding send
send-IsFewer c packet h w e = rw e (
    if_ind (λ t. IsFewer h t) (ltb (length (h.pipe_at c).queue) (h.pipe_at c).capacity)
      (λ small.
        queue-IsFewer h c _ w (λ p. refl)
          (sent_fewer packet (h.pipe_at c).queue (h.pipe_at c).capacity small))
      (λ full. same h w))

pub deliver_audio-IsFewer :
    (u packet : ℕ) (d : Delivery) (h : Hub) → IsQuiet h → IsFewer h (deliver_audio u packet d h)
unfolding deliver_audio
deliver_audio-IsFewer u packet d h w =
    if_ind (λ t. IsFewer h t)
      (not (h.list.item_at d.item).detached && is_pipe d.pipe (lookup u (h.streams d.item)))
      (λ active. send-IsFewer d.pipe packet h w (
        w.live d.item d.pipe
          (lookup-pipes u d.pipe (h.streams d.item) (active_pipe d.pipe _ _ active))))
      (λ stale. same h w)
