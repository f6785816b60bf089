-- ===== src/Listeners/Audio/Safety.antt =====
-- The sections of gumble/gumble/audiolisteners.go and dispatchAudio in any order.
use barnard_stormdragon_ai_f.Prelude.{
  ℕ, ◌⊎◌, ◌≡◌, ◌≢◌, refl, sym, ap, ◌∙◌, List, [], ◌∷◌, Option, none, some, true, false, Bool-cases,
  inl, inr, arith,
}
use barnard_stormdragon_ai_f.Prelude.Int.{ℤ}
use native.Mathlib.Decide.{ℕ_discrete}
use barnard_stormdragon_ai_f.Prelude.Table.{Table, lookup, insert, change, change_ne, change_self}
use barnard_stormdragon_ai_f.Listeners.Order.{among, distinct}
use barnard_stormdragon_ai_f.Listeners.Audio.{
  Pipe, Hub, items, buffer_size, open_stream, note_deliveries, Section, attaches, detaches, leaves,
  receives, notes, delivers, enter_section, enter_all, silent_hub,
}
use barnard_stormdragon_ai_f.Listeners.Audio.Pipes.{pipes, pipes-delete, distinct-delete}
use barnard_stormdragon_ai_f.Listeners.Audio.Fewer.{
  IsQuiet, fewer, attach_audio-IsFewer, detach_audio-IsFewer, drop_user-IsQuiet,
  take_packet-IsFewer, deliver_audio-IsFewer,
}

-- A channel of some item when a new one has been opened.
module _ (s : ℕ → Table ℕ) (u r n : ℕ) where
  opened :
      (q c : ℕ)
      → among c (pipes (change s r (λ t. insert u n t) q)) ≡ true
      → ((r ≡ q) × (n ≡ c)) ⊎ (among c (pipes (s q)) ≡ true)
  unfolding pipes among insert
  opened q c h = elim (ℕ_discrete r q) [
    | no a ↦ inr (ap (λ t. among c (pipes t)) (sym (change_ne s r q _ a)) ∙ h)
    | yes e ↦
        let here =
          ap (change s r (λ t. insert u n t)) (sym e) ∙ change_self s r (λ t. insert u n t) in
        let i = ap (λ t. among c (pipes t)) (sym here) ∙ h in
        elim (ℕ_discrete n c) [
          | yes m ↦ inl (e, m)
          | no m ↦ inr (
              ap (λ i. among c (pipes (s i))) (sym e)
              ∙ pipes-delete u c (s r) (grind (arith, i, m)))
        ]
  ]

  opened_distinct :
      (q : ℕ)
      → among n (pipes (s r)) ≡ false
      → distinct (pipes (s r)) ≡ true
      → distinct (pipes (s q)) ≡ true
      → distinct (pipes (change s r (λ t. insert u n t) q)) ≡ true
  unfolding pipes insert distinct
  opened_distinct q a d k = elim (ℕ_discrete r q) [
    | no m ↦ ap (λ t. distinct (pipes t)) (change_ne s r q _ m) ∙ k
    | yes e ↦
        let here =
          ap (change s r (λ t. insert u n t)) (sym e) ∙ change_self s r (λ t. insert u n t) in
        ap (λ t. distinct (pipes t)) here
        ∙ grind (arith, a, distinct-delete u (s r) d, pipes-delete u n (s r))
  ]

unused : (h : Hub) → IsQuiet h → (r : ℕ) → among h.next_pipe (pipes (h.streams r)) ≡ false
unused h w r = elim (Bool-cases (among h.next_pipe (pipes (h.streams r)))) [
  | inl e ↦ absurd (omega (arith, w.used r h.next_pipe e))
  | inr e ↦ e
]

open_stream-IsQuiet :
    (buffers : ℤ) (u r : ℕ) (o : Option ℕ) (h : Hub)
    → IsQuiet h
    → IsQuiet (open_stream buffers u r o h).0
unfolding open_stream
open_stream-IsQuiet buffers u r (some c) h w = w
open_stream-IsQuiet buffers u r none h w =
    let n = h.next_pipe in
    let made : Pipe → Pipe =
      λ old. record { queue = []; capacity = buffer_size buffers; closed = false } in
    let old : (c : ℕ) → n ≢ c → change h.pipe_at n made c ≡ h.pipe_at c =
      λ c m. change_ne h.pipe_at n c made m in
    let new : change h.pipe_at n made n ≡ made (h.pipe_at n) = change_self h.pipe_at n made in
    record {
      calm = w.calm;
      live = λ q c i. elim (opened h.streams u r n q c i) [
        | inl e ↦
            ap (λ x. (change h.pipe_at n made x).closed) (sym (e.1))
            ∙ ap (λ (p : Pipe). p.closed) new
        | inr e ↦
            ap (λ (p : Pipe). p.closed) (old c (λ m. omega (arith, m, w.used q c e))) ∙ w.live q c e
      ];
      used = λ q c i. elim (opened h.streams u r n q c i) [
        | inl e ↦ omega (arith, e.1)
        | inr e ↦ omega (arith, w.used q c e)
      ];
      apart = λ q. opened_distinct h.streams u r n q (unused h w r) (w.apart r) (w.apart q);
      owned = λ q p c i j. elim (opened h.streams u r n q c i) [
        | inl e ↦ elim (opened h.streams u r n p c j) [
          | inl g ↦ sym (e.0) ∙ g.0
          | inr g ↦ absurd (omega (arith, e.1, w.used p c g))
        ]
        | inr e ↦ elim (opened h.streams u r n p c j) [
          | inl g ↦ absurd (omega (arith, g.1, w.used q c e))
          | inr g ↦ w.owned q p c e g
        ]
      ];
      room = λ c. elim (ℕ_discrete n c) [
        | yes e ↦ rw (← e, new) (omega arith)
        | no m ↦ let e = old c m in rw e (w.room c)
      ];
    }

note_deliveries-IsQuiet :
    (buffers : ℤ) (u : ℕ) (rs : List ℕ) (h : Hub)
    → IsQuiet h
    → IsQuiet (note_deliveries buffers u rs h).0
unfolding note_deliveries
note_deliveries-IsQuiet buffers u [] h w = w
note_deliveries-IsQuiet buffers u (r ∷ rs) h w =
    note_deliveries-IsQuiet buffers u rs (open_stream buffers u r (lookup u (h.streams r)) h).0
      (open_stream-IsQuiet buffers u r (lookup u (h.streams r)) h w)

enter_section-IsQuiet : (s : Section) (h : Hub) → IsQuiet h → IsQuiet (enter_section s h)
unfolding enter_section
enter_section-IsQuiet (attaches l) h w = fewer h _ w (attach_audio-IsFewer l h w)
enter_section-IsQuiet (detaches r) h w = fewer h _ w (detach_audio-IsFewer r h w)
enter_section-IsQuiet (leaves u) h w = drop_user-IsQuiet u (items h) h w
enter_section-IsQuiet (receives c) h w = fewer h _ w (take_packet-IsFewer c h w)
enter_section-IsQuiet (notes buffers u) h w = note_deliveries-IsQuiet buffers u (items h) h w
enter_section-IsQuiet (delivers u packet d) h w = fewer h _ w (deliver_audio-IsFewer u packet d h w)

-- Critical sections of the audio listeners come in any order, from any number of goroutines, on channels
-- that satisfy IsQuiet: listeners attach, detach and take packets, users leave, and packets are noted and
-- delivered, however long before a delivery was noted. The result satisfies IsQuiet too: no channel was
-- closed twice or sent to after its close, each stream still has an open channel of its own, and no queue
-- is longer than its channel.
pub enter_all-IsQuiet : (ss : List Section) (h : Hub) → IsQuiet h → IsQuiet (enter_all ss h)
unfolding enter_all
enter_all-IsQuiet [] h w = w
enter_all-IsQuiet (s ∷ ss) h w =
    enter_all-IsQuiet ss (enter_section s h) (enter_section-IsQuiet s h w)

pub silent_hub-IsQuiet : IsQuiet silent_hub
unfolding pipes among distinct
silent_hub-IsQuiet = record {
  calm = refl;
  live = λ r c e. refl;
  used = λ r c e. absurd (cc e);
  apart = λ r. refl;
  owned = λ r q c e g. absurd (cc e);
  room = λ c. omega arith;
}
