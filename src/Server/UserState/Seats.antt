-- ===== src/Server/UserState/Seats.antt =====
-- Users and channels agree in gumble/gumble/handlers.go: behind a handleUserState that succeeds, every
-- known user sits in the channel that it names.
use barnard_stormdragon_ai_f.Prelude.{
  ℕ, ◌+◌, ◌<◌, ◌≡◌, ◌≢◌, sym, ap, ◌∙◌, Option, none, some, if◌then◌else◌, ◌==◌, ◌&&◌, arith,
}
use native.Mathlib.Decide.{ℕ_discrete}
use barnard_stormdragon_ai_f.Prelude.Table.{Table, lookup}

-- The user `u` is known as `k`, and its channel has it under `k`.
pub record IsSeat (sess : ℕ → ℕ) (chan : ℕ → Option ℕ) (seats : ℕ → ℕ → Option ℕ) (next k u : ℕ)
    : Type 0 where
  pub session : sess u ≡ k
  pub below : u < next
  pub c : ℕ
  pub channel : chan u ≡ some c
  pub seat : seats c k ≡ some u

abbrev pub IsSeating : (ℕ → ℕ) → (ℕ → Option ℕ) → (ℕ → ℕ → Option ℕ) → Table ℕ → ℕ → Type 0
IsSeating sess chan seats users next =
    (k u : ℕ) → lookup k users ≡ some u → IsSeat sess chan seats next k u

same_user : (a b : ℕ) → some a ≡ some b → a ≡ b
same_user a b h = grind arith

module _ (sess : ℕ → ℕ) (chan chan' : ℕ → Option ℕ) (seats seats' : ℕ → ℕ → Option ℕ)
    (users : Table ℕ) (next k u c c0 : ℕ) (h : IsSeating sess chan seats users next)
    (known : lookup k users ≡ some u)
    (chan_new : (v : ℕ) → chan' v ≡ (if u == v then some c else chan v))
    (seats_new : (x j : ℕ)
      → seats' x j ≡ (
          if c == x && k == j then some u else if c0 == x && k == j then none else seats x j)) where
  pub moved-IsSeating : IsSeating sess chan' seats' users next
  moved-IsSeating j v e =
      let q = h j v e in
      elim (ℕ_discrete k j) [
        | yes same ↦
            let is_u : u ≡ v = same_user u v (sym known ∙ ap (λ i. lookup i users) same ∙ e) in
            record {
              session = q.session;
              below = q.below;
              c = c;
              channel = grind (arith, chan_new v);
              seat = grind (arith, seats_new c j);
            }
        | no other ↦
            let not_u : u ≢ v = λ i. other (sym ((h k u known).session) ∙ ap sess i ∙ q.session) in
            record {
              session = q.session;
              below = q.below;
              c = q.c;
              channel = grind (arith, chan_new v, q.channel);
              seat = grind (arith, seats_new q.c j, q.seat);
            }
      ]

module _ (sess sess' : ℕ → ℕ) (chan chan' : ℕ → Option ℕ) (seats seats' : ℕ → ℕ → Option ℕ)
    (users users' : Table ℕ) (next k c : ℕ) (h : IsSeating sess chan seats users next)
    (sess_new : (v : ℕ) → sess' v ≡ (if next == v then k else sess v))
    (chan_new : (v : ℕ) → chan' v ≡ (if next == v then some c else chan v))
    (users_new : (j : ℕ) → lookup j users' ≡ (if k == j then some next else lookup j users))
    (seats_new : (x j : ℕ) → seats' x j ≡ (if c == x && k == j then some next else seats x j)) where
  pub new-IsSeating : IsSeating sess' chan' seats' users' (next + 1)
  new-IsSeating j v e = elim (ℕ_discrete k j) [
    | yes same ↦
        let is_next : next ≡ v = same_user next v (grind (arith, users_new j)) in
        record {
          session = grind (arith, sess_new v);
          below = omega arith;
          c = c;
          channel = grind (arith, chan_new v);
          seat = grind (arith, seats_new c j);
        }
    | no other ↦
        let q = h j v (grind (arith, users_new j)) in
        record {
          session = grind (arith, sess_new v, q.session, q.below);
          below = omega (arith, q.below);
          c = q.c;
          channel = grind (arith, chan_new v, q.channel, q.below);
          seat = grind (arith, seats_new q.c j, q.seat);
        }
  ]
