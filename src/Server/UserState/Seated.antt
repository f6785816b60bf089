-- ===== src/Server/UserState/Seated.antt =====
-- A whole handleUserState of gumble/gumble/handlers.go that succeeds.
use barnard_stormdragon_ai_f.Prelude.{
  ℕ, ◌≡◌, refl, sym, ◌∙◌, Option, none, some, if◌then◌else◌, ◌==◌, ◌&&◌, arith,
}
use mathlib.Core.Path.{fun_ext}
use barnard_stormdragon_ai_f.Prelude.Table.{
  Table, lookup, insert, delete, change, change-field, field_changed, lookup-insert, lookup-delete,
}
use barnard_stormdragon_ai_f.Server.{
  Server, Channel, User, Phase, synced, connected, disconnected, Notice, tell, new_user,
  create_user,
}
use barnard_stormdragon_ai_f.Server.UserState.{
  UserState, Outcome, failed, going, seat_new, find_user, with_actor, apply_actor, leave_channel,
  enter_channel, move_user, apply_channel, applied, finished, with_session, handle_user_state,
}
use barnard_stormdragon_ai_f.Server.UserState.Seats.{moved-IsSeating, new-IsSeating}
use barnard_stormdragon_ai_f.Server.UserState.Fields.{
  sessions, channel_of, seats, IsSeated, IsGoing, IsGood, apply_text-IsGood, apply_rest-IsGood,
  apply_user_id-IsGood,
}

with_actor-IsGood :
    (s : Server) (u flags : ℕ) (a : Option ℕ) → IsGoing s u → IsGood (with_actor s u flags a)
unfolding with_actor IsGood
with_actor-IsGood s u flags none h = tt
with_actor-IsGood s u flags (some a) h = h

apply_actor-IsGood : (a : Option ℕ) (o : Outcome) → IsGood o → IsGood (apply_actor a o)
unfolding apply_actor IsGood
apply_actor-IsGood none (failed s e) h = h
apply_actor-IsGood (some a) (failed s e) h = h
apply_actor-IsGood none (going s u flags actor) h = h
apply_actor-IsGood (some a) (going s u flags actor) h =
    with_actor-IsGood s u flags (lookup a s.users) h

-- Who sits where behind one change of one channel's table.
seat_change :
    (at : ℕ → Channel) (c : ℕ) (f : Table ℕ → Table ℕ) (x j : ℕ)
    → lookup j (change at c (λ y. record y { users = f y.users }) x).users
      ≡ (if c == x then lookup j (f (at x).users) else lookup j (at x).users)
seat_change at c f x j = field_changed (λ (y : Channel). lookup j y.users) at c x _

seat_added :
    (at : ℕ → Channel) (c k u x j : ℕ)
    → lookup j (change at c (λ y. record y { users = insert k u y.users }) x).users
      ≡ (if c == x && k == j then some u else lookup j (at x).users)
seat_added at c k u x j =
    grind (arith, seat_change at c (insert k u) x j, lookup-insert k j u (at x).users)

seat_moved :
    (at : ℕ → Channel) (c0 c k u x j : ℕ)
    → lookup j
        (change
          (change at c0 (λ y. record y { users = delete k y.users }))
          c
          (λ y. record y { users = insert k u y.users })
          x).users
      ≡ (if c == x && k == j
          then some u
          else if c0 == x && k == j
          then none
          else lookup j (at x).users)
seat_moved at c0 c k u x j = grind (
  arith,
  seat_added (change at c0 (λ y. record y { users = delete k y.users })) c k u x j,
  seat_change at c0 (delete k) x j,
  lookup-delete k j (at x).users,
)

-- A new user in the channel `c`.
seat_new-IsGood :
    (s : Server) (session : ℕ) (c : Option ℕ)
    → IsSeated s
    → IsGood (seat_new (create_user s session c) session s.next_user c)
unfolding seat_new create_user new_user IsGood
seat_new-IsGood s session none h = tt
seat_new-IsGood s session (some c) h = record {
  k = session;
  seated = record {
    seating =
        new-IsSeating (sessions s) _ (channel_of s) _ (seats s) _ s.users _ s.next_user session c
          h.seating (λ v. field_changed (λ (x : User). x.session) s.user_at s.next_user v _)
          (λ v. field_changed (λ (x : User). x.channel) s.user_at s.next_user v _)
          (λ j. lookup-insert session j s.next_user s.users)
          (λ x j. seat_added s.channel_at c session s.next_user x j);
  };
  known = lookup-insert session session s.next_user s.users ∙ ground arith;
}

find_user-IsGood :
    (s : Server) (session : ℕ) (u : Option ℕ)
    → lookup session s.users ≡ u
    → IsSeated s
    → IsGood (find_user s session u)
unfolding find_user IsGood
find_user-IsGood s session (some u) e h = record { k = session; seated = h; known = e }
find_user-IsGood s session none e h = seat_new-IsGood s session (lookup 0 s.channels) h

enter_channel-IsGood :
    (s : Server) (u flags : ℕ) (actor : Option ℕ) (k c0 : ℕ) (c : Option ℕ)
    → IsSeated s
    → lookup k s.users ≡ some u
    → IsGood (enter_channel (leave_channel s (s.user_at u).session (some c0)) u flags actor c)
unfolding enter_channel leave_channel IsGood
enter_channel-IsGood s u flags actor k c0 none h e = tt
enter_channel-IsGood s u flags actor k c0 (some c) h e =
    let session : k ≡ (s.user_at u).session = sym ((h.seating k u e).session) in
    record {
      k = k;
      seated = record {
        seating =
            rw
              (fun_ext (λ v.
                change-field (λ (x : User). x.session) s.user_at u v
                  (λ x. record x { channel = some c }) (λ x. refl)))
              (moved-IsSeating (sessions s) (channel_of s) _ (seats s) _ s.users s.next_user k u c
                c0 h.seating e (λ v. field_changed (λ (x : User). x.channel) s.user_at u v _)
                (λ x j. rw session (seat_moved s.channel_at c0 c _ u x j)));
      };
      known = e;
    }

move_user-IsGood : (id : ℕ) (o : Outcome) → IsGood o → IsGood (move_user id o)
unfolding move_user IsGood
move_user-IsGood id (failed s e) h = h
move_user-IsGood id (going s u flags actor) h =
    let q = h.seated.seating h.k u h.known in
    rw q.channel
      (enter_channel-IsGood s u flags actor h.k q.c (lookup id s.channels) h.seated h.known)

apply_channel-IsGood : (c : Option ℕ) (o : Outcome) → IsGood o → IsGood (apply_channel c o)
unfolding apply_channel
apply_channel-IsGood none o h = h
apply_channel-IsGood (some id) o h = move_user-IsGood id o h

applied-IsGood :
    (s : Server) (p : UserState) (session : ℕ) → IsSeated s → IsGood (applied s p session)
unfolding applied
applied-IsGood s p session h = apply_rest-IsGood p _ (
    apply_channel-IsGood p.channel_id _ (
      apply_user_id-IsGood p.user_id _ (
        apply_text-IsGood _ _ _ p.name _ (λ v x. refl) (λ v x. refl)
          (apply_actor-IsGood p.actor _
            (find_user-IsGood s session (lookup session s.users) refl h)))))

tell-IsSeated : (t : Phase) (n : Notice) (s : Server) → IsSeated s → IsSeated (tell t n s)
unfolding tell
tell-IsSeated synced n s h = record { seating = h.seating }
tell-IsSeated connected n s h = h
tell-IsSeated disconnected n s h = h

finished-IsSeated : (o : Outcome) → IsGood o → (finished o).1 ≡ none → IsSeated (finished o).0
unfolding finished IsGood
finished-IsSeated (failed s e) h done = absurd (cc done)
finished-IsSeated (going s u flags actor) h done = tell-IsSeated s.phase _ s h.seated

with_session-IsSeated :
    (s : Server) (p : UserState) (k : Option ℕ)
    → IsSeated s
    → (with_session s p k).1 ≡ none
    → IsSeated (with_session s p k).0
unfolding with_session
with_session-IsSeated s p none h done = h
with_session-IsSeated s p (some session) h done =
    finished-IsSeated (applied s p session) (applied-IsGood s p session h) done

-- Where every known user sits in the channel that it names, under its session, and the handler returns
-- no error, every known user does so behind a handleUserState.
pub handle_user_state-IsSeated :
    (s : Server) (p : UserState)
    → IsSeated s
    → (handle_user_state s p).1 ≡ none
    → IsSeated (handle_user_state s p).0
unfolding handle_user_state
handle_user_state-IsSeated s p h done = with_session-IsSeated s p p.session h done
