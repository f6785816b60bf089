-- ===== src/Server/UserState/Broken.antt =====
-- Where handleUserState of gumble/gumble/handlers.go stops half-way.
use barnard_stormdragon_ai_f.Prelude.{ℕ, ◌≡◌, refl, ap, ◌∙◌, none, some}
use barnard_stormdragon_ai_f.Prelude.Table.{lookup, change_self, lookup-delete_self}
use barnard_stormdragon_ai_f.Server.{Server, Channel, invalid_protobuf}
use barnard_stormdragon_ai_f.Server.UserState.{
  UserState, handle_user_state, with_session, finished, applied, find_user, apply_actor, apply_text,
  apply_user_id, apply_channel, move_user, enter_channel, leave_channel, apply_rest, apply_texts,
  apply_audio, apply_bool, apply_always,
}

-- A message that only moves a user.
abbrev pub only_move : (session channel : ℕ) → UserState
only_move session channel = record {
  session = some session;
  actor = none;
  name = none;
  user_id = none;
  channel_id = some channel;
  mute = none;
  deaf = none;
  suppress = none;
  self_mute = none;
  self_deaf = none;
  texture = none;
  comment = none;
  hash = none;
  comment_hash = none;
  texture_hash = none;
  priority_speaker = none;
  recording = none;
}

moved_nowhere :
    (s : Server) (k u id c : ℕ)
    → lookup k s.users ≡ some u
    → (s.user_at u).session ≡ k
    → (s.user_at u).channel ≡ some c
    → lookup id s.channels ≡ none
    → handle_user_state s (only_move k id) ≡ (leave_channel s k (some c), some invalid_protobuf)
unfolding handle_user_state with_session finished applied find_user apply_actor apply_text
    apply_user_id apply_channel move_user apply_rest apply_texts apply_audio apply_bool apply_always
    enter_channel leave_channel
moved_nowhere s k u id c hu hs hc hi = rw (hu, hs, hc, hi) refl

-- A UserState message that moves a known user to an unknown channel is refused, but the user has been
-- taken out of its channel, which it still names as its own.
pub handle_user_state_half_done :
    (s : Server) (k u id c : ℕ)
    → lookup k s.users ≡ some u
    → (s.user_at u).session ≡ k
    → (s.user_at u).channel ≡ some c
    → lookup id s.channels ≡ none
    → let (t, e) = handle_user_state s (only_move k id) in
      (e ≡ some invalid_protobuf)
      × (lookup k t.users ≡ some u)
      × ((t.user_at u).channel ≡ some c)
      × (lookup k (t.channel_at c).users ≡ none)
unfolding leave_channel
handle_user_state_half_done s k u id c hu hs hc hi = rw (moved_nowhere s k u id c hu hs hc hi) (
  refl,
  hu,
  hc,
  ap (λ (x : Channel). lookup k x.users) (change_self s.channel_at c _)
      ∙ lookup-delete_self k (s.channel_at c).users,
)
