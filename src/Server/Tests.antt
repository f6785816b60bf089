-- ===== src/Server/Tests.antt =====
-- Runs of the handlers of gumble/gumble/handlers.go, and the theorems at them.
use barnard_stormdragon_ai_f.Prelude.{
  ℕ, zero, suc, ◌≡◌, refl, List, [], ◌∷◌, none, some, true, arith,
}
use barnard_stormdragon_ai_f.Prelude.Table.{lookup, insert, delete, change}
use barnard_stormdragon_ai_f.Server.{
  Server, synced, invalid_protobuf, not_yet, new_channel, new_user, create_user, tell,
}
use barnard_stormdragon_ai_f.Protobuf.{pb_encode}
use barnard_stormdragon_ai_f.Server.Config.{ServerConfig, handle_server_config}
use barnard_stormdragon_ai_f.Server.Config.Recording.{phantom_recording_allowed}
use barnard_stormdragon_ai_f.Server.ChannelState.{ChannelState, handle_channel_state}
use barnard_stormdragon_ai_f.Server.ChannelRemove.{handle_channel_remove}
use barnard_stormdragon_ai_f.Server.ChannelState.Links.{IsLinked}
use barnard_stormdragon_ai_f.Server.ChannelState.Parents.{climb, IsShallow, IsAcyclic}
use barnard_stormdragon_ai_f.Server.ChannelState.Handled.{
  handle_channel_state-IsLinked, handle_channel_state-IsAcyclic,
}
use barnard_stormdragon_ai_f.Server.ChannelState.Removed.{handle_channel_remove-IsLinked}
use barnard_stormdragon_ai_f.Server.UserState.{
  handle_user_state, with_session, finished, applied, find_user, seat_new, apply_actor, apply_text,
  apply_user_id, apply_channel, move_user, apply_rest, apply_texts, apply_audio, apply_bool,
  apply_always, enter_channel, leave_channel, edit_field,
}
use barnard_stormdragon_ai_f.Server.UserState.Broken.{only_move, handle_user_state_half_done}
use barnard_stormdragon_ai_f.Server.UserState.Fields.{IsSeated}
use barnard_stormdragon_ai_f.Server.UserState.Seated.{handle_user_state-IsSeated}

-- A client that has just connected.
abbrev nobody : Server
nobody = record {
  channel_at = λ r. new_channel 0;
  user_at = λ r. new_user 0 none;
  next_channel = 0;
  next_user = 0;
  channels = [];
  users = [];
  permissions = [];
  self = none;
  phase = synced;
  disconnect = not_yet;
  notices = [];
}

abbrev silent : ℕ → ChannelState
silent id = record {
  channel_id = some id;
  parent = none;
  name = none;
  links = [];
  links_add = [];
  links_remove = [];
  description = none;
  temporary = none;
  position = none;
  description_hash = none;
  max_users = none;
}

nobody-IsLinked : IsLinked nobody
unfolding lookup
nobody-IsLinked = record {
  indexed = λ k r e. absurd (cc e);
  mutual_links = record {
    live = λ a k b h e. absurd (cc e);
    key = λ a k b h e. absurd (cc e);
    back = λ a k b h e. absurd (cc e);
  };
}

-- The root, then a channel linked with it.
abbrev root_only : Server
root_only = (handle_channel_state nobody (silent 0)).0

abbrev below_root : ChannelState
below_root = record (silent 4) { parent = some 0; links_add = 0 ∷ [] }

abbrev two_channels : Server
two_channels = (handle_channel_state root_only below_root).0

root_only-IsLinked : IsLinked root_only
root_only-IsLinked = handle_channel_state-IsLinked nobody (silent 0) nobody-IsLinked

handle_channel_state-IsLinked_example : IsLinked two_channels
handle_channel_state-IsLinked_example =
    handle_channel_state-IsLinked root_only below_root root_only-IsLinked

handle_channel_remove-IsLinked_example : IsLinked (handle_channel_remove two_channels (some 0)).0
handle_channel_remove-IsLinked_example =
    handle_channel_remove-IsLinked two_channels (some 0) handle_channel_state-IsLinked_example

nobody-IsShallow : IsShallow nobody
unfolding IsShallow climb new_channel
nobody-IsShallow none = refl
nobody-IsShallow (some c) = refl

handle_channel_state-IsAcyclic_example : IsAcyclic (handle_channel_state nobody below_root).0
handle_channel_state-IsAcyclic_example =
    handle_channel_state-IsAcyclic nobody below_root nobody-IsLinked nobody-IsShallow

-- The root and one more channel, and nobody in them.
abbrev rooms : Server
rooms = record nobody {
  channel_at = λ r. new_channel r;
  next_channel = 2;
  channels = (0, 0) ∷ (1, 1) ∷ [];
}

rooms-IsSeated : IsSeated rooms
unfolding lookup
rooms-IsSeated = record { seating = λ k u e. absurd (cc e) }

-- The user 7 comes in, and goes to the other channel.
abbrev seven_here : Server
seven_here = (handle_user_state rooms (only_move 7 0)).0

comes_in : (handle_user_state rooms (only_move 7 0)).1 ≡ none
unfolding handle_user_state with_session finished applied find_user seat_new apply_actor apply_text
    apply_user_id apply_channel move_user apply_rest apply_texts apply_audio apply_bool apply_always
    enter_channel leave_channel lookup insert delete change create_user new_user new_channel
    edit_field tell
comes_in = refl

seven_moves : (handle_user_state seven_here (only_move 7 1)).1 ≡ none
unfolding handle_user_state with_session finished applied find_user seat_new apply_actor apply_text
    apply_user_id apply_channel move_user apply_rest apply_texts apply_audio apply_bool apply_always
    enter_channel leave_channel lookup insert delete change create_user new_user new_channel
    edit_field tell
seven_moves = refl

handle_user_state-IsSeated_example : IsSeated (handle_user_state seven_here (only_move 7 1)).0
handle_user_state-IsSeated_example =
    handle_user_state-IsSeated seven_here (only_move 7 1)
      (handle_user_state-IsSeated rooms (only_move 7 0) rooms-IsSeated comes_in) seven_moves

-- One user, known by 7, in the root channel.
abbrev one_user : Server
one_user = record rooms { users = (7, 0) ∷ []; user_at = λ r. new_user 7 (some 0) }

abbrev lost : Server
lost = (handle_user_state one_user (only_move 7 5)).0

lookup_seven : lookup 7 one_user.users ≡ some 0
unfolding lookup
lookup_seven = refl

lookup_five : lookup 5 one_user.channels ≡ none
unfolding lookup
lookup_five = refl

user_of_seven : ((one_user.user_at 0).session ≡ 7) × ((one_user.user_at 0).channel ≡ some 0)
unfolding new_user
user_of_seven = (refl, refl)

handle_user_state_half_done_example :
    let t = (handle_user_state one_user (only_move 7 5)).0 in
    ((handle_user_state one_user (only_move 7 5)).1 ≡ some invalid_protobuf)
    × (lookup 7 t.users ≡ some 0)
    × ((t.user_at 0).channel ≡ some 0)
    × (lookup 7 (t.channel_at 0).users ≡ none)
handle_user_state_half_done_example =
    handle_user_state_half_done one_user 7 0 5 0 lookup_seven user_of_seven.0 user_of_seven.1
      lookup_five

abbrev silent_config : ServerConfig
silent_config = record {
  max_bandwidth = none;
  welcome_text = none;
  allow_html = none;
  message_length = none;
  image_message_length = none;
  max_users = none;
  recording_allowed = none;
}

abbrev blanks : ℕ → List ℕ
blanks zero = []
blanks (suc n) = 0x20 ∷ blanks n

length_128 : pb_encode 10 128 ≡ some (0x80 ∷ 1 ∷ [])
unfolding pb_encode
length_128 = refl

phantom_recording_allowed_example :
    (handle_server_config
      (0x12 ∷ 0x80 ∷ 1 ∷ 0x20 ∷ 56 ∷ 1 ∷ blanks 125)
      silent_config).recording_allowed
    ≡ some true
phantom_recording_allowed_example =
    phantom_recording_allowed silent_config 0x20 1 (blanks 125) (0x80 ∷ 1 ∷ []) refl (omega arith)
      length_128 refl
