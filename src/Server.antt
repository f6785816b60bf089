-- ===== src/Server.antt =====
-- What the client knows of the server: the channels and users of gumble/gumble/channel.go, user.go and
-- client.go. The handlers share these objects by pointer, so they stand in two stores, a pointer is an
-- index, and a removed object stays where it is. A string is the list of its runes.
pub mod ChannelState
pub mod ChannelRemove
pub mod Config
pub mod UserState
pub mod UserRemove
mod Tests
use barnard_stormdragon_ai_f.Prelude.{
  ℕ, ◌+◌, List, [], ◌∷◌, ◌++◌, Option, none, some, Bool, true, false,
}
use barnard_stormdragon_ai_f.Prelude.Int.{ℤ, pos}
use barnard_stormdragon_ai_f.Prelude.Table.{Table, insert, change}

pub record Channel : Type 0 where
  pub id : ℕ
  pub name : List ℕ
  pub parent : Option ℕ
  pub children : Table ℕ
  pub links : Table ℕ
  pub users : Table ℕ
  pub description : List ℕ
  pub description_hash : Option (List ℕ)
  pub max_users : ℕ
  pub position : ℤ
  pub temporary : Bool
  pub attached : Bool  -- whether `client` is set

pub record User : Type 0 where
  pub session : ℕ
  pub user_id : ℕ
  pub name : List ℕ
  pub channel : Option ℕ
  pub muted : Bool
  pub deafened : Bool
  pub suppressed : Bool
  pub self_muted : Bool
  pub self_deafened : Bool
  pub priority_speaker : Bool
  pub recording : Bool
  pub comment : List ℕ
  pub comment_hash : Option (List ℕ)
  pub hash : List ℕ
  pub texture : Option (List ℕ)
  pub texture_hash : Option (List ℕ)
  pub attached : Bool

pub data Phase : Type 0 where
  disconnected connected synced : Phase

-- What an event listener is told: the bits of the change, and the objects by pointer.
pub data Notice : Type 0 where
  channel_change : (flags channel : ℕ) → Notice
  user_change : (flags user : ℕ) (actor : Option ℕ) (text : List ℕ) → Notice

-- Why the handler stopped.
pub data HandlerError : Type 0 where
  incomplete_protobuf invalid_protobuf : HandlerError

-- DisconnectEvent, as far as handleUserRemove fills it.
pub data Disconnect : Type 0 where
  not_yet : Disconnect
  kicked banned : (text : List ℕ) → Disconnect

-- The fields of Client that the handlers change; pointers from `next_channel` and `next_user` on are
-- not in use yet.
pub record Server : Type 0 where
  pub channel_at : ℕ → Channel
  pub user_at : ℕ → User
  pub next_channel : ℕ
  pub next_user : ℕ
  pub channels : Table ℕ
  pub users : Table ℕ
  pub permissions : Table ℕ
  pub self : Option ℕ
  pub phase : Phase
  pub disconnect : Disconnect
  pub notices : List Notice

unfoldable pub new_channel : ℕ → Channel
new_channel id = record {
  id = id;
  name = [];
  parent = none;
  children = [];
  links = [];
  users = [];
  description = [];
  description_hash = none;
  max_users = 0;
  position = pos 0;
  temporary = false;
  attached = true;
}

unfoldable pub new_user : ℕ → Option ℕ → User
new_user session channel = record {
  session = session;
  user_id = 0;
  name = [];
  channel = channel;
  muted = false;
  deafened = false;
  suppressed = false;
  self_muted = false;
  self_deafened = false;
  priority_speaker = false;
  recording = false;
  comment = [];
  comment_hash = none;
  hash = [];
  texture = none;
  texture_hash = none;
  attached = true;
}

abbrev pub edit_channel : Server → ℕ → (Channel → Channel) → Server
edit_channel s r f = record s { channel_at = change s.channel_at r f }

abbrev pub edit_user : Server → ℕ → (User → User) → Server
edit_user s r f = record s { user_at = change s.user_at r f }

-- `Channels.create`, and the client pointer.
unfoldable pub create_channel : Server → ℕ → Server
create_channel s id = record s {
  channel_at = change s.channel_at s.next_channel (λ old. new_channel id);
  next_channel = s.next_channel + 1;
  channels = insert id s.next_channel s.channels;
}

-- `Users.create`, the channel and the client pointer.
unfoldable pub create_user : Server → ℕ → Option ℕ → Server
create_user s session channel = record s {
  user_at = change s.user_at s.next_user (λ old. new_user session channel);
  next_user = s.next_user + 1;
  users = insert session s.next_user s.users;
}

-- Listeners are only told while the client is synced.
unfoldable pub tell : Phase → Notice → Server → Server
tell synced n s = record s { notices = s.notices ++ (n ∷ []) }
tell connected n s = s
tell disconnected n s = s
