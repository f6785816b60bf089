-- ===== src/Server/UserState.antt =====
-- handleUserState of gumble/gumble/handlers.go. A handler that stops with an error leaves what it has
-- changed so far.
pub mod Seats
pub mod Broken
pub mod Fields
pub mod Seated
use barnard_stormdragon_ai_f.Prelude.{
  ℕ, zero, suc, ◌+◌, ◌-◌, ◌^◌, List, [], ◌∷◌, Option, none, some, Bool, true, false, not, ◌&&◌,
  bit_or, bit_and, if◌then◌else◌, ◌==◌, same_text,
}
use barnard_stormdragon_ai_f.Prelude.Table.{Table, lookup, insert, delete, change}
use barnard_stormdragon_ai_f.Server.{
  Channel, User, Server, HandlerError, incomplete_protobuf, invalid_protobuf, Disconnect, kicked,
  banned, edit_channel, edit_user, create_user, tell, user_change,
}
use barnard_stormdragon_ai_f.Server.ChannelState.{same_pointer}

-- UserChangeType
abbrev pub user_connected : ℕ
user_connected = 0x1

abbrev pub user_disconnected : ℕ
user_disconnected = 0x2

abbrev pub user_kicked : ℕ
user_kicked = 0x4

abbrev pub user_banned : ℕ
user_banned = 0x8

abbrev pub user_registered : ℕ
user_registered = 0x10

abbrev pub user_unregistered : ℕ
user_unregistered = 0x20

abbrev pub user_name : ℕ
user_name = 0x40

abbrev pub user_channel : ℕ
user_channel = 0x80

abbrev pub user_comment : ℕ
user_comment = 0x100

abbrev pub user_audio : ℕ
user_audio = 0x200

abbrev pub user_texture : ℕ
user_texture = 0x400

abbrev pub user_priority_speaker : ℕ
user_priority_speaker = 0x800

abbrev pub user_recording : ℕ
user_recording = 0x1000

pub record UserState : Type 0 where
  pub session : Option ℕ
  pub actor : Option ℕ
  pub name : Option (List ℕ)
  pub user_id : Option ℕ
  pub channel_id : Option ℕ
  pub mute : Option Bool
  pub deaf : Option Bool
  pub suppress : Option Bool
  pub self_mute : Option Bool
  pub self_deaf : Option Bool
  pub texture : Option (List ℕ)
  pub comment : Option (List ℕ)
  pub hash : Option (List ℕ)
  pub comment_hash : Option (List ℕ)
  pub texture_hash : Option (List ℕ)
  pub priority_speaker : Option Bool
  pub recording : Option Bool

-- The server so far, with the user of the message, the bits of the change and the actor; or where the
-- handler stopped.
pub data Outcome : Type 0 where
  failed : Server → HandlerError → Outcome
  going : (s : Server) (u flags : ℕ) (actor : Option ℕ) → Outcome

unfoldable pub same_bool : Bool → Bool → Bool
same_bool true b = b
same_bool false b = not b

-- A new user comes in at the root channel.
unfoldable pub seat_new : Server → (session u : ℕ) → Option ℕ → Outcome
seat_new s session u none = failed s invalid_protobuf
seat_new s session u (some c) =
    going (edit_channel s c (λ x. record x { users = insert session u x.users })) u
      (bit_or user_connected user_channel) none

unfoldable pub find_user : Server → ℕ → Option ℕ → Outcome
find_user s session (some u) = going s u 0 none
find_user s session none =
    let root = lookup 0 s.channels in seat_new (create_user s session root) session s.next_user root

unfoldable pub with_actor : Server → (u flags : ℕ) → Option ℕ → Outcome
with_actor s u flags none = failed s invalid_protobuf
with_actor s u flags (some a) = going s u flags (some a)

unfoldable pub apply_actor : Option ℕ → Outcome → Outcome
apply_actor o (failed s e) = failed s e
apply_actor none (going s u flags actor) = going s u flags actor
apply_actor (some a) (going s u flags actor) = with_actor s u flags (lookup a s.users)

-- A field of the user, with the bits that it adds.
unfoldable pub edit_field : ℕ → (User → User) → Outcome → Outcome
edit_field bits f (failed s e) = failed s e
edit_field bits f (going s u flags actor) = going (edit_user s u f) u (bit_or flags bits) actor

unfoldable pub user_at_of : Outcome → Option User
user_at_of (failed s e) = none
user_at_of (going s u flags actor) = some (s.user_at u)

-- The bits of a change: only where `same` says that the field is new.
unfoldable pub bits_if_new : ℕ → (User → Bool) → Outcome → ℕ
bits_if_new bits same o = elim (user_at_of o) [ none ↦ 0 | some u ↦ if same u then 0 else bits ]

unfoldable pub apply_text :
    ℕ → (User → List ℕ) → (List ℕ → User → User) → Option (List ℕ) → Outcome → Outcome
apply_text bits get set none o = o
apply_text bits get set (some text) o =
    edit_field (bits_if_new bits (λ u. same_text text (get u)) o) (set text) o

unfoldable pub apply_bool :
    ℕ → (User → Bool) → (Bool → User → User) → Option Bool → Outcome → Outcome
apply_bool bits get set none o = o
apply_bool bits get set (some b) o =
    edit_field (bits_if_new bits (λ u. same_bool b (get u)) o) (set b) o

unfoldable pub apply_always : ℕ → (List ℕ → User → User) → Option (List ℕ) → Outcome → Outcome
apply_always bits set none o = o
apply_always bits set (some v) o = edit_field bits (set v) o

-- A new id registers the user, and the greatest uint32 ends the registration.
unfoldable pub set_user_id : ℕ → Outcome → Outcome
set_user_id id (failed s e) = failed s e
set_user_id id (going s u flags actor) =
    let news =
      not (id == (s.user_at u).user_id) && not (bit_and flags user_connected == user_connected) in
    let ended = id == 2 ^ 32 - 1 in
    let bits = if news then if ended then user_unregistered else user_registered else 0 in
    let new = if news && ended then 0 else id in
    going (edit_user s u (λ x. record x { user_id = new })) u (bit_or flags bits) actor

unfoldable pub apply_user_id : Option ℕ → Outcome → Outcome
apply_user_id none o = o
apply_user_id (some id) o = set_user_id id o

unfoldable pub leave_channel : Server → ℕ → Option ℕ → Server
leave_channel s session none = s
leave_channel s session (some c) =
    edit_channel s c (λ x. record x { users = delete session x.users })

-- The user has left its channel when the new one turns out to be unknown.
unfoldable pub enter_channel : Server → (u flags : ℕ) → Option ℕ → Option ℕ → Outcome
enter_channel s u flags actor none = failed s invalid_protobuf
enter_channel s u flags actor (some c) =
    let session = (s.user_at u).session in
    let moved = edit_user s u (λ x. record x { channel = some c }) in
    going (edit_channel moved c (λ x. record x { users = insert session u x.users })) u
      (if same_pointer (some c) (s.user_at u).channel then flags else bit_or flags user_channel)
      actor

unfoldable pub move_user : ℕ → Outcome → Outcome
move_user id (failed s e) = failed s e
move_user id (going s u flags actor) =
    enter_channel (leave_channel s (s.user_at u).session (s.user_at u).channel) u flags actor
      (lookup id s.channels)

unfoldable pub apply_channel : Option ℕ → Outcome → Outcome
apply_channel none o = o
apply_channel (some id) o = move_user id o

-- The voice flags.
unfoldable pub apply_audio : UserState → Outcome → Outcome
apply_audio p o =
    apply_bool user_audio (λ u. u.self_deafened) (λ b u. record u { self_deafened = b }) p.self_deaf
      (apply_bool user_audio (λ u. u.self_muted) (λ b u. record u { self_muted = b }) p.self_mute
        (apply_bool user_audio (λ u. u.suppressed) (λ b u. record u { suppressed = b }) p.suppress
          (apply_bool user_audio (λ u. u.deafened) (λ b u. record u { deafened = b }) p.deaf
            (apply_bool user_audio (λ u. u.muted) (λ b u. record u { muted = b }) p.mute o))))

unfoldable pub apply_texts : UserState → Outcome → Outcome
apply_texts p o =
    apply_always user_texture (λ v u. record u { texture_hash = some v; texture = none })
      p.texture_hash
      (apply_always user_comment (λ v u. record u { comment_hash = some v; comment = [] })
        p.comment_hash
        (apply_always 0 (λ v u. record u { hash = v }) p.hash
          (apply_text user_comment (λ u. u.comment)
            (λ v u. record u { comment = v; comment_hash = none }) p.comment
            (apply_always user_texture (λ v u. record u { texture = some v; texture_hash = none })
              p.texture o))))

unfoldable pub apply_rest : UserState → Outcome → Outcome
apply_rest p o =
    apply_bool user_recording (λ u. u.recording) (λ b u. record u { recording = b }) p.recording
      (apply_bool user_priority_speaker (λ u. u.priority_speaker)
        (λ b u. record u { priority_speaker = b }) p.priority_speaker
        (apply_texts p (apply_audio p o)))

unfoldable pub applied : Server → UserState → ℕ → Outcome
applied s p session = apply_rest p (
    apply_channel p.channel_id (
      apply_user_id p.user_id (
        apply_text user_name (λ u. u.name) (λ v u. record u { name = v }) p.name
          (apply_actor p.actor (find_user s session (lookup session s.users))))))

unfoldable pub finished : Outcome → Server × Option HandlerError
finished (failed s e) = (s, some e)
finished (going s u flags actor) = (tell s.phase (user_change flags u actor []) s, none)

unfoldable pub with_session : Server → UserState → Option ℕ → Server × Option HandlerError
with_session s p none = (s, some incomplete_protobuf)
with_session s p (some session) = finished (applied s p session)

unfoldable pub handle_user_state : Server → UserState → Server × Option HandlerError
handle_user_state s p = with_session s p p.session
