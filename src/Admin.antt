-- ===== src/Admin.antt =====
-- The /admin commands of admin.go: what they look up, which messages they send through gumble/gumble/user.go,
-- channel.go, contextaction.go, userlist.go, acl.go and bans.go, and whether they are refused. The words of
-- an output line are left out. strings.EqualFold is a parameter; a range over a map takes its entries in
-- the order of the table.
pub mod Words
pub mod Bans
pub mod Acl
pub mod Requests
pub mod Menu
pub mod Command
pub mod Reaction
pub mod Opened
pub mod Once
pub mod Permitted
mod Tests
use barnard_stormdragon_ai_f.Prelude.{
  ℕ, ◌+◌, List, [], ◌∷◌, ◌++◌, Option, none, some, Bool, true, false, not, ◌&&◌, ◌||◌,
  if◌then◌else◌, ◌==◌,
}
use barnard_stormdragon_ai_f.Prelude.Table.{Table, lookup}
use barnard_stormdragon_ai_f.Server.{Server, User, Channel}
use barnard_stormdragon_ai_f.Prelude.{same_text}
use barnard_stormdragon_ai_f.Ui.Textview.{trim_space}
use barnard_stormdragon_ai_f.Admin.Words.{parse_uint32}
use barnard_stormdragon_ai_f.Admin.Bans.{Ban, BanEntry}
use barnard_stormdragon_ai_f.Admin.Acl.{AccessList, AclMessage}

pub record RegisteredUser : Type 0 where
  pub user_id : ℕ
  pub name : List ℕ
  pub changed : Bool
  pub deregister : Bool

pub record ContextAction : Type 0 where
  pub name : List ℕ

-- A message to the server, with the fields that are set.
pub data Request : Type 0 where
  kick ban : (session : ℕ) (reason : List ℕ) → Request
  set_muted set_deafened set_suppressed set_priority : (session : ℕ) (on : Bool) → Request
  move_seat : (session channel : ℕ) → Request
  add_channel : (parent : ℕ) (name : List ℕ) (temporary : Bool) → Request
  set_name set_description : (channel : ℕ) (text : List ℕ) → Request
  set_max_users : (channel limit : ℕ) → Request
  delete_channel : (channel : ℕ) → Request
  request_ban_list request_user_list : Request
  send_bans : List BanEntry → Request
  send_users : List (ℕ × Option (List ℕ)) → Request
  request_acl request_permission : (channel : ℕ) → Request
  send_acl : AclMessage → Request
  trigger : (action : List ℕ) (session channel : Option ℕ) → Request

-- A line of output: a command was refused, or its message was sent.
pub data Line : Type 0 where
  refused confirmed : Line

-- The parts of Barnard that the commands read and change, and what was sent and said so far. Without a
-- client the server has no `self`. The tree's active item names a user or a channel while the tree has the
-- focus; `selected_user` is what selectedUserValue returns.
pub record Desk : Type 0 where
  pub server : Server
  pub selected_user : Option ℕ
  pub item_user : Option ℕ
  pub item_channel : Option ℕ
  pub target_user : Option ℕ
  pub target_channel : Option ℕ
  pub bans : List Ban
  pub registered : List RegisteredUser
  pub acl : Option AccessList
  pub actions : List (List ℕ × ContextAction)
  pub outbox : List Request
  pub lines : List Line

abbrev pub refuse : Desk → Desk
refuse d = record d { lines = d.lines ++ (refused ∷ []) }

abbrev pub post : Request → Desk → Desk
post r d = record d { outbox = d.outbox ++ (r ∷ []); lines = d.lines ++ (confirmed ∷ []) }

-- `RegisteredUsers.writeMessage`
unfoldable pub shown_name : RegisteredUser → Option (List ℕ)
shown_name u = if u.deregister then none else some u.name

unfoldable pub write_users : List RegisteredUser → List (ℕ × Option (List ℕ))
unfolding shown_name
write_users [] = []
write_users (u ∷ us) =
    let rest = write_users us in
    if u.deregister || u.changed then (u.user_id, shown_name u) ∷ rest else rest

-- `Client.Send` of the list, which sends nothing where no entry is edited.
unfoldable pub send_edited : List (ℕ × Option (List ℕ)) → Desk → Desk
send_edited [] d = record d { lines = d.lines ++ (confirmed ∷ []) }
send_edited (e ∷ es) d = post (send_users (e ∷ es)) d

unfoldable pub found_in : Table ℕ → Option ℕ → Option ℕ
found_in t none = none
found_in t (some id) = lookup id t

unfoldable pub or_named : Option ℕ → Option ℕ → Option ℕ
or_named none later = later
or_named (some r) later = some r

unfoldable pub is_id : Option ℕ → ℕ → Bool
is_id none id = false
is_id (some n) id = id == n

unfoldable pub kept_behind :
    RegisteredUser → Option (List RegisteredUser) → Option (List RegisteredUser)
kept_behind u none = none
kept_behind u (some us) = some (u ∷ us)

-- What is done to the first entry that passes a test, or `none` where there is none.
unfoldable pub edit_first :
    (RegisteredUser → Bool)
    → (RegisteredUser → RegisteredUser)
    → List RegisteredUser
    → Option (List RegisteredUser)
unfolding kept_behind
edit_first test f [] = none
edit_first test f (u ∷ us) =
    let rest = kept_behind u (edit_first test f us) in if test u then some (f u ∷ us) else rest

module _ (equal_fold : List ℕ → List ℕ → Bool) where
  -- The first entry whose name is the token, by `equal_fold`.
  unfoldable pub named_in : (ℕ → List ℕ) → List ℕ → Table ℕ → Option ℕ
  named_in name_at token [] = none
  named_in name_at token ((k, r) ∷ t) =
      let rest = named_in name_at token t in if equal_fold (name_at r) token then some r else rest

  -- `findUser`
  unfoldable pub user_of_token : Server → List ℕ → Option ℕ
  unfolding named_in found_in or_named
  user_of_token s token =
      or_named (found_in s.users (parse_uint32 token))
        (named_in (λ r. (s.user_at r).name) token s.users)

  -- `findChannel`
  unfoldable pub channel_of_token : Server → List ℕ → Option ℕ
  unfolding named_in found_in or_named
  channel_of_token s text =
      let token = trim_space text in
      or_named (found_in s.channels (parse_uint32 token))
        (named_in (λ r. (s.channel_at r).name) token s.channels)

  -- `findRegisteredUser`, which gives a pointer into the list: here what is done to the entry.
  unfoldable pub edit_registered :
      List ℕ
      → (RegisteredUser → RegisteredUser)
      → List RegisteredUser
      → Option (List RegisteredUser)
  unfolding edit_first is_id
  edit_registered token f us = elim (edit_first (λ u. is_id (parse_uint32 token) u.user_id) f us) [
    | some vs ↦ some vs
    | none ↦ edit_first (λ u. equal_fold u.name token) f us
  ]
