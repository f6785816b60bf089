-- ===== src/Server/ChannelState.antt =====
-- handleChannelState of gumble/gumble/handlers.go. A message is a record; a repeated field that is
-- absent reads as the empty list, which protobuf does not tell from an empty one.
pub mod Kept
pub mod Fresh
pub mod Links
pub mod Parents
pub mod Handled
pub mod Removed
use barnard_stormdragon_ai_f.Prelude.{
  ℕ, zero, suc, ◌+◌, List, [], ◌∷◌, Option, none, some, Bool, true, false, not, bit_or,
  if◌then◌else◌, ◌==◌, ◌||◌, length, same_text,
}
use barnard_stormdragon_ai_f.Prelude.Int.{ℤ, pos, negsuc}
use barnard_stormdragon_ai_f.Prelude.Table.{Table, lookup, insert, delete, keys, change}
use barnard_stormdragon_ai_f.Server.{
  Channel, Server, HandlerError, incomplete_protobuf, invalid_protobuf, edit_channel,
  create_channel, tell, channel_change,
}

-- ChannelChangeType
abbrev pub channel_created : ℕ
channel_created = 0x01

abbrev pub channel_removed : ℕ
channel_removed = 0x02

abbrev pub channel_moved : ℕ
channel_moved = 0x04

abbrev pub channel_name : ℕ
channel_name = 0x08

abbrev pub channel_links : ℕ
channel_links = 0x10

abbrev pub channel_description : ℕ
channel_description = 0x20

abbrev pub channel_position : ℕ
channel_position = 0x40

abbrev pub channel_max_users : ℕ
channel_max_users = 0x100

pub record ChannelState : Type 0 where
  pub channel_id : Option ℕ
  pub parent : Option ℕ
  pub name : Option (List ℕ)
  pub links : List ℕ
  pub links_add : List ℕ
  pub links_remove : List ℕ
  pub description : Option (List ℕ)
  pub temporary : Option Bool
  pub position : Option ℤ
  pub description_hash : Option (List ℕ)
  pub max_users : Option ℕ

unfoldable pub same_pointer : Option ℕ → Option ℕ → Bool
same_pointer none none = true
same_pointer none (some b) = false
same_pointer (some a) none = false
same_pointer (some a) (some b) = a == b

unfoldable pub same_position : ℤ → ℤ → Bool
same_position (pos a) (pos b) = a == b
same_position (pos a) (negsuc b) = false
same_position (negsuc a) (pos b) = false
same_position (negsuc a) (negsuc b) = a == b

abbrev pub max_channel_depth : ℕ
max_channel_depth = 1024

-- The loop of `isChannelDescendant`, with the rounds that are left.
unfoldable pub is_channel_descendant : ℕ → Server → Option ℕ → ℕ → Bool
is_channel_descendant zero s candidate channel = false
is_channel_descendant (suc rounds) s none channel = false
is_channel_descendant (suc rounds) s (some c) channel =
    let above = is_channel_descendant rounds s (s.channel_at c).parent channel in
    if c == channel then true else above

unfoldable pub leave_parent : Server → ℕ → Option ℕ → Server
leave_parent s id none = s
leave_parent s id (some p) = edit_channel s p (λ c. record c { children = delete id c.children })

unfoldable pub enter_parent : Server → ℕ → ℕ → Option ℕ → Server
enter_parent s id r none = s
enter_parent s id r (some p) =
    edit_channel s p (λ c. record c { children = insert id r c.children })

unfoldable pub set_parent : ℕ → Option ℕ → Channel → Channel
set_parent r p c = record c { parent = p }

-- The source deletes under `channelID`, the id of the message, which is the channel's own: it was found or
-- created under it.
unfoldable pub move_channel : Server → ℕ → Option ℕ → Server
move_channel s r p =
    let id = (s.channel_at r).id in
    enter_parent (edit_channel (leave_parent s id (s.channel_at r).parent) r (set_parent r p)) id r
      p

-- A move that would make the tree cyclic is ignored.
unfoldable pub reparent : ℕ → Option ℕ → Server × ℕ → Server × ℕ
reparent r p (s, flags) =
    let moved =
      if same_pointer p (s.channel_at r).parent then flags else bit_or flags channel_moved in
    if is_channel_descendant (max_channel_depth + 1) s p r
    then (s, flags)
    else (move_channel s r p, moved)

unfoldable pub apply_parent : ℕ → Option ℕ → Server × ℕ → Server × ℕ
apply_parent r none d = d
apply_parent r (some id) (s, flags) = reparent r (lookup id s.channels) (s, flags)

unfoldable pub apply_name : ℕ → Option (List ℕ) → Server × ℕ → Server × ℕ
apply_name r none d = d
apply_name r (some name) (s, flags) = (
  edit_channel s r (λ c. record c { name = name }),
  if same_text name (s.channel_at r).name then flags else bit_or flags channel_name,
)

-- `channel.Links[k] = o; o.Links[channel.ID] = channel`
unfoldable pub link : Server → ℕ → ℕ → ℕ → Server
link s r k o =
    let id = (s.channel_at r).id in
    edit_channel (edit_channel s r (λ c. record c { links = insert k o c.links })) o
      (λ c. record c { links = insert id r c.links })

-- `delete(channel.Links, k); delete(o.Links, channel.ID)`, in either order.
unfoldable pub unlink : Server → ℕ → ℕ → ℕ → Server
unlink s r k o =
    let id = (s.channel_at r).id in
    edit_channel (edit_channel s r (λ c. record c { links = delete k c.links })) o
      (λ c. record c { links = delete id c.links })

unfoldable pub link_known : Server → ℕ → ℕ → Option ℕ → Server
link_known s r k none = s
link_known s r k (some o) = link s r k o

unfoldable pub unlink_known : Server → ℕ → ℕ → Option ℕ → Server
unlink_known s r k none = s
unlink_known s r k (some o) = unlink s r k o

-- A range over the links of the channel, which yields what is still there under a key.
unfoldable pub unlink_all : Server → ℕ → List ℕ → Server
unlink_all s r [] = s
unlink_all s r (k ∷ ids) = unlink_all (unlink_known s r k (lookup k (s.channel_at r).links)) r ids

unfoldable pub add_links : Server → ℕ → List ℕ → Server
add_links s r [] = s
add_links s r (k ∷ ids) = add_links (link_known s r k (lookup k s.channels)) r ids

unfoldable pub remove_links : Server → ℕ → List ℕ → Server
remove_links s r [] = s
remove_links s r (k ∷ ids) = remove_links (unlink_known s r k (lookup k s.channels)) r ids

unfoldable pub any_known : Table ℕ → List ℕ → Bool
any_known channels [] = false
any_known channels (k ∷ ids) = elim (lookup k channels) [
  | none ↦ any_known channels ids
  | some o ↦ true
]

-- A full replacement, then the links to add and to remove.
unfoldable pub replace_links : ℕ → List ℕ → Server × ℕ → Server × ℕ
replace_links r [] d = d
replace_links r (k ∷ ids) (s, flags) = (
  add_links (unlink_all s r (keys (s.channel_at r).links)) r (k ∷ ids),
  bit_or flags channel_links,
)

unfoldable pub apply_links : ℕ → ChannelState → Server × ℕ → Server × ℕ
apply_links r p d =
    let (s, flags) = replace_links r p.links d in
    let known = any_known s.channels p.links_add || any_known s.channels p.links_remove in
    (
      remove_links (add_links s r p.links_add) r p.links_remove,
      if known then bit_or flags channel_links else flags,
    )

unfoldable pub apply_description : ℕ → Option (List ℕ) → Server × ℕ → Server × ℕ
apply_description r none d = d
apply_description r (some text) (s, flags) = (
  edit_channel s r (λ c. record c { description = text; description_hash = none }),
  if same_text text (s.channel_at r).description then flags else bit_or flags channel_description,
)

unfoldable pub apply_temporary : ℕ → Option Bool → Server × ℕ → Server × ℕ
apply_temporary r none d = d
apply_temporary r (some t) (s, flags) = (edit_channel s r (λ c. record c { temporary = t }), flags)

unfoldable pub apply_position : ℕ → Option ℤ → Server × ℕ → Server × ℕ
apply_position r none d = d
apply_position r (some at) (s, flags) = (
  edit_channel s r (λ c. record c { position = at }),
  if same_position at (s.channel_at r).position then flags else bit_or flags channel_position,
)

unfoldable pub apply_description_hash : ℕ → Option (List ℕ) → Server × ℕ → Server × ℕ
apply_description_hash r none d = d
apply_description_hash r (some hash) (s, flags) = (
  edit_channel s r (λ c. record c { description_hash = some hash; description = [] }),
  bit_or flags channel_description,
)

unfoldable pub apply_max_users : ℕ → Option ℕ → Server × ℕ → Server × ℕ
apply_max_users r none d = d
apply_max_users r (some n) (s, flags) =
    (edit_channel s r (λ c. record c { max_users = n }), bit_or flags channel_max_users)

unfoldable pub apply_fields : ℕ → ChannelState → Server × ℕ → Server × ℕ
apply_fields r p d = apply_max_users r p.max_users (
    apply_description_hash r p.description_hash (
      apply_position r p.position
        (apply_temporary r p.temporary (apply_description r p.description d))))

-- The channel of the message, the server that has it, and the first bits of the change.
unfoldable pub find_or_create : Server → ℕ → Option ℕ → (Server × ℕ) × ℕ
find_or_create s id none = ((create_channel s id, channel_created), s.next_channel)
find_or_create s id (some r) = ((s, 0), r)

unfoldable pub announce : ℕ → Server × ℕ → Server
announce r (s, flags) = tell s.phase (channel_change flags r) s

unfoldable pub update_channel : Server → ChannelState → ℕ → Server
update_channel s p id =
    let (d, r) = find_or_create s id (lookup id s.channels) in
    announce r
      (apply_fields r p (apply_links r p (apply_name r p.name (apply_parent r p.parent d))))

unfoldable pub with_channel_id : Server → ChannelState → Option ℕ → Server × Option HandlerError
with_channel_id s p none = (s, some incomplete_protobuf)
with_channel_id s p (some id) = (update_channel s p id, none)

unfoldable pub handle_channel_state : Server → ChannelState → Server × Option HandlerError
handle_channel_state s p = with_channel_id s p p.channel_id
