-- ===== src/Admin/Acl.antt =====
-- Access control lists: gumble/gumble/acl.go and permission.go, with what admin.go does to them. Group
-- members are maps from ids to names; a rule names its group, and nothing edits a group.
pub mod Rules
pub mod Reported
use barnard_stormdragon_ai_f.Prelude.{
  ℕ, zero, suc, ◌+◌, ◌*◌, ◌^◌, List, [], ◌∷◌, ◌++◌, map, Option, none, some, Bool, true, false,
  if◌then◌else◌, ◌==◌, bit_and, bit_xor,
}
use barnard_stormdragon_ai_f.Prelude.Table.{Table, lookup, insert, keys}
use barnard_stormdragon_ai_f.Prelude.{same_text}
use barnard_stormdragon_ai_f.Admin.Words.{codes, join, parse_uint32}

-- Whom a rule is for.
pub data Subject : Type 0 where
  everyone : Subject
  acl_user : (id : ℕ) → Subject
  acl_group : (name : List ℕ) → Subject

pub record AclGroup : Type 0 where
  pub name : List ℕ
  pub inherited : Bool
  pub inherit_users : Bool
  pub inheritable : Bool
  pub users_add : Table (List ℕ)
  pub users_remove : Table (List ℕ)
  pub users_inherited : Table (List ℕ)

pub record AclRule : Type 0 where
  pub applies_current : Bool
  pub applies_children : Bool
  pub inherited : Bool
  pub granted : ℕ
  pub denied : ℕ
  pub subject : Subject

-- The channel by its pointer, and `ACL`.
pub record AccessList : Type 0 where
  pub channel : ℕ
  pub groups : List AclGroup
  pub rules : List AclRule
  pub inherits : Bool

-- A ChanACL of the protocol.
pub record ChanAcl : Type 0 where
  pub apply_here : Bool
  pub apply_subs : Bool
  pub grant : ℕ
  pub deny : ℕ
  pub user_id : Option ℕ
  pub group : Option (List ℕ)
  pub inherited : Option Bool

pub record ChanGroup : Type 0 where
  pub name : List ℕ
  pub inherited : Option Bool
  pub inherit : Bool
  pub inheritable : Bool
  pub add : List ℕ
  pub remove : List ℕ
  pub inherited_members : List ℕ

pub record AclMessage : Type 0 where
  pub channel_id : ℕ
  pub groups : List ChanGroup
  pub acls : List ChanAcl
  pub inherit_acls : Bool

unfoldable pub user_of : Subject → Option ℕ
user_of everyone = none
user_of (acl_user id) = some id
user_of (acl_group name) = none

unfoldable pub group_of : Subject → Option (List ℕ)
group_of everyone = none
group_of (acl_user id) = none
group_of (acl_group name) = some name

unfoldable pub write_rule : AclRule → ChanAcl
write_rule r = record {
  apply_here = r.applies_current;
  apply_subs = r.applies_children;
  grant = r.granted;
  deny = r.denied;
  user_id = user_of r.subject;
  group = group_of r.subject;
  inherited = none;
}

unfoldable pub write_group : AclGroup → ChanGroup
write_group g = record {
  name = g.name;
  inherited = none;
  inherit = g.inherit_users;
  inheritable = g.inheritable;
  add = keys g.users_add;
  remove = keys g.users_remove;
  inherited_members = [];
}

-- `ACL.writeMessage`, with the id of the channel.
unfoldable pub write_acl : ℕ → AccessList → AclMessage
write_acl id a = record {
  channel_id = id;
  groups = map write_group a.groups;
  acls = map write_rule a.rules;
  inherit_acls = a.inherits;
}

-- `x &^ y`
unfoldable pub and_not : ℕ → ℕ → ℕ
and_not x y = bit_xor x (bit_and x y)

-- `Permission.Has`
unfoldable pub has : ℕ → ℕ → Bool
has p o = bit_and p o == o

-- The commands `grant` and `deny` on a rule.
unfoldable pub grant_rule : ℕ → AclRule → AclRule
grant_rule p r = record r { granted = bit_xor r.granted p; denied = and_not r.denied p }

unfoldable pub deny_rule : ℕ → AclRule → AclRule
deny_rule p r = record r { denied = bit_xor r.denied p; granted = and_not r.granted p }

unfoldable pub is_subject : Subject → Subject → Bool
is_subject (acl_user i) (acl_user j) = j == i
is_subject (acl_group a) (acl_group b) = same_text b a
is_subject s t = false

unfoldable pub new_rule : Subject → AclRule
new_rule subject = record {
  applies_current = true;
  applies_children = false;
  inherited = false;
  granted = 0;
  denied = 0;
  subject = subject;
}

-- The rule that `findOrCreateACLRule` returns, edited in place.
unfoldable pub edit_rule : Subject → (AclRule → AclRule) → List AclRule → List AclRule
edit_rule subject f [] = f (new_rule subject) ∷ []
edit_rule subject f (r ∷ rs) =
    let rest = edit_rule subject f rs in if is_subject subject r.subject then f r ∷ rs else r ∷ rest

-- `commonAdminPermissions`, and the names behind it in parsePermission and permissionList.
abbrev pub permission_names : List (List ℕ × ℕ)
permission_names =
    (codes "write", 0x1)
    ∷ (codes "enter", 0x4)
    ∷ (codes "speak", 0x8)
    ∷ (codes "mute_deafen", 0x10)
    ∷ (codes "move", 0x20)
    ∷ (codes "kick", 0x10000)
    ∷ (codes "ban", 0x20000)
    ∷ (codes "traverse", 0x2)
    ∷ (codes "make_channel", 0x40)
    ∷ (codes "link_channel", 0x80)
    ∷ (codes "whisper", 0x100)
    ∷ (codes "text_message", 0x200)
    ∷ (codes "make_temp_channel", 0x400)
    ∷ (codes "register", 0x40000)
    ∷ (codes "register_self", 0x80000)
    ∷ []

unfoldable pub named_permission : List ℕ → List (List ℕ × ℕ) → Option ℕ
named_permission text [] = none
named_permission text ((name, p) ∷ options) =
    let rest = named_permission text options in if same_text name text then some p else rest

-- `parsePermission`
abbrev pub parse_permission : List ℕ → Option ℕ
parse_permission text = named_permission text permission_names

unfoldable pub names_in : ℕ → List (List ℕ × ℕ) → List (List ℕ)
unfolding has
names_in p [] = []
names_in p ((name, o) ∷ options) =
    let rest = names_in p options in if has p o then name ∷ rest else rest

-- `permissionList`; the names are joined with commas.
unfoldable pub permission_list : ℕ → List (List ℕ)
permission_list p = if p == 0 then codes "none" ∷ [] else names_in p permission_names
