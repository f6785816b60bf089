-- ===== src/Admin/Acl/Reported.antt =====
-- Access control lists as a server reports them: handleACL of gumble/gumble/handlers.go. What the generated
-- getters return for a missing field is true for a flag and 0 for permissions.
use barnard_stormdragon_ai_f.Prelude.{
  ℕ, ◌≡◌, refl, ap₂, List, [], ◌∷◌, map, Option, none, some, Bool, true,
}
use barnard_stormdragon_ai_f.Prelude.Table.{Table, lookup, insert}
use barnard_stormdragon_ai_f.Admin.Acl.{
  Subject, everyone, acl_user, acl_group, AclGroup, AclRule, AccessList, ChanAcl, user_of, group_of,
  write_rule, write_group, write_acl,
}

pub record ReportedRule : Type 0 where
  pub apply_here : Option Bool
  pub apply_subs : Option Bool
  pub inherited : Option Bool
  pub grant : Option ℕ
  pub deny : Option ℕ
  pub user_id : Option ℕ
  pub group : Option (List ℕ)

pub record ReportedGroup : Type 0 where
  pub name : Option (List ℕ)
  pub inherited : Option Bool
  pub inherit : Option Bool
  pub inheritable : Option Bool
  pub add : List ℕ
  pub remove : List ℕ
  pub inherited_members : List ℕ

pub record ReportedAcl : Type 0 where
  pub channel_id : Option ℕ
  pub inherit_acls : Option Bool
  pub groups : List ReportedGroup
  pub acls : List ReportedRule

unfoldable pub flag : Option Bool → Bool
flag none = true
flag (some b) = b

unfoldable pub bits : Option ℕ → ℕ
bits none = 0
bits (some n) = n

-- The map of members with these ids, whose names are not known.
unfoldable pub read_ids : List ℕ → Table (List ℕ) → Table (List ℕ)
read_ids [] users = users
read_ids (id ∷ ids) users = read_ids ids (insert id [] users)

-- A rule's group is found by its name, or made with it.
unfoldable pub read_subject : Option ℕ → Option (List ℕ) → Subject
read_subject (some id) group = acl_user id
read_subject none (some name) = acl_group name
read_subject none none = everyone

unfoldable pub read_rule : ReportedRule → AclRule
read_rule r = record {
  applies_current = flag r.apply_here;
  applies_children = flag r.apply_subs;
  inherited = flag r.inherited;
  granted = bits r.grant;
  denied = bits r.deny;
  subject = read_subject r.user_id r.group;
}

unfoldable pub read_group : List ℕ → ReportedGroup → AclGroup
read_group name g = record {
  name = name;
  inherited = flag g.inherited;
  inherit_users = flag g.inherit;
  inheritable = flag g.inheritable;
  users_add = read_ids g.add [];
  users_remove = read_ids g.remove [];
  users_inherited = read_ids g.inherited_members [];
}

unfoldable pub with_group : AclGroup → Option (List AclGroup) → Option (List AclGroup)
with_group g none = none
with_group g (some gs) = some (g ∷ gs)

-- `none` where a group has no name, which is errInvalidProtobuf.
unfoldable pub read_groups : List ReportedGroup → Option (List AclGroup)
read_groups [] = some []
read_groups (g ∷ gs) = elim g.name [
  | none ↦ none
  | some name ↦ with_group (read_group name g) (read_groups gs)
]

unfoldable pub read_rules : ReportedAcl → ℕ → Option (List AclGroup) → Option AccessList
read_rules p c none = none
read_rules p c (some groups) = some (record {
  channel = c;
  groups = groups;
  rules = map read_rule p.acls;
  inherits = flag p.inherit_acls;
})

unfoldable pub on_channel : ReportedAcl → Option ℕ → Option AccessList
on_channel p none = none
on_channel p (some c) = read_rules p c (read_groups p.groups)

-- `handleACL`: the list that stands in `tmpACL`, or `none` for errInvalidProtobuf.
unfoldable pub handle_acl : Table ℕ → ReportedAcl → Option AccessList
handle_acl channels p = elim p.channel_id [
  | none ↦ none
  | some id ↦ on_channel p (lookup id channels)
]

-- A reported rule as one of the channel's own.
unfoldable pub own_rule : ReportedRule → ChanAcl
own_rule r = record {
  apply_here = flag r.apply_here;
  apply_subs = flag r.apply_subs;
  grant = bits r.grant;
  deny = bits r.deny;
  user_id = r.user_id;
  group = elim r.user_id [ none ↦ r.group | some id ↦ none ];
  inherited = none;
}

subject_users : (u : Option ℕ) (g : Option (List ℕ)) → user_of (read_subject u g) ≡ u
unfolding user_of read_subject
subject_users none none = refl
subject_users none (some g) = refl
subject_users (some u) g = refl

subject_groups :
    (u : Option ℕ) (g : Option (List ℕ))
    → group_of (read_subject u g) ≡ (elim u [ none ↦ g | some id ↦ none ])
unfolding group_of read_subject
subject_groups none none = refl
subject_groups none (some g) = refl
subject_groups (some u) g = refl

write-read_rule : (r : ReportedRule) → write_rule (read_rule r) ≡ own_rule r
unfolding write_rule read_rule own_rule
write-read_rule r = rw (subject_users r.user_id r.group, subject_groups r.user_id r.group) refl

write-read_rules : (rs : List ReportedRule) → map write_rule (map read_rule rs) ≡ map own_rule rs
write-read_rules [] = refl
write-read_rules (r ∷ rs) = ap₂ (λ x xs. x ∷ xs) (write-read_rule r) (write-read_rules rs)

-- A list reported for a known channel whose groups have names is accepted; sent back, it has the groups
-- that were read and one rule for each that was reported, an inherited one too, with the same flags,
-- permissions and subject, and with the field for an inherited rule unset in all of them.
pub write-handle_acl :
    (channels : Table ℕ) (p : ReportedAcl) (id c : ℕ) (groups : List AclGroup)
    → p.channel_id ≡ some id
    → lookup id channels ≡ some c
    → read_groups p.groups ≡ some groups
    → map (write_acl id) (elim (handle_acl channels p) [ none ↦ [] | some a ↦ a ∷ [] ])
      ≡ record {
        channel_id = id;
        groups = map write_group groups;
        acls = map own_rule p.acls;
        inherit_acls = flag p.inherit_acls;
      }
        ∷ []
unfolding handle_acl on_channel read_rules write_acl
write-handle_acl channels p id c groups has_id known named =
    rw (has_id, known, named, write-read_rules p.acls) refl
