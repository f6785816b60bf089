-- ===== src/Admin/Tests.antt =====
-- Runs of the /admin commands of admin.go, and the theorems at them.
use barnard_stormdragon_ai_f.Prelude.{
  ℕ, ◌*◌, ◌^◌, ◌%◌, ◌<◌, ◌≡◌, refl, List, [], ◌∷◌, map, none, some, true, false, arith, All,
}
use barnard_stormdragon_ai_f.Prelude.Int.{pos}
use barnard_stormdragon_ai_f.Prelude.Table.{Table, lookup}
use barnard_stormdragon_ai_f.Server.{synced, not_yet, new_channel, new_user}
use barnard_stormdragon_ai_f.Prelude.{same_text}
use barnard_stormdragon_ai_f.Ui.Textview.{is_space}
use barnard_stormdragon_ai_f.Admin.Words.{
  codes, fields_from, end_field, join, parse_int64, parse_uint32, decimal, digits_from, under,
  natural,
}
use barnard_stormdragon_ai_f.Admin.Bans.{
  Ban, BanEntry, cidr, minute, lasting, handle_ban_list, write_bans, write_ban, unban_at, add_ban,
  manual_ban_duration,
}
use barnard_stormdragon_ai_f.Admin.Bans.Resent.{
  IsReported, drop_at, without_origin, unban_resends, manual_ban_seconds, manual_ban_widened,
}
use barnard_stormdragon_ai_f.Admin.Acl.{
  AccessList, acl_user, and_not, edit_rule, parse_permission, named_permission,
}
use barnard_stormdragon_ai_f.Admin.{Desk, kick, user_of_token, named_in, found_in, or_named}
use barnard_stormdragon_ai_f.Admin.Requests.{post_some, remove_request, of_user}
use barnard_stormdragon_ai_f.Admin.Command.{
  execute_admin_command, run_words, dispatch_command, acl_command, subject_of,
}
use barnard_stormdragon_ai_f.Admin.Acl.{write_acl, write_group}
use barnard_stormdragon_ai_f.Admin.Acl.Reported.{
  ReportedRule, ReportedAcl, flag, handle_acl, own_rule, read_groups, write-handle_acl,
}
use barnard_stormdragon_ai_f.Admin.{request_permission, is_id}
use barnard_stormdragon_ai_f.Admin.Menu.{
  open_admin_menu, menu_channel, permission_query, root_query,
}
use barnard_stormdragon_ai_f.Admin.Acl.Rules.{IsDisjoint}
use barnard_stormdragon_ai_f.Admin.Reaction.{Reaction}
use barnard_stormdragon_ai_f.Admin.Permitted.{rules_of, acl_command-AllDisjoint, grant_twice}

-- A server with the user 7 in the root channel, and an access control list with one rule, for user 3.
abbrev office : Desk
office = record {
  server = record {
    channel_at = λ r. new_channel 0;
    user_at = λ r. new_user 7 (some 0);
    next_channel = 1;
    next_user = 1;
    channels = (0, 0) ∷ [];
    users = (7, 0) ∷ [];
    permissions = [];
    self = some 0;
    phase = synced;
    disconnect = not_yet;
    notices = [];
  };
  selected_user = none;
  item_user = none;
  item_channel = none;
  target_user = none;
  target_channel = none;
  bans = [];
  registered = [];
  acl = some (record {
    channel = 0;
    groups = [];
    rules =
        record {
          applies_current = true;
          applies_children = false;
          inherited = false;
          granted = 0x4;
          denied = 0x8;
          subject = acl_user 3;
        }
        ∷ [];
    inherits = true;
  });
  actions = [];
  outbox = [];
  lines = [];
}

kick-outbox :
    (execute_admin_command same_text (λ s. s) (codes " kick  7 too loud") office).outbox
    ≡ kick 7 (codes "too loud") ∷ []
unfolding execute_admin_command run_words fields_from end_field is_space join dispatch_command
    post_some remove_request of_user user_of_token named_in found_in or_named parse_uint32 decimal
    digits_from under lookup same_text new_user
kick-outbox = refl

menu-outbox :
    (execute_admin_command same_text (λ s. s) (codes "menu") office).outbox
    ≡ request_permission 0 ∷ []
unfolding execute_admin_command run_words fields_from end_field is_space open_admin_menu
    menu_channel permission_query root_query is_id lookup same_text new_user new_channel
menu-outbox = refl

abbrev grant_speak : List (List ℕ)
grant_speak = codes "grant" ∷ codes "speak" ∷ codes "user" ∷ codes "3" ∷ []

speak_known : parse_permission (codes "speak") ≡ some 8
unfolding named_permission same_text
speak_known = refl

user_3 : subject_of (codes "user") (join (codes "3" ∷ [])) ≡ some (acl_user 3)
unfolding subject_of same_text join parse_uint32 decimal digits_from under
user_3 = refl

office-IsDisjoint : All IsDisjoint (rules_of office.acl)
unfolding rules_of
office-IsDisjoint = (refl, tt)

acl_command-AllDisjoint_example :
    All IsDisjoint (rules_of (acl_command same_text (λ s. s) grant_speak office).acl)
acl_command-AllDisjoint_example =
    acl_command-AllDisjoint same_text (λ s. s) grant_speak office office-IsDisjoint

abbrev office_list : AccessList
office_list = record {
  channel = 0;
  groups = [];
  rules =
      record {
        applies_current = true;
        applies_children = false;
        inherited = false;
        granted = 0x4;
        denied = 0x8;
        subject = acl_user 3;
      }
      ∷ [];
  inherits = true;
}

grant_twice_example :
    (acl_command same_text
      (λ s. s)
      grant_speak
      (acl_command same_text (λ s. s) grant_speak office)).acl
    ≡ some (record office_list {
      rules =
          edit_rule
            (acl_user 3)
            (λ r. record r { denied = and_not (and_not r.denied 8) 8 })
            office_list.rules;
    })
grant_twice_example =
    grant_twice same_text (λ s. s) office office_list (codes "speak") (codes "user") (codes "3") []
      8 (acl_user 3) refl speak_known user_3

-- Two entries, of which the first is unbanned.
abbrev entry : List ℕ → BanEntry
entry address = record {
  address = address;
  mask = some 32;
  name = some (codes "Jim");
  hash = some (codes "c0ffee");
  reason = some (codes "noise");
  start = some (codes "2026-01-01T00:00:00Z");
  duration = some 3600;
}

entry-IsReported : IsReported (entry (1 ∷ 2 ∷ 3 ∷ 4 ∷ []))
entry-IsReported = record {
  ones = 32;
  seconds = 3600;
  reason = codes "noise";
  has_mask = refl;
  fits = omega arith;
  has_reason = refl;
  has_duration = refl;
  in_range = omega arith;
}

abbrev two_bans : List BanEntry
two_bans = entry (1 ∷ 2 ∷ 3 ∷ 4 ∷ []) ∷ entry (1 ∷ 2 ∷ 3 ∷ 4 ∷ []) ∷ []

unban_resends_example :
    write_bans (unban_at 0 (handle_ban_list (λ t. none) two_bans))
    ≡ map without_origin (drop_at 0 two_bans)
unban_resends_example =
    unban_resends (λ t. none) two_bans 0 (entry-IsReported, (entry-IsReported, tt))

abbrev plain_ban : Ban
plain_ban = record {
  address = 1 ∷ 2 ∷ 3 ∷ 4 ∷ [];
  mask = cidr 32 32;
  name = [];
  hash = [];
  reason = [];
  start = none;
  duration = 0;
  unban = false;
}

long_text : parse_int64 (codes "71582789") ≡ some (pos 71582789)
unfolding parse_int64 decimal digits_from under natural
long_text = refl

manual_ban_seconds_example :
    (manual_ban_duration (codes "71582789") ≡ lasting (71582789 * minute))
    × (71582789 * minute < 2 ^ 63)
    × ((write_ban (record plain_ban { duration = 71582789 * minute })).duration
        ≡ some (60 * 71582789 % 2 ^ 32))
manual_ban_seconds_example =
    manual_ban_seconds (codes "71582789") 71582789 plain_ban long_text (omega arith)

abbrev mapped_address : List ℕ
mapped_address = 0 ∷ 0 ∷ 0 ∷ 0 ∷ 0 ∷ 0 ∷ 0 ∷ 0 ∷ 0 ∷ 0 ∷ 255 ∷ 255 ∷ 192 ∷ 0 ∷ 2 ∷ 1 ∷ []

manual_ban_widened_example :
    map
      (λ (b : Ban). b.mask)
      (handle_ban_list
        (λ t. none)
        (write_bans (add_ban mapped_address (cidr 32 32) (codes "spam") minute [])))
    ≡ cidr 32 128 ∷ []
manual_ban_widened_example =
    manual_ban_widened (λ t. none) mapped_address (codes "spam") 32 minute refl (omega arith)

abbrev inherited_rule : ReportedRule
inherited_rule = record {
  apply_here = some true;
  apply_subs = some true;
  inherited = some true;
  grant = some 0x4;
  deny = none;
  user_id = none;
  group = some (codes "all");
}

abbrev rooms : Table ℕ
rooms = (5, 2) ∷ []

abbrev reported : ReportedAcl
reported = record {
  channel_id = some 5;
  inherit_acls = none;
  groups = [];
  acls = inherited_rule ∷ [];
}

known_five : lookup 5 rooms ≡ some 2
unfolding lookup
known_five = refl

no_groups : read_groups [] ≡ some []
unfolding read_groups
no_groups = refl

write-handle_acl_example :
    map (write_acl 5) (elim (handle_acl rooms reported) [ none ↦ [] | some a ↦ a ∷ [] ])
    ≡ record {
      channel_id = 5;
      groups = map write_group [];
      acls = map own_rule (inherited_rule ∷ []);
      inherit_acls = flag none;
    }
      ∷ []
write-handle_acl_example = write-handle_acl rooms reported 5 2 [] refl known_five no_groups
