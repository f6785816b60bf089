-- ===== src/Admin/Command.antt =====
-- The commands themselves: executeAdminCommand of admin.go and what it calls. The view that
-- `/admin menu` opens is not modelled.
use barnard_stormdragon_ai_f.Prelude.{
  ℕ, ◌-◌, List, [], ◌∷◌, Option, none, some, Bool, true, false, ◌||◌, if◌then◌else◌, ltb, ◌==◌,
  length,
}
use barnard_stormdragon_ai_f.Prelude.Int.{ℤ, pos, negsuc}
use barnard_stormdragon_ai_f.Prelude.{same_text}
use barnard_stormdragon_ai_f.Admin.Menu.{open_admin_menu}
use barnard_stormdragon_ai_f.Admin.Words.{codes, fields, join, parse_uint32, parse_int64}
use barnard_stormdragon_ai_f.Admin.Bans.{
  Mask, Minutes, not_number, negative_minutes, too_long, lasting, write_bans, unban_at, add_ban,
  manual_ban_duration,
}
use barnard_stormdragon_ai_f.Admin.Acl.{
  AccessList, Subject, acl_user, acl_group, AclRule, write_acl, grant_rule, deny_rule, edit_rule,
  parse_permission,
}
use barnard_stormdragon_ai_f.Admin.{
  Desk, refuse, post, edit_registered, write_users, send_edited, RegisteredUser, request_ban_list,
  request_user_list, send_bans, send_acl,
}
use barnard_stormdragon_ai_f.Admin.Requests.{
  acl_request, channel_id_of, channel_request, context_request, move_request, post_some,
  remove_request, toggle_user_request,
}

-- `unbanIndex`, from the index that was typed.
unfoldable pub unban_index : Option ℤ → Desk → Desk
unban_index none d = refuse d
unban_index (some (negsuc n)) d = refuse d
unban_index (some (pos n)) d =
    let bans = unban_at (n - 1) d.bans in
    if n == 0 || ltb (length d.bans) n
    then refuse d
    else record (post (send_bans (write_bans bans)) d) { bans = bans }

unfoldable pub unban_command : List (List ℕ) → Desk → Desk
unban_command [] d = refuse d
unban_command (word ∷ words) d = unban_index (parse_int64 word) d

unfoldable pub with_registered : Option (List RegisteredUser) → Desk → Desk
with_registered none d = refuse d
with_registered (some us) d = send_edited (write_users us) (record d { registered = us })

-- The subject of a rule, by `findOrCreateACLRule`.
unfoldable pub subject_of : List ℕ → List ℕ → Option Subject
subject_of kind name =
    if same_text kind (codes "user")
    then elim (parse_uint32 name) [ none ↦ none | some id ↦ some (acl_user id) ]
    else if same_text kind (codes "group")
    then some (acl_group name)
    else none

unfoldable pub edit_acl : AccessList → (AclRule → AclRule) → Option Subject → Desk → Desk
edit_acl a f none d = refuse d
edit_acl a f (some subject) d =
    let edited : AccessList = record a { rules = edit_rule subject f a.rules } in
    record (post (send_acl (write_acl (channel_id_of d a.channel) edited)) d) { acl = some edited }

unfoldable pub permit : List ℕ → Option ℕ → AccessList → Option Subject → Desk → Desk
permit verb none a subject d = refuse d
permit verb (some p) a subject d =
    if same_text verb (codes "grant")
    then edit_acl a (grant_rule p) subject d
    else if same_text verb (codes "deny")
    then edit_acl a (deny_rule p) subject d
    else refuse d

unfoldable pub acl_edit : Option AccessList → List (List ℕ) → Desk → Desk
acl_edit none args d = refuse d
acl_edit (some a) (verb ∷ permission ∷ kind ∷ word ∷ words) d =
    permit verb (parse_permission permission) a (subject_of kind (join (word ∷ words))) d
acl_edit (some a) args d = refuse d

-- `addManualBan`, with what net.ParseCIDR makes of the first word.
unfoldable pub ban_for : List ℕ × Mask → List ℕ → Minutes → Desk → Desk
ban_for at reason not_number d = refuse d
ban_for at reason negative_minutes d = refuse d
ban_for (address, mask) reason (lasting duration) d =
    let bans = add_ban address mask reason duration d.bans in
    record (post (send_bans (write_bans bans)) d) { bans = bans }
ban_for at reason too_long d = refuse d

unfoldable pub add_manual_ban : (List ℕ → Option (List ℕ × Mask)) → List (List ℕ) → Desk → Desk
add_manual_ban parse_cidr (network ∷ minutes ∷ word ∷ words) d = elim (parse_cidr network) [
  | none ↦ refuse d
  | some at ↦ ban_for at (join (word ∷ words)) (manual_ban_duration minutes) d
]
add_manual_ban parse_cidr parts d = refuse d

module _ (equal_fold : List ℕ → List ℕ → Bool) (to_lower : List ℕ → List ℕ) where
  -- `executeRenameRegisteredUser` and `executeDeregisterRegisteredUser`
  unfoldable pub rename_registered : List (List ℕ) → Desk → Desk
  rename_registered [] d = refuse d
  rename_registered (token ∷ []) d = refuse d
  rename_registered (token ∷ word ∷ words) d =
      with_registered
        (edit_registered equal_fold token
          (λ u. record u { name = join (word ∷ words); changed = true }) d.registered)
        d

  unfoldable pub deregister_registered : List (List ℕ) → Desk → Desk
  deregister_registered [] d = refuse d
  deregister_registered (token ∷ words) d =
      with_registered
        (edit_registered equal_fold token (λ u. record u { deregister = true }) d.registered) d

  unfoldable pub acl_command : List (List ℕ) → Desk → Desk
  acl_command [] d = post_some (acl_request equal_fold to_lower [] d) d
  acl_command (verb ∷ words) d =
      if same_text verb (codes "request")
      then post_some (acl_request equal_fold to_lower words d) d
      else acl_edit d.acl (verb ∷ words) d

  -- `executeAdminCommand`, behind the check for a connection.
  unfoldable pub dispatch_command : List ℕ → List (List ℕ) → Desk → Desk
  dispatch_command verb args d =
      let is : List ℕ → Bool = λ word. same_text verb word in
      if is (codes "kick")
      then post_some (remove_request equal_fold to_lower false args d) d
      else if is (codes "ban")
      then post_some (remove_request equal_fold to_lower true args d) d
      else if is (codes "mute")
          || is (codes "deafen")
          || is (codes "suppress")
          || is (codes "priority")
      then post_some (toggle_user_request equal_fold to_lower verb args d) d
      else if is (codes "move")
      then post_some (move_request equal_fold to_lower args d) d
      else if is (codes "channel")
      then post_some (channel_request equal_fold to_lower args d) d
      else if is (codes "banlist")
      then post request_ban_list d
      else if is (codes "unban")
      then unban_command args d
      else if is (codes "users")
      then post request_user_list d
      else if is (codes "renameuser")
      then rename_registered args d
      else if is (codes "deregister")
      then deregister_registered args d
      else if is (codes "acl")
      then acl_command args d
      else if is (codes "context")
      then post_some (context_request equal_fold to_lower args d) d
      else refuse d

  unfoldable pub run_words : List (List ℕ) → Desk → Desk
  run_words [] d = open_admin_menu d.server.self d
  run_words (verb ∷ args) d =
      let run : Desk = elim d.server.self [
        | none ↦ refuse d
        | some self ↦ dispatch_command verb args d
      ] in
      if same_text verb (codes "menu") then open_admin_menu d.server.self d else run

  unfoldable pub execute_admin_command : List ℕ → Desk → Desk
  execute_admin_command text d = run_words (fields text) d
