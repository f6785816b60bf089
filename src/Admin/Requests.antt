-- ===== src/Admin/Requests.antt =====
-- The commands of admin.go that change nothing here: the message that each asks for, or `none` where it is
-- refused.
use barnard_stormdragon_ai_f.Prelude.{
  ℕ, List, [], ◌∷◌, Option, none, some, Bool, true, false, not, ◌||◌, if◌then◌else◌, ◌==◌,
}
use barnard_stormdragon_ai_f.Server.{User}
use barnard_stormdragon_ai_f.Prelude.{same_text}
use barnard_stormdragon_ai_f.Admin.Words.{codes, join, parse_uint32}
use barnard_stormdragon_ai_f.Admin.{
  Desk, Request, refuse, post, user_of_token, channel_of_token, ContextAction, kick, ban, set_muted,
  set_deafened, set_suppressed, set_priority, move_seat, add_channel, set_name, set_description,
  set_max_users, delete_channel, request_acl, trigger,
}

-- `parseToggleState`; `none` where the state is not one of the words. The words come lowered and trimmed.
unfoldable pub toggle_state : List ℕ → Bool → Option Bool
toggle_state word current =
    if same_text word [] || same_text word (codes "toggle")
    then some (not current)
    else if same_text word (codes "on")
        || same_text word (codes "true")
        || same_text word (codes "yes")
        || same_text word (codes "1")
    then some true
    else if same_text word (codes "off")
        || same_text word (codes "false")
        || same_text word (codes "no")
        || same_text word (codes "0")
    then some false
    else none

-- The user's field that the verb names, and the setter.
unfoldable pub toggled : List ℕ → User → Bool
toggled verb u =
    if same_text verb (codes "mute")
    then u.muted
    else if same_text verb (codes "deafen")
    then u.deafened
    else if same_text verb (codes "suppress")
    then u.suppressed
    else u.priority_speaker

unfoldable pub setter : List ℕ → ℕ → Bool → Request
setter verb session on =
    if same_text verb (codes "mute")
    then set_muted session on
    else if same_text verb (codes "deafen")
    then set_deafened session on
    else if same_text verb (codes "suppress")
    then set_suppressed session on
    else set_priority session on

unfoldable pub state_word : List (List ℕ) → List ℕ
state_word [] = codes "toggle"
state_word (word ∷ rest) = word

abbrev pub session_of : Desk → ℕ → ℕ
session_of d u = (d.server.user_at u).session

abbrev pub channel_id_of : Desk → ℕ → ℕ
channel_id_of d c = (d.server.channel_at c).id

-- A request, where there is one.
unfoldable pub post_some : Option Request → Desk → Desk
post_some none d = refuse d
post_some (some r) d = post r d

unfoldable pub toggle_request : List ℕ → ℕ → Option Bool → Option Request
toggle_request verb session none = none
toggle_request verb session (some on) = some (setter verb session on)

-- What a verb asks of a user.
unfoldable pub of_user : Option ℕ → (ℕ → Option Request) → Option Request
of_user none f = none
of_user (some u) f = f u

unfoldable pub limit_request : ℕ → Option ℕ → Option Request
limit_request id none = none
limit_request id (some n) = some (set_max_users id n)

-- The branches of `executeChannelCommand`, with what stands behind the channel.
unfoldable pub named_channel_request : List ℕ → List ℕ → List (List ℕ) → ℕ → Option Request
named_channel_request verb word words id =
    if same_text verb (codes "add")
    then some (add_channel id (join (word ∷ words)) false)
    else if same_text verb (codes "temp")
    then some (add_channel id (join (word ∷ words)) true)
    else if same_text verb (codes "rename")
    then some (set_name id (join (word ∷ words)))
    else if same_text verb (codes "describe")
    then some (set_description id (join (word ∷ words)))
    else if same_text verb (codes "delete")
    then (if id == 0 then none else some (delete_channel id))
    else if same_text verb (codes "maxusers")
    then limit_request id (parse_uint32 word)
    else none

unfoldable pub bare_channel_request : List ℕ → ℕ → Option Request
bare_channel_request verb id =
    if same_text verb (codes "describe")
    then some (set_description id [])
    else if same_text verb (codes "delete")
    then (if id == 0 then none else some (delete_channel id))
    else none

unfoldable pub action_named : List ℕ → List (List ℕ × ContextAction) → Option ContextAction
action_named key [] = none
action_named key ((k, a) ∷ t) =
    let rest = action_named key t in if same_text k key then some a else rest

module _ (equal_fold : List ℕ → List ℕ → Bool) (to_lower : List ℕ → List ℕ) where
  -- `kick` and `ban`, over `adminCommandUserAndReason`.
  unfoldable pub remove_request : Bool → List (List ℕ) → Desk → Option Request
  remove_request banned [] d = none
  remove_request banned (token ∷ reason) d = of_user (user_of_token equal_fold d.server token) (λ u.
      some (
        if banned then ban (session_of d u) (join reason) else kick (session_of d u) (join reason)))

  -- `executeUserToggle`
  unfoldable pub toggle_user_request : List ℕ → List (List ℕ) → Desk → Option Request
  toggle_user_request verb [] d = none
  toggle_user_request verb (token ∷ rest) d =
      of_user (user_of_token equal_fold d.server token) (λ u.
        toggle_request verb (session_of d u)
          (toggle_state (to_lower (state_word rest)) (toggled verb (d.server.user_at u))))

  -- `executeMoveCommand`
  unfoldable pub move_request : List (List ℕ) → Desk → Option Request
  move_request [] d = none
  move_request (token ∷ []) d = none
  move_request (token ∷ word ∷ words) d = of_user (user_of_token equal_fold d.server token) (λ u.
      of_user (channel_of_token equal_fold d.server (join (word ∷ words)))
        (λ c. some (move_seat (session_of d u) (channel_id_of d c))))

  unfoldable pub channel_request : List (List ℕ) → Desk → Option Request
  channel_request [] d = none
  channel_request (verb ∷ []) d = none
  channel_request (verb ∷ token ∷ []) d =
      of_user (channel_of_token equal_fold d.server token)
        (λ c. bare_channel_request verb (channel_id_of d c))
  channel_request (verb ∷ token ∷ word ∷ words) d =
      of_user (channel_of_token equal_fold d.server token)
        (λ c. named_channel_request verb word words (channel_id_of d c))

  -- `executeContextCommand`, behind the action.
  unfoldable pub scope_request : List ℕ → List (List ℕ) → Desk → Option Request
  scope_request action [] d = some (trigger action none none)
  scope_request action (scope ∷ []) d =
      if same_text scope (codes "server") then some (trigger action none none) else none
  scope_request action (scope ∷ word ∷ words) d =
      if same_text scope (codes "server")
      then some (trigger action none none)
      else if same_text scope (codes "user")
      then of_user (user_of_token equal_fold d.server word)
          (λ u. some (trigger action (some (session_of d u)) none))
      else if same_text scope (codes "channel")
      then of_user (channel_of_token equal_fold d.server (join (word ∷ words)))
          (λ c. some (trigger action none (some (channel_id_of d c))))
      else none

  unfoldable pub context_of : Option ContextAction → List (List ℕ) → Desk → Option Request
  context_of none scope d = none
  context_of (some action) scope d = scope_request action.name scope d

  unfoldable pub context_request : List (List ℕ) → Desk → Option Request
  context_request [] d = none
  context_request (key ∷ scope) d = context_of (action_named key d.actions) scope d

  -- `executeACLCommand`: a request for the list.
  unfoldable pub acl_target : List (List ℕ) → Desk → Option ℕ
  acl_target [] d = d.target_channel
  acl_target (word ∷ words) d = channel_of_token equal_fold d.server (join (word ∷ words))

  unfoldable pub acl_request : List (List ℕ) → Desk → Option Request
  acl_request words d = of_user (acl_target words d) (λ c. some (request_acl (channel_id_of d c)))
