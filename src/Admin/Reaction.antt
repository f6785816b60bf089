-- ===== src/Admin/Reaction.antt =====
-- What one request, one edit of a list and one change of a registered user come to, for admin.go.
use barnard_stormdragon_ai_f.Prelude.{
  ℕ, ◌-◌, ◌≡◌, refl, List, [], ◌∷◌, ◌++◌, Option, none, some, Bool, true, not, ◌||◌, if◌then◌else◌,
  if_ind, ltb, ◌==◌, length, arith,
}
use barnard_stormdragon_ai_f.Prelude.Int.{ℤ, pos, negsuc}
use barnard_stormdragon_ai_f.Prelude.{same_text}
use barnard_stormdragon_ai_f.Prelude.{◌≤◌, false, ◌&&◌}
use barnard_stormdragon_ai_f.Admin.{request_permission}
use barnard_stormdragon_ai_f.Admin.Words.{codes, parse_uint32}
use barnard_stormdragon_ai_f.Admin.Bans.{write_bans, unban_at}
use barnard_stormdragon_ai_f.Admin.Acl.{
  AccessList, AclRule, Subject, write_acl, grant_rule, deny_rule, edit_rule,
}
use barnard_stormdragon_ai_f.Admin.{
  Desk, Request, confirmed, refuse, post, kept_behind, edit_first, write_users, send_edited,
  RegisteredUser, delete_channel, send_bans, send_users, send_acl,
}
use barnard_stormdragon_ai_f.Admin.Requests.{
  post_some, toggle_request, setter, of_user, limit_request, named_channel_request,
  bare_channel_request, channel_id_of,
}
use barnard_stormdragon_ai_f.Admin.Command.{
  unban_index, with_registered, edit_acl, permit, acl_edit,
}

-- A message that does not remove the root channel.
unfoldable pub spares_root : Request → Bool
spares_root (delete_channel id) = not (id == 0)
spares_root r = true

unfoldable pub all_spare : Option Request → Bool
all_spare none = true
all_spare (some r) = spares_root r

-- Messages that ask for permissions.
unfoldable pub is_query : Request → Bool
is_query (request_permission id) = true
is_query r = false

unfoldable pub all_queries : List Request → Bool
unfolding is_query
all_queries [] = true
all_queries (r ∷ rs) = is_query r && all_queries rs

-- What a command does to the desk.
pub data Reaction (d k : Desk) : Type 0 where
  opened :
      (rs : List Request)
      → all_queries rs ≡ true
      → length rs ≤ 2
      → k.outbox ≡ d.outbox ++ rs
      → k.lines ≡ d.lines ++ (confirmed ∷ [])
      → k.server ≡ d.server
      → Reaction d k
  turned_down : k ≡ refuse d → Reaction d k
  sent_one :
      (r : Request)
      → spares_root r ≡ true
      → k.outbox ≡ d.outbox ++ (r ∷ [])
      → k.lines ≡ d.lines ++ (confirmed ∷ [])
      → k.server ≡ d.server
      → Reaction d k

pub post_some-Once :
    (o : Option Request) (d : Desk) → all_spare o ≡ true → Reaction d (post_some o d)
unfolding post_some all_spare
post_some-Once none d h = turned_down refl
post_some-Once (some r) d h = sent_one r h refl refl refl

pub post-Once : (r : Request) (d : Desk) → spares_root r ≡ true → Reaction d (post r d)
post-Once r d h = sent_one r h refl refl refl

pub either_Once :
    (d : Desk) (b : Bool) (x y : Desk)
    → Reaction d x
    → Reaction d y
    → Reaction d (if b then x else y)
either_Once d b x y p q = if_ind (λ k. Reaction d k) b (λ e. p) (λ e. q)

pub of_user_spares :
    (o : Option ℕ) (f : ℕ → Option Request)
    → ((u : ℕ) → all_spare (f u) ≡ true)
    → all_spare (of_user o f) ≡ true
unfolding of_user all_spare
of_user_spares none f h = refl
of_user_spares (some u) f h = h u

pub setter_spares :
    (verb : List ℕ) (session : ℕ) (on : Bool) → spares_root (setter verb session on) ≡ true
unfolding setter spares_root
setter_spares verb session on = ground arith

pub limit_spares : (id : ℕ) (o : Option ℕ) → all_spare (limit_request id o) ≡ true
unfolding limit_request all_spare spares_root
limit_spares id none = refl
limit_spares id (some n) = refl

pub toggled_spares :
    (verb : List ℕ) (session : ℕ) (o : Option Bool)
    → all_spare (toggle_request verb session o) ≡ true
unfolding toggle_request all_spare
toggled_spares verb session none = refl
toggled_spares verb session (some on) = setter_spares verb session on

pub delete_spares : (id : ℕ) → all_spare (if id == 0 then none else some (delete_channel id)) ≡ true
unfolding all_spare spares_root
delete_spares id = ground arith

pub bare_spares : (verb : List ℕ) (id : ℕ) → all_spare (bare_channel_request verb id) ≡ true
unfolding bare_channel_request all_spare spares_root
bare_spares verb id = grind (arith, delete_spares id)

pub named_spares :
    (verb word : List ℕ) (words : List (List ℕ)) (id : ℕ)
    → all_spare (named_channel_request verb word words id) ≡ true
unfolding named_channel_request all_spare spares_root
named_spares verb word words id =
    grind (arith, delete_spares id, limit_spares id (parse_uint32 word))

pub unban_index-Once : (o : Option ℤ) (d : Desk) → Reaction d (unban_index o d)
unfolding unban_index spares_root
unban_index-Once none d = turned_down refl
unban_index-Once (some (negsuc n)) d = turned_down refl
unban_index-Once (some (pos n)) d =
    if_ind (λ k. Reaction d k) (n == 0 || ltb (length d.bans) n) (λ e. turned_down refl)
      (λ e. sent_one (send_bans (write_bans (unban_at (n - 1) d.bans))) refl refl refl refl)

pub edit_acl-Once :
    (a : AccessList) (f : AclRule → AclRule) (o : Option Subject) (d : Desk)
    → Reaction d (edit_acl a f o d)
unfolding edit_acl spares_root
edit_acl-Once a f none d = turned_down refl
edit_acl-Once a f (some subject) d =
    sent_one
      (send_acl
        (write_acl (channel_id_of d a.channel) (record a { rules = edit_rule subject f a.rules })))
      refl refl refl refl

pub permit-Once :
    (verb : List ℕ) (p : Option ℕ) (a : AccessList) (o : Option Subject) (d : Desk)
    → Reaction d (permit verb p a o d)
unfolding permit
permit-Once verb none a o d = turned_down refl
permit-Once verb (some p) a o d =
    if_ind (λ k. Reaction d k) (same_text verb (codes "grant"))
      (λ e. edit_acl-Once a (grant_rule p) o d)
      (λ e.
        if_ind (λ k. Reaction d k) (same_text verb (codes "deny"))
          (λ e. edit_acl-Once a (deny_rule p) o d) (λ e. turned_down refl))

pub acl_edit-Once :
    (o : Option AccessList) (args : List (List ℕ)) (d : Desk) → Reaction d (acl_edit o args d)
unfolding acl_edit
acl_edit-Once none args d = turned_down refl
acl_edit-Once (some a) [] d = turned_down refl
acl_edit-Once (some a) (verb ∷ []) d = turned_down refl
acl_edit-Once (some a) (verb ∷ permission ∷ []) d = turned_down refl
acl_edit-Once (some a) (verb ∷ permission ∷ kind ∷ []) d = turned_down refl
acl_edit-Once (some a) (verb ∷ permission ∷ kind ∷ word ∷ words) d = permit-Once verb _ a _ d

-- An edited entry is in the message.
unfoldable pub IsFilled : List (ℕ × Option (List ℕ)) → Type 0
IsFilled [] = ⊥
IsFilled (e ∷ es) = Unit

pub IsFilled-head :
    (u : RegisteredUser) (us : List RegisteredUser)
    → (u.deregister || u.changed) ≡ true
    → IsFilled (write_users (u ∷ us))
unfolding write_users IsFilled
IsFilled-head u us h = rw h tt

pub IsFilled-tail :
    (u : RegisteredUser) (us : List RegisteredUser)
    → IsFilled (write_users us)
    → IsFilled (write_users (u ∷ us))
unfolding write_users IsFilled
IsFilled-tail u us h = if_ind IsFilled (u.deregister || u.changed) (λ e. tt) (λ e. h)

pub kept_behind_shows :
    (u : RegisteredUser) (o : Option (List RegisteredUser)) (vs : List RegisteredUser)
    → kept_behind u o ≡ some vs
    → ((ws : List RegisteredUser) → o ≡ some ws → IsFilled (write_users ws))
    → IsFilled (write_users vs)
unfolding kept_behind
kept_behind_shows u none vs h k = absurd (cc h)
kept_behind_shows u (some ws) vs h k =
    let e : u ∷ ws ≡ vs = cc h in rw (← e) (IsFilled-tail u ws (k ws refl))

pub edited_shows :
    (test : RegisteredUser → Bool) (f : RegisteredUser → RegisteredUser)
    (us vs : List RegisteredUser)
    → ((u : RegisteredUser) → ((f u).deregister || (f u).changed) ≡ true)
    → edit_first test f us ≡ some vs
    → IsFilled (write_users vs)
unfolding edit_first
edited_shows test f [] vs k h = absurd (cc h)
edited_shows test f (u ∷ us) vs k h =
    if_ind (λ o. o ≡ some vs → IsFilled (write_users vs)) (test u)
      (λ e i. let j : f u ∷ us ≡ vs = cc i in rw (← j) (IsFilled-head (f u) us (k u)))
      (λ e i.
        kept_behind_shows u (edit_first test f us) vs i (λ ws j. edited_shows test f us ws k j))
      h

pub sent_edited-Once :
    (es : List (ℕ × Option (List ℕ))) (us : List RegisteredUser) (d : Desk)
    → IsFilled es
    → Reaction d (send_edited es (record d { registered = us }))
unfolding send_edited IsFilled spares_root
sent_edited-Once [] us d h = absurd h
sent_edited-Once (e ∷ es) us d h = sent_one (send_users (e ∷ es)) refl refl refl refl

pub with_registered-Once :
    (o : Option (List RegisteredUser)) (d : Desk)
    → ((us : List RegisteredUser) → o ≡ some us → IsFilled (write_users us))
    → Reaction d (with_registered o d)
unfolding with_registered
with_registered-Once none d h = turned_down refl
with_registered-Once (some us) d h = sent_edited-Once (write_users us) us d (h us refl)

pub or_shows :
    (o p : Option (List RegisteredUser)) (vs : List RegisteredUser)
    → (elim o [ some us ↦ some us | none ↦ p ]) ≡ some vs
    → ((us : List RegisteredUser) → o ≡ some us → IsFilled (write_users us))
    → ((us : List RegisteredUser) → p ≡ some us → IsFilled (write_users us))
    → IsFilled (write_users vs)
or_shows none p vs h j k = k vs h
or_shows (some us) p vs h j k = j vs h
