-- ===== src/Admin/Permitted.antt =====
-- What `/admin acl grant` and `/admin acl deny` of admin.go leave in the access control list.
use barnard_stormdragon_ai_f.Prelude.{
  ℕ, ◌≡◌, refl, ap, ◌∙◌, List, [], ◌∷◌, Option, none, some, Bool, true, if_ind, All,
}
use barnard_stormdragon_ai_f.Prelude.Bits.{xor_cancel}
use barnard_stormdragon_ai_f.Prelude.{same_text}
use barnard_stormdragon_ai_f.Admin.Words.{codes, parse_uint32, join}
use barnard_stormdragon_ai_f.Admin.{Desk, Request}
use barnard_stormdragon_ai_f.Admin.Acl.{
  AccessList, AclRule, Subject, acl_user, acl_group, and_not, grant_rule, deny_rule, new_rule,
  edit_rule, parse_permission,
}
use barnard_stormdragon_ai_f.Admin.Acl.Rules.{
  IsDisjoint, grant_rule-IsDisjoint, deny_rule-IsDisjoint, edit_rule-All, is_named,
  edit_rule-edit_rule,
}
use barnard_stormdragon_ai_f.Admin.Requests.{post_some, acl_request}
use barnard_stormdragon_ai_f.Admin.Command.{subject_of, edit_acl, permit, acl_edit, acl_command}

unfoldable pub rules_of : Option AccessList → List AclRule
rules_of none = []
rules_of (some a) = a.rules

abbrev pub AllDisjoint : Desk → Type 0
AllDisjoint d = All IsDisjoint (rules_of d.acl)

post_some-AllDisjoint :
    (o : Option Request) (d : Desk) → AllDisjoint d → AllDisjoint (post_some o d)
unfolding post_some
post_some-AllDisjoint none d h = h
post_some-AllDisjoint (some r) d h = h

edit_acl-AllDisjoint :
    (a : AccessList) (f : AclRule → AclRule) (o : Option Subject) (d : Desk)
    → All IsDisjoint a.rules
    → ((r : AclRule) → IsDisjoint r → IsDisjoint (f r))
    → AllDisjoint d
    → AllDisjoint (edit_acl a f o d)
unfolding edit_acl rules_of new_rule
edit_acl-AllDisjoint a f none d k keeps h = h
edit_acl-AllDisjoint a f (some subject) d k keeps h =
    edit_rule-All IsDisjoint subject f a.rules keeps refl k

permit-AllDisjoint :
    (verb : List ℕ) (p : Option ℕ) (a : AccessList) (o : Option Subject) (d : Desk)
    → All IsDisjoint a.rules
    → AllDisjoint d
    → AllDisjoint (permit verb p a o d)
unfolding permit
permit-AllDisjoint verb none a o d k h = h
permit-AllDisjoint verb (some p) a o d k h =
    if_ind AllDisjoint (same_text verb (codes "grant"))
      (λ e. edit_acl-AllDisjoint a (grant_rule p) o d k (grant_rule-IsDisjoint p) h)
      (λ e.
        if_ind AllDisjoint (same_text verb (codes "deny"))
          (λ e. edit_acl-AllDisjoint a (deny_rule p) o d k (deny_rule-IsDisjoint p) h) (λ e. h))

acl_edit-AllDisjoint :
    (o : Option AccessList) (args : List (List ℕ)) (d : Desk)
    → All IsDisjoint (rules_of o)
    → AllDisjoint d
    → AllDisjoint (acl_edit o args d)
unfolding acl_edit rules_of
acl_edit-AllDisjoint none args d k h = h
acl_edit-AllDisjoint (some a) [] d k h = h
acl_edit-AllDisjoint (some a) (verb ∷ []) d k h = h
acl_edit-AllDisjoint (some a) (verb ∷ permission ∷ []) d k h = h
acl_edit-AllDisjoint (some a) (verb ∷ permission ∷ kind ∷ []) d k h = h
acl_edit-AllDisjoint (some a) (verb ∷ permission ∷ kind ∷ word ∷ words) d k h =
    permit-AllDisjoint verb _ a _ d k h

numbered_is_named :
    (o : Option ℕ) (s : Subject)
    → (elim o [ none ↦ none | some id ↦ some (acl_user id) ]) ≡ some s
    → is_named s ≡ true
unfolding is_named
numbered_is_named none s h = absurd (cc h)
numbered_is_named (some id) s h = let j : acl_user id ≡ s = cc h in rw (← j) refl

edit_rule_same :
    (s : Subject) (f g : AclRule → AclRule) (rs : List AclRule)
    → ((r : AclRule) → f r ≡ g r)
    → edit_rule s f rs ≡ edit_rule s g rs
unfolding edit_rule
edit_rule_same s f g [] k = ap (λ r. r ∷ []) (k (new_rule s))
edit_rule_same s f g (r ∷ rs) k = rw (k r, edit_rule_same s f g rs k) refl

-- The second grant undoes the first.
twice_rules :
    (s : Subject) (p : ℕ) (rs : List AclRule)
    → is_named s ≡ true
    → edit_rule s (grant_rule p) (edit_rule s (grant_rule p) rs)
      ≡ edit_rule s (λ r. record r { denied = and_not (and_not r.denied p) p }) rs
unfolding grant_rule
twice_rules s p rs n =
    edit_rule-edit_rule s (grant_rule p) (grant_rule p) rs n (λ r. refl)
    ∙ edit_rule_same s (λ r. grant_rule p (grant_rule p r))
        (λ r. record r { denied = and_not (and_not r.denied p) p }) rs
        (λ r.
          ap (λ g. record r { granted = g; denied = and_not (and_not r.denied p) p })
            (xor_cancel r.granted p))

subject_of-is_named :
    (kind name : List ℕ) (s : Subject) → subject_of kind name ≡ some s → is_named s ≡ true
unfolding subject_of is_named
subject_of-is_named kind name s h =
    if_ind (λ o. o ≡ some s → is_named s ≡ true) (same_text kind (codes "user"))
      (λ e. numbered_is_named (parse_uint32 name) s)
      (λ e.
        if_ind (λ o. o ≡ some s → is_named s ≡ true) (same_text kind (codes "group"))
          (λ e i. let j : acl_group name ≡ s = cc i in rw (← j) refl) (λ e i. absurd (cc i)))
      h

module _ (equal_fold : List ℕ → List ℕ → Bool) (to_lower : List ℕ → List ℕ) where
  -- Where no rule of the access control list grants what it denies, none does so behind any `/admin acl`
  -- command.
  pub acl_command-AllDisjoint :
      (args : List (List ℕ)) (d : Desk)
      → All IsDisjoint (rules_of d.acl)
      → All IsDisjoint (rules_of (acl_command equal_fold to_lower args d).acl)
  unfolding acl_command
  acl_command-AllDisjoint [] d h = post_some-AllDisjoint (acl_request equal_fold to_lower [] d) d h
  acl_command-AllDisjoint (verb ∷ words) d h =
      if_ind AllDisjoint (same_text verb (codes "request"))
        (λ e. post_some-AllDisjoint (acl_request equal_fold to_lower words d) d h)
        (λ e. acl_edit-AllDisjoint d.acl (verb ∷ words) d h h)

  granted_once :
      (d : Desk) (a : AccessList) (permission kind word : List ℕ) (words : List (List ℕ)) (p : ℕ)
      (s : Subject)
      → d.acl ≡ some a
      → parse_permission permission ≡ some p
      → subject_of kind (join (word ∷ words)) ≡ some s
      → (acl_command equal_fold to_lower (codes "grant" ∷ permission ∷ kind ∷ word ∷ words) d).acl
        ≡ some (record a { rules = edit_rule s (grant_rule p) a.rules })
  unfolding acl_command acl_edit permit edit_acl same_text
  granted_once d a permission kind word words p s has_acl known subject =
      simp (has_acl, known, subject) refl

  -- With an access control list at hand, a known permission and a user or group: the same `/admin acl grant`
  -- given twice leaves what the rule grants as it was before the first.
  pub grant_twice :
      (d : Desk) (a : AccessList) (permission kind word : List ℕ) (words : List (List ℕ)) (p : ℕ)
      (s : Subject)
      → d.acl ≡ some a
      → parse_permission permission ≡ some p
      → subject_of kind (join (word ∷ words)) ≡ some s
      → let run =
          acl_command equal_fold to_lower (codes "grant" ∷ permission ∷ kind ∷ word ∷ words) in
        (run (run d)).acl
        ≡ some (record a {
          rules = edit_rule s (λ r. record r { denied = and_not (and_not r.denied p) p }) a.rules;
        })
  grant_twice d a permission kind word words p s has_acl known subject =
      granted_once
        (acl_command equal_fold to_lower (codes "grant" ∷ permission ∷ kind ∷ word ∷ words) d)
        (record a { rules = edit_rule s (grant_rule p) a.rules }) permission kind word words p s
        (granted_once d a permission kind word words p s has_acl known subject) known subject
      ∙ ap (λ rs. some (record a { rules = rs }))
          (twice_rules s p a.rules (subject_of-is_named kind (join (word ∷ words)) s subject))
