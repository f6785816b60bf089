-- ===== src/Admin/Acl/Rules.antt =====
-- What the commands grant and deny of admin.go do to the rules of an access control list.
use barnard_stormdragon_ai_f.Prelude.{
  ℕ, zero, suc, ◌/◌, ◌%◌, ◌≡◌, ◌≤◌, min, refl, sym, ap, ◌∙◌, List, [], ◌∷◌, Bool, true, false,
  if_ind, bit_and, bit_xor, arith, All, Bool-cases, inl, inr,
}
use barnard_stormdragon_ai_f.Prelude.Bits.{and_digit, xor_half, xor_parity, and_zero}
use barnard_stormdragon_ai_f.Prelude.{same_text}
use barnard_stormdragon_ai_f.Admin.Acl.{
  AclRule, Subject, everyone, acl_user, acl_group, and_not, grant_rule, deny_rule, is_subject,
  new_rule, edit_rule,
}

and_half : (a b : ℕ) → bit_and a b / 2 ≡ bit_and (a / 2) (b / 2)
and_half a b = omega (arith, and_digit a b)

and_parity : (a b : ℕ) → bit_and a b % 2 ≡ min (a % 2) (b % 2)
and_parity a b = omega (arith, and_digit a b)

zero_and_below : (n b : ℕ) → b ≤ n → bit_and 0 b ≡ 0
zero_and_below n zero h = refl
zero_and_below zero (suc b) h = absurd (omega arith)
zero_and_below (suc n) (suc b) h =
    omega (arith, and_digit 0 (suc b), zero_and_below n (suc b / 2) (omega arith))

zero_and : (b : ℕ) → bit_and 0 b ≡ 0
zero_and b = zero_and_below b b (omega arith)

-- Toggled here and cleared there, digit by digit.
disjoint_digits : (k g d p : ℕ) → d ≤ k → bit_and g d ≡ 0 → bit_and (bit_xor g p) (and_not d p) ≡ 0
unfolding and_not
disjoint_digits zero g d p hd h =
    let none_set : d ≡ 0 = omega (arith, hd) in rw (none_set, zero_and p) (and_zero (bit_xor g p))
disjoint_digits (suc k) g d p hd h =
    let above : bit_and (g / 2) (d / 2) ≡ 0 = omega (arith, h, and_digit g d) in
    let ih = disjoint_digits k (g / 2) (d / 2) (p / 2) (omega (arith, hd)) above in
    let x = bit_xor g p in
    let y = bit_xor d (bit_and d p) in
    let top : bit_and (x / 2) (y / 2) ≡ 0 =
      rw (xor_half g p, xor_half d (bit_and d p), and_half d p) ih in
    let low : min (x % 2) (y % 2) ≡ 0 =
      omega
        (arith, h, and_parity g d, and_parity d p, xor_parity g p, xor_parity d (bit_and d p)) in
    and_digit x y ∙ omega (arith, top, low)

and_comm_below : (n a b : ℕ) → a ≤ n → bit_and a b ≡ bit_and b a
and_comm_below zero a b h =
    let none_set : a ≡ 0 = omega (arith, h) in rw none_set (zero_and b ∙ sym (and_zero b))
and_comm_below (suc n) a b h =
    omega (arith, and_digit a b, and_digit b a, and_comm_below n (a / 2) (b / 2) (omega (arith, h)))

and_comm : (a b : ℕ) → bit_and a b ≡ bit_and b a
and_comm a b = and_comm_below a a b (omega arith)

-- A rule grants nothing that it denies.
abbrev pub IsDisjoint : AclRule → Type 0
IsDisjoint r = bit_and r.granted r.denied ≡ 0

pub grant_rule-IsDisjoint : (p : ℕ) (r : AclRule) → IsDisjoint r → IsDisjoint (grant_rule p r)
unfolding grant_rule
grant_rule-IsDisjoint p r h = disjoint_digits r.denied r.granted r.denied p (omega arith) h

pub deny_rule-IsDisjoint : (p : ℕ) (r : AclRule) → IsDisjoint r → IsDisjoint (deny_rule p r)
unfolding deny_rule
deny_rule-IsDisjoint p r h =
    and_comm (and_not r.granted p) (bit_xor r.denied p)
    ∙ disjoint_digits r.granted r.denied r.granted p (omega arith) (and_comm r.denied r.granted ∙ h)

pub edit_rule-All :
    (P : AclRule → Type 0) (subject : Subject) (f : AclRule → AclRule) (rs : List AclRule)
    → ((r : AclRule) → P r → P (f r))
    → P (new_rule subject)
    → All P rs
    → All P (edit_rule subject f rs)
unfolding edit_rule
edit_rule-All P subject f [] k new h = (k _ new, tt)
edit_rule-All P subject f (r ∷ rs) k new h =
    if_ind (λ t. All P t) (is_subject subject r.subject) (λ e. (k r h.0, h.1))
      (λ e. (h.0, edit_rule-All P subject f rs k new h.1))

same_text_refl : (s : List ℕ) → same_text s s ≡ true
unfolding same_text
same_text_refl [] = refl
same_text_refl (c ∷ s) = rw (same_text_refl s) (ground arith)

-- A user or a group that a rule can be made for.
unfoldable pub is_named : Subject → Bool
is_named everyone = false
is_named (acl_user id) = true
is_named (acl_group name) = true

is_subject_refl : (s : Subject) → is_named s ≡ true → is_subject s s ≡ true
unfolding is_subject is_named
is_subject_refl everyone h = absurd (cc h)
is_subject_refl (acl_user id) h = ground arith
is_subject_refl (acl_group name) h = same_text_refl name

-- Two edits of the same rule.
pub edit_rule-edit_rule :
    (subject : Subject) (f g : AclRule → AclRule) (rs : List AclRule)
    → is_named subject ≡ true
    → ((r : AclRule) → (f r).subject ≡ r.subject)
    → edit_rule subject g (edit_rule subject f rs) ≡ edit_rule subject (λ r. g (f r)) rs
unfolding edit_rule new_rule
edit_rule-edit_rule subject f g [] n k = rw (k (new_rule subject), is_subject_refl subject n) refl
edit_rule-edit_rule subject f g (r ∷ rs) n k = elim (Bool-cases (is_subject subject r.subject)) [
  | inl e ↦ rw (e, k r, e) refl
  | inr e ↦ rw (e, e) (ap (λ t. r ∷ t) (edit_rule-edit_rule subject f g rs n k))
]
