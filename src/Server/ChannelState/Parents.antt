-- ===== src/Server/ChannelState/Parents.antt =====
-- handleChannelState of gumble/gumble/handlers.go keeps the channels a forest.
use barnard_stormdragon_ai_f.Prelude.{
  ℕ, zero, suc, ◌≡◌, ◌≢◌, refl, sym, ap, ◌∙◌, Option, none, some, false, if_ind, arith,
}
use native.Mathlib.Decide.{ℕ_discrete}
use barnard_stormdragon_ai_f.Prelude.Table.{lookup, change, change_self, change_ne}
use barnard_stormdragon_ai_f.Server.{Server, Channel, edit_channel}
use barnard_stormdragon_ai_f.Server.ChannelState.{
  is_channel_descendant, leave_parent, enter_parent, set_parent, move_channel, reparent,
  apply_parent,
}

-- `n` steps towards the root.
unfoldable pub climb : ℕ → Server → Option ℕ → Option ℕ
climb zero s c = c
climb (suc n) s none = none
climb (suc n) s (some c) = climb n s (s.channel_at c).parent

-- Every walk towards the root ends, in at most `max_channel_depth + 1` steps.
unfoldable pub IsShallow : Server → Type 0
IsShallow s = (c : Option ℕ) → climb 1025 s c ≡ none

-- Every walk towards the root ends: no channel is its own ancestor.
unfoldable pub IsAcyclic : Server → Type 0
IsAcyclic s = (c : Option ℕ) → (n : ℕ) × (climb n s c ≡ none)

-- Outside `r` the parents are the same, and the parent of `r` is `p`.
record IsMoved (s t : Server) (r : ℕ) (p : Option ℕ) : Type 0 where
  here : (t.channel_at r).parent ≡ p
  there : (x : ℕ) → r ≢ x → (t.channel_at x).parent ≡ (s.channel_at x).parent

edit-parent :
    (at : ℕ → Channel) (q x : ℕ) (f : Channel → Channel)
    → ((c : Channel) → (f c).parent ≡ c.parent)
    → (change at q f x).parent ≡ (at x).parent
edit-parent at q x f h = elim (ℕ_discrete q x) [
  | yes e ↦ rw e (ap (λ (c : Channel). c.parent) (change_self at x f) ∙ h (at x))
  | no n ↦ ap (λ (c : Channel). c.parent) (change_ne at q x f n)
]

leave_parent-parent :
    (s : Server) (id : ℕ) (q : Option ℕ) (x : ℕ)
    → ((leave_parent s id q).channel_at x).parent ≡ (s.channel_at x).parent
unfolding leave_parent
leave_parent-parent s id none x = refl
leave_parent-parent s id (some q) x = edit-parent s.channel_at q x _ (λ c. refl)

enter_parent-parent :
    (s : Server) (id r : ℕ) (q : Option ℕ) (x : ℕ)
    → ((enter_parent s id r q).channel_at x).parent ≡ (s.channel_at x).parent
unfolding enter_parent
enter_parent-parent s id r none x = refl
enter_parent-parent s id r (some q) x = edit-parent s.channel_at q x _ (λ c. refl)

move_channel-IsMoved : (s : Server) (r : ℕ) (p : Option ℕ) → IsMoved s (move_channel s r p) r p
unfolding move_channel set_parent
move_channel-IsMoved s r p =
    let id = (s.channel_at r).id in
    let left = leave_parent s id (s.channel_at r).parent in
    let set = edit_channel left r (set_parent r p) in
    record {
      here =
          enter_parent-parent set id r p r
          ∙ ap (λ (c : Channel). c.parent) (change_self left.channel_at r (set_parent r p));
      there = λ x n.
          enter_parent-parent set id r p x
          ∙ ap (λ (c : Channel). c.parent) (change_ne left.channel_at r x (set_parent r p) n)
          ∙ leave_parent-parent s id (s.channel_at r).parent x;
    }

module _ (s t : Server) (r : ℕ) (p : Option ℕ) (m : IsMoved s t r p) where
  -- A walk that does not meet the moved channel stays as it was.
  avoided :
      (n : ℕ) (c : Option ℕ)
      → is_channel_descendant n s c r ≡ false
      → climb n s c ≡ none
      → climb n t c ≡ none
  unfolding is_channel_descendant climb
  avoided zero c h e = e
  avoided (suc n) none h e = refl
  avoided (suc n) (some c) h e = elim (ℕ_discrete c r) [
    | yes q ↦ absurd (met n c q h)
    | no q ↦ rw (m.there c (λ z. q (sym z))) (avoided n (s.channel_at c).parent (ground arith) e)
  ]
    where
      met : (n c : ℕ) → c ≡ r → is_channel_descendant (suc n) s (some c) r ≡ false → ⊥
      met n c q h = ground arith

  -- A walk that meets it goes on at its new parent.
  ended :
      (k n : ℕ) (c : Option ℕ)
      → climb k t p ≡ none
      → climb n s c ≡ none
      → (j : ℕ) × (climb j t c ≡ none)
  unfolding climb
  ended k zero c hp e = (0, e)
  ended k (suc n) none hp e = (1, refl)
  ended k (suc n) (some c) hp e = elim (ℕ_discrete r c) [
    | yes q ↦ (suc k, sym (ap (λ x. climb k t (t.channel_at x).parent) q) ∙ rw m.here hp)
    | no q ↦ let (j, f) = ended k n (s.channel_at c).parent hp e in (suc j, rw (m.there c q) f)
  ]

reparent-IsAcyclic :
    (s : Server) (r : ℕ) (p : Option ℕ) (flags : ℕ)
    → IsShallow s
    → IsAcyclic (reparent r p (s, flags)).0
unfolding reparent IsShallow IsAcyclic
reparent-IsAcyclic s r p flags h =
    if_ind (λ (d : Server × ℕ). IsAcyclic d.0) (is_channel_descendant 1025 s p r)
      (λ e c. (1025, h c))
      (λ e c.
        let m = move_channel-IsMoved s r p in
        ended s (move_channel s r p) r p m 1025 1025 c
          (avoided s (move_channel s r p) r p m 1025 p e (h p)) (h c))

pub apply_parent-IsAcyclic :
    (s : Server) (r : ℕ) (parent : Option ℕ) (flags : ℕ)
    → IsShallow s
    → IsAcyclic (apply_parent r parent (s, flags)).0
unfolding apply_parent IsShallow IsAcyclic
apply_parent-IsAcyclic s r none flags h = λ c. (1025, h c)
apply_parent-IsAcyclic s r (some id) flags h = reparent-IsAcyclic s r (lookup id s.channels) flags h

-- Only the parents matter.
pub climb-same :
    (s t : Server)
    → ((x : ℕ) → (t.channel_at x).parent ≡ (s.channel_at x).parent)
    → (n : ℕ) (c : Option ℕ) → climb n t c ≡ climb n s c
unfolding climb
climb-same s t h zero c = refl
climb-same s t h (suc n) none = refl
climb-same s t h (suc n) (some c) = rw (h c) (climb-same s t h n (s.channel_at c).parent)

pub same-IsAcyclic :
    (s t : Server)
    → ((x : ℕ) → (t.channel_at x).parent ≡ (s.channel_at x).parent)
    → IsAcyclic s
    → IsAcyclic t
unfolding IsAcyclic
same-IsAcyclic s t h a = λ c. let (n, e) = a c in (n, climb-same s t h n c ∙ e)
