-- ===== src/Server/ChannelState/Kept.antt =====
-- The parts of handleChannelState in gumble/gumble/handlers.go that change neither the tree nor the
-- links.
use barnard_stormdragon_ai_f.Prelude.{ℕ, ◌≡◌, refl, ◌∙◌, List, Option, none, some, Bool}
use barnard_stormdragon_ai_f.Prelude.Int.{ℤ}
use barnard_stormdragon_ai_f.Prelude.Table.{change-field}
use barnard_stormdragon_ai_f.Server.{
  Server, Channel, edit_channel, tell, Notice, Phase, synced, connected, disconnected,
}
use barnard_stormdragon_ai_f.Server.ChannelState.{
  ChannelState, apply_name, apply_description, apply_temporary, apply_position,
  apply_description_hash, apply_max_users, apply_fields, announce,
}

pub record IsKept (s t : Server) : Type 0 where
  pub id : (x : ℕ) → (t.channel_at x).id ≡ (s.channel_at x).id
  pub links : (x : ℕ) → (t.channel_at x).links ≡ (s.channel_at x).links
  pub parent : (x : ℕ) → (t.channel_at x).parent ≡ (s.channel_at x).parent
  pub channels : t.channels ≡ s.channels
  pub next : t.next_channel ≡ s.next_channel

IsKept-refl : (s : Server) → IsKept s s
IsKept-refl s = record {
  id = λ x. refl;
  links = λ x. refl;
  parent = λ x. refl;
  channels = refl;
  next = refl;
}

pub IsKept-trans : (s t u : Server) → IsKept s t → IsKept t u → IsKept s u
IsKept-trans s t u h k = record {
  id = λ x. k.id x ∙ h.id x;
  links = λ x. k.links x ∙ h.links x;
  parent = λ x. k.parent x ∙ h.parent x;
  channels = k.channels ∙ h.channels;
  next = k.next ∙ h.next;
}

edit-IsKept :
    (s : Server) (r : ℕ) (f : Channel → Channel)
    → ((c : Channel) → (f c).id ≡ c.id)
    → ((c : Channel) → (f c).links ≡ c.links)
    → ((c : Channel) → (f c).parent ≡ c.parent)
    → IsKept s (edit_channel s r f)
edit-IsKept s r f hi hl hp = record {
  id = λ x. change-field (λ (c : Channel). c.id) s.channel_at r x f hi;
  links = λ x. change-field (λ (c : Channel). c.links) s.channel_at r x f hl;
  parent = λ x. change-field (λ (c : Channel). c.parent) s.channel_at r x f hp;
  channels = refl;
  next = refl;
}

pub apply_name-IsKept :
    (r : ℕ) (o : Option (List ℕ)) (s : Server) (flags : ℕ) → IsKept s (apply_name r o (s, flags)).0
unfolding apply_name
apply_name-IsKept r none s flags = IsKept-refl s
apply_name-IsKept r (some name) s flags = edit-IsKept s r _ (λ c. refl) (λ c. refl) (λ c. refl)

apply_description-IsKept :
    (r : ℕ) (o : Option (List ℕ)) (d : Server × ℕ) → IsKept d.0 (apply_description r o d).0
unfolding apply_description
apply_description-IsKept r none (s, flags) = IsKept-refl s
apply_description-IsKept r (some text) (s, flags) =
    edit-IsKept s r _ (λ c. refl) (λ c. refl) (λ c. refl)

apply_temporary-IsKept :
    (r : ℕ) (o : Option Bool) (d : Server × ℕ) → IsKept d.0 (apply_temporary r o d).0
unfolding apply_temporary
apply_temporary-IsKept r none (s, flags) = IsKept-refl s
apply_temporary-IsKept r (some t) (s, flags) = edit-IsKept s r _ (λ c. refl) (λ c. refl) (λ c. refl)

apply_position-IsKept :
    (r : ℕ) (o : Option ℤ) (d : Server × ℕ) → IsKept d.0 (apply_position r o d).0
unfolding apply_position
apply_position-IsKept r none (s, flags) = IsKept-refl s
apply_position-IsKept r (some p) (s, flags) = edit-IsKept s r _ (λ c. refl) (λ c. refl) (λ c. refl)

apply_description_hash-IsKept :
    (r : ℕ) (o : Option (List ℕ)) (d : Server × ℕ) → IsKept d.0 (apply_description_hash r o d).0
unfolding apply_description_hash
apply_description_hash-IsKept r none (s, flags) = IsKept-refl s
apply_description_hash-IsKept r (some h) (s, flags) =
    edit-IsKept s r _ (λ c. refl) (λ c. refl) (λ c. refl)

apply_max_users-IsKept :
    (r : ℕ) (o : Option ℕ) (d : Server × ℕ) → IsKept d.0 (apply_max_users r o d).0
unfolding apply_max_users
apply_max_users-IsKept r none (s, flags) = IsKept-refl s
apply_max_users-IsKept r (some n) (s, flags) = edit-IsKept s r _ (λ c. refl) (λ c. refl) (λ c. refl)

pub apply_fields-IsKept :
    (r : ℕ) (p : ChannelState) (d : Server × ℕ) → IsKept d.0 (apply_fields r p d).0
unfolding apply_fields
apply_fields-IsKept r p d0 =
    let d1 = apply_description r p.description d0 in
    let d2 = apply_temporary r p.temporary d1 in
    let d3 = apply_position r p.position d2 in
    let d4 = apply_description_hash r p.description_hash d3 in
    let d5 = apply_max_users r p.max_users d4 in
    IsKept-trans d0.0 d1.0 d5.0 (apply_description-IsKept r p.description d0) (
      IsKept-trans d1.0 d2.0 d5.0 (apply_temporary-IsKept r p.temporary d1) (
        IsKept-trans d2.0 d3.0 d5.0 (apply_position-IsKept r p.position d2) (
          IsKept-trans d3.0 d4.0 d5.0 (apply_description_hash-IsKept r p.description_hash d3)
            (apply_max_users-IsKept r p.max_users d4))))

pub tell-IsKept : (h : Phase) (n : Notice) (s : Server) → IsKept s (tell h n s)
unfolding tell
tell-IsKept synced n s = record {
  id = λ x. refl;
  links = λ x. refl;
  parent = λ x. refl;
  channels = refl;
  next = refl;
}
tell-IsKept connected n s = IsKept-refl s
tell-IsKept disconnected n s = IsKept-refl s

pub announce-IsKept : (r : ℕ) (d : Server × ℕ) → IsKept d.0 (announce r d)
unfolding announce
announce-IsKept r (s, flags) = tell-IsKept s.phase _ s
