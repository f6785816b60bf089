-- ===== src/Server/ChannelState/Handled.antt =====
-- A whole handleChannelState of gumble/gumble/handlers.go.
use barnard_stormdragon_ai_f.Prelude.{
  ℕ, ◌≡◌, refl, sym, ap, ◌∙◌, List, [], ◌∷◌, Option, none, some, if_ind, arith,
}
use mathlib.Core.Path.{fun_ext}
use barnard_stormdragon_ai_f.Prelude.Table.{change-field, lookup, keys}
use barnard_stormdragon_ai_f.Server.{Server, Channel, edit_channel}
use barnard_stormdragon_ai_f.Server.ChannelState.{
  ChannelState, leave_parent, enter_parent, set_parent, move_channel, is_channel_descendant,
  reparent, apply_parent, apply_name, add_links, unlink_all, replace_links, apply_links,
  apply_fields, find_or_create, announce, update_channel, with_channel_id, handle_channel_state,
}
use barnard_stormdragon_ai_f.Server.ChannelState.Kept.{
  IsKept, IsKept-trans, apply_name-IsKept, apply_fields-IsKept, announce-IsKept,
}
use barnard_stormdragon_ai_f.Server.ChannelState.Links.{
  IsLinked, IsLive, IsStep, ids, IsStep-refl, IsStep-trans, step-IsLive, add_links-IsStep,
  remove_links-IsStep, unlink_all-IsStep,
}
use barnard_stormdragon_ai_f.Server.ChannelState.Fresh.{
  IsReady, find_or_create-IsReady, find_or_create-IsShallow,
}
use barnard_stormdragon_ai_f.Server.ChannelState.Parents.{
  IsShallow, IsAcyclic, apply_parent-IsAcyclic, same-IsAcyclic,
}

-- The same channels under the same ids, with the same links.
pub record IsSteady (s t : Server) : Type 0 where
  pub id : (x : ℕ) → ids t x ≡ ids s x
  pub links : (x : ℕ) → (t.channel_at x).links ≡ (s.channel_at x).links
  pub channels : t.channels ≡ s.channels
  pub next : t.next_channel ≡ s.next_channel

pub kept-IsSteady : (s t : Server) → IsKept s t → IsSteady s t
kept-IsSteady s t k = record { id = k.id; links = k.links; channels = k.channels; next = k.next }

pub steady-IsLinked : (s t : Server) → IsSteady s t → IsLinked s → IsLinked t
steady-IsLinked s t e h = record {
  indexed = λ k r f.
      let (i, b) = h.indexed k r (ap (lookup k) (sym e.channels) ∙ f) in
      (e.id r ∙ i, omega (arith, e.next));
  mutual_links =
      rw (fun_ext e.id, fun_ext (λ x. fun_ext (λ j. ap (lookup j) (e.links x))), e.channels)
        h.mutual_links;
}

steady-IsLive :
    (s t : Server) (r : ℕ)
    → IsSteady s t
    → IsLive (ids s) s.channels r
    → IsLive (ids t) t.channels r
steady-IsLive s t r e h = rw (e.channels, e.id r) h

pub edit-IsSteady :
    (s : Server) (r : ℕ) (f : Channel → Channel)
    → ((c : Channel) → (f c).id ≡ c.id)
    → ((c : Channel) → (f c).links ≡ c.links)
    → IsSteady s (edit_channel s r f)
edit-IsSteady s r f hi hl = record {
  id = λ x. change-field (λ (c : Channel). c.id) s.channel_at r x f hi;
  links = λ x. change-field (λ (c : Channel). c.links) s.channel_at r x f hl;
  channels = refl;
  next = refl;
}

IsSteady-refl : (s : Server) → IsSteady s s
IsSteady-refl s = record { id = λ x. refl; links = λ x. refl; channels = refl; next = refl }

pub IsSteady-trans : (s t u : Server) → IsSteady s t → IsSteady t u → IsSteady s u
IsSteady-trans s t u h k = record {
  id = λ x. k.id x ∙ h.id x;
  links = λ x. k.links x ∙ h.links x;
  channels = k.channels ∙ h.channels;
  next = k.next ∙ h.next;
}

pub leave_parent-IsSteady : (s : Server) (id : ℕ) (q : Option ℕ) → IsSteady s (leave_parent s id q)
unfolding leave_parent
leave_parent-IsSteady s id none = IsSteady-refl s
leave_parent-IsSteady s id (some q) = edit-IsSteady s q _ (λ c. refl) (λ c. refl)

enter_parent-IsSteady : (s : Server) (id r : ℕ) (q : Option ℕ) → IsSteady s (enter_parent s id r q)
unfolding enter_parent
enter_parent-IsSteady s id r none = IsSteady-refl s
enter_parent-IsSteady s id r (some q) = edit-IsSteady s q _ (λ c. refl) (λ c. refl)

move_channel-IsSteady : (s : Server) (r : ℕ) (p : Option ℕ) → IsSteady s (move_channel s r p)
unfolding move_channel set_parent
move_channel-IsSteady s r p =
    let id = (s.channel_at r).id in
    let left = leave_parent s id (s.channel_at r).parent in
    let set = edit_channel left r (set_parent r p) in
    IsSteady-trans s left _ (leave_parent-IsSteady s id (s.channel_at r).parent) (
      IsSteady-trans left set _ (edit-IsSteady left r (set_parent r p) (λ c. refl) (λ c. refl))
        (enter_parent-IsSteady set id r p))

apply_parent-IsSteady :
    (r : ℕ) (o : Option ℕ) (s : Server) (flags : ℕ) → IsSteady s (apply_parent r o (s, flags)).0
unfolding apply_parent reparent
apply_parent-IsSteady r none s flags = IsSteady-refl s
apply_parent-IsSteady r (some id) s flags =
    let p = lookup id s.channels in
    if_ind (λ (d : Server × ℕ). IsSteady s d.0) (is_channel_descendant 1025 s p r)
      (λ e. IsSteady-refl s) (λ e. move_channel-IsSteady s r p)

replace_links-IsStep :
    (r : ℕ) (l : List ℕ) (s : Server) (flags : ℕ)
    → IsLinked s
    → IsLive (ids s) s.channels r
    → IsStep s (replace_links r l (s, flags)).0
unfolding replace_links
replace_links-IsStep r [] s flags h hr = IsStep-refl s h
replace_links-IsStep r (k ∷ l) s flags h hr =
    let t = unlink_all s r (keys (s.channel_at r).links) in
    let q = unlink_all-IsStep s r (keys (s.channel_at r).links) h hr in
    IsStep-trans s t _ q (add_links-IsStep t r (k ∷ l) q.linked (step-IsLive s t r q hr))

apply_links-IsStep :
    (r : ℕ) (p : ChannelState) (s : Server) (flags : ℕ)
    → IsLinked s
    → IsLive (ids s) s.channels r
    → IsStep s (apply_links r p (s, flags)).0
unfolding apply_links
apply_links-IsStep r p s flags h hr =
    let t = (replace_links r p.links (s, flags)).0 in
    let q = replace_links-IsStep r p.links s flags h hr in
    let u = add_links t r p.links_add in
    let w = add_links-IsStep t r p.links_add q.linked (step-IsLive s t r q hr) in
    IsStep-trans s t _ q (
      IsStep-trans t u _ w (
        remove_links-IsStep u r p.links_remove w.linked
          (step-IsLive t u r w (step-IsLive s t r q hr))))

-- What every part of the message behind the move leaves.
record IsApplied (s t : Server) : Type 0 where
  linked : IsLinked t
  same_parent : (x : ℕ) → (t.channel_at x).parent ≡ (s.channel_at x).parent

after_parent-IsApplied :
    (r : ℕ) (p : ChannelState) (d : Server × ℕ)
    → IsLinked d.0
    → IsLive (ids d.0) d.0.channels r
    → IsApplied d.0 (announce r (apply_fields r p (apply_links r p (apply_name r p.name d))))
after_parent-IsApplied r p (s, flags) h hr =
    let d1 = apply_name r p.name (s, flags) in
    let k1 = apply_name-IsKept r p.name s flags in
    let y1 = kept-IsSteady s d1.0 k1 in
    let d2 = apply_links r p d1 in
    let q =
      apply_links-IsStep r p d1.0 d1.1 (steady-IsLinked s d1.0 y1 h)
        (steady-IsLive s d1.0 r y1 hr) in
    let d3 = apply_fields r p d2 in
    let k3 =
      IsKept-trans d2.0 d3.0 (announce r d3) (apply_fields-IsKept r p d2) (announce-IsKept r d3) in
    record {
      linked =
          steady-IsLinked d2.0 (announce r d3) (kept-IsSteady d2.0 (announce r d3) k3) q.linked;
      same_parent = λ x. k3.parent x ∙ q.parent x ∙ k1.parent x;
    }

update_channel-IsApplied :
    (p : ChannelState) (d : (Server × ℕ) × ℕ)
    → IsReady d
    → IsApplied (apply_parent d.1 p.parent d.0).0 (
        announce d.1 (
          apply_fields d.1 p
            (apply_links d.1 p (apply_name d.1 p.name (apply_parent d.1 p.parent d.0)))))
update_channel-IsApplied p ((s, flags), r) h =
    let y = apply_parent-IsSteady r p.parent s flags in
    let t = (apply_parent r p.parent (s, flags)).0 in
    after_parent-IsApplied r p (apply_parent r p.parent (s, flags)) (steady-IsLinked s t y h.linked)
      (steady-IsLive s t r y h.live)

with_channel_id-IsLinked :
    (s : Server) (p : ChannelState) (o : Option ℕ) → IsLinked s → IsLinked (with_channel_id s p o).0
unfolding with_channel_id update_channel
with_channel_id-IsLinked s p none h = h
with_channel_id-IsLinked s p (some id) h =
    (update_channel-IsApplied p (find_or_create s id (lookup id s.channels))
      (find_or_create-IsReady s id (lookup id s.channels) refl h)).linked

-- Whatever a ChannelState message says, known channels stay under their ids, and the links of known
-- channels go to known channels and back.
pub handle_channel_state-IsLinked :
    (s : Server) (p : ChannelState) → IsLinked s → IsLinked (handle_channel_state s p).0
unfolding handle_channel_state
handle_channel_state-IsLinked s p h = with_channel_id-IsLinked s p p.channel_id h

shallow-IsAcyclic : (s : Server) → IsShallow s → IsAcyclic s
unfolding IsShallow IsAcyclic
shallow-IsAcyclic s h = λ c. (1025, h c)

with_channel_id-IsAcyclic :
    (s : Server) (p : ChannelState) (o : Option ℕ)
    → IsLinked s
    → IsShallow s
    → IsAcyclic (with_channel_id s p o).0
unfolding with_channel_id update_channel
with_channel_id-IsAcyclic s p none h w = shallow-IsAcyclic s w
with_channel_id-IsAcyclic s p (some id) h w =
    let d = find_or_create s id (lookup id s.channels) in
    let t = apply_parent d.1 p.parent d.0 in
    same-IsAcyclic t.0
      (announce d.1 (apply_fields d.1 p (apply_links d.1 p (apply_name d.1 p.name t))))
      (update_channel-IsApplied p d
        (find_or_create-IsReady s id (lookup id s.channels) refl h)).same_parent
      (apply_parent-IsAcyclic d.0.0 d.1 p.parent d.0.1
        (find_or_create-IsShallow s id (lookup id s.channels) w))

-- Where links are mutual and every walk towards the root ends within 1025 steps, no ChannelState message
-- leaves a channel its own ancestor, whatever parent it names.
pub handle_channel_state-IsAcyclic :
    (s : Server) (p : ChannelState)
    → IsLinked s
    → IsShallow s
    → IsAcyclic (handle_channel_state s p).0
unfolding handle_channel_state
handle_channel_state-IsAcyclic s p h w = with_channel_id-IsAcyclic s p p.channel_id h w
