-- ===== src/Server/ChannelState/Removed.antt =====
-- handleChannelRemove of gumble/gumble/handlers.go leaves no link to the removed channel.
use barnard_stormdragon_ai_f.Prelude.{
  ℕ, ◌≡◌, ◌≢◌, ◌⊎◌, inl, inr, refl, sym, ap, ◌∙◌, List, [], ◌∷◌, Option, none, some, false, arith,
}
use native.Mathlib.Decide.{ℕ_discrete}
use barnard_stormdragon_ai_f.Prelude.Table.{
  Table, lookup, delete, keys, lookup-delete, lookup-delete_self,
}
use barnard_stormdragon_ai_f.Server.{Server, edit_channel, tell, channel_change}
use barnard_stormdragon_ai_f.Server.ChannelState.{leave_parent, channel_removed}
use barnard_stormdragon_ai_f.Server.ChannelRemove.{
  forget_known, forget_links, remove_channel, remove_found, handle_channel_remove,
}
use barnard_stormdragon_ai_f.Server.ChannelState.Kept.{tell-IsKept}
use barnard_stormdragon_ai_f.Server.ChannelState.Links.{
  IsLinked, IsLive, ids, links_of, links_changed, id_changed,
}
use barnard_stormdragon_ai_f.Server.ChannelState.Handled.{
  IsSteady, kept-IsSteady, steady-IsLinked, edit-IsSteady, IsSteady-trans, leave_parent-IsSteady,
}

abbrev In : ℕ → List ℕ → Type 0
In k [] = ⊥
In k (x ∷ l) = (x ≡ k) ⊎ In k l

lookup-In : (k o : ℕ) (t : Table ℕ) → lookup k t ≡ some o → In k (keys t)
unfolding lookup keys
lookup-In k o [] e = absurd (cc e)
lookup-In k o ((j, v) ∷ t) e = elim (ℕ_discrete j k) [
  | yes q ↦ inl q
  | no q ↦ inr (lookup-In k o t (grind arith))
]

-- Links under `id` are deleted, and nothing else.
record IsPruned (id : ℕ) (s t : Server) : Type 0 where
  same_id : (x : ℕ) → ids t x ≡ ids s x
  same_channels : t.channels ≡ s.channels
  same_next : t.next_channel ≡ s.next_channel
  other : (x j : ℕ) → id ≢ j → links_of t x j ≡ links_of s x j
  gone : (x : ℕ) → links_of s x id ≡ none → links_of t x id ≡ none

IsPruned-refl : (id : ℕ) (s : Server) → IsPruned id s s
IsPruned-refl id s = record {
  same_id = λ x. refl;
  same_channels = refl;
  same_next = refl;
  other = λ x j h. refl;
  gone = λ x h. h;
}

IsPruned-trans : (id : ℕ) (s t u : Server) → IsPruned id s t → IsPruned id t u → IsPruned id s u
IsPruned-trans id s t u h k = record {
  same_id = λ x. k.same_id x ∙ h.same_id x;
  same_channels = k.same_channels ∙ h.same_channels;
  same_next = k.same_next ∙ h.same_next;
  other = λ x j n. k.other x j n ∙ h.other x j n;
  gone = λ x e. k.gone x (h.gone x e);
}

forget_known-IsPruned : (s : Server) (id : ℕ) (o : Option ℕ) → IsPruned id s (forget_known s id o)
unfolding forget_known
forget_known-IsPruned s id none = IsPruned-refl id s
forget_known-IsPruned s id (some o) = record {
  same_id = λ x. id_changed s.channel_at o x (delete id);
  same_channels = refl;
  same_next = refl;
  other = λ x j n. grind (
    arith,
    links_changed s.channel_at o x j (delete id),
    lookup-delete id j (s.channel_at x).links,
  );
  gone = λ x e. grind (
    arith,
    links_changed s.channel_at o x id (delete id),
    lookup-delete id id (s.channel_at x).links,
  );
}

forget_known-gone : (s : Server) (id o : ℕ) → links_of (forget_known s id (some o)) o id ≡ none
unfolding forget_known
forget_known-gone s id o = grind (
  arith,
  links_changed s.channel_at o o id (delete id),
  lookup-delete_self id (s.channel_at o).links,
)

forget_links-IsPruned : (s : Server) (id r : ℕ) (l : List ℕ) → IsPruned id s (forget_links s id r l)
unfolding forget_links
forget_links-IsPruned s id r [] = IsPruned-refl id s
forget_links-IsPruned s id r (k ∷ l) =
    let t = forget_known s id (lookup k (s.channel_at r).links) in
    IsPruned-trans id s t (forget_links t id r l)
      (forget_known-IsPruned s id (lookup k (s.channel_at r).links))
      (forget_links-IsPruned t id r l)

-- Every channel that the loop meets has lost its link.
forget_links-gone :
    (s : Server) (id r k o : ℕ) (l : List ℕ)
    → In k l
    → id ≢ k
    → links_of s r k ≡ some o
    → links_of (forget_links s id r l) o id ≡ none
unfolding forget_links
forget_links-gone s id r k o [] h n e = absurd h
forget_links-gone s id r k o (x ∷ l) (inl q) n e =
    let t = forget_known s id (lookup x (s.channel_at r).links) in
    let found : lookup x (s.channel_at r).links ≡ some o =
      ap (λ j. lookup j (s.channel_at r).links) q ∙ e in
    (forget_links-IsPruned t id r l).gone o
      (ap (λ p. links_of (forget_known s id p) o id) found ∙ forget_known-gone s id o)
forget_links-gone s id r k o (x ∷ l) (inr h) n e =
    let t = forget_known s id (lookup x (s.channel_at r).links) in
    forget_links-gone t id r k o l h n
      ((forget_known-IsPruned s id (lookup x (s.channel_at r).links)).other r k n ∙ e)

-- The server without the channel under `id`, before the links to it go.
abbrev without : Server → ℕ → Server
without s id = record s { channels = delete id s.channels; permissions = delete id s.permissions }

module _ (s t : Server) (id r : ℕ) (h : IsLinked s) (e : lookup id s.channels ≡ some r)
    (p : IsPruned id (without s id) t)
    (cleared : (k o : ℕ) → id ≢ k → links_of s r k ≡ some o → links_of t o id ≡ none) where
  -- A channel that is known behind the removal.
  record IsLeft (a : ℕ) : Type 0 where
    live : IsLive (ids s) s.channels a
    other : id ≢ ids s a

  left : (a : ℕ) → IsLive (ids t) t.channels a → IsLeft a
  left a f =
      let g : lookup (ids s a) (delete id s.channels) ≡ some a =
        ap (λ k. lookup k (delete id s.channels)) (sym (p.same_id a))
        ∙ ap (lookup (ids t a)) (sym p.same_channels)
        ∙ f in
      record {
        live = grind (arith, lookup-delete id (ids s a) s.channels);
        other = λ q. grind (arith, lookup-delete id (ids s a) s.channels);
      }

  left-IsLive : (a : ℕ) → IsLeft a → IsLive (ids t) t.channels a
  left-IsLive a k =
      rw (p.same_channels, p.same_id a)
        (lookup-delete id (ids s a) s.channels ∙ grind (arith, k.live, k.other))

  no_link : (a : ℕ) (o : Option ℕ) → IsLeft a → links_of s a id ≡ o → links_of t a id ≡ none
  no_link a none k f = p.gone a f
  no_link a (some c) k f =
      let m = h.mutual_links in
      let c_live = m.live a id c k.live f in
      let c_id = m.key a id c k.live f in
      let c_is_r : some c ≡ some r = sym c_live ∙ ap (λ j. lookup j s.channels) c_id ∙ e in
      cleared (ids s a) a k.other (
        sym (ap (λ (j : Option ℕ). elim j [ none ↦ none | some x ↦ links_of s x (ids s a) ]) c_is_r)
        ∙ m.back a id c k.live f)

  -- A link of such a channel was there before, and not to the removed channel.
  kept_link :
      (a k b : ℕ) → IsLeft a → links_of t a k ≡ some b → (id ≢ k) × (links_of s a k ≡ some b)
  kept_link a k b ha f = elim (ℕ_discrete id k) [
    | yes q ↦ absurd (cc (no_link a (links_of s a id) ha refl, ap (links_of t a) q, f))
    | no q ↦ (q, sym (p.other a k q) ∙ f)
  ]

  linked_left : (a k b : ℕ) → IsLeft a → id ≢ k → links_of s a k ≡ some b → IsLeft b
  linked_left a k b ha n g = record {
    live = h.mutual_links.live a k b ha.live g;
    other = λ q. n (q ∙ h.mutual_links.key a k b ha.live g);
  }

  removed-IsLinked : IsLinked t
  removed-IsLinked = record {
    indexed = λ k x f.
        let g : lookup k (delete id s.channels) ≡ some x =
          ap (lookup k) (sym p.same_channels) ∙ f in
        let old : lookup k s.channels ≡ some x = grind (arith, lookup-delete id k s.channels) in
        let (i, b) = h.indexed k x old in (p.same_id x ∙ i, omega (arith, p.same_next));
    mutual_links = record {
      live = λ a k b ha f.
          let (n, g) = kept_link a k b (left a ha) f in
          left-IsLive b (linked_left a k b (left a ha) n g);
      key = λ a k b ha f.
          let (n, g) = kept_link a k b (left a ha) f in
          p.same_id b ∙ h.mutual_links.key a k b (left a ha).live g;
      back = λ a k b ha f.
          let la = left a ha in
          let (n, g) = kept_link a k b la f in
          rw (p.same_id a) (p.other b (ids s a) la.other ∙ h.mutual_links.back a k b la.live g);
    };
  }

steady-IsPruned : (id : ℕ) (s t : Server) → IsSteady s t → IsPruned id s t
steady-IsPruned id s t y = record {
  same_id = y.id;
  same_channels = y.channels;
  same_next = y.next;
  other = λ x j n. ap (lookup j) (y.links x);
  gone = λ x e. ap (lookup id) (y.links x) ∙ e;
}

-- The removal before the links go: no id and no link changes.
abbrev cut_off : Server → (id r : ℕ) → Server
cut_off s id r =
    leave_parent (edit_channel (without s id) r (λ c. record c { attached = false }))
      (s.channel_at r).id (s.channel_at r).parent

cut_off-IsSteady : (s : Server) (id r : ℕ) → IsSteady (without s id) (cut_off s id r)
cut_off-IsSteady s id r =
    let t = edit_channel (without s id) r (λ c. record c { attached = false }) in
    IsSteady-trans (without s id) t (cut_off s id r)
      (edit-IsSteady (without s id) r _ (λ c. refl) (λ c. refl))
      (leave_parent-IsSteady t (s.channel_at r).id (s.channel_at r).parent)

remove_channel-IsLinked :
    (s : Server) (id r : ℕ)
    → IsLinked s
    → lookup id s.channels ≡ some r
    → IsLinked (remove_channel s id r)
unfolding remove_channel
remove_channel-IsLinked s id r h e =
    let u = cut_off s id r in
    let y = cut_off-IsSteady s id r in
    let l = keys (s.channel_at r).links in
    let t = forget_links u id r l in
    let p =
      IsPruned-trans id (without s id) u t (steady-IsPruned id (without s id) u y)
        (forget_links-IsPruned u id r l) in
    let linked = removed-IsLinked s t id r h e p (λ k o n f.
      forget_links-gone u id r k o l (lookup-In k o (s.channel_at r).links f) n
        (ap (lookup k) (y.links r) ∙ f)) in
    steady-IsLinked t (tell t.phase (channel_change channel_removed r) t)
      (kept-IsSteady t _ (tell-IsKept t.phase (channel_change channel_removed r) t)) linked

remove_found-IsLinked :
    (s : Server) (id : ℕ) (o : Option ℕ)
    → lookup id s.channels ≡ o
    → IsLinked s
    → IsLinked (remove_found s id o).0
unfolding remove_found
remove_found-IsLinked s id none e h = h
remove_found-IsLinked s id (some r) e h = remove_channel-IsLinked s id r h e

-- Behind a ChannelRemove message known channels still stand under their ids, and the links of known
-- channels go to known channels and back: none is left to the removed one.
pub handle_channel_remove-IsLinked :
    (s : Server) (id : Option ℕ) → IsLinked s → IsLinked (handle_channel_remove s id).0
unfolding handle_channel_remove
handle_channel_remove-IsLinked s none h = h
handle_channel_remove-IsLinked s (some id) h =
    remove_found-IsLinked s id (lookup id s.channels) refl h
