-- ===== src/Server/ChannelState/Links.antt =====
-- Links are mutual in gumble/gumble/handlers.go: what handleChannelState and handleChannelRemove do to
-- the links of channels.
use barnard_stormdragon_ai_f.Prelude.{
  ℕ, ◌<◌, ◌≡◌, refl, sym, ap, ◌∙◌, List, [], ◌∷◌, Option, none, some, if◌then◌else◌, ◌==◌, ◌&&◌,
  arith,
}
use native.Mathlib.Decide.{ℕ_discrete}
use barnard_stormdragon_ai_f.Prelude.Table.{
  change-field, Table, lookup, insert, delete, change, lookup-insert, lookup-delete, change_self,
  change_ne,
}
use mathlib.Core.Path.{fun_ext}
use barnard_stormdragon_ai_f.Server.{Server, Channel}
use barnard_stormdragon_ai_f.Server.ChannelState.{
  link, unlink, unlink_all, link_known, unlink_known, add_links, remove_links,
}

-- By pointer and key: what is linked.
abbrev pub Linked : Type 0
Linked = ℕ → ℕ → Option ℕ

-- The pointer is the one under its id.
abbrev pub IsLive : (ℕ → ℕ) → Table ℕ → ℕ → Type 0
IsLive id channels r = lookup (id r) channels ≡ some r

-- Links of a known channel go to known channels, under their ids, and go back.
pub record IsMutual (id : ℕ → ℕ) (l : Linked) (channels : Table ℕ) : Type 0 where
  pub live : (a k b : ℕ) → IsLive id channels a → l a k ≡ some b → IsLive id channels b
  pub key : (a k b : ℕ) → IsLive id channels a → l a k ≡ some b → id b ≡ k
  pub back : (a k b : ℕ) → IsLive id channels a → l a k ≡ some b → l b (id a) ≡ some a

some_inj : (a b : ℕ) → some a ≡ some b → a ≡ b
some_inj a b h = grind arith

abbrev with_link : (ℕ → ℕ) → Linked → (r k o : ℕ) → Linked
with_link id l r k o x j =
    if x == o && j == id r then some r else if x == r && j == k then some o else l x j

abbrev without_link : (ℕ → ℕ) → Linked → (r k o : ℕ) → Linked
without_link id l r k o x j =
    if x == o && j == id r then none else if x == r && j == k then none else l x j

module _ (id : ℕ → ℕ) (channels : Table ℕ) where
  unique : (a b : ℕ) → IsLive id channels a → IsLive id channels b → id a ≡ id b → a ≡ b
  unique a b ha hb e = some_inj a b (sym ha ∙ ap (λ k. lookup k channels) e ∙ hb)

  module _ (l : Linked) (r k o : ℕ) (m : IsMutual id l channels) (hr : IsLive id channels r)
      (ho : IsLive id channels o) (hk : id o ≡ k) where
    with_link-IsMutual : IsMutual id (with_link id l r k o) channels
    with_link-IsMutual = record {
      live = λ a j b ha h. grind (arith, m.live a j b);
      key = λ a j b ha h. grind (arith, m.key a j b);
      back = λ a j b ha h. grind (arith, m.back a j b, m.key a j b, unique a r, unique a o);
    }

    without_link-IsMutual : IsMutual id (without_link id l r k o) channels
    without_link-IsMutual = record {
      live = λ a j b ha h. grind (arith, m.live a j b);
      key = λ a j b ha h. grind (arith, m.key a j b);
      back = λ a j b ha h. grind (arith, m.back a j b, m.key a j b, unique a r, unique a o);
    }

-- The ids of a server, and its links.
abbrev pub ids : Server → ℕ → ℕ
ids s x = (s.channel_at x).id

abbrev pub links_of : Server → Linked
links_of s x j = lookup j (s.channel_at x).links

-- What the handlers rely on: known channels stand under their ids, and links are mutual.
pub record IsLinked (s : Server) : Type 0 where
  pub indexed : (k r : ℕ) → lookup k s.channels ≡ some r → (ids s r ≡ k) × (r < s.next_channel)
  pub mutual_links : IsMutual (ids s) (links_of s) s.channels

-- A state with the same ids and known channels, and with the links `l`.
record IsRelinked (s t : Server) (l : Linked) : Type 0 where
  id : (x : ℕ) → ids t x ≡ ids s x
  links : (x j : ℕ) → links_of t x j ≡ l x j
  channels : t.channels ≡ s.channels
  next : t.next_channel ≡ s.next_channel
  parent : (x : ℕ) → (t.channel_at x).parent ≡ (s.channel_at x).parent

relinked-IsLinked :
    (s t : Server) (l : Linked)
    → IsRelinked s t l
    → IsMutual (ids s) l s.channels
    → IsLinked s
    → IsLinked t
relinked-IsLinked s t l e m h = record {
  indexed = λ k r f.
      let (i, b) = h.indexed k r (ap (lookup k) (sym e.channels) ∙ f) in
      (e.id r ∙ i, omega (arith, e.next));
  mutual_links = rw (fun_ext e.id, fun_ext (λ x. fun_ext (e.links x)), e.channels) m;
}

pub links_changed :
    (at : ℕ → Channel) (q x j : ℕ) (g : Table ℕ → Table ℕ)
    → lookup j (change at q (λ c. record c { links = g c.links }) x).links
      ≡ (if q == x then lookup j (g (at x).links) else lookup j (at x).links)
links_changed at q x j g = elim (ℕ_discrete q x) [
  | yes e ↦ rw e (
      ap (λ (c : Channel). lookup j c.links)
        (change_self at x (λ c. record c { links = g c.links }))
      ∙ ground arith)
  | no n ↦
      ap (λ (c : Channel). lookup j c.links)
        (change_ne at q x (λ c. record c { links = g c.links }) n)
      ∙ ground arith
]

pub id_changed :
    (at : ℕ → Channel) (q x : ℕ) (g : Table ℕ → Table ℕ)
    → (change at q (λ c. record c { links = g c.links }) x).id ≡ (at x).id
id_changed at q x g = change-field (λ (c : Channel). c.id) at q x _ (λ c. refl)

parent_changed :
    (at : ℕ → Channel) (q x : ℕ) (g : Table ℕ → Table ℕ)
    → (change at q (λ c. record c { links = g c.links }) x).parent ≡ (at x).parent
parent_changed at q x g = change-field (λ (c : Channel). c.parent) at q x _ (λ c. refl)

link-IsRelinked :
    (s : Server) (r k o : ℕ) → IsRelinked s (link s r k o) (with_link (ids s) (links_of s) r k o)
unfolding link
link-IsRelinked s r k o =
    let first = change s.channel_at r (λ c. record c { links = insert k o c.links }) in
    record {
      id =
          λ x. id_changed first o x (insert (ids s r) r) ∙ id_changed s.channel_at r x (insert k o);
      links = λ x j.
          links_changed first o x j (insert (ids s r) r)
          ∙ rw
              (
                lookup-insert (ids s r) j r (first x).links,
                links_changed s.channel_at r x j (insert k o),
                lookup-insert k j o (s.channel_at x).links,
              )
              (ground arith);
      channels = refl;
      next = refl;
      parent = λ x.
          parent_changed first o x (insert (ids s r) r)
          ∙ parent_changed s.channel_at r x (insert k o);
    }

unlink-IsRelinked :
    (s : Server) (r k o : ℕ)
    → IsRelinked s (unlink s r k o) (without_link (ids s) (links_of s) r k o)
unfolding unlink
unlink-IsRelinked s r k o =
    let first = change s.channel_at r (λ c. record c { links = delete k c.links }) in
    record {
      id = λ x. id_changed first o x (delete (ids s r)) ∙ id_changed s.channel_at r x (delete k);
      links = λ x j.
          links_changed first o x j (delete (ids s r))
          ∙ rw
              (
                lookup-delete (ids s r) j (first x).links,
                links_changed s.channel_at r x j (delete k),
                lookup-delete k j (s.channel_at x).links,
              )
              (ground arith);
      channels = refl;
      next = refl;
      parent = λ x.
          parent_changed first o x (delete (ids s r)) ∙ parent_changed s.channel_at r x (delete k);
    }

-- A state that is linked too, over the same channels and tree.
pub record IsStep (s t : Server) : Type 0 where
  pub linked : IsLinked t
  pub id : (x : ℕ) → ids t x ≡ ids s x
  pub channels : t.channels ≡ s.channels
  pub parent : (x : ℕ) → (t.channel_at x).parent ≡ (s.channel_at x).parent

pub IsStep-refl : (s : Server) → IsLinked s → IsStep s s
IsStep-refl s h = record { linked = h; id = λ x. refl; channels = refl; parent = λ x. refl }

pub IsStep-trans : (s t u : Server) → IsStep s t → IsStep t u → IsStep s u
IsStep-trans s t u h k = record {
  linked = k.linked;
  id = λ x. k.id x ∙ h.id x;
  channels = k.channels ∙ h.channels;
  parent = λ x. k.parent x ∙ h.parent x;
}

-- The channel of the message stays known.
pub step-IsLive :
    (s t : Server) (r : ℕ) → IsStep s t → IsLive (ids s) s.channels r → IsLive (ids t) t.channels r
step-IsLive s t r h k = rw (h.channels, h.id r) k

pub known-IsLive :
    (s : Server) (k o : ℕ) → IsLinked s → lookup k s.channels ≡ some o → IsLive (ids s) s.channels o
known-IsLive s k o h e = rw ((h.indexed k o e).0) e

link-IsStep :
    (s : Server) (r k o : ℕ)
    → IsLinked s
    → IsLive (ids s) s.channels r
    → lookup k s.channels ≡ some o
    → IsStep s (link s r k o)
link-IsStep s r k o h hr e =
    let q = link-IsRelinked s r k o in
    record {
      linked =
          relinked-IsLinked s (link s r k o) _ q
            (with_link-IsMutual (ids s) s.channels (links_of s) r k o h.mutual_links hr
              (known-IsLive s k o h e) (h.indexed k o e).0)
            h;
      id = q.id;
      channels = q.channels;
      parent = q.parent;
    }

unlink-IsStep :
    (s : Server) (r k o : ℕ)
    → IsLinked s
    → IsLive (ids s) s.channels r
    → IsLive (ids s) s.channels o
    → ids s o ≡ k
    → IsStep s (unlink s r k o)
unlink-IsStep s r k o h hr ho e =
    let q = unlink-IsRelinked s r k o in
    record {
      linked =
          relinked-IsLinked s (unlink s r k o) _ q
            (without_link-IsMutual (ids s) s.channels (links_of s) r k o h.mutual_links hr ho e) h;
      id = q.id;
      channels = q.channels;
      parent = q.parent;
    }

link_known-IsStep :
    (s : Server) (r k : ℕ) (o : Option ℕ)
    → IsLinked s
    → IsLive (ids s) s.channels r
    → lookup k s.channels ≡ o
    → IsStep s (link_known s r k o)
unfolding link_known
link_known-IsStep s r k none h hr e = IsStep-refl s h
link_known-IsStep s r k (some o) h hr e = link-IsStep s r k o h hr e

unlink_known-IsStep :
    (s : Server) (r k : ℕ) (o : Option ℕ)
    → IsLinked s
    → IsLive (ids s) s.channels r
    → lookup k s.channels ≡ o
    → IsStep s (unlink_known s r k o)
unfolding unlink_known
unlink_known-IsStep s r k none h hr e = IsStep-refl s h
unlink_known-IsStep s r k (some o) h hr e =
    unlink-IsStep s r k o h hr (known-IsLive s k o h e) (h.indexed k o e).0

unlink_linked-IsStep :
    (s : Server) (r k : ℕ) (o : Option ℕ)
    → IsLinked s
    → IsLive (ids s) s.channels r
    → links_of s r k ≡ o
    → IsStep s (unlink_known s r k o)
unfolding unlink_known
unlink_linked-IsStep s r k none h hr e = IsStep-refl s h
unlink_linked-IsStep s r k (some o) h hr e =
    unlink-IsStep s r k o h hr (h.mutual_links.live r k o hr e) (h.mutual_links.key r k o hr e)

pub add_links-IsStep :
    (s : Server) (r : ℕ) (l : List ℕ)
    → IsLinked s
    → IsLive (ids s) s.channels r
    → IsStep s (add_links s r l)
unfolding add_links
add_links-IsStep s r [] h hr = IsStep-refl s h
add_links-IsStep s r (k ∷ l) h hr =
    let t = link_known s r k (lookup k s.channels) in
    let q = link_known-IsStep s r k (lookup k s.channels) h hr refl in
    IsStep-trans s t _ q (add_links-IsStep t r l q.linked (step-IsLive s t r q hr))

pub remove_links-IsStep :
    (s : Server) (r : ℕ) (l : List ℕ)
    → IsLinked s
    → IsLive (ids s) s.channels r
    → IsStep s (remove_links s r l)
unfolding remove_links
remove_links-IsStep s r [] h hr = IsStep-refl s h
remove_links-IsStep s r (k ∷ l) h hr =
    let t = unlink_known s r k (lookup k s.channels) in
    let q = unlink_known-IsStep s r k (lookup k s.channels) h hr refl in
    IsStep-trans s t _ q (remove_links-IsStep t r l q.linked (step-IsLive s t r q hr))

pub unlink_all-IsStep :
    (s : Server) (r : ℕ) (l : List ℕ)
    → IsLinked s
    → IsLive (ids s) s.channels r
    → IsStep s (unlink_all s r l)
unfolding unlink_all
unlink_all-IsStep s r [] h hr = IsStep-refl s h
unlink_all-IsStep s r (k ∷ l) h hr =
    let t = unlink_known s r k (lookup k (s.channel_at r).links) in
    let q = unlink_linked-IsStep s r k (lookup k (s.channel_at r).links) h hr refl in
    IsStep-trans s t _ q (unlink_all-IsStep t r l q.linked (step-IsLive s t r q hr))
