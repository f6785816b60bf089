-- ===== src/Server/ChannelState/Fresh.antt =====
-- A channel that handleChannelState of gumble/gumble/handlers.go creates has no links and no parent.
use barnard_stormdragon_ai_f.Prelude.{
  ℕ, zero, suc, ◌<◌, ◌≡◌, ◌≢◌, refl, ap, ◌∙◌, Option, none, some, if◌then◌else◌, ◌==◌, arith,
}
use native.Mathlib.Decide.{ℕ_discrete}
use barnard_stormdragon_ai_f.Prelude.Table.{
  field_changed, Table, lookup, insert, lookup-insert, lookup-insert_self,
}
use barnard_stormdragon_ai_f.Server.{Server, Channel, new_channel, create_channel}
use barnard_stormdragon_ai_f.Server.ChannelState.{find_or_create}
use barnard_stormdragon_ai_f.Server.ChannelState.Links.{
  IsLinked, IsLive, IsMutual, ids, links_of, known-IsLive,
}
use barnard_stormdragon_ai_f.Server.ChannelState.Parents.{IsShallow, climb}

module _ (id id' : ℕ → ℕ) (l l' : ℕ → ℕ → Option ℕ) (channels channels' : Table ℕ) (n i : ℕ)
    (ids_new : (x : ℕ) → id' x ≡ (if n == x then i else id x))
    (links_new : (x j : ℕ) → l' x j ≡ (if n == x then none else l x j))
    (channels_new : (k : ℕ) → lookup k channels' ≡ (if i == k then some n else lookup k channels))
    (m : IsMutual id l channels) (below : (k r : ℕ) → lookup k channels ≡ some r → r < n)
    (fresh : lookup i channels ≡ none) where
  -- An object that was known, seen in the new state.
  record IsOld (a : ℕ) : Type 0 where
    live : IsLive id channels a
    other : n ≢ a
    id_other : i ≢ id a
    same_id : id' a ≡ id a

  old : (a : ℕ) → IsLive id channels a → IsOld a
  old a h =
      let o : n ≢ a = λ e. omega (arith, below (id a) a h) in
      record {
        live = h;
        other = o;
        id_other = λ e. grind arith;
        same_id = grind (arith, ids_new a);
      }

  old-IsLive : (a : ℕ) → IsOld a → IsLive id' channels' a
  old-IsLive a o = rw o.same_id (channels_new (id a) ∙ grind arith)

  linked_old :
      (a k b : ℕ)
      → IsLive id' channels' a
      → l' a k ≡ some b
      → IsLive id channels a × (l a k ≡ some b)
  linked_old a k b h e = elim (ℕ_discrete n a) [
    | yes q ↦ absurd (grind (arith, links_new a k))
    | no q ↦ (grind (arith, ids_new a, channels_new (id a)), grind (arith, links_new a k))
  ]

  fresh-IsMutual : IsMutual id' l' channels'
  fresh-IsMutual = record {
    live =
        λ a k b h e. let (ha, f) = linked_old a k b h e in old-IsLive b (old b (m.live a k b ha f));
    key = λ a k b h e.
        let (ha, f) = linked_old a k b h e in
        (old b (m.live a k b ha f)).same_id ∙ m.key a k b ha f;
    back = λ a k b h e.
        let (ha, f) = linked_old a k b h e in
        let ob = old b (m.live a k b ha f) in
        rw (old a ha).same_id (links_new b (id a) ∙ grind (arith, m.back a k b ha f, ob.other));
  }

new_id :
    (s : Server) (id x : ℕ)
    → ids (create_channel s id) x ≡ (if s.next_channel == x then id else ids s x)
unfolding create_channel new_channel
new_id s id x = field_changed (λ (c : Channel). c.id) s.channel_at s.next_channel x _

create_channel-IsLinked :
    (s : Server) (id : ℕ)
    → IsLinked s
    → lookup id s.channels ≡ none
    → IsLinked (create_channel s id)
unfolding create_channel new_channel lookup
create_channel-IsLinked s id h e =
    let t = create_channel s id in
    record {
      indexed = λ k r f.
          grind (arith, lookup-insert id k s.next_channel s.channels, new_id s id r, h.indexed k r);
      mutual_links =
          fresh-IsMutual (ids s) (ids t) (links_of s) (links_of t) s.channels t.channels
            s.next_channel id (new_id s id)
            (λ x j.
              field_changed (λ (c : Channel). lookup j c.links) s.channel_at s.next_channel x _)
            (λ k. lookup-insert id k s.next_channel s.channels) h.mutual_links
            (λ k r f. (h.indexed k r f).1) e;
    }

-- The channel of the message is known when the message is applied.
pub record IsReady (d : (Server × ℕ) × ℕ) : Type 0 where
  pub linked : IsLinked d.0.0
  pub live : IsLive (ids d.0.0) d.0.0.channels d.1

pub find_or_create-IsReady :
    (s : Server) (id : ℕ) (o : Option ℕ)
    → lookup id s.channels ≡ o
    → IsLinked s
    → IsReady (find_or_create s id o)
unfolding find_or_create create_channel
find_or_create-IsReady s id (some r) e h = record { linked = h; live = known-IsLive s id r h e }
find_or_create-IsReady s id none e h = record {
  linked = create_channel-IsLinked s id h e;
  live = rw (new_id s id s.next_channel) (
      ap (λ k. lookup k (insert id s.next_channel s.channels)) (ground arith)
      ∙ lookup-insert_self id s.next_channel s.channels);
}

climb-none : (n : ℕ) (s : Server) → climb n s none ≡ none
unfolding climb
climb-none zero s = refl
climb-none (suc n) s = refl

new_parent :
    (s : Server) (id x : ℕ)
    → ((create_channel s id).channel_at x).parent
      ≡ (if s.next_channel == x then none else (s.channel_at x).parent)
unfolding create_channel new_channel
new_parent s id x = field_changed (λ (c : Channel). c.parent) s.channel_at s.next_channel x _

-- A walk that meets the new channel ends there.
climb_created :
    (s : Server) (id n : ℕ) (c : Option ℕ)
    → climb n s c ≡ none
    → climb n (create_channel s id) c ≡ none
unfolding climb
climb_created s id zero c e = e
climb_created s id (suc n) none e = refl
climb_created s id (suc n) (some c) e = elim (ℕ_discrete s.next_channel c) [
  | yes q ↦
      let top : ((create_channel s id).channel_at c).parent ≡ none =
        new_parent s id c ∙ ground arith in
      rw top (climb-none n (create_channel s id))
  | no q ↦
      let same : ((create_channel s id).channel_at c).parent ≡ (s.channel_at c).parent =
        new_parent s id c ∙ ground arith in
      rw same (climb_created s id n (s.channel_at c).parent e)
]

pub find_or_create-IsShallow :
    (s : Server) (id : ℕ) (o : Option ℕ) → IsShallow s → IsShallow (find_or_create s id o).0.0
unfolding find_or_create IsShallow
find_or_create-IsShallow s id (some r) h = h
find_or_create-IsShallow s id none h = λ c. climb_created s id 1025 c (h c)
