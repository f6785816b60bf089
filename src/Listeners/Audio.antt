-- ===== src/Listeners/Audio.antt =====
-- Audio listeners: gumble/gumble/audiolisteners.go, dispatchAudio of gumble/gumble/handlers.go, and the
-- loop of handleUserRemove there. Their list is the one of listeners.go; each item has one Go channel for
-- each user that it has heard, which stands in a store like the items. A user is a pointer and a packet a
-- number. Goroutines meet between critical sections of `listeners.mu`, and each section is one step.
pub mod Pipes
pub mod Fewer
pub mod Safety
mod Tests
use barnard_stormdragon_ai_f.Prelude.{
  ℕ, zero, suc, ◌+◌, List, [], ◌∷◌, ◌++◌, Option, none, some, Bool, true, false, not, ◌&&◌,
  if◌then◌else◌, ltb, ◌==◌, length,
}
use barnard_stormdragon_ai_f.Prelude.Int.{ℤ, pos, negsuc}
use barnard_stormdragon_ai_f.Prelude.Table.{Table, lookup, insert, delete, change}
use barnard_stormdragon_ai_f.Listeners.{Item, Listeners, no_listeners, attach, detach}

-- A Go channel.
pub record Pipe : Type 0 where
  pub queue : List ℕ
  pub capacity : ℕ
  pub closed : Bool

-- `crashed` where a closed channel was closed again or sent to, which ends the program. Channels from
-- `next_pipe` on are not in use yet.
pub record Hub : Type 0 where
  pub list : Listeners
  pub streams : ℕ → Table ℕ
  pub pipe_at : ℕ → Pipe
  pub next_pipe : ℕ
  pub crashed : Bool

unfoldable pub close_pipe : ℕ → Hub → Hub
close_pipe c h =
    if (h.pipe_at c).closed
    then record h { crashed = true }
    else record h { pipe_at = change h.pipe_at c (λ p. record p { closed = true }) }

-- The range over the streams of an item.
unfoldable pub close_all : Table ℕ → Hub → Hub
close_all [] h = h
close_all ((u, c) ∷ t) h = close_all t (close_pipe c h)

abbrev pub set_streams : ℕ → (Table ℕ → Table ℕ) → Hub → Hub
set_streams r f h = record h { streams = change h.streams r f }

-- `Attach`; a new item has no streams yet.
unfoldable pub attach_audio : ℕ → Hub → Hub
attach_audio listener h = record (set_streams h.list.fresh (λ old. []) h) {
  list = attach listener h.list;
}

-- `Detach`, which deletes every stream that it has closed.
unfoldable pub detach_audio : ℕ → Hub → Hub
detach_audio r h =
    let closed = set_streams r (λ old. []) (close_all (h.streams r) h) in
    if (h.list.item_at r).detached then h else record closed { list = detach r h.list }

-- The items from `p` on.
unfoldable pub items_from : ℕ → (ℕ → Item) → Option ℕ → List ℕ
items_from zero at p = []
items_from (suc n) at none = []
items_from (suc n) at (some r) = r ∷ items_from n at (at r).next

abbrev pub items : Hub → List ℕ
items h = items_from h.list.fresh h.list.item_at h.list.head

-- The loop of handleUserRemove over the items.
unfoldable pub drop_stream : ℕ → ℕ → Option ℕ → Hub → Hub
drop_stream u r none h = h
drop_stream u r (some c) h = set_streams r (λ t. delete u t) (close_pipe c h)

unfoldable pub drop_user : ℕ → List ℕ → Hub → Hub
drop_user u [] h = h
drop_user u (r ∷ rs) h = drop_user u rs (drop_stream u r (lookup u (h.streams r)) h)

-- `c.Config.Buffers`, but one at least.
unfoldable pub buffer_size : ℤ → ℕ
buffer_size (pos n) = if ltb n 1 then 1 else n
buffer_size (negsuc n) = 1

-- What dispatchAudio has noted of an item: the channel, and whether it is new.
pub record Delivery : Type 0 where
  pub item : ℕ
  pub pipe : ℕ
  pub is_new : Bool

unfoldable pub open_stream : ℤ → ℕ → ℕ → Option ℕ → Hub → Hub × Delivery
open_stream buffers u r (some c) h = (h, record { item = r; pipe = c; is_new = false })
open_stream buffers u r none h = (
  record (set_streams r (λ t. insert u h.next_pipe t) h) {
    pipe_at =
        change h.pipe_at h.next_pipe
          (λ old. record { queue = []; capacity = buffer_size buffers; closed = false });
    next_pipe = h.next_pipe + 1;
  },
  record { item = r; pipe = h.next_pipe; is_new = true },
)

-- The first section of dispatchAudio: the deliveries to make.
unfoldable pub note_deliveries : ℤ → ℕ → List ℕ → Hub → Hub × List Delivery
note_deliveries buffers u [] h = (h, [])
note_deliveries buffers u (r ∷ rs) h =
    let (h1, d) = open_stream buffers u r (lookup u (h.streams r)) h in
    let (h2, ds) = note_deliveries buffers u rs h1 in (h2, d ∷ ds)

-- A send that does not wait: a packet for a full channel is dropped.
unfoldable pub send : ℕ → ℕ → Hub → Hub
send c packet h =
    let p = h.pipe_at c in
    if p.closed
    then record h { crashed = true }
    else if ltb (length p.queue) p.capacity
    then record h {
      pipe_at = change h.pipe_at c (λ q. record q { queue = q.queue ++ (packet ∷ []) });
    }
    else h

unfoldable pub is_pipe : ℕ → Option ℕ → Bool
is_pipe c none = false
is_pipe c (some d) = d == c

-- The section for one delivery, behind the call of OnAudioStream where the channel is new. The item may
-- have been detached, or the user removed, since the delivery was noted.
unfoldable pub deliver_audio : ℕ → ℕ → Delivery → Hub → Hub
deliver_audio u packet d h =
    let active =
      not (h.list.item_at d.item).detached && is_pipe d.pipe (lookup u (h.streams d.item)) in
    if active then send d.pipe packet h else h

unfoldable pub taken : List ℕ → List ℕ
taken [] = []
taken (packet ∷ queue) = queue

-- A listener takes a packet from its channel.
unfoldable pub take_packet : ℕ → Hub → Hub
take_packet c h = record h {
  pipe_at = change h.pipe_at c (λ p. record p { queue = taken p.queue });
}

-- A critical section of some goroutine. A delivery may have been noted at any time before.
pub data Section : Type 0 where
  attaches detaches leaves receives : ℕ → Section
  notes : ℤ → ℕ → Section
  delivers : (user packet : ℕ) → Delivery → Section

unfoldable pub enter_section : Section → Hub → Hub
enter_section (attaches listener) h = attach_audio listener h
enter_section (detaches r) h = detach_audio r h
enter_section (leaves u) h = drop_user u (items h) h
enter_section (receives c) h = take_packet c h
enter_section (notes buffers u) h = (note_deliveries buffers u (items h) h).0
enter_section (delivers u packet d) h = deliver_audio u packet d h

unfoldable pub enter_all : List Section → Hub → Hub
enter_all [] h = h
enter_all (s ∷ ss) h = enter_all ss (enter_section s h)

abbrev pub silent_hub : Hub
silent_hub = record {
  list = no_listeners;
  streams = λ r. [];
  pipe_at = λ c. record { queue = []; capacity = 0; closed = false };
  next_pipe = 0;
  crashed = false;
}
