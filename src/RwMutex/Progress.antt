-- ===== src/RwMutex/Progress.antt =====
-- No deadlock in gumble/gumble/rpwmutex.go: the goroutines that have called the lock can always go on,
-- until all are done.
use barnard_stormdragon_ai_f.Prelude.{
  ℕ, zero, suc, ◌+◌, ◌≡◌, ◌≢◌, ◌<◌, ◌≤◌, refl, ap, List, [], ◌∷◌, ◌++◌, Bool, true, false, if_ind,
  ◌==◌, arith,
}
use native.Mathlib.Decide.{ℕ_discrete}
use barnard_stormdragon_ai_f.RwMutex.{
  Mutex, Pc, idle, locking, writing, rlocking, entering, awaiting, admitted, reading, runlocking,
  leaving, releasing, left, Turn, blocked, crashed, goes, advance, lock_w, unlock_w, lock_r,
  unlock_r, count_up, count_down, System, Advance,
}
use barnard_stormdragon_ai_f.RwMutex.Places.{in_r, counted, waits, unlocks, bit, positive}
use barnard_stormdragon_ai_f.RwMutex.Totals.{total, total_≤, total-sum}
use barnard_stormdragon_ai_f.RwMutex.Safety.{IsKept, kept-IsExclusive, positive_below}

-- Whether a goroutine has called the lock.
unfoldable pub busy : Pc → ℕ
busy idle = 0
busy locking = 1
busy writing = 1
busy rlocking = 1
busy entering = 1
busy awaiting = 1
busy admitted = 1
busy reading = 1
busy runlocking = 1
busy leaving = 1
busy releasing = 1
busy left = 1

-- A bound of the steps that a goroutine has left.
unfoldable pub rank : Pc → ℕ
rank idle = 0
rank locking = 2
rank writing = 1
rank rlocking = 9
rank entering = 8
rank awaiting = 7
rank admitted = 6
rank reading = 5
rank runlocking = 4
rank leaving = 3
rank releasing = 2
rank left = 1

pub busy-rank : (p : Pc) → busy p ≤ rank p
unfolding busy rank
busy-rank idle = omega arith
busy-rank locking = omega arith
busy-rank writing = omega arith
busy-rank rlocking = omega arith
busy-rank entering = omega arith
busy-rank awaiting = omega arith
busy-rank admitted = omega arith
busy-rank reading = omega arith
busy-rank runlocking = omega arith
busy-rank leaving = omega arith
busy-rank releasing = omega arith
busy-rank left = omega arith

-- Whether a turn is more than waiting.
unfoldable pub acts : Turn → ℕ
acts blocked = 0
acts crashed = 1
acts (goes q m) = 1

abbrev ready : Mutex → Pc → ℕ
ready m p = acts (advance p m)

abbrev at : Bool → Bool → ℕ → Mutex
at w r n = record { w = w; r = r; n = n }

leaving_ready : (m : Mutex) → ready m leaving ≡ 1
unfolding advance count_down acts
leaving_ready m = if_ind (λ t. acts t ≡ 1) (m.n == 0) (λ e. refl) (λ e. refl)

free_busy : (n : ℕ) (p : Pc) → busy p ≤ ready (at false false n) p
unfolding advance lock_w unlock_w lock_r unlock_r count_up acts in_r counted waits unlocks busy
free_busy n idle = omega arith
free_busy n locking = omega arith
free_busy n writing = omega arith
free_busy n rlocking = omega arith
free_busy n entering = omega arith
free_busy n awaiting = omega arith
free_busy n admitted = omega arith
free_busy n reading = omega arith
free_busy n runlocking = omega arith
free_busy n leaving = omega (arith, leaving_ready (at false false n))
free_busy n releasing = omega arith
free_busy n left = omega arith

written_counted : (n : ℕ) (p : Pc) → counted p ≤ in_r p + ready (at true false n) p
unfolding advance lock_w unlock_w lock_r unlock_r count_up acts in_r counted waits unlocks busy
written_counted n idle = omega arith
written_counted n locking = omega arith
written_counted n writing = omega arith
written_counted n rlocking = omega arith
written_counted n entering = omega arith
written_counted n awaiting = omega arith
written_counted n admitted = omega arith
written_counted n reading = omega arith
written_counted n runlocking = omega arith
written_counted n leaving = omega (arith, leaving_ready (at true false n))
written_counted n releasing = omega arith
written_counted n left = omega arith

w_unlocks : (r : Bool) (n : ℕ) (p : Pc) → unlocks p ≤ ready (at true r n) p
unfolding advance lock_w unlock_w lock_r unlock_r count_up acts in_r counted waits unlocks busy
w_unlocks r n idle = omega arith
w_unlocks r n locking = omega arith
w_unlocks r n writing = omega arith
w_unlocks r n rlocking = omega arith
w_unlocks r n entering = omega arith
w_unlocks r n awaiting = omega arith
w_unlocks r n admitted = omega arith
w_unlocks r n reading = omega arith
w_unlocks r n runlocking = omega arith
w_unlocks r n leaving = omega (arith, leaving_ready (at true r n))
w_unlocks r n releasing = omega arith
w_unlocks r n left = omega arith

counting_in_r : (n : ℕ) (p : Pc) → in_r p ≤ ready (at false true n) p
unfolding advance lock_w unlock_w lock_r unlock_r count_up acts in_r counted waits unlocks busy
counting_in_r n idle = omega arith
counting_in_r n locking = omega arith
counting_in_r n writing = omega arith
counting_in_r n rlocking = omega arith
counting_in_r n entering = omega arith
counting_in_r n awaiting = omega arith
counting_in_r n admitted = omega arith
counting_in_r n reading = omega arith
counting_in_r n runlocking = omega arith
counting_in_r n leaving = omega (arith, leaving_ready (at false true n))
counting_in_r n releasing = omega arith
counting_in_r n left = omega arith

both_in_r : (n : ℕ) (p : Pc) → in_r p ≤ waits p + ready (at true true n) p
unfolding advance lock_w unlock_w lock_r unlock_r count_up acts in_r counted waits unlocks busy
both_in_r n idle = omega arith
both_in_r n locking = omega arith
both_in_r n writing = omega arith
both_in_r n rlocking = omega arith
both_in_r n entering = omega arith
both_in_r n awaiting = omega arith
both_in_r n admitted = omega arith
both_in_r n reading = omega arith
both_in_r n runlocking = omega arith
both_in_r n leaving = omega (arith, leaving_ready (at true true n))
both_in_r n releasing = omega arith
both_in_r n left = omega arith

total_blocked :
    (f g h : Pc → ℕ) (ps : List Pc)
    → ((p : Pc) → f p ≤ g p + h p)
    → total h ps ≡ 0
    → total f ps ≤ total g ps
total_blocked f g h ps le none =
    omega (arith, total_≤ f (λ p. g p + h p) le ps, total-sum g h ps, none)

pub positive_le : (n : ℕ) → positive n ≤ n
unfolding positive
positive_le zero = omega arith
positive_le (suc n) = omega arith

-- Where every goroutine is blocked or idle, all are idle.
blocked_idle :
    (w r : Bool) (n : ℕ) (ps : List Pc)
    → IsKept (record { mutex = at w r n; agents = ps })
    → total (ready (at w r n)) ps ≡ 0
    → total busy ps ≡ 0
unfolding bit
blocked_idle false false n ps h e =
    omega (arith, total_≤ busy (ready (at false false n)) (free_busy n) ps, e)
blocked_idle true false n ps h e = absurd (
    omega (
      arith,
      e,
      h.r_held,
      h.count,
      h.w_held,
      total_blocked counted in_r (ready (at true false n)) ps (written_counted n) e,
      total_≤ unlocks (ready (at true false n)) (w_unlocks false n) ps,
      positive_le n,
    ))
blocked_idle false true n ps h e =
    absurd (omega (arith, e, h.r_held, total_≤ in_r (ready (at false true n)) (counting_in_r n) ps))
blocked_idle true true n ps h e = absurd (
    omega (
      arith,
      e,
      h.r_held,
      h.w_held,
      total_blocked in_r waits (ready (at true true n)) ps (both_in_r n) e,
      total_≤ unlocks (ready (at true true n)) (w_unlocks true n) ps,
      positive_below n,
    ))

-- One of the goroutines that a total counts.
record Found (f : Pc → ℕ) (ps : List Pc) : Type 0 where
  before : List Pc
  behind : List Pc
  p : Pc
  here : ps ≡ before ++ p ∷ behind
  counts : 0 < f p

found : (f : Pc → ℕ) (ps : List Pc) → 0 < total f ps → Found f ps
unfolding total
found f [] h = absurd (omega (arith, h))
found f (p ∷ ps) h = elim (ℕ_discrete (f p) 0) [
  | yes e ↦
      let rest = found f ps (omega (arith, h, e)) in
      record {
        before = p ∷ rest.before;
        behind = rest.behind;
        p = rest.p;
        here = ap (λ xs. p ∷ xs) rest.here;
        counts = rest.counts;
      }
  | no n ↦ record { before = []; behind = ps; p = p; here = refl; counts = omega (arith, n) }
]

gone :
    (s : System) (xs ys : List Pc) (p : Pc) (turn : Turn)
    → s.agents ≡ xs ++ p ∷ ys
    → advance p s.mutex ≡ turn
    → turn ≢ crashed
    → 0 < acts turn
    → (t : System) × Advance s t
unfolding acts
gone s xs ys p blocked here e n h = absurd (omega (arith, h))
gone s xs ys p crashed here e n h = absurd (n refl)
gone s xs ys p (goes q m) here e n h = (
  record { mutex = m; agents = xs ++ q ∷ ys },
  record { before = xs; behind = ys; p = p; q = q; here = here; turn = e; there = refl },
)

-- Some goroutine that is not idle can go on.
pub kept_progress : (s : System) → IsKept s → 0 < total busy s.agents → (t : System) × Advance s t
kept_progress s h some_busy =
    let some_ready : 0 < total (ready s.mutex) s.agents =
      elim (ℕ_discrete (total (ready s.mutex) s.agents) 0) [
        | yes e ↦
            absurd
              (omega (arith, some_busy, blocked_idle s.mutex.w s.mutex.r s.mutex.n s.agents h e))
        | no n ↦ omega (arith, n)
      ] in
    let f = found (ready s.mutex) s.agents some_ready in
    gone s f.before f.behind f.p (advance f.p s.mutex) f.here refl
      ((kept-IsExclusive s h).no_crash f.before f.behind f.p f.here) f.counts
