-- ===== src/RwMutex/Drain.antt =====
-- Goroutines come to an end with the lock of gumble/gumble/rpwmutex.go.
use barnard_stormdragon_ai_f.Prelude.{
  ℕ, zero, suc, ◌+◌, ◌-◌, ◌≡◌, ◌<◌, ◌≤◌, refl, ap, ◌∙◌, List, [], ◌∷◌, ◌++◌, Bool, true, false,
  if_ind, ◌==◌, arith, length,
}
use native.Mathlib.Decide.{ℕ_discrete}
use barnard_stormdragon_ai_f.RwMutex.{
  Mutex, Pc, idle, locking, writing, rlocking, entering, awaiting, admitted, reading, runlocking,
  leaving, releasing, left, Turn, blocked, crashed, goes, advance, lock_w, unlock_w, lock_r,
  unlock_r, count_up, count_down, System, idlers, unused, Advance, Call, Reachable, begins, calls,
  advances,
}
use barnard_stormdragon_ai_f.RwMutex.Places.{in_r, counted, unlocks, bit}
use barnard_stormdragon_ai_f.RwMutex.Totals.{total, total-++, total_≤}
use barnard_stormdragon_ai_f.RwMutex.Safety.{IsKept, Advance-IsKept, Reachable-IsKept}
use barnard_stormdragon_ai_f.RwMutex.Progress.{busy, rank, busy-rank, positive_le, kept_progress}

unfoldable IsShrunk : ℕ → Turn → Type 0
IsShrunk k blocked = Unit
IsShrunk k crashed = Unit
IsShrunk k (goes q m) = rank q < k

lock_w-IsShrunk : (k : ℕ) (q : Pc) (m : Mutex) → rank q < k → IsShrunk k (lock_w q m)
unfolding lock_w IsShrunk
lock_w-IsShrunk k q m h = if_ind (IsShrunk k) m.w (λ e. tt) (λ e. h)

unlock_w-IsShrunk : (k : ℕ) (q : Pc) (m : Mutex) → rank q < k → IsShrunk k (unlock_w q m)
unfolding unlock_w IsShrunk
unlock_w-IsShrunk k q m h = if_ind (IsShrunk k) m.w (λ e. h) (λ e. tt)

lock_r-IsShrunk : (k : ℕ) (q : Pc) (m : Mutex) → rank q < k → IsShrunk k (lock_r q m)
unfolding lock_r IsShrunk
lock_r-IsShrunk k q m h = if_ind (IsShrunk k) m.r (λ e. tt) (λ e. h)

unlock_r-IsShrunk : (k : ℕ) (q : Pc) (m : Mutex) → rank q < k → IsShrunk k (unlock_r q m)
unfolding unlock_r IsShrunk
unlock_r-IsShrunk k q m h = if_ind (IsShrunk k) m.r (λ e. h) (λ e. tt)

advance-IsShrunk : (p : Pc) (m : Mutex) → IsShrunk (rank p) (advance p m)
unfolding advance count_up count_down IsShrunk rank
advance-IsShrunk idle m = tt
advance-IsShrunk entering m =
    if_ind (λ q. rank q < 8) (m.n + 1 == 1) (λ e. omega arith) (λ e. omega arith)
advance-IsShrunk reading m = omega arith
advance-IsShrunk leaving m =
    if_ind (IsShrunk 3) (m.n == 0) (λ e. tt)
      (λ e. if_ind (λ q. rank q < 3) (m.n - 1 == 0) (λ last. omega arith) (λ more. omega arith))
advance-IsShrunk locking m = lock_w-IsShrunk _ writing m (omega arith)
advance-IsShrunk writing m = unlock_w-IsShrunk _ idle m (omega arith)
advance-IsShrunk rlocking m = lock_r-IsShrunk _ entering m (omega arith)
advance-IsShrunk awaiting m = lock_w-IsShrunk _ admitted m (omega arith)
advance-IsShrunk admitted m = unlock_r-IsShrunk _ reading m (omega arith)
advance-IsShrunk runlocking m = lock_r-IsShrunk _ leaving m (omega arith)
advance-IsShrunk releasing m = unlock_w-IsShrunk _ left m (omega arith)
advance-IsShrunk left m = unlock_r-IsShrunk _ idle m (omega arith)

pub Advance-rank : {s t : System} → Advance s t → total rank t.agents < total rank s.agents
unfolding IsShrunk
Advance-rank {s} {t} a =
    let less = rw a.turn at (advance-IsShrunk a.p s.mutex) in
    rw (a.here, a.there)
      (omega
        (arith, less, total-++ rank a.before a.behind a.p, total-++ rank a.before a.behind a.q))

length-swap : (xs ys : List Pc) (p q : Pc) → length (xs ++ q ∷ ys) ≡ length (xs ++ p ∷ ys)
length-swap [] ys p q = refl
length-swap (x ∷ xs) ys p q = ap (λ n. suc n) (length-swap xs ys p q)

length-Advance : {s t : System} → Advance s t → length t.agents ≡ length s.agents
length-Advance a = rw (a.here, a.there) (length-swap a.before a.behind a.p a.q)

length-Call : {s t : System} → Call s t → length t.agents ≡ length s.agents
length-Call a = rw (a.here, a.there) (length-swap a.before a.behind idle _)

length-idlers : (k : ℕ) → length (idlers k) ≡ k
unfolding idlers
length-idlers zero = refl
length-idlers (suc k) = ap (λ n. suc n) (length-idlers k)

length-Reachable : {k : ℕ} {s : System} → Reachable k s → length s.agents ≡ k
unfolding unused
length-Reachable {k} begins = length-idlers k
length-Reachable (calls r a) = length-Call a ∙ length-Reachable r
length-Reachable (advances r a) = length-Advance a ∙ length-Reachable r

-- Steps without a new call.
pub data Advances : System → System → Type 0 where
  done : {s : System} → Advances s s
  step : {s t u : System} → Advance s t → Advances t u → Advances s u

-- Where the goroutines have come to an end.
record Drained (s : System) : Type 0 where
  t : System
  run : Advances s t
  kept : IsKept t
  size : length t.agents ≡ length s.agents
  nobody : total busy t.agents ≡ 0

drain : (fuel : ℕ) (s : System) → IsKept s → total rank s.agents ≤ fuel → Drained s
drain zero s h few = record {
  t = s;
  run = done;
  kept = h;
  size = refl;
  nobody = omega (arith, few, total_≤ busy rank busy-rank s.agents);
}
drain (suc fuel) s h few = elim (ℕ_discrete (total busy s.agents) 0) [
  | yes e ↦ record { t = s; run = done; kept = h; size = refl; nobody = e }
  | no n ↦
      let (t, a) = kept_progress s h (omega (arith, n)) in
      let rest = drain fuel t (Advance-IsKept h a) (omega (arith, few, Advance-rank a)) in
      record {
        t = rest.t;
        run = step a rest.run;
        kept = rest.kept;
        size = rest.size ∙ length-Advance a;
        nobody = rest.nobody;
      }
]

idle_pc : (p : Pc) → busy p ≡ 0 → p ≡ idle
unfolding busy
idle_pc idle e = refl
idle_pc locking e = absurd (omega (arith, e))
idle_pc writing e = absurd (omega (arith, e))
idle_pc rlocking e = absurd (omega (arith, e))
idle_pc entering e = absurd (omega (arith, e))
idle_pc awaiting e = absurd (omega (arith, e))
idle_pc admitted e = absurd (omega (arith, e))
idle_pc reading e = absurd (omega (arith, e))
idle_pc runlocking e = absurd (omega (arith, e))
idle_pc leaving e = absurd (omega (arith, e))
idle_pc releasing e = absurd (omega (arith, e))
idle_pc left e = absurd (omega (arith, e))

all_idle : (ps : List Pc) → total busy ps ≡ 0 → ps ≡ idlers (length ps)
unfolding total idlers
all_idle [] e = refl
all_idle (p ∷ ps) e =
    rw (idle_pc p (omega (arith, e))) (ap (λ xs. idle ∷ xs) (all_idle ps (omega (arith, e))))

bit-false : (b : Bool) → bit b ≡ 0 → b ≡ false
unfolding bit
bit-false false e = refl
bit-false true e = absurd (omega (arith, e))

in_r-busy : (p : Pc) → in_r p ≤ busy p
unfolding busy in_r
in_r-busy idle = omega arith
in_r-busy locking = omega arith
in_r-busy writing = omega arith
in_r-busy rlocking = omega arith
in_r-busy entering = omega arith
in_r-busy awaiting = omega arith
in_r-busy admitted = omega arith
in_r-busy reading = omega arith
in_r-busy runlocking = omega arith
in_r-busy leaving = omega arith
in_r-busy releasing = omega arith
in_r-busy left = omega arith

counted-busy : (p : Pc) → counted p ≤ busy p
unfolding busy counted
counted-busy idle = omega arith
counted-busy locking = omega arith
counted-busy writing = omega arith
counted-busy rlocking = omega arith
counted-busy entering = omega arith
counted-busy awaiting = omega arith
counted-busy admitted = omega arith
counted-busy reading = omega arith
counted-busy runlocking = omega arith
counted-busy leaving = omega arith
counted-busy releasing = omega arith
counted-busy left = omega arith

unlocks-busy : (p : Pc) → unlocks p ≤ busy p
unfolding busy unlocks
unlocks-busy idle = omega arith
unlocks-busy locking = omega arith
unlocks-busy writing = omega arith
unlocks-busy rlocking = omega arith
unlocks-busy entering = omega arith
unlocks-busy awaiting = omega arith
unlocks-busy admitted = omega arith
unlocks-busy reading = omega arith
unlocks-busy runlocking = omega arith
unlocks-busy leaving = omega arith
unlocks-busy releasing = omega arith
unlocks-busy left = omega arith

-- Kept books of idle goroutines are those of a lock that is not in use.
idle_unused : (s : System) → IsKept s → total busy s.agents ≡ 0 → s ≡ unused (length s.agents)
unfolding unused
idle_unused s h e =
    let n_zero : s.mutex.n ≡ 0 =
      omega (arith, h.count, e, total_≤ counted busy counted-busy s.agents) in
    let r_free : s.mutex.r ≡ false =
      bit-false s.mutex.r (omega (arith, h.r_held, e, total_≤ in_r busy in_r-busy s.agents)) in
    let w_free : s.mutex.w ≡ false = bit-false s.mutex.w (
      omega (
        arith,
        h.w_held,
        e,
        n_zero,
        positive_le s.mutex.n,
        total_≤ unlocks busy unlocks-busy s.agents,
      )) in
    λ i. record {
      mutex = record { w = w_free i; r = r_free i; n = n_zero i };
      agents = all_idle s.agents e i;
    }

-- From every state that `k` goroutines can reach, their steps alone, without a new call, can lead to the
-- lock that is not in use: no goroutine is left waiting for a lock.
pub reachable_drains : {k : ℕ} {s : System} → Reachable k s → Advances s (unused k)
reachable_drains {k} {s} r =
    let d = drain (total rank s.agents) s (Reachable-IsKept r) (omega arith) in
    let same : d.t ≡ unused k =
      idle_unused d.t d.kept d.nobody ∙ ap unused (d.size ∙ length-Reachable r) in
    rw (← same) d.run
