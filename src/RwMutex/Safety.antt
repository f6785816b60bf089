-- ===== src/RwMutex/Safety.antt =====
-- The books of the lock of gumble/gumble/rpwmutex.go in every state that goroutines can reach: writers
-- are alone.
use barnard_stormdragon_ai_f.Prelude.{
  ℕ, zero, suc, ◌+◌, ◌≡◌, ◌≢◌, ◌<◌, ◌≤◌, refl, sym, List, ◌∷◌, ◌++◌, Bool, true, false,
  if◌then◌else◌, arith,
}
use native.Mathlib.Decide.{ℕ_discrete}
use barnard_stormdragon_ai_f.RwMutex.{
  Mutex, Pc, idle, locking, rlocking, crashed, advance, System, unused, Advance, Call, Reachable,
  begins, calls, advances,
}
use barnard_stormdragon_ai_f.RwMutex.Places.{
  in_r, counted, waits, unlocks, bit, positive, IsSound, IsSoundAt, IsSoundTurn, positive_pos,
}
use barnard_stormdragon_ai_f.RwMutex.Turns.{advance-IsSound}
use barnard_stormdragon_ai_f.RwMutex.Totals.{
  total, total-++, total_≤, total-idlers, total-sum, waits-in_r, waits-counted, writes, reads,
  writes-unlocks, reads-counted,
}

-- The books of all goroutines.
abbrev pub IsKept : System → Type 0
IsKept s =
    IsSound s.mutex (total in_r s.agents) (total counted s.agents) (total waits s.agents)
      (total unlocks s.agents)

unused-IsKept : (k : ℕ) → IsKept (unused k)
unfolding unused bit positive in_r counted waits unlocks
unused-IsKept k =
    rw
      (
        total-idlers in_r refl k,
        total-idlers counted refl k,
        total-idlers waits refl k,
        total-idlers unlocks refl k,
      )
      (record {
        r_held = refl;
        count = refl;
        w_held = refl;
        alone = λ p. omega arith;
        inside = omega arith;
      })

-- The books with one goroutine set apart.
apart :
    (m : Mutex) (xs ys : List Pc) (p : Pc)
    → IsKept (record { mutex = m; agents = xs ++ p ∷ ys })
    → IsSoundAt m p
        (total in_r (xs ++ ys))
        (total counted (xs ++ ys))
        (total waits (xs ++ ys))
        (total unlocks (xs ++ ys))
apart m xs ys p h =
    rw
      (
        sym (total-++ in_r xs ys p),
        sym (total-++ counted xs ys p),
        sym (total-++ waits xs ys p),
        sym (total-++ unlocks xs ys p),
      )
      h

together :
    (m : Mutex) (xs ys : List Pc) (p : Pc)
    → IsSoundAt m p
        (total in_r (xs ++ ys))
        (total counted (xs ++ ys))
        (total waits (xs ++ ys))
        (total unlocks (xs ++ ys))
    → IsKept (record { mutex = m; agents = xs ++ p ∷ ys })
together m xs ys p h =
    rw
      (
        total-++ in_r xs ys p,
        total-++ counted xs ys p,
        total-++ waits xs ys p,
        total-++ unlocks xs ys p,
      )
      h

-- The step of one goroutine.
turn-IsSound :
    (m : Mutex) (xs ys : List Pc) (p : Pc)
    → IsKept (record { mutex = m; agents = xs ++ p ∷ ys })
    → IsSoundTurn
        (advance p m)
        (total in_r (xs ++ ys))
        (total counted (xs ++ ys))
        (total waits (xs ++ ys))
        (total unlocks (xs ++ ys))
turn-IsSound m xs ys p h =
    advance-IsSound _ _ _ _ (total_≤ waits in_r waits-in_r (xs ++ ys))
      (total_≤ waits counted waits-counted (xs ++ ys)) p m (apart m xs ys p h)

pub Advance-IsKept : {s t : System} → IsKept s → Advance s t → IsKept t
unfolding IsSoundTurn
Advance-IsKept {s} {t} h a =
    let old : IsKept (record { mutex = s.mutex; agents = a.before ++ a.p ∷ a.behind }) =
      rw (← a.here) h in
    let new = rw a.turn at (turn-IsSound s.mutex a.before a.behind a.p old) in
    rw a.there (together t.mutex a.before a.behind a.q new)

calling-IsSound :
    (m : Mutex) (w : Bool) (a b c d : ℕ)
    → IsSoundAt m idle a b c d
    → IsSoundAt m (if w then locking else rlocking) a b c d
unfolding in_r counted waits unlocks
calling-IsSound m true a b c d h = record {
  r_held = h.r_held;
  count = h.count;
  w_held = h.w_held;
  alone = h.alone;
  inside = h.inside;
}
calling-IsSound m false a b c d h = record {
  r_held = h.r_held;
  count = h.count;
  w_held = h.w_held;
  alone = h.alone;
  inside = h.inside;
}

Call-IsKept : {s t : System} → IsKept s → Call s t → IsKept t
Call-IsKept {s} {t} h a =
    let old : IsKept (record { mutex = s.mutex; agents = a.before ++ idle ∷ a.behind }) =
      rw (← a.here) h in
    rw (a.there, a.same)
      (together s.mutex a.before a.behind (if a.is_write then locking else rlocking)
        (calling-IsSound s.mutex a.is_write _ _ _ _ (apart s.mutex a.before a.behind idle old)))

pub Reachable-IsKept : {k : ℕ} {s : System} → Reachable k s → IsKept s
Reachable-IsKept {k} begins = unused-IsKept k
Reachable-IsKept (calls r a) = Call-IsKept (Reachable-IsKept r) a
Reachable-IsKept (advances r a) = Advance-IsKept (Reachable-IsKept r) a

-- One writer at most, with no reader beside it; and no goroutine unlocks what is not locked, or takes the
-- count below zero.
pub record IsExclusive (s : System) : Type 0 where
  pub one_writer : total writes s.agents ≤ 1
  pub no_reader : 0 < total writes s.agents → total reads s.agents ≡ 0
  pub no_crash : (xs ys : List Pc) (p : Pc) → s.agents ≡ xs ++ p ∷ ys → advance p s.mutex ≢ crashed

bit_≤_1 : (b : Bool) → bit b ≤ 1
unfolding bit
bit_≤_1 true = omega arith
bit_≤_1 false = omega arith

pub positive_below : (n : ℕ) → positive n ≤ 1
unfolding positive
positive_below zero = omega arith
positive_below (suc n) = omega arith

pub kept-IsExclusive : (s : System) → IsKept s → IsExclusive s
unfolding IsSoundTurn
kept-IsExclusive s h =
    let writers = total_≤ writes unlocks writes-unlocks s.agents in
    let readers : total reads s.agents + total waits s.agents ≤ total counted s.agents =
      rw (sym (total-sum reads waits s.agents))
        (total_≤ (λ p. reads p + waits p) counted reads-counted s.agents) in
    let first = total_≤ waits counted waits-counted s.agents in
    record {
      one_writer = elim (ℕ_discrete (total waits s.agents) 0) [
        | yes e ↦ omega (arith, e, writers, h.w_held, bit_≤_1 s.mutex.w)
        | no n ↦
            let few : s.mutex.n ≤ 1 = h.alone (omega (arith, n)) in
            omega (
              arith,
              writers,
              first,
              h.w_held,
              h.count,
              few,
              bit_≤_1 s.mutex.w,
              positive_pos s.mutex.n (omega (arith, n, first, h.count)),
            )
      ];
      no_reader = λ some_writer. elim (ℕ_discrete s.mutex.n 0) [
        | yes e ↦ omega (arith, e, readers, h.count)
        | no n ↦
            let waiting : 0 < total waits s.agents = omega (
              arith,
              writers,
              some_writer,
              h.w_held,
              bit_≤_1 s.mutex.w,
              positive_pos s.mutex.n (omega (arith, n)),
            ) in
            let few : s.mutex.n ≤ 1 = h.alone waiting in
            omega (arith, readers, waiting, few, h.count)
      ];
      no_crash = λ xs ys p e crash.
          let old : IsKept (record { mutex = s.mutex; agents = xs ++ p ∷ ys }) = rw (← e) h in
          rw crash at (turn-IsSound s.mutex xs ys p old);
    }

-- Whatever calls and steps interleave, there is one writer at most, no reader beside it, and no goroutine
-- unlocks an inner mutex that is not locked or takes the count below zero.
pub Reachable-IsExclusive : {k : ℕ} {s : System} → Reachable k s → IsExclusive s
Reachable-IsExclusive {k} {s} r = kept-IsExclusive s (Reachable-IsKept r)
