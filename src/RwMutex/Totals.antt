-- ===== src/RwMutex/Totals.antt =====
-- Sums over the goroutines at the lock of gumble/gumble/rpwmutex.go.
use barnard_stormdragon_ai_f.Prelude.{ℕ, zero, suc, ◌+◌, ◌≡◌, ◌≤◌, refl, List, [], ◌∷◌, ◌++◌, arith}
use barnard_stormdragon_ai_f.RwMutex.{
  Pc, idle, locking, writing, rlocking, entering, awaiting, admitted, reading, runlocking, leaving,
  releasing, left, idlers,
}
use barnard_stormdragon_ai_f.RwMutex.Places.{in_r, counted, waits, unlocks}

unfoldable pub total : (Pc → ℕ) → List Pc → ℕ
total f [] = 0
total f (p ∷ ps) = f p + total f ps

pub total-++ :
    (f : Pc → ℕ) (xs ys : List Pc) (p : Pc) → total f (xs ++ p ∷ ys) ≡ f p + total f (xs ++ ys)
unfolding total
total-++ f [] ys p = refl
total-++ f (x ∷ xs) ys p = omega (arith, total-++ f xs ys p)

pub total_≤ : (f g : Pc → ℕ) → ((p : Pc) → f p ≤ g p) → (ps : List Pc) → total f ps ≤ total g ps
unfolding total
total_≤ f g h [] = omega arith
total_≤ f g h (p ∷ ps) = omega (arith, h p, total_≤ f g h ps)

pub total-idlers : (f : Pc → ℕ) → f idle ≡ 0 → (k : ℕ) → total f (idlers k) ≡ 0
unfolding total idlers
total-idlers f h zero = refl
total-idlers f h (suc k) = omega (arith, h, total-idlers f h k)

pub waits-in_r : (p : Pc) → waits p ≤ in_r p
unfolding waits in_r
waits-in_r idle = omega arith
waits-in_r locking = omega arith
waits-in_r writing = omega arith
waits-in_r rlocking = omega arith
waits-in_r entering = omega arith
waits-in_r awaiting = omega arith
waits-in_r admitted = omega arith
waits-in_r reading = omega arith
waits-in_r runlocking = omega arith
waits-in_r leaving = omega arith
waits-in_r releasing = omega arith
waits-in_r left = omega arith

pub waits-counted : (p : Pc) → waits p ≤ counted p
unfolding waits counted
waits-counted idle = omega arith
waits-counted locking = omega arith
waits-counted writing = omega arith
waits-counted rlocking = omega arith
waits-counted entering = omega arith
waits-counted awaiting = omega arith
waits-counted admitted = omega arith
waits-counted reading = omega arith
waits-counted runlocking = omega arith
waits-counted leaving = omega arith
waits-counted releasing = omega arith
waits-counted left = omega arith

-- Lock has returned, and Unlock has not been called.
unfoldable pub writes : Pc → ℕ
writes idle = 0
writes locking = 0
writes writing = 1
writes rlocking = 0
writes entering = 0
writes awaiting = 0
writes admitted = 0
writes reading = 0
writes runlocking = 0
writes leaving = 0
writes releasing = 0
writes left = 0

-- RLock has returned, and RUnlock has not gone on.
unfoldable pub reads : Pc → ℕ
reads idle = 0
reads locking = 0
reads writing = 0
reads rlocking = 0
reads entering = 0
reads awaiting = 0
reads admitted = 0
reads reading = 1
reads runlocking = 1
reads leaving = 0
reads releasing = 0
reads left = 0

pub writes-unlocks : (p : Pc) → writes p ≤ unlocks p
unfolding writes unlocks
writes-unlocks idle = omega arith
writes-unlocks locking = omega arith
writes-unlocks writing = omega arith
writes-unlocks rlocking = omega arith
writes-unlocks entering = omega arith
writes-unlocks awaiting = omega arith
writes-unlocks admitted = omega arith
writes-unlocks reading = omega arith
writes-unlocks runlocking = omega arith
writes-unlocks leaving = omega arith
writes-unlocks releasing = omega arith
writes-unlocks left = omega arith

pub reads-counted : (p : Pc) → reads p + waits p ≤ counted p
unfolding reads waits counted
reads-counted idle = omega arith
reads-counted locking = omega arith
reads-counted writing = omega arith
reads-counted rlocking = omega arith
reads-counted entering = omega arith
reads-counted awaiting = omega arith
reads-counted admitted = omega arith
reads-counted reading = omega arith
reads-counted runlocking = omega arith
reads-counted leaving = omega arith
reads-counted releasing = omega arith
reads-counted left = omega arith

pub total-sum : (f g : Pc → ℕ) (ps : List Pc) → total (λ p. f p + g p) ps ≡ total f ps + total g ps
unfolding total
total-sum f g [] = refl
total-sum f g (p ∷ ps) = omega (arith, total-sum f g ps)
