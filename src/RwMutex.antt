-- ===== src/RwMutex.antt =====
-- rpwMutex of gumble/gumble/rpwmutex.go, the lock over the objects of a client, under goroutines whose
-- steps interleave in any order. A step is one access: a lock or an unlock of one of the two inner
-- mutexes, or a change of the count.
pub mod Places
pub mod Turns
pub mod Totals
pub mod Safety
pub mod Progress
pub mod Drain
mod Tests
use barnard_stormdragon_ai_f.Prelude.{
  ℕ, zero, suc, ◌+◌, ◌-◌, ◌≡◌, List, [], ◌∷◌, ◌++◌, Bool, true, false, if◌then◌else◌, ◌==◌,
}

-- Whether the inner mutexes `w` and `r` are locked, and the count.
pub record Mutex : Type 0 where
  pub w : Bool
  pub r : Bool
  pub n : ℕ

-- Where a goroutine stands: before `m.w.Lock()` of Lock, and holding the write lock; in RLock before
-- `m.r.Lock()`, before `m.n++`, before `m.w.Lock()`, before `m.r.Unlock()`; holding a read lock; in
-- RUnlock before `m.r.Lock()`, before `m.n--`, before `m.w.Unlock()`, before `m.r.Unlock()`.
pub data Pc : Type 0 where
  idle locking writing : Pc
  rlocking entering awaiting admitted reading : Pc
  runlocking leaving releasing left : Pc

-- The goroutine is blocked; it unlocks what is not locked, which ends the program, or takes the count
-- below zero; or it makes its step.
pub data Turn : Type 0 where
  blocked crashed : Turn
  goes : Pc → Mutex → Turn

unfoldable pub lock_w : Pc → Mutex → Turn
lock_w next m = if m.w then blocked else goes next (record m { w = true })

unfoldable pub unlock_w : Pc → Mutex → Turn
unlock_w next m = if m.w then goes next (record m { w = false }) else crashed

unfoldable pub lock_r : Pc → Mutex → Turn
lock_r next m = if m.r then blocked else goes next (record m { r = true })

unfoldable pub unlock_r : Pc → Mutex → Turn
unlock_r next m = if m.r then goes next (record m { r = false }) else crashed

-- `m.n++`, and the test behind it.
unfoldable pub count_up : Mutex → Turn
count_up m = goes (if m.n + 1 == 1 then awaiting else admitted) (record m { n = m.n + 1 })

-- `m.n--`, and the test behind it.
unfoldable pub count_down : Mutex → Turn
count_down m =
    if m.n == 0
    then crashed
    else goes (if m.n - 1 == 0 then releasing else left) (record m { n = m.n - 1 })

-- The next step of a goroutine that is not idle: Lock, Unlock, RLock and RUnlock.
unfoldable pub advance : Pc → Mutex → Turn
advance idle m = blocked
advance locking m = lock_w writing m
advance writing m = unlock_w idle m
advance rlocking m = lock_r entering m
advance entering m = count_up m
advance awaiting m = lock_w admitted m
advance admitted m = unlock_r reading m
advance reading m = goes runlocking m
advance runlocking m = lock_r leaving m
advance leaving m = count_down m
advance releasing m = unlock_w left m
advance left m = unlock_r idle m

pub record System : Type 0 where
  pub mutex : Mutex
  pub agents : List Pc

unfoldable pub idlers : ℕ → List Pc
idlers zero = []
idlers (suc k) = idle ∷ idlers k

-- An rpwMutex that is not in use, and `k` goroutines.
unfoldable pub unused : ℕ → System
unused k = record { mutex = record { w = false; r = false; n = 0 }; agents = idlers k }

-- One of the goroutines makes its step.
pub record Advance (s t : System) : Type 0 where
  pub before : List Pc
  pub behind : List Pc
  pub p : Pc
  pub q : Pc
  pub here : s.agents ≡ before ++ p ∷ behind
  pub turn : advance p s.mutex ≡ goes q t.mutex
  pub there : t.agents ≡ before ++ q ∷ behind

-- One of the goroutines calls Lock or RLock.
pub record Call (s t : System) : Type 0 where
  pub before : List Pc
  pub behind : List Pc
  pub is_write : Bool
  pub here : s.agents ≡ before ++ idle ∷ behind
  pub there : t.agents ≡ before ++ (if is_write then locking else rlocking) ∷ behind
  pub same : t.mutex ≡ s.mutex

pub data Reachable (k : ℕ) : System → Type 0 where
  begins : Reachable k (unused k)
  calls : {s t : System} → Reachable k s → Call s t → Reachable k t
  advances : {s t : System} → Reachable k s → Advance s t → Reachable k t
