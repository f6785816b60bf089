-- ===== src/RwMutex/Places.antt =====
-- Where goroutines stand at the lock of gumble/gumble/rpwmutex.go, and the books of the lock: how many
-- stand where.
use barnard_stormdragon_ai_f.Prelude.{
  ℕ, zero, suc, ◌+◌, ◌≡◌, ◌<◌, ◌≤◌, refl, Bool, true, false, arith,
}
use barnard_stormdragon_ai_f.RwMutex.{
  Mutex, Pc, idle, locking, writing, rlocking, entering, awaiting, admitted, reading, runlocking,
  leaving, releasing, left, Turn, blocked, crashed, goes,
}

-- Who has locked `r`.
unfoldable pub in_r : Pc → ℕ
in_r idle = 0
in_r locking = 0
in_r writing = 0
in_r rlocking = 0
in_r entering = 1
in_r awaiting = 1
in_r admitted = 1
in_r reading = 0
in_r runlocking = 0
in_r leaving = 1
in_r releasing = 1
in_r left = 1

-- Who is counted in `n`.
unfoldable pub counted : Pc → ℕ
counted idle = 0
counted locking = 0
counted writing = 0
counted rlocking = 0
counted entering = 0
counted awaiting = 1
counted admitted = 1
counted reading = 1
counted runlocking = 1
counted leaving = 1
counted releasing = 0
counted left = 0

-- The first reader, which waits for `w`.
unfoldable pub waits : Pc → ℕ
waits awaiting = 1
waits idle = 0
waits locking = 0
waits writing = 0
waits rlocking = 0
waits entering = 0
waits admitted = 0
waits reading = 0
waits runlocking = 0
waits leaving = 0
waits releasing = 0
waits left = 0

-- Who has to unlock `w` next: the writer, and the last reader.
unfoldable pub unlocks : Pc → ℕ
unlocks writing = 1
unlocks releasing = 1
unlocks idle = 0
unlocks locking = 0
unlocks rlocking = 0
unlocks entering = 0
unlocks awaiting = 0
unlocks admitted = 0
unlocks reading = 0
unlocks runlocking = 0
unlocks leaving = 0
unlocks left = 0

unfoldable pub bit : Bool → ℕ
bit true = 1
bit false = 0

unfoldable pub positive : ℕ → ℕ
positive zero = 0
positive (suc n) = 1

-- The books, from the numbers of goroutines: `w` is locked for a goroutine that unlocks it next or for
-- all readers, unless the first reader still waits for it.
pub record IsSound (m : Mutex) (holders readers first owners : ℕ) : Type 0 where
  pub r_held : holders ≡ bit m.r
  pub count : readers ≡ m.n
  pub w_held : bit m.w + first ≡ owners + positive m.n
  pub alone : 0 < first → m.n ≤ 1
  pub inside : first ≤ holders

-- The books with one goroutine at `p` and the other numbers of goroutines.
abbrev pub IsSoundAt : Mutex → Pc → (holders readers first owners : ℕ) → Type 0
IsSoundAt m p holders readers first owners =
    IsSound m (in_r p + holders) (counted p + readers) (waits p + first) (unlocks p + owners)

unfoldable pub IsSoundTurn : Turn → (holders readers first owners : ℕ) → Type 0
IsSoundTurn blocked a b c d = Unit
IsSoundTurn crashed a b c d = ⊥
IsSoundTurn (goes q m) a b c d = IsSoundAt m q a b c d

pub positive_pos : (n : ℕ) → 0 < n → positive n ≡ 1
unfolding positive
positive_pos zero h = absurd (omega arith)
positive_pos (suc n) h = refl
