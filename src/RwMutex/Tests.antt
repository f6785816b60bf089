-- ===== src/RwMutex/Tests.antt =====
-- Two goroutines at the lock of gumble/gumble/rpwmutex.go, and the theorems there.
use barnard_stormdragon_ai_f.Prelude.{refl, [], ◌∷◌, true, false}
use barnard_stormdragon_ai_f.RwMutex.{
  System, idle, locking, rlocking, entering, awaiting, unused, idlers, Reachable, begins, calls,
  advances, advance, lock_r, count_up,
}
use barnard_stormdragon_ai_f.RwMutex.Safety.{IsExclusive, Reachable-IsExclusive}
use barnard_stormdragon_ai_f.RwMutex.Drain.{Advances, reachable_drains}

-- A reader, which has counted itself and waits for the inner lock, beside a writer that waits too.
abbrev contended : System
contended = record {
  mutex = record { w = false; r = true; n = 1 };
  agents = awaiting ∷ locking ∷ [];
}

abbrev reads_first : System
reads_first = record (unused 2) { agents = rlocking ∷ idle ∷ [] }

contended-Reachable : Reachable 2 contended
unfolding unused idlers advance lock_r count_up
contended-Reachable =
    advances
      {s = record {
        mutex = record { w = false; r = true; n = 0 };
        agents = entering ∷ locking ∷ [];
      }}
      (advances
        {s = record {
          mutex = record { w = false; r = false; n = 0 };
          agents = rlocking ∷ locking ∷ [];
        }}
        (calls {s = reads_first}
          (calls begins (record {
            before = [];
            behind = idle ∷ [];
            is_write = false;
            here = refl;
            there = refl;
            same = refl;
          }))
          (record {
            before = rlocking ∷ [];
            behind = [];
            is_write = true;
            here = refl;
            there = refl;
            same = refl;
          }))
        (record {
          before = [];
          behind = locking ∷ [];
          p = rlocking;
          q = entering;
          here = refl;
          turn = refl;
          there = refl;
        }))
      (record {
        before = [];
        behind = locking ∷ [];
        p = entering;
        q = awaiting;
        here = refl;
        turn = refl;
        there = refl;
      })

Reachable-IsExclusive_example : IsExclusive contended
Reachable-IsExclusive_example = Reachable-IsExclusive contended-Reachable

reachable_drains_example : Advances contended (unused 2)
reachable_drains_example = reachable_drains contended-Reachable
