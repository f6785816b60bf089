-- ===== src/RwMutex/Turns.antt =====
-- What one step of gumble/gumble/rpwmutex.go does to the books of the lock: how many goroutines stand
-- where.
use barnard_stormdragon_ai_f.Prelude.{
  ℕ, zero, suc, ◌+◌, ◌-◌, ◌≡◌, ◌<◌, ◌≤◌, ap, Bool, true, false, if_ind, ◌==◌, arith,
}
use barnard_stormdragon_ai_f.RwMutex.{
  Mutex, Pc, idle, locking, writing, rlocking, entering, awaiting, admitted, reading, runlocking,
  leaving, releasing, left, advance, lock_w, unlock_w, lock_r, unlock_r, count_up, count_down,
}
use barnard_stormdragon_ai_f.RwMutex.Places.{
  in_r, counted, waits, unlocks, bit, positive, IsSoundAt, IsSoundTurn, positive_pos,
}

module _ (a b c d : ℕ) (less : c ≤ a) (known : c ≤ b) where
  locking-IsSound :
      (w r : Bool) (n : ℕ)
      → IsSoundAt (record { w = w; r = r; n = n }) locking a b c d
      → IsSoundTurn (lock_w writing (record { w = w; r = r; n = n })) a b c d
  unfolding lock_w IsSoundTurn in_r counted waits unlocks bit positive
  locking-IsSound true r n h = tt
  locking-IsSound false r n h = record {
    r_held = omega (arith, h.r_held);
    count = omega (arith, h.count);
    w_held = omega (arith, h.w_held, h.r_held, h.inside);
    alone = λ p. h.alone (omega (arith, p));
    inside = omega (arith, h.inside, less);
  }

  writing-IsSound :
      (w r : Bool) (n : ℕ)
      → IsSoundAt (record { w = w; r = r; n = n }) writing a b c d
      → IsSoundTurn (unlock_w idle (record { w = w; r = r; n = n })) a b c d
  unfolding unlock_w IsSoundTurn in_r counted waits unlocks bit positive
  writing-IsSound true r n h = record {
    r_held = omega (arith, h.r_held);
    count = omega (arith, h.count);
    w_held = omega (arith, h.w_held, h.r_held, h.inside);
    alone = λ p. h.alone (omega (arith, p));
    inside = omega (arith, h.inside, less);
  }
  writing-IsSound false true zero h =
      absurd (omega (arith, h.r_held, h.w_held, h.count, h.inside, less, known))
  writing-IsSound false false zero h =
      absurd (omega (arith, h.r_held, h.w_held, h.count, h.inside, less, known))
  writing-IsSound false true (suc n) h =
      absurd (omega (arith, h.r_held, h.w_held, h.count, h.inside, less, known))
  writing-IsSound false false (suc n) h =
      absurd (omega (arith, h.r_held, h.w_held, h.count, h.inside, less, known))

  rlocking-IsSound :
      (w r : Bool) (n : ℕ)
      → IsSoundAt (record { w = w; r = r; n = n }) rlocking a b c d
      → IsSoundTurn (lock_r entering (record { w = w; r = r; n = n })) a b c d
  unfolding lock_r IsSoundTurn in_r counted waits unlocks bit positive
  rlocking-IsSound w true n h = tt
  rlocking-IsSound w false n h = record {
    r_held = omega (arith, h.r_held);
    count = omega (arith, h.count);
    w_held = omega (arith, h.w_held, h.r_held, h.inside);
    alone = λ p. h.alone (omega (arith, p));
    inside = omega (arith, h.inside, less);
  }

  entering-IsSound :
      (w r : Bool) (n : ℕ)
      → IsSoundAt (record { w = w; r = r; n = n }) entering a b c d
      → IsSoundTurn (count_up (record { w = w; r = r; n = n })) a b c d
  unfolding count_up IsSoundTurn in_r counted waits unlocks bit positive
  entering-IsSound w true zero h = record {
    r_held = omega (arith, h.r_held);
    count = omega (arith, h.count);
    w_held = omega (arith, h.w_held, h.r_held, h.inside);
    alone = λ p. omega arith;
    inside = omega (arith, h.inside, less);
  }
  entering-IsSound w true (suc n) h =
      if_ind (λ q. IsSoundAt (record { w = w; r = true; n = suc n + 1 }) q a b c d) (suc n + 1 == 1)
        (λ e. absurd (grind arith))
        (λ e. record {
          r_held = omega (arith, h.r_held);
          count = omega (arith, h.count);
          w_held =
              omega (arith, h.w_held, h.r_held, h.inside, positive_pos (suc n + 1) (omega arith));
          alone = λ p. omega (arith, h.r_held, less, p);
          inside = omega (arith, h.inside, less);
        })
  entering-IsSound w false n h =
      absurd (omega (arith, h.r_held, h.w_held, h.count, h.inside, less, known))

  awaiting-IsSound :
      (w r : Bool) (n : ℕ)
      → IsSoundAt (record { w = w; r = r; n = n }) awaiting a b c d
      → IsSoundTurn (lock_w admitted (record { w = w; r = r; n = n })) a b c d
  unfolding lock_w IsSoundTurn in_r counted waits unlocks bit positive
  awaiting-IsSound true r n h = tt
  awaiting-IsSound false r n h = record {
    r_held = omega (arith, h.r_held);
    count = omega (arith, h.count);
    w_held = omega (arith, h.w_held, h.r_held, h.inside);
    alone = λ p. h.alone (omega arith);
    inside = omega (arith, h.inside, less);
  }

  admitted-IsSound :
      (w r : Bool) (n : ℕ)
      → IsSoundAt (record { w = w; r = r; n = n }) admitted a b c d
      → IsSoundTurn (unlock_r reading (record { w = w; r = r; n = n })) a b c d
  unfolding unlock_r IsSoundTurn in_r counted waits unlocks bit positive
  admitted-IsSound w true n h = record {
    r_held = omega (arith, h.r_held);
    count = omega (arith, h.count);
    w_held = omega (arith, h.w_held, h.r_held, h.inside);
    alone = λ p. h.alone (omega (arith, p));
    inside = omega (arith, h.inside, less);
  }
  admitted-IsSound w false n h =
      absurd (omega (arith, h.r_held, h.w_held, h.count, h.inside, less, known))

  runlocking-IsSound :
      (w r : Bool) (n : ℕ)
      → IsSoundAt (record { w = w; r = r; n = n }) runlocking a b c d
      → IsSoundTurn (lock_r leaving (record { w = w; r = r; n = n })) a b c d
  unfolding lock_r IsSoundTurn in_r counted waits unlocks bit positive
  runlocking-IsSound w true n h = tt
  runlocking-IsSound w false n h = record {
    r_held = omega (arith, h.r_held);
    count = omega (arith, h.count);
    w_held = omega (arith, h.w_held, h.r_held, h.inside);
    alone = λ p. h.alone (omega (arith, p));
    inside = omega (arith, h.inside, less);
  }

  leaving-IsSound :
      (w r : Bool) (n : ℕ)
      → IsSoundAt (record { w = w; r = r; n = n }) leaving a b c d
      → IsSoundTurn (count_down (record { w = w; r = r; n = n })) a b c d
  unfolding count_down IsSoundTurn in_r counted waits unlocks bit positive
  leaving-IsSound w true n h =
      if_ind (λ t. IsSoundTurn t a b c d) (n == 0) (λ e. absurd (grind (arith, h.count)))
        (λ e.
          if_ind (λ q. IsSoundAt (record { w = w; r = true; n = n - 1 }) q a b c d) (n - 1 == 0)
            (λ last.
              let one : n - 1 ≡ 0 = grind arith in
              record {
                r_held = omega (arith, h.r_held);
                count = omega (arith, h.count);
                w_held = omega (
                  arith,
                  h.w_held,
                  h.r_held,
                  h.inside,
                  less,
                  ap positive one,
                  positive_pos n (omega (arith, h.count)),
                );
                alone = λ p. omega (arith, h.r_held, less, p);
                inside = omega (arith, h.inside, less);
              })
            (λ more.
              let some_left : 0 < n - 1 = grind (arith, h.count) in
              record {
                r_held = omega (arith, h.r_held);
                count = omega (arith, h.count);
                w_held = omega (
                  arith,
                  h.w_held,
                  h.r_held,
                  h.inside,
                  less,
                  positive_pos (n - 1) some_left,
                  positive_pos n (omega (arith, h.count)),
                );
                alone = λ p. omega (arith, h.r_held, less, p);
                inside = omega (arith, h.inside, less);
              }))
  leaving-IsSound w false n h =
      absurd (omega (arith, h.r_held, h.w_held, h.count, h.inside, less, known))

  releasing-IsSound :
      (w r : Bool) (n : ℕ)
      → IsSoundAt (record { w = w; r = r; n = n }) releasing a b c d
      → IsSoundTurn (unlock_w left (record { w = w; r = r; n = n })) a b c d
  unfolding unlock_w IsSoundTurn in_r counted waits unlocks bit positive
  releasing-IsSound true r n h = record {
    r_held = omega (arith, h.r_held);
    count = omega (arith, h.count);
    w_held = omega (arith, h.w_held, h.r_held, h.inside);
    alone = λ p. h.alone (omega (arith, p));
    inside = omega (arith, h.inside, less);
  }
  releasing-IsSound false true zero h =
      absurd (omega (arith, h.r_held, h.w_held, h.count, h.inside, less, known))
  releasing-IsSound false false zero h =
      absurd (omega (arith, h.r_held, h.w_held, h.count, h.inside, less, known))
  releasing-IsSound false true (suc n) h =
      absurd (omega (arith, h.r_held, h.w_held, h.count, h.inside, less, known))
  releasing-IsSound false false (suc n) h =
      absurd (omega (arith, h.r_held, h.w_held, h.count, h.inside, less, known))

  left-IsSound :
      (w r : Bool) (n : ℕ)
      → IsSoundAt (record { w = w; r = r; n = n }) left a b c d
      → IsSoundTurn (unlock_r idle (record { w = w; r = r; n = n })) a b c d
  unfolding unlock_r IsSoundTurn in_r counted waits unlocks bit positive
  left-IsSound w true n h = record {
    r_held = omega (arith, h.r_held);
    count = omega (arith, h.count);
    w_held = omega (arith, h.w_held, h.r_held, h.inside);
    alone = λ p. h.alone (omega (arith, p));
    inside = omega (arith, h.inside, less);
  }
  left-IsSound w false n h =
      absurd (omega (arith, h.r_held, h.w_held, h.count, h.inside, less, known))

  pub advance-IsSound :
      (p : Pc) (m : Mutex) → IsSoundAt m p a b c d → IsSoundTurn (advance p m) a b c d
  unfolding advance IsSoundTurn in_r counted waits unlocks
  advance-IsSound idle m h = tt
  advance-IsSound locking m h = locking-IsSound m.w m.r m.n h
  advance-IsSound writing m h = writing-IsSound m.w m.r m.n h
  advance-IsSound rlocking m h = rlocking-IsSound m.w m.r m.n h
  advance-IsSound entering m h = entering-IsSound m.w m.r m.n h
  advance-IsSound awaiting m h = awaiting-IsSound m.w m.r m.n h
  advance-IsSound admitted m h = admitted-IsSound m.w m.r m.n h
  advance-IsSound runlocking m h = runlocking-IsSound m.w m.r m.n h
  advance-IsSound leaving m h = leaving-IsSound m.w m.r m.n h
  advance-IsSound releasing m h = releasing-IsSound m.w m.r m.n h
  advance-IsSound left m h = left-IsSound m.w m.r m.n h
  advance-IsSound reading m h = record {
    r_held = h.r_held;
    count = h.count;
    w_held = h.w_held;
    alone = h.alone;
    inside = h.inside;
  }
