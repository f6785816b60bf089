-- ===== src/Crypt/State15/Window.antt =====
-- Which IV `decrypt15` tries for a packet that is in order, early, or late.
use barnard_stormdragon_ai_f.Prelude.{
  ℕ, suc, ◌+◌, ◌-◌, ◌*◌, ◌%◌, ◌^◌, ◌<◌, ◌≤◌, ◌≡◌, ◌⊎◌, inl, inr, ap, ◌∙◌, sym, arith, List, ◌∷◌,
  true, false, length, All, IsByte, get_or,
}
use barnard_stormdragon_ai_f.Prelude.Int.{pos, negsuc, ◌+ℤ◌, ◌-ℤ◌}
use barnard_stormdragon_ai_f.Crypt.Iv.{advance_iv, advance_iv_high_bytes, backup_iv}
use barnard_stormdragon_ai_f.Crypt.Iv.Value.{
  value, value-lt, advance_iv_carry, advance_iv-IsByte, length-advance_iv,
}
use barnard_stormdragon_ai_f.Crypt.State15.{try, choose_iv, iv_diff}
use native.Mathlib.Decide.{dec_lt}
use native.Mathlib.Nat.{pow-suc, mod-eq_of_lt}

-- The next packet: the receiver's IV steps exactly as the sender's does, with no replay check.
pub choose_iv_next :
    (b : ℕ) (iv : List ℕ)
    → IsByte b
    → choose_iv (b ∷ iv) (get_or (advance_iv (b ∷ iv)) 0 0) ≡ try (advance_iv (b ∷ iv)) false false
unfolding choose_iv advance_iv
choose_iv_next b iv h = elim (dec_lt b 255) [ yes p ↦ ground arith | no p ↦ ground arith ]

-- A packet `k` ahead.
diff_ahead : (b k : ℕ) → b < 256 → 2 ≤ k → k ≤ 127 → iv_diff ((b + k) % 256) b ≡ pos k
unfolding iv_diff ◌+ℤ◌ ◌-ℤ◌
diff_ahead b k h lo hi = ground arith

diff_late : (b k : ℕ) → b < 256 → 1 ≤ k → k < 30 → iv_diff ((b + 256 - k) % 256) b ≡ negsuc (k - 1)
unfolding iv_diff ◌+ℤ◌ ◌-ℤ◌
diff_late b k h lo hi = ground arith

ahead_flat :
    (b k : ℕ) (iv : List ℕ)
    → 2 ≤ k
    → k ≤ 127
    → b + k < 256
    → choose_iv (b ∷ iv) ((b + k) % 256) ≡ try ((b + k) ∷ iv) true false
unfolding choose_iv
ahead_flat b k iv lo hi fit =
    rw (diff_ahead b k (omega arith) lo hi, mod-eq_of_lt fit) (ground arith)

ahead_wrapped :
    (b k : ℕ) (iv : List ℕ)
    → b < 256
    → 2 ≤ k
    → k ≤ 127
    → 256 ≤ b + k
    → choose_iv (b ∷ iv) ((b + k) % 256) ≡ try ((b + k - 256) ∷ advance_iv iv) true false
unfolding choose_iv advance_iv_high_bytes
ahead_wrapped b k iv hb lo hi over =
    let e : (b + k) % 256 ≡ b + k - 256 = omega arith in
    rw (diff_ahead b k hb lo hi, e) (ground arith)

late_flat :
    (b k : ℕ) (iv : List ℕ)
    → b < 256
    → 1 ≤ k
    → k < 30
    → k ≤ b
    → choose_iv (b ∷ iv) ((b + 256 - k) % 256) ≡ try ((b - k) ∷ iv) true true
unfolding choose_iv
late_flat b k iv hb lo hi fit =
    let e : (b + 256 - k) % 256 ≡ b - k = omega arith in
    rw (diff_late b k hb lo hi, e) (ground arith)

late_wrapped :
    (b k : ℕ) (iv : List ℕ)
    → b < k
    → k < 30
    → choose_iv (b ∷ iv) ((b + 256 - k) % 256) ≡ try ((b + 255 - k) ∷ iv) true true
unfolding choose_iv backup_iv
late_wrapped b k iv lo hi =
    let e : (b + 256 - k) % 256 ≡ b + 256 - k = omega arith in
    rw (diff_late b k (omega arith) (omega arith) hi, e) (ground arith)

above_modulus : (x q n : ℕ) → n ≡ x + q → x < q → n % q ≡ x
above_modulus x q n e h = rw e (grind arith)

-- A packet two to 127 ahead, where the ones between were lost: `decrypt15` tries the sender's IV, the
-- receiver's plus the distance, after a replay check, and keeps it on success.
choose_iv_ahead :
    (b k : ℕ) (iv : List ℕ)
    → All IsByte (b ∷ iv)
    → 2 ≤ k
    → k ≤ 127
    → (iv' : List ℕ) × (choose_iv (b ∷ iv) ((b + k) % 256) ≡ try iv' true false)
      × (value iv' ≡ (value (b ∷ iv) + k) % 256 ^ length (b ∷ iv))
choose_iv_ahead b k iv h lo hi = elim (dec_lt (b + k) 256) [
  | yes p ↦ (
    (b + k) ∷ iv,
    ahead_flat b k iv lo hi p,
    sum ∙ sym (mod-eq_of_lt (omega (arith, value-lt ((b + k) ∷ iv) (p, h.1)))),
  )
  | no p ↦ (
    (b + k - 256) ∷ advance_iv iv,
    ahead_wrapped b k iv h.0 lo hi (omega arith),
    carried (omega arith) (advance_iv_carry iv h.1),
  )
]
  where
    sum : b + k + 256 * value iv ≡ b + 256 * value iv + k
    sum = omega arith

    carried :
        256 ≤ b + k
        → (value (advance_iv iv) ≡ value iv + 1)
          ⊎ ((value iv + 1 ≡ 256 ^ length iv) × (value (advance_iv iv) ≡ 0))
        → b + k - 256 + 256 * value (advance_iv iv)
          ≡ (b + 256 * value iv + k) % 256 ^ suc (length iv)
    carried over (inl e) =
        let bound = value-lt (advance_iv iv) (advance_iv-IsByte iv h.1) in
        let size = ap (λ (n : ℕ). 256 ^ n) (length-advance_iv iv) in
        let all : b + k - 256 + 256 * value (advance_iv iv) ≡ b + 256 * value iv + k =
          omega arith in
        all ∙ sym (mod-eq_of_lt (omega (arith, all, bound, size, pow-suc 256 (length iv))))
    carried over (inr (full, e)) =
        rw
          (
            e,
            above_modulus (b + k - 256) (256 ^ suc (length iv)) (b + 256 * value iv + k)
                (omega (arith, full, pow-suc 256 (length iv)))
                (omega (arith, full, pow-suc 256 (length iv))),
          )
          (omega arith)

-- A packet one to 29 late, without a wrap of the low byte: `decrypt15` tries the sender's IV, the
-- receiver's less the distance, after a replay check, and puts its own IV back.
choose_iv_late :
    (b k : ℕ) (iv : List ℕ)
    → IsByte b
    → 1 ≤ k
    → k < 30
    → k ≤ b
    → (iv' : List ℕ) × (choose_iv (b ∷ iv) ((b + 256 - k) % 256) ≡ try iv' true true)
      × (value iv' + k ≡ value (b ∷ iv))
choose_iv_late b k iv hb lo hi fit = ((b - k) ∷ iv, late_flat b k iv hb lo hi fit, omega arith)

-- A packet up to 29 late across a wrap of the low byte: `backupIV` takes one from the low byte that
-- was just received, so the IV tried is larger by 255 than the one that the sender used.
pub choose_iv_late_wrapped :
    (b k : ℕ) (iv : List ℕ)
    → b < k
    → k < 30
    → (iv' : List ℕ) × (choose_iv (b ∷ iv) ((b + 256 - k) % 256) ≡ try iv' true true)
      × (value iv' + k ≡ value (b ∷ iv) + 255)
choose_iv_late_wrapped b k iv lo hi = ((b + 255 - k) ∷ iv, late_wrapped b k iv lo hi, omega arith)
