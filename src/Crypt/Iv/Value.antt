-- ===== src/Crypt/Iv/Value.antt =====
-- The IV helpers as arithmetic modulo 256 ^ length.
use barnard_stormdragon_ai_f.Prelude.{
  ℕ, ◌+◌, ◌*◌, ◌%◌, ◌^◌, ◌<◌, ◌≡◌, refl, ap, ◌∙◌, sym, arith, List, [], ◌∷◌, length, All, IsByte,
  if_ind, ◌==◌, ◌⊎◌, inl, inr,
}
use barnard_stormdragon_ai_f.Crypt.Iv.{advance_iv, backup_iv}
use native.Mathlib.Nat.{pow-suc, mod-eq_of_lt, mod_self}

-- The number that the bytes stand for, the first byte the lowest.
abbrev pub value : List ℕ → ℕ
value [] = 0
value (b ∷ bs) = b + 256 * value bs

pub value-lt : (iv : List ℕ) → All IsByte iv → value iv < 256 ^ length iv
value-lt [] h = omega arith
value-lt (b ∷ bs) h = omega (arith, value-lt bs h.1, pow-suc 256 (length bs))

pub length-advance_iv : (iv : List ℕ) → length (advance_iv iv) ≡ length iv
unfolding advance_iv
length-advance_iv [] = refl
length-advance_iv (b ∷ bs) = ground (arith, length-advance_iv bs)

pub advance_iv-IsByte : (iv : List ℕ) → All IsByte iv → All IsByte (advance_iv iv)
unfolding advance_iv
advance_iv-IsByte [] h = tt
advance_iv-IsByte (b ∷ bs) h =
    if_ind (All IsByte) ((b + 1) % 256 == 0) (λ _. (omega arith, advance_iv-IsByte bs h.1))
      (λ _. (omega arith, h.1))

pub advance_iv_carry :
    (iv : List ℕ)
    → All IsByte iv
    → (value (advance_iv iv) ≡ value iv + 1)
      ⊎ ((value iv + 1 ≡ 256 ^ length iv) × (value (advance_iv iv) ≡ 0))
unfolding advance_iv
advance_iv_carry [] h = inr (omega arith)
advance_iv_carry (b ∷ bs) h = grind (arith, advance_iv_carry bs h.1, pow-suc 256 (length bs))

-- On bytes `advanceIV` adds one to the little-endian number, modulo 256 to the number of its bytes.
value-advance_iv :
    (iv : List ℕ) → All IsByte iv → value (advance_iv iv) ≡ (value iv + 1) % 256 ^ length iv
value-advance_iv iv h = elim (advance_iv_carry iv h) [
  | inl e ↦
      e
      ∙ sym (
          mod-eq_of_lt (
            omega (
              arith,
              e,
              value-lt (advance_iv iv) (advance_iv-IsByte iv h),
              ap (λ (n : ℕ). 256 ^ n) (length-advance_iv iv),
            )))
  | inr (full, e) ↦ rw full (e ∙ sym (mod_self (256 ^ length iv)))
]

pub length-backup_iv : (iv : List ℕ) → length (backup_iv iv) ≡ length iv
unfolding backup_iv
length-backup_iv [] = refl
length-backup_iv (b ∷ bs) = ground (arith, length-backup_iv bs)

pub backup_iv-IsByte : (iv : List ℕ) → All IsByte iv → All IsByte (backup_iv iv)
unfolding backup_iv
backup_iv-IsByte [] h = tt
backup_iv-IsByte (b ∷ bs) h =
    if_ind (All IsByte) (b == 0) (λ _. (omega arith, backup_iv-IsByte bs h.1))
      (λ _. (omega arith, h.1))

-- On bytes `backupIV` undoes `advanceIV`.
pub backup_iv-advance_iv : (iv : List ℕ) → All IsByte iv → backup_iv (advance_iv iv) ≡ iv
unfolding advance_iv backup_iv
backup_iv-advance_iv [] h = refl
backup_iv-advance_iv (b ∷ bs) h = ground (arith, backup_iv-advance_iv bs h.1)

-- On bytes `advanceIV` undoes `backupIV`.
advance_iv-backup_iv : (iv : List ℕ) → All IsByte iv → advance_iv (backup_iv iv) ≡ iv
unfolding advance_iv backup_iv
advance_iv-backup_iv [] h = refl
advance_iv-backup_iv (b ∷ bs) h = ground (arith, advance_iv-backup_iv bs h.1)
