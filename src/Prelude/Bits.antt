-- ===== src/Prelude/Bits.antt =====
-- The binary operations on numbers: the equation for the lowest digit, the laws of exclusive or,
-- and the masks that the byte formats use, as arithmetic.
use Prim.Native.Nat.{
  ℕ, zero, suc, ◌+◌, ◌*◌, ◌/◌, ◌%◌, ◌^◌, ◌≤◌, ◌<◌, min, max, differ, digits, bitwise, bit_and,
  bit_or, bit_xor, bit_and-bitwise, bit_or-bitwise, bit_xor-bitwise,
}
use mathlib.Core.Path.{◌≡◌, refl, sym, ap, ◌∙◌}
use mathlib.Core.Bool.{Bool, true, ◌&&◌}
use native.Mathlib.Nat.{pow-suc}
use native.Mathlib.Decide.{dec_le}
use native.Mathlib.Omega.{arith}
use barnard_stormdragon_ai_f.Prelude.Tests.{◌==◌, ==_iff}

-- Two counts that both cover the first number give the same digits.
module _ (rest : ℕ → ℕ) (op : ℕ → ℕ → ℕ) where
  covered : (m n a b : ℕ) → a ≤ m → a ≤ n → digits rest op m a b ≡ digits rest op n a b
  covered zero zero a b p q = refl
  covered (suc m) (suc n) zero b p q = refl
  covered (suc m) zero zero b p q = refl
  covered zero (suc n) zero b p q = refl
  covered zero (suc n) (suc a) b p q = absurd (omega arith)
  covered (suc m) zero (suc a) b p q = absurd (omega arith)
  covered (suc m) (suc n) (suc a) b p q =
      ap (λ x. x * 2 + op (suc a % 2) (b % 2))
        (covered m n (suc a / 2) (b / 2) (omega arith) (omega arith))

  bitwise_digit :
      (a b : ℕ)
      → bitwise rest op (suc a) b ≡ bitwise rest op (suc a / 2) (b / 2) * 2 + op (suc a % 2) (b % 2)
  bitwise_digit a b =
      ap (λ x. x * 2 + op (suc a % 2) (b % 2))
        (covered a (suc a / 2) (suc a / 2) (b / 2) (omega arith) (omega arith))

differ_small : (x y : ℕ) → x < 2 → y < 2 → differ x y ≡ (x + y) % 2
differ_small zero y p q = omega arith
differ_small (suc zero) zero p q = refl
differ_small (suc zero) (suc zero) p q = refl
differ_small (suc zero) (suc (suc y)) p q = absurd (omega arith)
differ_small (suc (suc x)) y p q = absurd (omega arith)

differ_parity : (a b : ℕ) → differ (a % 2) (b % 2) ≡ (a + b) % 2
differ_parity a b = omega (arith, differ_small (a % 2) (b % 2) (omega arith) (omega arith))

pub xor_digit : (a b : ℕ) → bit_xor a b ≡ bit_xor (a / 2) (b / 2) * 2 + (a + b) % 2
xor_digit zero b = simp bit_xor-bitwise (omega arith)
xor_digit (suc a) b =
    simp bit_xor-bitwise (omega (arith, bitwise_digit (λ y. y) differ a b, differ_parity (suc a) b))

pub or_digit : (a b : ℕ) → bit_or a b ≡ bit_or (a / 2) (b / 2) * 2 + max (a % 2) (b % 2)
or_digit zero b = simp bit_or-bitwise (omega arith)
or_digit (suc a) b = simp bit_or-bitwise (bitwise_digit (λ y. y) max a b)

pub and_digit : (a b : ℕ) → bit_and a b ≡ bit_and (a / 2) (b / 2) * 2 + min (a % 2) (b % 2)
and_digit zero b = simp bit_and-bitwise (omega arith)
and_digit (suc a) b = simp bit_and-bitwise (bitwise_digit (λ y. 0) min a b)

-- Exclusive or, read by halves.
pub xor_half : (a b : ℕ) → bit_xor a b / 2 ≡ bit_xor (a / 2) (b / 2)
xor_half a b = omega (arith, xor_digit a b)

pub xor_parity : (a b : ℕ) → bit_xor a b % 2 ≡ (a + b) % 2
xor_parity a b = omega (arith, xor_digit a b)

by_digit : (x y : ℕ) → x / 2 ≡ y / 2 → x % 2 ≡ y % 2 → x ≡ y
by_digit x y p q = omega arith

xor_comm_below : (n a b : ℕ) → a + b ≤ n → bit_xor a b ≡ bit_xor b a
xor_comm_below zero zero zero h = refl
xor_comm_below zero zero (suc b) h = absurd (omega arith)
xor_comm_below zero (suc a) b h = absurd (omega arith)
xor_comm_below (suc n) a b h = elim (dec_le (a + b) n) [
  | yes p ↦ xor_comm_below n a b p
  | no p ↦
      omega (arith, xor_digit a b, xor_digit b a, xor_comm_below n (a / 2) (b / 2) (omega arith))
]

pub xor_comm : (a b : ℕ) → bit_xor a b ≡ bit_xor b a
xor_comm a b = xor_comm_below (a + b) a b (omega arith)

xor_assoc_below : (n a b c : ℕ) → a + b + c ≤ n → bit_xor (bit_xor a b) c ≡ bit_xor a (bit_xor b c)
xor_assoc_below zero zero zero zero h = refl
xor_assoc_below zero zero zero (suc c) h = absurd (omega arith)
xor_assoc_below zero zero (suc b) c h = absurd (omega arith)
xor_assoc_below zero (suc a) b c h = absurd (omega arith)
xor_assoc_below (suc n) a b c h = elim (dec_le (a + b + c) n) [
  | yes p ↦ xor_assoc_below n a b c p
  | no p ↦
      by_digit (bit_xor (bit_xor a b) c) (bit_xor a (bit_xor b c))
        (xor_half (bit_xor a b) c
          ∙ ap (λ x. bit_xor x (c / 2)) (xor_half a b)
          ∙ xor_assoc_below n (a / 2) (b / 2) (c / 2) (omega arith)
          ∙ ap (bit_xor (a / 2)) (sym (xor_half b c))
          ∙ sym (xor_half a (bit_xor b c)))
        (omega (
          arith,
          xor_parity (bit_xor a b) c,
          xor_parity a b,
          xor_parity a (bit_xor b c),
          xor_parity b c,
        ))
]

pub xor_assoc : (a b c : ℕ) → bit_xor (bit_xor a b) c ≡ bit_xor a (bit_xor b c)
xor_assoc a b c = xor_assoc_below (a + b + c) a b c (omega arith)

xor_self_below : (n a : ℕ) → a ≤ n → bit_xor a a ≡ 0
xor_self_below zero zero h = refl
xor_self_below zero (suc a) h = absurd (omega arith)
xor_self_below (suc n) zero h = refl
xor_self_below (suc n) (suc a) h =
    omega (arith, xor_digit (suc a) (suc a), xor_self_below n (suc a / 2) (omega arith))

pub xor_self : (a : ℕ) → bit_xor a a ≡ 0
xor_self a = xor_self_below a a (omega arith)

pub zero_xor : (a : ℕ) → bit_xor 0 a ≡ a
zero_xor a = bit_xor-bitwise 0 a

pub xor_zero : (a : ℕ) → bit_xor a 0 ≡ a
xor_zero a = xor_comm a 0 ∙ zero_xor a

-- `a ^ b ^ b` is `a`.
pub xor_cancel : (a b : ℕ) → bit_xor (bit_xor a b) b ≡ a
xor_cancel a b = xor_assoc a b b ∙ ap (bit_xor a) (xor_self b) ∙ xor_zero a

pub xor_width : (k a b : ℕ) → a < 2 ^ k → b < 2 ^ k → bit_xor a b < 2 ^ k
xor_width zero zero zero p q = omega arith
xor_width zero zero (suc b) p q = absurd (omega arith)
xor_width zero (suc a) b p q = absurd (omega arith)
xor_width (suc k) a b p q = omega (
  arith,
  pow-suc 2 k,
  xor_digit a b,
  xor_width k (a / 2) (b / 2) (omega (arith, pow-suc 2 k)) (omega (arith, pow-suc 2 k)),
)

pub xor-IsByte : (a b : ℕ) → a < 256 → b < 256 → bit_xor a b < 256
xor-IsByte a b p q = xor_width 8 a b p q

pub or_width : (k a b : ℕ) → a < 2 ^ k → b < 2 ^ k → bit_or a b < 2 ^ k
or_width zero zero zero p q = omega arith
or_width zero zero (suc b) p q = absurd (omega arith)
or_width zero (suc a) b p q = absurd (omega arith)
or_width (suc k) a b p q = omega (
  arith,
  pow-suc 2 k,
  or_digit a b,
  or_width k (a / 2) (b / 2) (omega (arith, pow-suc 2 k)) (omega (arith, pow-suc 2 k)),
)

-- `x | 0` and `(q << k) | r` for an `r` of `k` bits.
or_zero_below : (n a : ℕ) → a ≤ n → bit_or a 0 ≡ a
or_zero_below n zero h = refl
or_zero_below zero (suc a) h = absurd (omega arith)
or_zero_below (suc n) (suc a) h =
    omega (arith, or_digit (suc a) 0, or_zero_below n (suc a / 2) (omega arith))

pub or_zero : (a : ℕ) → bit_or a 0 ≡ a
or_zero a = or_zero_below a a (omega arith)

twice_power : (q k : ℕ) → q * 2 ^ suc k ≡ q * 2 ^ k * 2
twice_power q k = omega (arith, ap (λ (t : ℕ). q * t) (pow-suc 2 k))

half_twice : (x : ℕ) → x * 2 / 2 ≡ x
half_twice x = omega arith

pub or_shifted : (k q r : ℕ) → r < 2 ^ k → bit_or (q * 2 ^ k) r ≡ q * 2 ^ k + r
or_shifted zero q zero h = or_zero (q * 2 ^ 0) ∙ omega arith
or_shifted zero q (suc r) h = absurd (omega arith)
or_shifted (suc k) q r h = rw (twice_power q k) (
    omega (
      arith,
      or_digit (q * 2 ^ k * 2) r,
      ap (λ (x : ℕ). bit_or x (r / 2)) (half_twice (q * 2 ^ k)),
      or_shifted k q (r / 2) (omega (arith, pow-suc 2 k)),
    ))

zero_or : (q : ℕ) → bit_or 0 q ≡ q
zero_or q = bit_or-bitwise 0 q

pub or_shifted_low : (k q r : ℕ) → r < 2 ^ k → bit_or r (q * 2 ^ k) ≡ r + q * 2 ^ k
or_shifted_low zero q zero h = zero_or (q * 2 ^ 0) ∙ omega arith
or_shifted_low zero q (suc r) h = absurd (omega arith)
or_shifted_low (suc k) q r h = rw (twice_power q k) (
    omega (
      arith,
      or_digit r (q * 2 ^ k * 2),
      ap (λ (x : ℕ). bit_or (r / 2) x) (half_twice (q * 2 ^ k)),
      or_shifted_low k q (r / 2) (omega (arith, pow-suc 2 k)),
    ))

and_zero_below : (n a : ℕ) → a ≤ n → bit_and a 0 ≡ 0
and_zero_below n zero h = refl
and_zero_below zero (suc a) h = absurd (omega arith)
and_zero_below (suc n) (suc a) h =
    omega (arith, and_digit (suc a) 0, and_zero_below n (suc a / 2) (omega arith))

pub and_zero : (a : ℕ) → bit_and a 0 ≡ 0
and_zero a = and_zero_below a a (omega arith)

-- The low three bits of any number.
pub and_seven : (a : ℕ) → bit_and a 7 ≡ a % 8
and_seven a =
    omega
      (arith, and_digit a 7, and_digit (a / 2) 3, and_digit (a / 2 / 2) 1, and_zero (a / 2 / 2 / 2))

-- A check of every value below a bound, by evaluation.
all_below : ℕ → (ℕ → Bool) → Bool
all_below zero p = true
all_below (suc n) p = p n && all_below n p

all_below→ : (n : ℕ) (p : ℕ → Bool) (x : ℕ) → all_below n p ≡ true → x < n → p x ≡ true
unfolding all_below
all_below→ zero p x h lt = absurd (omega arith)
all_below→ (suc n) p x h lt = ground (arith, all_below→ n p x)

eq_below :
    (n : ℕ) (f g : ℕ → ℕ) → all_below n (λ x. f x == g x) ≡ true → (x : ℕ) → x < n → f x ≡ g x
eq_below n f g h x lt = (==_iff (f x) (g x)).0 (all_below→ n (λ x. f x == g x) x h lt)

-- Masks on one byte.
pub and_0x7f : (b : ℕ) → b < 256 → bit_and b 0x7F ≡ b % 128
unfolding all_below
and_0x7f = eq_below 256 _ _ refl

pub and_0x80 : (b : ℕ) → b < 256 → bit_and b 0x80 ≡ b / 128 * 128
unfolding all_below
and_0x80 = eq_below 256 _ _ refl

pub and_0xc0 : (b : ℕ) → b < 256 → bit_and b 0xC0 ≡ b / 64 * 64
unfolding all_below
and_0xc0 = eq_below 256 _ _ refl

pub and_0xe0 : (b : ℕ) → b < 256 → bit_and b 0xE0 ≡ b / 32 * 32
unfolding all_below
and_0xe0 = eq_below 256 _ _ refl

pub and_0xf0 : (b : ℕ) → b < 256 → bit_and b 0xF0 ≡ b / 16 * 16
unfolding all_below
and_0xf0 = eq_below 256 _ _ refl

pub and_0xfc : (b : ℕ) → b < 256 → bit_and b 0xFC ≡ b / 4 * 4
unfolding all_below
and_0xfc = eq_below 256 _ _ refl

pub and_0x3f : (b : ℕ) → b < 256 → bit_and b 0x3F ≡ b % 64
unfolding all_below
and_0x3f = eq_below 256 _ _ refl

pub and_0x1f : (b : ℕ) → b < 256 → bit_and b 0x1F ≡ b % 32
unfolding all_below
and_0x1f = eq_below 256 _ _ refl

pub and_0x0f : (b : ℕ) → b < 256 → bit_and b 0x0F ≡ b % 16
unfolding all_below
and_0x0f = eq_below 256 _ _ refl

pub and_0x07 : (b : ℕ) → b < 256 → bit_and b 0x07 ≡ b % 8
unfolding all_below
and_0x07 = eq_below 256 _ _ refl

pub and_0x03 : (b : ℕ) → b < 256 → bit_and b 0x03 ≡ b % 4
unfolding all_below
and_0x03 = eq_below 256 _ _ refl

pub or_0x80 : (b : ℕ) → b < 128 → bit_or b 0x80 ≡ b + 128
unfolding all_below
or_0x80 = eq_below 128 _ _ refl

pub byte_or_0x80 : (b : ℕ) → b < 256 → bit_or b 0x80 ≡ b % 128 + 128
unfolding all_below
byte_or_0x80 = eq_below 256 _ _ refl

pub or_0xc0 : (b : ℕ) → b < 64 → bit_or b 0xC0 ≡ b + 192
unfolding all_below
or_0xc0 = eq_below 64 _ _ refl

pub or_0xe0 : (b : ℕ) → b < 32 → bit_or b 0xE0 ≡ b + 224
unfolding all_below
or_0xe0 = eq_below 32 _ _ refl
