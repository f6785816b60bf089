-- ===== src/Varint/Bytes.antt =====
-- Byte layouts as arithmetic: big-endian words, and the joins of shifted bytes.
use barnard_stormdragon_ai_f.Prelude.{
  ℕ, zero, suc, ◌+◌, ◌*◌, ◌^◌, ◌<◌, ◌≡◌, refl, arith, List, [], ◌∷◌, ◌++◌, bit_or, length, All,
  IsByte, ap, ◌∙◌,
}
use barnard_stormdragon_ai_f.Prelude.Bits.{or_shifted}
use barnard_stormdragon_ai_f.Varint.{big_endian, from_big_endian}
use native.Mathlib.Nat.{pow-suc, one-le-pow}

-- Two, three and four bytes joined by `<<` and `|`.
pub join_two : (a b : ℕ) → b < 256 → bit_or (a * 2 ^ 8) b ≡ a * 256 + b
join_two a b h = or_shifted 8 a b h

pub join_three :
    (a b c : ℕ)
    → b < 256
    → c < 256
    → bit_or (bit_or (a * 2 ^ 16) (b * 2 ^ 8)) c ≡ (a * 256 + b) * 256 + c
join_three a b c p q =
    ap (λ x. bit_or x c) (or_shifted 16 a (b * 2 ^ 8) (omega arith) ∙ omega arith)
    ∙ or_shifted 8 (a * 256 + b) c q

pub join_four :
    (a b c d : ℕ)
    → b < 256
    → c < 256
    → d < 256
    → bit_or (bit_or (bit_or (a * 2 ^ 24) (b * 2 ^ 16)) (c * 2 ^ 8)) d
      ≡ ((a * 256 + b) * 256 + c) * 256 + d
join_four a b c d p q r =
    ap (λ x. bit_or (bit_or x (c * 2 ^ 8)) d) (or_shifted 24 a (b * 2 ^ 16) (omega arith) ∙ regroup)
    ∙ join_three (a * 256 + b) c d q r
  where
    regroup : a * 2 ^ 24 + b * 2 ^ 16 ≡ (a * 256 + b) * 2 ^ 16
    regroup = omega arith

pub length-big_endian : (k v : ℕ) → length (big_endian k v) ≡ k
unfolding big_endian
length-big_endian zero v = refl
length-big_endian (suc k) v = ap suc (length-big_endian k v)

-- Reading back what was written.
pub read_u32 : (v : ℕ) (rest : List ℕ) → v < 2 ^ 32 → from_big_endian 4 (big_endian 4 v ++ rest) ≡ v
unfolding big_endian from_big_endian
read_u32 v rest h = omega arith

pub read_u64 : (v : ℕ) (rest : List ℕ) → v < 2 ^ 64 → from_big_endian 8 (big_endian 8 v ++ rest) ≡ v
unfolding big_endian from_big_endian
read_u64 v rest h = omega arith

pub big_endian-IsByte : (k v : ℕ) → All IsByte (big_endian k v)
unfolding big_endian
big_endian-IsByte zero v = tt
big_endian-IsByte (suc k) v = (omega arith, big_endian-IsByte k v)

pub from_big_endian-lt :
    (k : ℕ) (bytes : List ℕ) → All IsByte bytes → from_big_endian k bytes < 256 ^ k
unfolding from_big_endian
from_big_endian-lt zero bytes h = omega arith
from_big_endian-lt (suc k) [] h = grind (arith, pow-suc 256 k, one-le-pow k 256)
from_big_endian-lt (suc k) (b ∷ bytes) h =
    grind (arith, pow-suc 256 k, from_big_endian-lt k bytes h.1)
