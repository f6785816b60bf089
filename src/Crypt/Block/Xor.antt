-- ===== src/Crypt/Block/Xor.antt =====
-- Exclusive or of blocks.
use barnard_stormdragon_ai_f.Prelude.{
  ℕ, suc, ◌*◌, ◌/◌, ◌%◌, ◌<◌, ◌≤◌, ◌≡◌, refl, ap, ap₂, ◌∙◌, arith, List, [], ◌∷◌, length, All,
  IsByte, min,
}
use barnard_stormdragon_ai_f.Prelude.Bits
use barnard_stormdragon_ai_f.Crypt.Block.{IsBlock, xor_bytes, shift2, shift3, shift_bytes, carry}

pub length-xor_bytes : (a b : List ℕ) → length (xor_bytes a b) ≡ min (length a) (length b)
unfolding xor_bytes
length-xor_bytes [] b = omega arith
length-xor_bytes (x ∷ a) [] = omega arith
length-xor_bytes (x ∷ a) (y ∷ b) = omega (arith, length-xor_bytes a b)

pub xor_bytes-IsByte : (a b : List ℕ) → All IsByte a → All IsByte b → All IsByte (xor_bytes a b)
unfolding xor_bytes
xor_bytes-IsByte [] b p q = tt
xor_bytes-IsByte (x ∷ a) [] p q = tt
xor_bytes-IsByte (x ∷ a) (y ∷ b) p q = (Bits.xor-IsByte x y p.0 q.0, xor_bytes-IsByte a b p.1 q.1)

pub xor_bytes-IsBlock : (a b : List ℕ) → IsBlock a → IsBlock b → IsBlock (xor_bytes a b)
xor_bytes-IsBlock a b p q = record {
  size = omega (arith, length-xor_bytes a b, p.size, q.size);
  bytes = xor_bytes-IsByte a b p.bytes q.bytes;
}

-- A mask that is long enough comes off again.
pub xor_bytes_cancel : (a b : List ℕ) → length a ≤ length b → xor_bytes (xor_bytes a b) b ≡ a
unfolding xor_bytes
xor_bytes_cancel [] b h = refl
xor_bytes_cancel (x ∷ a) [] h = absurd (omega arith)
xor_bytes_cancel (x ∷ a) (y ∷ b) h =
    ap₂ ◌∷◌ (Bits.xor_cancel x y) (xor_bytes_cancel a b (omega arith))

pub xor_bytes_comm : (a b : List ℕ) → xor_bytes a b ≡ xor_bytes b a
unfolding xor_bytes
xor_bytes_comm [] [] = refl
xor_bytes_comm [] (y ∷ b) = refl
xor_bytes_comm (x ∷ a) [] = refl
xor_bytes_comm (x ∷ a) (y ∷ b) = ap₂ ◌∷◌ (Bits.xor_comm x y) (xor_bytes_comm a b)

pub xor_bytes_assoc : (a b c : List ℕ) → xor_bytes (xor_bytes a b) c ≡ xor_bytes a (xor_bytes b c)
unfolding xor_bytes
xor_bytes_assoc [] b c = refl
xor_bytes_assoc (x ∷ a) [] c = refl
xor_bytes_assoc (x ∷ a) (y ∷ b) [] = refl
xor_bytes_assoc (x ∷ a) (y ∷ b) (z ∷ c) = ap₂ ◌∷◌ (Bits.xor_assoc x y z) (xor_bytes_assoc a b c)

length-shift_bytes : (c : ℕ) (b : List ℕ) → length (shift_bytes c b) ≡ length b
unfolding shift_bytes
length-shift_bytes c [] = refl
length-shift_bytes c (b ∷ []) = refl
length-shift_bytes c (b ∷ next ∷ rest) = ap suc (length-shift_bytes c (next ∷ rest))

shift_bytes-IsByte : (c : ℕ) (b : List ℕ) → c < 256 → All IsByte b → All IsByte (shift_bytes c b)
unfolding shift_bytes
shift_bytes-IsByte c [] hc h = tt
shift_bytes-IsByte c (b ∷ []) hc h = (Bits.xor-IsByte (b * 2 % 256) c (omega arith) hc, tt)
shift_bytes-IsByte c (b ∷ next ∷ rest) hc h = (
  Bits.or_width 8 (b * 2 % 256) (next / 128) (omega arith) (omega arith),
  shift_bytes-IsByte c (next ∷ rest) hc h.1,
)

pub shift2-IsBlock : (b : List ℕ) → IsBlock b → IsBlock (shift2 b)
unfolding shift2
shift2-IsBlock b h = record {
  size = length-shift_bytes (carry b) b ∙ h.size;
  bytes = shift_bytes-IsByte (carry b) b (omega arith) h.bytes;
}

pub shift3-IsBlock : (b : List ℕ) → IsBlock b → IsBlock (shift3 b)
unfolding shift3
shift3-IsBlock b h = xor_bytes-IsBlock (shift2 b) b (shift2-IsBlock b h) h
