-- ===== src/Protobuf/Bounds.antt =====
-- What `pbDecodeVarint` may return on any bytes.
use barnard_stormdragon_ai_f.Prelude.{
  ℕ, suc, ◌+◌, ◌*◌, ◌%◌, ◌^◌, ◌<◌, ◌≤◌, arith, List, [], ◌∷◌, bit_and, length, ltb, ◌==◌, ◌||◌,
  ◌&&◌, if_ind,
}
use barnard_stormdragon_ai_f.Prelude.Bits
use barnard_stormdragon_ai_f.Protobuf.{pb_decode_loop, pb_decode, add_group}

-- An error, or a uint64 with the bytes read so far, at most ten in all.
data Sound (i k : ℕ) : ℕ × ℕ → Type 0 where
  bad : Sound i k (0, 0)
  good : {v n : ℕ} → i < n → n ≤ i + k → n ≤ 10 → v < 2 ^ 64 → Sound i k (v, n)

-- Joining a group keeps 64 bits.
add_group-lt : (v b i : ℕ) → v < 2 ^ 64 → add_group v b i < 2 ^ 64
add_group-lt v b i h = Bits.or_width 64 v (bit_and b 0x7F * 2 ^ (7 * i) % 2 ^ 64) h (omega arith)

pb_decode_loop-Sound :
    (buf : List ℕ) (i v : ℕ) → i ≤ 10 → v < 2 ^ 64 → Sound i (length buf) (pb_decode_loop buf i v)
unfolding pb_decode_loop
pb_decode_loop-Sound [] i v hi hv = bad
pb_decode_loop-Sound (b ∷ rest) i v hi hv =
    if_ind (Sound i (suc (length rest))) (i == 10 || (i == 9 && ltb 1 b)) (λ _. bad)
      λ e.
        if_ind (Sound i (suc (length rest))) (ltb b 0x80)
          (λ _. good (omega arith) (omega arith) (ground arith) (add_group-lt v b i hv))
          λ _. later (
            pb_decode_loop-Sound rest (i + 1) (add_group v b i) (ground arith)
              (add_group-lt v b i hv))
  where
    later : {r : ℕ × ℕ} → Sound (i + 1) (length rest) r → Sound i (suc (length rest)) r
    later bad = bad
    later (good p q r s) = good (omega arith) (omega arith) r s

parts : {k : ℕ} {r : ℕ × ℕ} → Sound 0 k r → (r.1 ≤ k) × (r.1 ≤ 10) × (r.0 < 2 ^ 64)
parts bad = omega arith
parts (good p q r s) = (omega arith, r, s)

-- On any slice `pbDecodeVarint` reads no more than the slice holds and no more than ten bytes, and
-- returns a uint64.
pub pb_decode_bounds :
    (buf : List ℕ)
    → ((pb_decode buf).1 ≤ length buf) × ((pb_decode buf).1 ≤ 10) × ((pb_decode buf).0 < 2 ^ 64)
unfolding pb_decode
pb_decode_bounds buf = parts (pb_decode_loop-Sound buf 0 0 (omega arith) (omega arith))
