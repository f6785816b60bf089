-- ===== src/Varint/Bounds.antt =====
-- The sizes and ranges of what `encode` writes and `Decode` returns.
use barnard_stormdragon_ai_f.Prelude.{
  ℕ, zero, suc, ◌+◌, ◌-◌, ◌*◌, ◌%◌, ◌^◌, ◌<◌, ◌≤◌, ◌≡◌, arith, List, [], ◌∷◌, bit_and, bit_or,
  length, All, IsByte, if_ind, &&-true, ltb, leb, leb→le, ltb→lt, Bool, ◌&&◌, ◌==◌, true, get_or,
}
use barnard_stormdragon_ai_f.Prelude.Bits
use barnard_stormdragon_ai_f.Prelude.Int.{ℤ, pos, negsuc}
use barnard_stormdragon_ai_f.Varint.{
  encode_nat, encode, decode, IsInt64, from_big_endian, to_int64, neg64, negated, to_uint64,
  max_varint_len,
}
use barnard_stormdragon_ai_f.Varint.Shape.{
  Shape, one, two, three, four, five, nine, encode_nat-Shape,
}
use barnard_stormdragon_ai_f.Varint.Bytes.{
  join_two, join_three, join_four, from_big_endian-lt, length-big_endian, big_endian-IsByte,
}

-- What `encode` may write: bytes, one to `k` of them.
abbrev Fits : ℕ → List ℕ → Type 0
Fits k bytes = All IsByte bytes × (1 ≤ length bytes) × (length bytes ≤ k)

Shape-Fits : (v : ℕ) (bytes : List ℕ) → v < 2 ^ 63 → Shape v bytes → Fits 9 bytes
Shape-Fits v bytes h (one a e) = rw e (omega arith)
Shape-Fits v bytes h (two l a e) = rw e (omega arith)
Shape-Fits v bytes h (three l a e) = rw e (omega arith)
Shape-Fits v bytes h (four l a e) = rw e (omega arith)
Shape-Fits v bytes h (five l a e) =
    rw e ((omega arith, big_endian-IsByte 4 v), omega arith, omega (arith, length-big_endian 4 v))
Shape-Fits v bytes h (nine l e) =
    rw e ((omega arith, big_endian-IsByte 8 v), omega arith, omega (arith, length-big_endian 8 v))

encode_nat-Fits : (v : ℕ) → v < 2 ^ 63 → Fits 9 (encode_nat v)
encode_nat-Fits v h = Shape-Fits v (encode_nat v) h (encode_nat-Shape v)

small_byte : (n : ℕ) → n < 4 → bit_or 0xFC (bit_and n 0xFF % 256) < 256
small_byte zero h = omega arith
small_byte (suc zero) h = omega arith
small_byte (suc (suc zero)) h = omega arith
small_byte (suc (suc (suc zero))) h = omega arith
small_byte (suc (suc (suc (suc n)))) h = absurd (omega arith)

-- `encode` writes one to ten elements and each is a byte, so its buffer of `MaxVarintLen` bytes
-- never overflows.
pub encode_bounds :
    (v : ℤ)
    → IsInt64 v
    → All IsByte (encode v) × (1 ≤ length (encode v)) × (length (encode v) ≤ max_varint_len)
unfolding encode
encode_bounds (pos v) h = let (a, b, c) = encode_nat-Fits v h in (a, b, omega arith)
encode_bounds (negsuc n) h =
    if_ind (Fits 10) (ltb n 4) (λ e. ((small_byte n (ltb→lt n 4 e), tt), omega arith, omega arith))
      λ _.
        if_ind (Fits 10) (n == 2 ^ 63 - 1)
          (λ _. (
            (omega arith, (omega arith, big_endian-IsByte 8 _)),
            omega arith,
            omega (arith, length-big_endian 8 (to_uint64 (negsuc n))),
          ))
          λ e.
            let (a, b, c) = encode_nat-Fits (n + 1) (ground arith) in
            ((omega arith, a), omega arith, omega arith)

-- What `Decode` may return on a slice of `k` bytes.
data Sound (k : ℕ) : ℤ × ℕ → Type 0 where
  sound : {v : ℤ} {n : ℕ} → n ≤ k → IsInt64 v → Sound k (v, n)

neg64-IsInt64 : (v : ℤ) → IsInt64 v → IsInt64 (neg64 v)
neg64-IsInt64 (pos v) h = if_ind IsInt64 (v == 0) (λ _. omega arith) (λ _. omega arith)
neg64-IsInt64 (negsuc n) h = if_ind IsInt64 (n == 2 ^ 63 - 1) (λ _. h) (λ e. ground arith)

negated-Sound : (k : ℕ) (r : ℤ × ℕ) → Sound k r → Sound (suc k) (negated r)
negated-Sound k r (sound {v} {n} le h) =
    if_ind (Sound (suc k)) (ltb 0 n) (λ _. sound (omega arith) (neg64-IsInt64 v h))
      (λ _. sound (omega arith) (omega arith))

to_int64-IsInt64 : (u : ℕ) → u < 2 ^ 64 → IsInt64 (to_int64 u)
to_int64-IsInt64 u h = if_ind IsInt64 (ltb u (2 ^ 63)) (λ e. ltb→lt u _ e) (λ e. ground arith)

get_or-IsByte : (i : ℕ) (bs : List ℕ) → All IsByte bs → IsByte (get_or bs i 0)
get_or-IsByte i [] h = omega arith
get_or-IsByte zero (b ∷ bs) h = h.0
get_or-IsByte (suc i) (b ∷ bs) h = get_or-IsByte i bs h.1

fits : (k : ℕ) (bs : List ℕ) (c : Bool) → (c && leb k (length bs)) ≡ true → k ≤ length bs
fits k bs c h = leb→le k (length bs) (&&-true c _ h).1

join_two-lt : (a b : ℕ) → IsByte a → IsByte b → bit_or (bit_and a 0x3F * 2 ^ 8) b < 2 ^ 63
join_two-lt a b p q = omega (arith, Bits.and_0x3f a p, join_two (bit_and a 0x3F) b q)

join_three-lt :
    (a b c : ℕ)
    → IsByte a
    → IsByte b
    → IsByte c
    → bit_or (bit_or (bit_and a 0x1F * 2 ^ 16) (b * 2 ^ 8)) c < 2 ^ 63
join_three-lt a b c p q r = omega (arith, Bits.and_0x1f a p, join_three (bit_and a 0x1F) b c q r)

join_four-lt :
    (a b c d : ℕ)
    → IsByte a
    → IsByte b
    → IsByte c
    → IsByte d
    → bit_or (bit_or (bit_or (bit_and a 0x0F * 2 ^ 24) (b * 2 ^ 16)) (c * 2 ^ 8)) d < 2 ^ 63
join_four-lt a b c d p q r s =
    omega (arith, Bits.and_0x0f a p, join_four (bit_and a 0x0F) b c d q r s)

decode-Sound : (b : List ℕ) → All IsByte b → Sound (length b) (decode b)
unfolding decode
decode-Sound [] h = sound (omega arith) (omega arith)
decode-Sound (b ∷ bs) h =
    let len : ℕ = length (b ∷ bs) in
    if_ind (Sound len) (bit_and b 0x80 == 0) (λ _. sound (omega arith) (omega arith))
      λ _.
        if_ind (Sound len) (bit_and b 0xC0 == 0x80 && leb 2 len)
          (λ e. sound (fits 2 (b ∷ bs) _ e) (join_two-lt b (get_or bs 0 0) h.0 (at 0)))
          λ _.
            if_ind (Sound len) (bit_and b 0xE0 == 0xC0 && leb 3 len)
              (λ e. sound (fits 3 (b ∷ bs) _ e) (join_three-lt b _ _ h.0 (at 0) (at 1)))
              λ _.
                if_ind (Sound len) (bit_and b 0xF0 == 0xE0 && leb 4 len)
                  (λ e. sound (fits 4 (b ∷ bs) _ e) (join_four-lt b _ _ _ h.0 (at 0) (at 1) (at 2)))
                  λ _.
                    if_ind (Sound len) (bit_and b 0xFC == 0xF0 && leb 5 len)
                      (λ e.
                        sound (fits 5 (b ∷ bs) _ e) (omega (arith, from_big_endian-lt 4 bs h.1)))
                      λ _.
                        if_ind (Sound len) (bit_and b 0xFC == 0xF4 && leb 9 len)
                          (λ e. sound (fits 9 (b ∷ bs) _ e) (
                            to_int64-IsInt64 (from_big_endian 8 bs)
                              (omega (arith, from_big_endian-lt 8 bs h.1))))
                          λ _.
                            if_ind (Sound len) (bit_and b 0xFC == 0xF8)
                              (λ _. negated-Sound (length bs) (decode bs) (decode-Sound bs h.1))
                              λ _.
                                if_ind (Sound len) (bit_and b 0xFC == 0xFC)
                                  (λ _. sound (omega arith) (omega (arith, Bits.and_0x03 b h.0)))
                                  (λ _. sound (omega arith) (omega arith))
  where
    at : (i : ℕ) → IsByte (get_or bs i 0)
    at i = get_or-IsByte i bs h.1

Sound-parts : {k : ℕ} {r : ℤ × ℕ} → Sound k r → (r.1 ≤ k) × IsInt64 r.0
Sound-parts (sound le h) = (le, h)

-- On any slice of bytes `Decode` reads no more than the slice holds and returns an int64.
pub decode_bounds : (b : List ℕ) → All IsByte b → ((decode b).1 ≤ length b) × IsInt64 (decode b).0
decode_bounds b h = Sound-parts (decode-Sound b h)
