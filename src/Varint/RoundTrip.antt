-- ===== src/Varint/RoundTrip.antt =====
-- `Decode` after `encode`.
use barnard_stormdragon_ai_f.Prelude.{
  ℕ, zero, suc, ◌+◌, ◌-◌, ◌*◌, ◌/◌, ◌%◌, ◌^◌, ◌<◌, ◌≤◌, ◌≡◌, ◌≢◌, ap₂, lt→ltb, refl, arith, List,
  ◌∷◌, ◌++◌, bit_and, bit_or, false, true, ap, sym, ◌∙◌, length, ◌==◌,
}
use barnard_stormdragon_ai_f.Prelude.Bits
use barnard_stormdragon_ai_f.Prelude.Int.{ℤ, pos, negsuc}
use barnard_stormdragon_ai_f.Varint.{
  neg64, encode_nat, encode, decode, IsInt64, big_endian, to_int64,
}
use barnard_stormdragon_ai_f.Varint.Bytes.{
  join_two, join_three, join_four, read_u32, read_u64, length-big_endian,
}
use barnard_stormdragon_ai_f.Varint.Shape.{
  room, Shape, one, two, three, four, five, nine, encode_nat-Shape,
}
use native.Mathlib.Decide.{dec_lt, ℕ_discrete}

-- Lengths of lead-byte groups, as `Decode` sees them.
decode_one : (v : ℕ) (rest : List ℕ) → v < 128 → decode (v ∷ rest) ≡ (pos v, 1)
unfolding decode
decode_one v rest h = ground (arith, Bits.and_0x80 v)

decode_two :
    (a b : ℕ) (rest : List ℕ)
    → a < 64
    → b < 256
    → decode ((a + 128) ∷ b ∷ rest) ≡ (pos (a * 256 + b), 2)
unfolding decode
decode_two a b rest p q =
    ground (
      arith,
      Bits.and_0x80 (a + 128),
      Bits.and_0xc0 (a + 128),
      Bits.and_0x3f (a + 128),
      join_two a b,
    )

-- The tests of `Decode` on the lead byte of three and of four.
lead_three :
    (a : ℕ)
    → a < 32
    → ((bit_and (a + 192) 0x80 == 0) ≡ false)
      × ((bit_and (a + 192) 0xC0 == 0x80) ≡ false)
      × ((bit_and (a + 192) 0xE0 == 0xC0) ≡ true)
      × (bit_and (a + 192) 0x1F ≡ a)
lead_three a p = (
  ground (arith, Bits.and_0x80 (a + 192)),
  ground (arith, Bits.and_0xc0 (a + 192)),
  ground (arith, Bits.and_0xe0 (a + 192)),
  omega (arith, Bits.and_0x1f (a + 192) (omega arith)),
)

lead_four :
    (a : ℕ)
    → a < 16
    → ((bit_and (a + 224) 0x80 == 0) ≡ false)
      × ((bit_and (a + 224) 0xC0 == 0x80) ≡ false)
      × ((bit_and (a + 224) 0xE0 == 0xC0) ≡ false)
      × ((bit_and (a + 224) 0xF0 == 0xE0) ≡ true)
      × (bit_and (a + 224) 0x0F ≡ a)
lead_four a p = (
  ground (arith, Bits.and_0x80 (a + 224)),
  ground (arith, Bits.and_0xc0 (a + 224)),
  ground (arith, Bits.and_0xe0 (a + 224)),
  ground (arith, Bits.and_0xf0 (a + 224)),
  omega (arith, Bits.and_0x0f (a + 224) (omega arith)),
)

decode_three :
    (a b c : ℕ) (rest : List ℕ)
    → a < 32
    → b < 256
    → c < 256
    → decode ((a + 192) ∷ b ∷ c ∷ rest) ≡ (pos ((a * 256 + b) * 256 + c), 3)
unfolding decode
decode_three a b c rest p q r =
    let (t, u, v, w) = lead_three a p in
    rw (t, u, v, room 3 (length ((a + 192) ∷ b ∷ c ∷ rest)) (omega arith), w)
      (ap (λ x. (pos x, 3)) (join_three a b c q r))

decode_four :
    (a b c d : ℕ) (rest : List ℕ)
    → a < 16
    → b < 256
    → c < 256
    → d < 256
    → decode ((a + 224) ∷ b ∷ c ∷ d ∷ rest) ≡ (pos (((a * 256 + b) * 256 + c) * 256 + d), 4)
unfolding decode
decode_four a b c d rest p q r s =
    let (t, u, v, x, w) = lead_four a p in
    rw (t, u, v, x, room 4 (length ((a + 224) ∷ b ∷ c ∷ d ∷ rest)) (omega arith), w)
      (ap (λ x. (pos x, 4)) (join_four a b c d q r s))

decode_u32 :
    (v : ℕ) (rest : List ℕ) → v < 2 ^ 32 → decode (0xF0 ∷ big_endian 4 v ++ rest) ≡ (pos v, 5)
unfolding decode big_endian
decode_u32 v rest h = ground (arith, read_u32 v rest)

decode_u64 :
    (v : ℕ) (rest : List ℕ) → v < 2 ^ 64 → decode (0xF4 ∷ big_endian 8 v ++ rest) ≡ (to_int64 v, 9)
unfolding decode big_endian
decode_u64 v rest h = ground (arith, read_u64 v rest)

value : {m v : ℕ} (n : ℕ) → m ≡ v → ◌≡◌ {A = ℤ × ℕ} (pos m, n) (pos v, n)
value n e = ap (λ x. (pos x, n)) e

sized : (v : ℕ) {n k : ℕ} → n ≡ k → ◌≡◌ {A = ℤ × ℕ} (pos v, k) (pos v, n)
sized v e = ap (λ x. (pos v, x)) (sym e)

read-Shape :
    (v : ℕ) (bytes rest : List ℕ)
    → v < 2 ^ 63
    → Shape v bytes
    → decode (bytes ++ rest) ≡ (pos v, length bytes)
read-Shape v bytes rest h (one a e) = rw e (decode_one v rest a)
read-Shape v bytes rest h (two l a e) =
    rw e (decode_two (v / 256) (v % 256) rest (omega arith) (omega arith) ∙ value 2 (omega arith))
read-Shape v bytes rest h (three l a e) = rw e (
    decode_three (v / 65536) (v / 256 % 256) (v % 256) rest (omega arith) (omega arith)
      (omega arith)
    ∙ value 3 (omega arith))
read-Shape v bytes rest h (four l a e) = rw e (
    decode_four (v / 16777216) (v / 65536 % 256) (v / 256 % 256) (v % 256) rest (omega arith)
      (omega arith) (omega arith) (omega arith)
    ∙ value 4 (omega arith))
read-Shape v bytes rest h (five l a e) =
    rw e (decode_u32 v rest (omega arith) ∙ sized v (ap suc (length-big_endian 4 v)))
read-Shape v bytes rest h (nine l e) = rw e (
    decode_u64 v rest (omega arith)
    ∙ ap₂ (λ x n. (x, n)) (ground arith) (sym (ap suc (length-big_endian 8 v))))

-- `Decode` reads back a value that is not negative, and counts its bytes.
decode-encode_nat :
    (v : ℕ) (rest : List ℕ)
    → v < 2 ^ 63
    → decode (encode_nat v ++ rest) ≡ (pos v, length (encode_nat v))
decode-encode_nat v rest h = read-Shape v (encode_nat v) rest h (encode_nat-Shape v)

-- A negated varint: the recursive branch of `Decode`.
decode_negated :
    (bs : List ℕ) (v : ℤ) (n : ℕ)
    → decode bs ≡ (v, n)
    → 0 < n
    → decode (0xF8 ∷ bs) ≡ (neg64 v, n + 1)
unfolding decode
decode_negated bs v n e h = rw (e, lt→ltb 0 n h)

encode_nat_nonempty : (v : ℕ) → 0 < length (encode_nat v)
unfolding encode_nat
encode_nat_nonempty v = ground arith

decode_small :
    (n : ℕ) (rest : List ℕ)
    → n < 4
    → decode (bit_or 0xFC (bit_and n 0xFF % 256) ∷ rest) ≡ (negsuc n, 1)
unfolding decode
decode_small zero rest h = refl
decode_small (suc zero) rest h = refl
decode_small (suc (suc zero)) rest h = refl
decode_small (suc (suc (suc zero))) rest h = refl
decode_small (suc (suc (suc (suc n)))) rest h = absurd (omega arith)

encode_least : (n : ℕ) → n ≡ 2 ^ 63 - 1 → encode (negsuc n) ≡ 0xF8 ∷ 0xF4 ∷ big_endian 8 (2 ^ 63)
unfolding encode
encode_least n e = rw e

encode_negative : (n : ℕ) → 4 ≤ n → n ≢ 2 ^ 63 - 1 → encode (negsuc n) ≡ 0xF8 ∷ encode_nat (n + 1)
unfolding encode
encode_negative n h ne = ground arith

neg64_pos : (n : ℕ) → neg64 (pos (n + 1)) ≡ negsuc n
neg64_pos n = ground arith

-- Every int64 that `encode` writes, the least one included, is read back by `Decode` with the
-- number of bytes written, whatever bytes follow it.
pub decode-encode :
    (v : ℤ) (rest : List ℕ) → IsInt64 v → decode (encode v ++ rest) ≡ (v, length (encode v))
unfolding encode
decode-encode (pos v) rest h = decode-encode_nat v rest h
decode-encode (negsuc n) rest h = elim (dec_lt n 4) [
  | yes a ↦ rw (lt→ltb n 4 a) (decode_small n rest a)
  | no a ↦ elim (ℕ_discrete n (2 ^ 63 - 1)) [
    | yes e ↦ rw (encode_least n e) (
        decode_negated _ _ _ (decode_u64 (2 ^ 63) rest (omega arith)) (omega arith)
        ∙ ap₂ (λ x k. (x, k)) (ap negsuc (sym e))
            (sym (ap (λ k. suc (suc k)) (length-big_endian 8 (2 ^ 63)))))
    | no e ↦ rw (encode_negative n (omega arith) e) (
        decode_negated _ _ _ (decode-encode_nat (n + 1) rest (omega arith))
          (encode_nat_nonempty (n + 1))
        ∙ ap₂ (λ x k. (x, k)) (neg64_pos n) (omega arith))
  ]
]
