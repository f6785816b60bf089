-- ===== src/Varint/Shape.antt =====
-- What `encode` writes for a value that is not negative, in plain arithmetic.
use barnard_stormdragon_ai_f.Prelude.{
  ℕ, ◌+◌, ◌/◌, ◌%◌, ◌^◌, ◌<◌, ◌≤◌, ◌≡◌, arith, List, [], ◌∷◌, leb, true, ap,
}
use barnard_stormdragon_ai_f.Prelude.Bits
use barnard_stormdragon_ai_f.Varint.{encode_nat, big_endian}
use native.Mathlib.Decide.{dec_lt}

pub room : (k n : ℕ) → k ≤ n → leb k n ≡ true
room k n h = ground arith

-- The shapes that `encode_nat` writes.
module _ (v : ℕ) where
  write_one : v < 128 → encode_nat v ≡ v ∷ []
  unfolding encode_nat
  write_one h = rw (room v 0x7F (omega arith)) (ap (λ x. x ∷ []) (omega arith))

  write_two : 128 ≤ v → v < 2 ^ 14 → encode_nat v ≡ (v / 256 + 128) ∷ (v % 256) ∷ []
  unfolding encode_nat
  write_two l h = ground (arith, Bits.and_0x3f (v / 2 ^ 8 % 256), Bits.or_0x80 (v / 256))

  write_three :
      2 ^ 14 ≤ v → v < 2 ^ 21 → encode_nat v ≡ (v / 65536 + 192) ∷ (v / 256 % 256) ∷ (v % 256) ∷ []
  unfolding encode_nat
  write_three l h = ground (arith, Bits.and_0x1f (v / 2 ^ 16 % 256), Bits.or_0xc0 (v / 65536))

  write_four :
      2 ^ 21 ≤ v
      → v < 2 ^ 28
      → encode_nat v ≡ (v / 16777216 + 224) ∷ (v / 65536 % 256) ∷ (v / 256 % 256) ∷ (v % 256) ∷ []
  unfolding encode_nat
  write_four l h = ground (arith, Bits.and_0x0f (v / 2 ^ 24 % 256), Bits.or_0xe0 (v / 16777216))

  write_five : 2 ^ 28 ≤ v → v < 2 ^ 31 → encode_nat v ≡ 0xF0 ∷ big_endian 4 v
  unfolding encode_nat
  write_five l h = ground arith

  write_nine : 2 ^ 31 ≤ v → encode_nat v ≡ 0xF4 ∷ big_endian 8 v
  unfolding encode_nat
  write_nine l = ground arith

-- The six forms, each with the range of values that take it.
pub data Shape (v : ℕ) (bytes : List ℕ) : Type 0 where
  one : v < 128 → bytes ≡ v ∷ [] → Shape v bytes
  two : 128 ≤ v → v < 2 ^ 14 → bytes ≡ (v / 256 + 128) ∷ (v % 256) ∷ [] → Shape v bytes
  three :
      2 ^ 14 ≤ v
      → v < 2 ^ 21
      → bytes ≡ (v / 65536 + 192) ∷ (v / 256 % 256) ∷ (v % 256) ∷ []
      → Shape v bytes
  four :
      2 ^ 21 ≤ v
      → v < 2 ^ 28
      → bytes ≡ (v / 16777216 + 224) ∷ (v / 65536 % 256) ∷ (v / 256 % 256) ∷ (v % 256) ∷ []
      → Shape v bytes
  five : 2 ^ 28 ≤ v → v < 2 ^ 31 → bytes ≡ 0xF0 ∷ big_endian 4 v → Shape v bytes
  nine : 2 ^ 31 ≤ v → bytes ≡ 0xF4 ∷ big_endian 8 v → Shape v bytes

pub encode_nat-Shape : (v : ℕ) → Shape v (encode_nat v)
encode_nat-Shape v = elim (dec_lt v 128) [
  | yes a ↦ one a (write_one v a)
  | no a ↦ elim (dec_lt v (2 ^ 14)) [
    | yes b ↦ two (omega arith) b (write_two v (omega arith) b)
    | no b ↦ elim (dec_lt v (2 ^ 21)) [
      | yes c ↦ three (omega arith) c (write_three v (omega arith) c)
      | no c ↦ elim (dec_lt v (2 ^ 28)) [
        | yes d ↦ four (omega arith) d (write_four v (omega arith) d)
        | no d ↦ elim (dec_lt v (2 ^ 31)) [
          | yes e ↦ five (omega arith) e (write_five v (omega arith) e)
          | no e ↦ nine (omega arith) (write_nine v (omega arith))
        ]
      ]
    ]
  ]
]
