-- ===== src/Varint/Buffer.antt =====
-- `Encode` into a buffer of the caller.
use barnard_stormdragon_ai_f.Prelude.{
  ℕ, ◌<◌, ◌≤◌, ◌≡◌, ◌⊎◌, inl, inr, arith, List, length, drop, length-append, length-drop, ◌++◌,
}
use barnard_stormdragon_ai_f.Prelude.Int.{ℤ}
use barnard_stormdragon_ai_f.Varint.{encode, encode_into, decode, IsInt64}
use barnard_stormdragon_ai_f.Varint.RoundTrip.{decode-encode}
use barnard_stormdragon_ai_f.Varint.Bounds.{encode_bounds}
use native.Mathlib.Decide.{dec_lt}

too_short : (b : List ℕ) (v : ℤ) → length b < length (encode v) → encode_into b v ≡ (b, 0)
unfolding encode_into
too_short b v h = ground arith

enough :
    (b : List ℕ) (v : ℤ)
    → 1 ≤ length (encode v)
    → length (encode v) ≤ length b
    → encode_into b v ≡ (encode v ++ drop (length (encode v)) b, length (encode v))
unfolding encode_into
enough b v l h = ground arith

-- `Encode` returns zero and leaves the buffer alone exactly when the encoding does not fit in it;
-- else `Decode` reads the value back from the buffer, whose length is unchanged, with the same count.
decode-encode_into :
    (b : List ℕ) (v : ℤ)
    → IsInt64 v
    → ((length b < length (encode v)) × (encode_into b v ≡ (b, 0)))
      ⊎ ((length (encode v) ≤ length b)
          × (decode (encode_into b v).0 ≡ (v, (encode_into b v).1))
          × (length (encode_into b v).0 ≡ length b)
          × (1 ≤ (encode_into b v).1))
decode-encode_into b v h = elim (dec_lt (length b) (length (encode v))) [
  | yes s ↦ inl (s, too_short b v s)
  | no s ↦
      let e = enough b v (encode_bounds v h).1 (omega arith) in
      inr (
        omega arith,
        rw e (decode-encode v (drop (length (encode v)) b) h),
        rw e (
            omega (
              arith,
              length-append (encode v) (drop (length (encode v)) b),
              length-drop (length (encode v)) b,
            )),
        rw e (encode_bounds v h).1,
      )
]
