-- ===== src/UdpAudio/Total.antt =====
-- The loop of `decodeUDPAudio` ends on every input and does not panic.
use barnard_stormdragon_ai_f.Prelude.{
  ℕ, zero, suc, ◌≤◌, ◌≡◌, arith, List, [], ◌∷◌, Option, none, some, length, drop, length-drop, ◌/◌,
  refl, if_ind, ◌==◌, ==-false→ne, ltb, bit_and, ◌&&◌, &&-true, false, ltb-false_of_le,
}
use barnard_stormdragon_ai_f.Protobuf.{pb_decode}
use barnard_stormdragon_ai_f.Protobuf.Bounds.{pb_decode_bounds}
use barnard_stormdragon_ai_f.UdpAudio.Words.{uint32_at-fits}
use barnard_stormdragon_ai_f.UdpAudio.{
  Fields, Audio, panic, set_position, set_bytes, store, set_fixed, goes_on, slice_from, fixed_word,
  from_little_endian_32, next, break, return, varint_round, bytes_round, fixed_round, round, rounds,
  finish, audio, decode_udp_audio, no_fields, Round, after_round,
}

-- A round does not panic, and what it leaves is no longer than `k`.
abbrev Leaves : ℕ → Round → Type 0
Leaves k (next rest f) = length rest ≤ k
Leaves k (break f) = Unit
Leaves k (return f) = Unit
Leaves k panic = ⊥

drop-le {ℓ} : {A : Type ℓ} (n k : ℕ) (xs : List A) → length xs ≤ k → length (drop n xs) ≤ k
drop-le n k xs h = omega (arith, length-drop n xs)

varint_round-Leaves :
    (number k : ℕ) (rest : List ℕ) (f : Fields)
    → length rest ≤ k
    → Leaves k (varint_round number rest f)
unfolding varint_round
varint_round-Leaves number k rest f h =
    if_ind (Leaves k) ((pb_decode rest).1 == 0) (λ _. tt) λ _. drop-le (pb_decode rest).1 k rest h

abbrev Written : Option Fields → Type 0
Written r = (f : Fields) × (r ≡ some f)

-- No field that carries bytes slices out of range, since its length was tested.
set_bytes-some :
    (number len : ℕ) (rest : List ℕ) (f : Fields)
    → ltb (length rest) len ≡ false
    → (f' : Fields) × (set_bytes number len rest f ≡ some f')
unfolding set_bytes set_position
set_bytes-some number len rest f e =
    if_ind Written (number == 5) (λ _. rw e (_, refl))
      λ _.
        if_ind Written (number == 6 && len == 12)
          (λ p.
            let long : 12 ≤ length rest = ground arith in
            rw
              (
                uint32_at-fits 0 rest (omega arith),
                uint32_at-fits 4 rest (omega arith),
                uint32_at-fits 8 rest (omega arith),
              )
              (_, refl))
          (λ _. (f, refl))

set_fixed-some : (number v : ℕ) (f : Fields) → (f' : Fields) × (set_fixed number v f ≡ some f')
unfolding set_fixed store
set_fixed-some number v f =
    if_ind Written (number == 6 && ltb f.position_count 3)
      (λ e. rw (&&-true (number == 6) (ltb f.position_count 3) e).1 (_, refl))
      λ _. if_ind Written (number == 7) (λ _. (_, refl)) (λ _. (f, refl))

goes_on-Leaves :
    (k : ℕ) (rest : List ℕ) (r : Option Fields)
    → length rest ≤ k
    → Written r
    → Leaves k (goes_on rest r)
unfolding goes_on
goes_on-Leaves k rest none h (f, e) = absurd (cc e)
goes_on-Leaves k rest (some g) h w = h

bytes_round-Leaves :
    (number k : ℕ) (rest : List ℕ) (f : Fields)
    → length rest ≤ k
    → Leaves k (bytes_round number rest f)
unfolding bytes_round
bytes_round-Leaves number k rest f h =
    if_ind (Leaves k) ((pb_decode rest).1 == 0) (λ _. tt)
      λ _.
        if_ind (Leaves k) (ltb (length after) len) (λ _. tt)
          λ e.
            goes_on-Leaves k (drop len after) (set_bytes number len after f)
              (drop-le len k after (drop-le (pb_decode rest).1 k rest h))
              (set_bytes-some number len after f e)
  where
    after : List ℕ
    after = drop (pb_decode rest).1 rest

    len : ℕ
    len = (pb_decode rest).0

fixed_round-Leaves :
    (number k : ℕ) (rest : List ℕ) (f : Fields)
    → length rest ≤ k
    → Leaves k (fixed_round number rest f)
unfolding fixed_round fixed_word
fixed_round-Leaves number k rest f h =
    if_ind (Leaves k) (ltb (length rest) 4) (λ _. tt)
      λ e. rw (uint32_at-fits 0 rest (ground arith)) (
        goes_on-Leaves k (drop 4 rest) _ (drop-le 4 k rest h)
          (set_fixed-some number (from_little_endian_32 rest) f))

-- A slice behind a varint that was read is in range.
slice_from-Leaves :
    (k n : ℕ) (rest : List ℕ) (read : List ℕ → Round)
    → n ≤ length rest
    → Leaves k (read (drop n rest))
    → Leaves k (slice_from n rest read)
unfolding slice_from
slice_from-Leaves k n rest read h leaves = rw (ltb-false_of_le n (length rest) h) leaves

-- The key takes a byte at least.
round-Leaves : (k : ℕ) (rest : List ℕ) (f : Fields) → length rest ≤ suc k → Leaves k (round rest f)
unfolding round
round-Leaves k rest f h =
    if_ind (Leaves k) (n == 0) (λ _. tt)
      λ pos.
        let le : length after ≤ k = omega (arith, length-drop n rest, ==-false→ne n 0 pos) in
        if_ind (Leaves k) (wire == 0)
          (λ _.
            slice_from-Leaves k n rest (λ value. varint_round number value f) fits
              (varint_round-Leaves number k after f le))
          λ _.
            if_ind (Leaves k) (wire == 2)
              (λ _.
                slice_from-Leaves k n rest (λ value. bytes_round number value f) fits
                  (bytes_round-Leaves number k after f le))
              λ _.
                if_ind (Leaves k) (wire == 1)
                  (λ _.
                    if_ind (Leaves k) (ltb (length after) 8) (λ _. tt) λ _. drop-le 8 k after le)
                  λ _.
                    if_ind (Leaves k) (wire == 5) (λ _. fixed_round-Leaves number k after f le)
                      λ _. tt
  where
    n : ℕ
    n = (pb_decode rest).1

    fits : n ≤ length rest
    fits = (pb_decode_bounds rest).0

    after : List ℕ
    after = drop n rest

    wire : ℕ
    wire = bit_and (pb_decode rest).0 0x7

    number : ℕ
    number = (pb_decode rest).0 / 8

after_round_total :
    (k : ℕ) (more : List ℕ → Fields → Option Audio) (r : Round)
    → ((rest : List ℕ) (f : Fields) → length rest ≤ k → (a : Audio) × (more rest f ≡ some a))
    → Leaves k r
    → (a : Audio) × (after_round more r ≡ some a)
unfolding after_round
after_round_total k more (next rest f) h le = h rest f le
after_round_total k more (break f) h le = (finish f, refl)
after_round_total k more (return f) h le = (audio f none, refl)
after_round_total k more panic h le = absurd le

rounds_total :
    (fuel : ℕ) (bytes : List ℕ) (f : Fields)
    → length bytes ≤ fuel
    → (a : Audio) × (rounds fuel bytes f ≡ some a)
unfolding rounds
rounds_total fuel [] f h = (finish f, refl)
rounds_total zero (b ∷ bs) f h = absurd (omega arith)
rounds_total (suc fuel) (b ∷ bs) f h =
    after_round_total fuel (rounds fuel) (round (b ∷ bs) f) (rounds_total fuel)
      (round-Leaves fuel (b ∷ bs) f h)

-- `decodeUDPAudio` returns on every input, well formed or not: none of its slices and indices is out
-- of range, and every round of its loop that goes on has consumed at least one byte, so that the fuel
-- never runs out.
pub decode_udp_audio_total : (bytes : List ℕ) → (a : Audio) × (decode_udp_audio bytes ≡ some a)
unfolding decode_udp_audio
decode_udp_audio_total bytes = rounds_total (length bytes) bytes no_fields (omega arith)
