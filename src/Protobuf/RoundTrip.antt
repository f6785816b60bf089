-- ===== src/Protobuf/RoundTrip.antt =====
-- `pbDecodeVarint` after `pbEncodeVarint`.
use barnard_stormdragon_ai_f.Prelude.{
  ℕ, zero, suc, ◌+◌, ◌*◌, ◌/◌, ◌%◌, ◌^◌, ◌<◌, ◌≤◌, ◌≡◌, refl, ap, ap₂, ◌∙◌, arith, List, [], ◌∷◌,
  ◌++◌, some, bit_or, length, ltb, ◌==◌, false, ◌&&◌, ◌||◌, lt→ltb, ltb-false_of_le, if◌then◌else◌,
  All, IsByte,
}
use barnard_stormdragon_ai_f.Prelude.Bits
use barnard_stormdragon_ai_f.Protobuf.{pb_encode, pb_decode_loop, pb_decode, add_group}
use native.Mathlib.Decide.{dec_lt, ℕ_discrete}
use native.Mathlib.Nat.{pow-suc, mod-eq_of_lt, div-add-mod}
use native.Mathlib.Numerals.{towards_suc}

-- The groups of seven bits of `v`, lowest first, at most `k` of them.
unfoldable pub groups : ℕ → ℕ → List ℕ
groups zero v = []
groups (suc k) v =
    let rest = groups k (v / 128) in if ltb v 128 then v ∷ [] else (v % 128 + 128) ∷ rest

with_top_bit : (v : ℕ) → bit_or (v % 256) 0x80 ≡ v % 128 + 128
with_top_bit v = Bits.byte_or_0x80 (v % 256) (omega arith) ∙ omega arith

pub pb_encode-groups :
    (room v : ℕ) → 0 < room → v < 128 ^ room → pb_encode room v ≡ some (groups room v)
unfolding pb_encode groups
pb_encode-groups zero v p h = absurd (omega arith)
pb_encode-groups (suc zero) v p h = ground arith
pb_encode-groups (suc (suc room)) v p h =
    ground (arith, with_top_bit v, pb_encode-groups (suc room) (v / 128), pow-suc 128 (suc room))

groups-IsByte : (k v : ℕ) → All IsByte (groups k v)
unfolding groups
groups-IsByte zero v = tt
groups-IsByte (suc k) v = ground (arith, groups-IsByte k (v / 128))

length-groups : (k v : ℕ) → length (groups k v) ≤ k
unfolding groups
length-groups zero v = omega arith
length-groups (suc k) v = ground (arith, length-groups k (v / 128))

pub groups_nonempty : (k v : ℕ) → 1 ≤ length (groups (suc k) v)
unfolding groups
groups_nonempty k v = ground arith

-- For a uint64 `pbEncodeVarint` stays inside its ten bytes and writes one to ten of them.
pub pb_encode_total :
    (v : ℕ)
    → v < 2 ^ 64
    → (bytes : List ℕ) × (pb_encode 10 v ≡ some bytes)
      × All IsByte bytes
      × (1 ≤ length bytes)
      × (length bytes ≤ 10)
pb_encode_total v h = (
  groups 10 v,
  pb_encode-groups 10 v (omega arith) (omega arith),
  groups-IsByte 10 v,
  groups_nonempty 9 v,
  length-groups 10 v,
)

seven_more : (i : ℕ) → 2 ^ (7 * (i + 1)) ≡ 128 * 2 ^ (7 * i)
seven_more i = ap (λ (n : ℕ). 2 ^ n) more ∙ simp towards_suc (omega arith)
  where
    more : 7 * (i + 1) ≡ 7 * i + 7
    more = omega arith

-- What is left, split in its lowest group and the others.
split_group : (w p : ℕ) → w * p ≡ w % 128 * p + w / 128 * (128 * p)
split_group w p = omega (arith, ap (λ (t : ℕ). t * p) (div-add-mod w 128))

-- A group that fits is added.
add_group_sum :
    (acc b g i : ℕ)
    → b < 256
    → b % 128 ≡ g
    → acc < 2 ^ (7 * i)
    → g * 2 ^ (7 * i) < 2 ^ 64
    → add_group acc b i ≡ acc + g * 2 ^ (7 * i)
add_group_sum acc b g i hb hg ha hs =
    rw (Bits.and_0x7f b hb, hg, mod-eq_of_lt hs) (Bits.or_shifted_low (7 * i) g acc ha)

-- The accumulator stays below the bits still to come.
below_next : (acc g p : ℕ) → acc < p → g < 128 → acc + g * p < 128 * p
below_next acc g p ha hg = grind arith

rest_of_sum :
    (acc w i : ℕ)
    → acc + w % 128 * 2 ^ (7 * i) + w / 128 * 2 ^ (7 * (i + 1)) ≡ acc + w * 2 ^ (7 * i)
rest_of_sum acc w i = rw (seven_more i) (omega (arith, split_group w (2 ^ (7 * i))))

-- The tenth byte of a uint64 is at most 1.
tenth : (w i : ℕ) → i ≡ 9 → w * 2 ^ (7 * i) < 2 ^ 64 → w ≤ 1
tenth w i e h = let h' : w * 2 ^ (7 * 9) < 2 ^ 64 = rw e at h in omega arith

no_overflow : (b w i : ℕ) → i < 10 → (i ≡ 9 → b ≤ 1) → (i == 10 || (i == 9 && ltb 1 b)) ≡ false
no_overflow b w i hi h = elim (ℕ_discrete i 9) [
  | yes e ↦ let le = h e in ground arith
  | no ne ↦ ground arith
]

last_group :
    (w i acc : ℕ) (rest : List ℕ)
    → i < 10
    → acc < 2 ^ (7 * i)
    → acc + w * 2 ^ (7 * i) < 2 ^ 64
    → w < 128
    → pb_decode_loop (w ∷ rest) i acc ≡ (acc + w * 2 ^ (7 * i), i + 1)
unfolding pb_decode_loop
last_group w i acc rest hi ha hs hw =
    rw (no_overflow w w i hi (λ e. tenth w i e (omega arith)), lt→ltb w 128 hw)
      (ap (λ v. (v, i + 1)) (add_group_sum acc w w i (omega arith) (omega arith) ha (omega arith)))

inner_group :
    (g i acc : ℕ) (rest : List ℕ)
    → i < 9
    → acc < 2 ^ (7 * i)
    → g * 2 ^ (7 * i) < 2 ^ 64
    → g < 128
    → pb_decode_loop ((g + 128) ∷ rest) i acc ≡ pb_decode_loop rest (i + 1) (acc + g * 2 ^ (7 * i))
unfolding pb_decode_loop
inner_group g i acc rest hi ha hs hg =
    rw
      (
        no_overflow (g + 128) g i (omega arith) (λ e. absurd (omega arith)),
        ltb-false_of_le 128 (g + 128) (omega arith),
      )
      (ap (pb_decode_loop rest (i + 1))
        (add_group_sum acc (g + 128) g i (omega arith) (omega arith) ha hs))

-- The loop reads `w` back from its groups, `i` bytes into the number.
pb_decode_loop-groups :
    (k w i acc : ℕ) (rest : List ℕ)
    → k + i ≡ 10
    → 0 < k
    → acc < 2 ^ (7 * i)
    → acc + w * 2 ^ (7 * i) < 2 ^ 64
    → pb_decode_loop (groups k w ++ rest) i acc ≡ (acc + w * 2 ^ (7 * i), i + length (groups k w))
unfolding groups
pb_decode_loop-groups zero w i acc rest hk pk ha hs = absurd (omega arith)
pb_decode_loop-groups (suc k) w i acc rest hk pk ha hs = elim (dec_lt w 128) [
  | yes small ↦ rw (lt→ltb w 128 small) (
      last_group w i acc rest (omega arith) ha hs small
      ∙ ap (λ n. (acc + w * 2 ^ (7 * i), n)) (omega arith))
  | no large ↦
      let early : i < 9 = elim (dec_lt i 9) [
        | yes p ↦ p
        | no p ↦ absurd (omega (arith, tenth w i (omega arith) (omega arith)))
      ] in
      rw (ltb-false_of_le 128 w (omega arith)) (
        inner_group (w % 128) i acc _ early ha (omega (arith, split_group w (2 ^ (7 * i))))
          (omega arith)
        ∙ pb_decode_loop-groups k (w / 128) (i + 1) (acc + w % 128 * 2 ^ (7 * i)) rest (omega arith)
            (omega arith) (rw seven_more (below_next acc (w % 128) _ ha (omega arith)))
            (rw rest_of_sum hs)
        ∙ ap₂ (λ v n. (v, n)) (rest_of_sum acc w i) (omega arith))
]

pub pb_decode-groups :
    (v : ℕ) (rest : List ℕ)
    → v < 2 ^ 64
    → pb_decode (groups 10 v ++ rest) ≡ (v, length (groups 10 v))
unfolding pb_decode
pb_decode-groups v rest h =
    pb_decode_loop-groups 10 v 0 0 rest refl (omega arith) (omega arith) (omega arith)
    ∙ ap₂ (λ x n. (x, n)) (omega arith) (omega arith)

-- Every uint64 fits in the ten bytes that `pbEncodeVarint` has, and `pbDecodeVarint` reads it back from
-- what was written, whatever follows, and counts exactly the bytes written.
pub pb_decode-pb_encode :
    (v : ℕ) (rest : List ℕ)
    → v < 2 ^ 64
    → (bytes : List ℕ) × (pb_encode 10 v ≡ some bytes)
      × (pb_decode (bytes ++ rest) ≡ (v, length bytes))
pb_decode-pb_encode v rest h =
    (groups 10 v, pb_encode-groups 10 v (omega arith) (omega arith), pb_decode-groups v rest h)
