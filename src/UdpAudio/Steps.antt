-- ===== src/UdpAudio/Steps.antt =====
-- One round of the loop of `decodeUDPAudio` on each kind of field that `encodeUDPAudio` writes.
use barnard_stormdragon_ai_f.Prelude.{
  drop-length_append, ℕ, zero, suc, ◌+◌, ◌*◌, ◌/◌, ◌^◌, ◌<◌, ◌≤◌, ◌≡◌, ap, ◌∙◌, arith, List, [],
  ◌∷◌, ◌++◌, some, length, drop, ltb, ltb-false_of_le, ◌==◌, ==-false_of_pos, false, bit_and,
  append_assoc, length-append,
}
use barnard_stormdragon_ai_f.Prelude.Bits
use barnard_stormdragon_ai_f.Protobuf.RoundTrip.{groups, groups_nonempty, pb_decode-groups}
use barnard_stormdragon_ai_f.UdpAudio.{
  Fields, Audio, next, goes_on, set_varint, set_bytes, varint_round, bytes_round, round, rounds,
  after_round,
}

-- The bytes of a varint are never empty.
nonzero : (v : ℕ) → (length (groups 10 v) == 0) ≡ false
nonzero v = ==-false_of_pos (length (groups 10 v)) (groups_nonempty 9 v)

-- Behind a varint stands the rest.
behind : (v : ℕ) (rest : List ℕ) → drop (length (groups 10 v)) (groups 10 v ++ rest) ≡ rest
behind v rest = drop-length_append (groups 10 v) rest

varint_round-groups :
    (number v : ℕ) (rest : List ℕ) (f : Fields)
    → v < 2 ^ 64
    → varint_round number (groups 10 v ++ rest) f ≡ next rest (set_varint number v f)
unfolding varint_round
varint_round-groups number v rest f h = rw (pb_decode-groups v rest h, nonzero v, behind v rest)

bytes_round-groups :
    (number : ℕ) (body rest : List ℕ) (f : Fields)
    → length body < 2 ^ 64
    → bytes_round number (groups 10 (length body) ++ (body ++ rest)) f
      ≡ goes_on rest (set_bytes number (length body) (body ++ rest) f)
unfolding bytes_round
bytes_round-groups number body rest f h = rw (
  pb_decode-groups (length body) (body ++ rest) h,
  nonzero (length body),
  behind (length body) (body ++ rest),
  ltb-false_of_le (length body) (length (body ++ rest)) (omega (arith, length-append body rest)),
  drop-length_append body rest,
)

-- The slice behind a varint is in range.
in_range :
    (v : ℕ) (rest : List ℕ) → ltb (length (groups 10 v ++ rest)) (length (groups 10 v)) ≡ false
in_range v rest =
    ltb-false_of_le (length (groups 10 v)) (length (groups 10 v ++ rest))
      (omega (arith, length-append (groups 10 v) rest))

wire_type : (number wire : ℕ) → wire < 8 → bit_and (number * 8 + wire) 0x7 ≡ wire
wire_type number wire h = omega (arith, Bits.and_seven (number * 8 + wire))

field_number : (number wire : ℕ) → wire < 8 → (number * 8 + wire) / 8 ≡ number
field_number number wire h = omega arith

-- A round on the key of a varint field is the round on its value.
round_varint :
    (number v : ℕ) (rest : List ℕ) (f : Fields)
    → number < 2 ^ 32
    → v < 2 ^ 64
    → round (groups 10 (number * 8 + 0) ++ (groups 10 v ++ rest)) f
      ≡ next rest (set_varint number v f)
unfolding round
round_varint number v rest f hn hv =
    rw
      (
        pb_decode-groups (number * 8 + 0) (groups 10 v ++ rest) (omega arith),
        nonzero (number * 8 + 0),
        wire_type number 0 (omega arith),
        field_number number 0 (omega arith),
        in_range (number * 8 + 0) (groups 10 v ++ rest),
        behind (number * 8 + 0) (groups 10 v ++ rest),
      )
      (varint_round-groups number v rest f hv)

round_bytes :
    (number : ℕ) (body rest : List ℕ) (f : Fields)
    → number < 2 ^ 32
    → length body < 2 ^ 64
    → round (groups 10 (number * 8 + 2) ++ (groups 10 (length body) ++ (body ++ rest))) f
      ≡ goes_on rest (set_bytes number (length body) (body ++ rest) f)
unfolding round
round_bytes number body rest f hn hb =
    rw
      (
        pb_decode-groups (number * 8 + 2) (groups 10 (length body) ++ (body ++ rest)) (omega arith),
        nonzero (number * 8 + 2),
        wire_type number 2 (omega arith),
        field_number number 2 (omega arith),
        in_range (number * 8 + 2) (groups 10 (length body) ++ (body ++ rest)),
        behind (number * 8 + 2) (groups 10 (length body) ++ (body ++ rest)),
      )
      (bytes_round-groups number body rest f hb)

-- The loop, started with enough fuel, gives `out`.
abbrev pub Runs : List ℕ → Fields → Audio → Type 0
Runs bytes f out = (fuel : ℕ) → length bytes ≤ fuel → rounds fuel bytes f ≡ some out

-- The loop on `bytes` and what follows is the loop on what follows, with `f'` for `f`.
abbrev pub Reads : List ℕ → Fields → Fields → Type 0
Reads bytes f f' = (rest : List ℕ) (out : Audio) → Runs rest f' out → Runs (bytes ++ rest) f out

rounds-next :
    (fuel : ℕ) (bytes rest : List ℕ) (f f' : Fields)
    → 1 ≤ length bytes
    → round bytes f ≡ next rest f'
    → rounds (suc fuel) bytes f ≡ rounds fuel rest f'
unfolding rounds after_round
rounds-next fuel [] rest f f' h e = absurd (omega arith)
rounds-next fuel (b ∷ bs) rest f f' h e = rw e

Reads-round :
    (bytes : List ℕ) (f f' : Fields)
    → 1 ≤ length bytes
    → ((rest : List ℕ) → round (bytes ++ rest) f ≡ next rest f')
    → Reads bytes f f'
Reads-round bytes f f' h e rest out run zero le = absurd (omega (arith, length-append bytes rest))
Reads-round bytes f f' h e rest out run (suc fuel) le =
    rounds-next fuel (bytes ++ rest) rest f f' (omega (arith, length-append bytes rest)) (e rest)
    ∙ run fuel (omega (arith, length-append bytes rest))

pub Reads-append : (a b : List ℕ) (f g h : Fields) → Reads a f g → Reads b g h → Reads (a ++ b) f h
Reads-append a b f g h p q rest out run = rw append_assoc (p (b ++ rest) out (q rest out run))

pub Reads-varint :
    (number v : ℕ) (f : Fields)
    → number < 2 ^ 32
    → v < 2 ^ 64
    → Reads (groups 10 (number * 8 + 0) ++ groups 10 v) f (set_varint number v f)
Reads-varint number v f hn hv =
    Reads-round _ f _
      (omega (arith, length-append (groups 10 (number * 8 + 0)) (groups 10 v), groups_nonempty 9 v))
      (λ rest. rw append_assoc (round_varint number v rest f hn hv))

pub Reads-bytes :
    (number : ℕ) (body : List ℕ) (f f' : Fields)
    → number < 2 ^ 32
    → length body < 2 ^ 64
    → ((rest : List ℕ) → set_bytes number (length body) (body ++ rest) f ≡ some f')
    → Reads (groups 10 (number * 8 + 2) ++ (groups 10 (length body) ++ body)) f f'
unfolding goes_on
Reads-bytes number body f f' hn hb e =
    Reads-round _ f f'
      (omega (
        arith,
        length-append (groups 10 (number * 8 + 2)) (groups 10 (length body) ++ body),
        groups_nonempty 9 (number * 8 + 2),
      ))
      (λ rest.
        rw (append_assoc, append_assoc)
          (round_bytes number body rest f hn hb ∙ ap (goes_on rest) (e rest)))
