-- ===== src/Crypt/Ocb15/Pad.antt =====
-- The final partial block of ocb15Encrypt and ocb15Decrypt (gumble/gumble/udp15.go), and what the
-- two ends exchange from a state of the loops on.
use barnard_stormdragon_ai_f.Prelude.{
  ℕ, zero, suc, ◌<◌, ◌≤◌, ◌≡◌, refl, ap, ap₂, arith, List, ◌++◌, Option, none, some, Bool, true,
  false, length, take, drop, ltb, lt→ltb, ltb-false_of_le, length-take, if◌then◌else◌,
}
use barnard_stormdragon_ai_f.Crypt.Block.{BlockCipher, IsBlock, xor_bytes, xor16, shift2}
use barnard_stormdragon_ai_f.Crypt.Block.Xor.{
  xor_bytes-IsBlock, xor_bytes_cancel, shift2-IsBlock, length-xor_bytes,
}
use barnard_stormdragon_ai_f.Crypt.Ocb15.{
  Pass, flips, flip_if, size_block, encrypt_loop, encrypt_last, decrypt_loop, decrypt_last, pad_of,
  zero_padded, reject_if, same_front, tag_of,
}
use barnard_stormdragon_ai_f.Crypt.Ocb15.Loop.{encrypt_loop_done, decrypt_loop_done}

-- The plaintext that the receiver gets: a flipped bit in the block that the mitigation chose.
unfoldable pub mitigated : ℕ → List ℕ → List ℕ
mitigated zero rest = rest
mitigated (suc fuel) rest =
    let more = mitigated fuel (drop 16 rest) in
    if ltb 16 (length rest) then flip_if (flips rest) (take 16 rest) ++ more else rest

pub mitigated_done : (n : ℕ) (rest : List ℕ) → length rest ≤ 16 → mitigated n rest ≡ rest
unfolding mitigated
mitigated_done zero rest h = refl
mitigated_done (suc n) rest h = rw (ltb-false_of_le (length rest) 16 h)

pub mitigated_more :
    (n : ℕ) (rest : List ℕ)
    → 16 < length rest
    → mitigated (suc n) rest ≡ flip_if (flips rest) (take 16 rest) ++ mitigated n (drop 16 rest)
unfolding mitigated
mitigated_more n rest h = rw (lt→ltb 16 (length rest) h)

-- The forgery error where the sender's last block has the pattern, else the plaintext and the sender's tag.
abbrev pub Answer : Bool → Option (List ℕ × List ℕ) → List ℕ → List ℕ → Type 0
Answer forged r text tag = r ≡ (if forged then none else some (text, tag))

reject_if-Answer :
    (b : Bool) {r : List ℕ × List ℕ} {text tag : List ℕ}
    → r ≡ (text, tag)
    → Answer b (reject_if b r) text tag
unfolding reject_if
reject_if-Answer true e = refl
reject_if-Answer false e = ap some e

size_block-IsBlock : (n : ℕ) → IsBlock (size_block n)
size_block-IsBlock n = record { size = refl; bytes = omega arith }

module _ (aes : BlockCipher) (key : List ℕ) where
  -- Whether the block that `encrypt_last` puts into its checksum agrees with the delta in 15 bytes.
  unfoldable pub last_forged : Pass → Bool
  last_forged s =
      let delta = shift2 s.delta in
      let pad = pad_of aes key (length s.rest) delta in
      same_front 15 (xor16 (zero_padded (xor_bytes s.rest (take (length s.rest) pad))) pad) delta

module _ (aes : BlockCipher) (key : List ℕ) (hk : IsBlock key) where
  pub pad-IsBlock : (n : ℕ) (delta : List ℕ) → IsBlock delta → IsBlock (pad_of aes key n delta)
  pad-IsBlock n delta h =
      aes.encrypt-IsBlock key _ hk (xor_bytes-IsBlock (size_block n) delta (size_block-IsBlock n) h)

  -- What the two ends exchange from a state on: ciphertext `c` behind what is out already.
  pub record Exchange (fuel : ℕ) (s : Pass) : Type 0 where
    pub c : List ℕ
    pub tag : List ℕ
    pub sent : encrypt_last aes key (encrypt_loop aes key fuel s) ≡ (s.out ++ c, tag)
    pub size : length c ≡ length s.rest
    pub opened :
        (o : List ℕ) (n : ℕ)
        → length c ≤ n
        → Answer
            (last_forged aes key (encrypt_loop aes key fuel s))
            (decrypt_last aes key (
              decrypt_loop aes key n
                (record { delta = s.delta; checksum = s.checksum; out = o; rest = c })))
            (o ++ mitigated fuel s.rest)
            tag

  -- The final partial block.
  module _ (fuel : ℕ) (s : Pass) (h : length s.rest ≤ 16) (hd : IsBlock s.delta) where
    delta : List ℕ
    delta = shift2 s.delta

    pad : List ℕ
    pad = pad_of aes key (length s.rest) delta

    mask : List ℕ
    mask = take (length s.rest) pad

    cpart : List ℕ
    cpart = xor_bytes s.rest mask

    length-mask : length mask ≡ length s.rest
    unfolding mask pad delta
    length-mask = omega (
      arith,
      length-take (length s.rest) pad,
      (pad-IsBlock (length s.rest) (shift2 s.delta) (shift2-IsBlock s.delta hd)).size,
    )

    length-cpart : length cpart ≡ length s.rest
    unfolding cpart
    length-cpart = omega (arith, length-xor_bytes s.rest mask, length-mask)

    unmasked : xor_bytes cpart mask ≡ s.rest
    unfolding cpart
    unmasked = xor_bytes_cancel s.rest mask (omega (arith, length-mask))

    last_checksum : List ℕ
    last_checksum = xor16 s.checksum (xor16 (zero_padded cpart) pad)

    last_sent : encrypt_last aes key s ≡ (s.out ++ cpart, tag_of aes key delta last_checksum)
    unfolding encrypt_last delta pad mask cpart last_checksum
    last_sent = refl

    last_opened :
        (o : List ℕ)
        → Answer
            (last_forged aes key s)
            (decrypt_last aes key
              (record { delta = s.delta; checksum = s.checksum; out = o; rest = cpart }))
            (o ++ s.rest)
            (tag_of aes key delta last_checksum)
    unfolding decrypt_last last_checksum delta pad mask last_forged cpart
    last_opened o = rw length-cpart (reject_if-Answer _ (ap₂ (λ x t. (o ++ x, t)) unmasked refl))

  pub last_Exchange : (fuel : ℕ) (s : Pass) → length s.rest ≤ 16 → IsBlock s.delta → Exchange fuel s
  last_Exchange fuel s h hd = record {
    c = cpart fuel s h hd;
    tag = tag_of aes key (delta fuel s h hd) (last_checksum fuel s h hd);
    sent = rw (encrypt_loop_done aes key fuel s h) (last_sent fuel s h hd);
    size = length-cpart fuel s h hd;
    opened = λ o n le.
        rw
          (
            encrypt_loop_done aes key fuel s h,
            decrypt_loop_done aes key n (short o) (omega (arith, length-cpart fuel s h hd)),
            mitigated_done fuel s.rest h,
          )
          (last_opened fuel s h hd o);
  }
    where
      short : List ℕ → Pass
      short o = record s { out = o; rest = cpart fuel s h hd }
