-- ===== src/Crypt/Ocb15.antt =====
-- ocb15Encrypt and ocb15Decrypt of gumble/gumble/udp15.go. The slices `plaintext[pos:]` and
-- `ciphertext[pos:]` are `rest`, and `remaining` is its length.
pub mod Loop
pub mod Pad
pub mod RoundTrip
pub mod Mitigation
pub mod Tag
use barnard_stormdragon_ai_f.Prelude.{
  ℕ, zero, suc, ◌+◌, ◌-◌, ◌*◌, ◌%◌, bit_xor, List, [], ◌∷◌, ◌++◌, Option, none, some, Bool, true,
  false, ◌&&◌, if◌then◌else◌, ltb, leb, ◌==◌, length, take, drop, replicate,
}
use barnard_stormdragon_ai_f.Crypt.Block.{BlockCipher, xor16, xor_bytes, shift2, shift3}

-- The variables of both loops.
pub record Pass : Type 0 where
  pub delta : List ℕ
  pub checksum : List ℕ
  pub out : List ℕ
  pub rest : List ℕ

abbrev pub zero_block : List ℕ
zero_block = replicate 16 0

unfoldable pub all_zero : List ℕ → Bool
all_zero [] = true
all_zero (b ∷ bs) = b == 0 && all_zero bs

-- `flipBit`: the block before the last one, if its first 15 bytes are zero.
abbrev pub flips : List ℕ → Bool
flips rest = leb (length rest) 32 && all_zero (take 15 rest)

-- `block[0] ^= 1`
unfoldable pub flip_first : List ℕ → List ℕ
flip_first [] = []
flip_first (b ∷ bs) = bit_xor b 1 ∷ bs

abbrev pub flip_if : Bool → List ℕ → List ℕ
flip_if flip b = if flip then flip_first b else b

-- `tmp[15] = byte(remaining * 8)` on a block of zeros.
abbrev pub size_block : ℕ → List ℕ
size_block remaining = replicate 15 0 ++ ((remaining * 8 % 256) ∷ [])

-- `copy` of a slice to a block of zeros.
abbrev pub zero_padded : List ℕ → List ℕ
zero_padded b = take 16 (b ++ replicate (16 - length b) 0)

-- `matchesDelta`: the first 15 bytes agree.
unfoldable pub same_front : ℕ → List ℕ → List ℕ → Bool
same_front zero a b = true
same_front (suc n) [] b = false
same_front (suc n) (x ∷ a) [] = false
same_front (suc n) (x ∷ a) (y ∷ b) = x == y && same_front n a b

-- `if matchesDelta { return nil, nil, err }`
unfoldable pub reject_if : Bool → List ℕ × List ℕ → Option (List ℕ × List ℕ)
reject_if true r = none
reject_if false r = some r

module _ (aes : BlockCipher) (key : List ℕ) where
  unfoldable pub encrypt_round : Pass → Pass
  encrypt_round s =
      let delta = shift2 s.delta in
      let flip = flips s.rest in
      let block = take 16 s.rest in
      let tmp = flip_if flip (xor_bytes block delta) in
      record {
        delta = delta;
        checksum = flip_if flip (xor16 s.checksum block);
        out = s.out ++ xor_bytes (aes.encrypt key tmp) delta;
        rest = drop 16 s.rest;
      }

  -- `for remaining > 16`, with fuel.
  unfoldable pub encrypt_loop : ℕ → Pass → Pass
  encrypt_loop zero s = s
  encrypt_loop (suc fuel) s =
      let more = encrypt_loop fuel (encrypt_round s) in if ltb 16 (length s.rest) then more else s

  abbrev pub pad_of : ℕ → List ℕ → List ℕ
  pad_of remaining delta = aes.encrypt key (xor16 (size_block remaining) delta)

  abbrev pub tag_of : List ℕ → List ℕ → List ℕ
  tag_of delta checksum = aes.encrypt key (xor16 (shift3 delta) checksum)

  -- The final partial block: the ciphertext and the tag.
  unfoldable pub encrypt_last : Pass → List ℕ × List ℕ
  encrypt_last s =
      let delta = shift2 s.delta in
      let pad = pad_of (length s.rest) delta in
      let cpart = xor_bytes s.rest (take (length s.rest) pad) in
      let checksum = xor16 s.checksum (xor16 (zero_padded cpart) pad) in
      (s.out ++ cpart, tag_of delta checksum)

  abbrev pub start : List ℕ → List ℕ → Pass
  start nonce text = record {
    delta = aes.encrypt key nonce;
    checksum = zero_block;
    out = [];
    rest = text;
  }

  -- Each round takes 16 bytes, so the length is fuel enough.
  unfoldable pub ocb15_encrypt : List ℕ → List ℕ → List ℕ × List ℕ
  ocb15_encrypt nonce plaintext =
      encrypt_last (encrypt_loop (length plaintext) (start nonce plaintext))

  unfoldable pub decrypt_round : Pass → Pass
  decrypt_round s =
      let delta = shift2 s.delta in
      let tmp = xor_bytes (aes.decrypt key (xor_bytes (take 16 s.rest) delta)) delta in
      record {
        delta = delta;
        checksum = xor16 s.checksum tmp;
        out = s.out ++ tmp;
        rest = drop 16 s.rest;
      }

  unfoldable pub decrypt_loop : ℕ → Pass → Pass
  decrypt_loop zero s = s
  decrypt_loop (suc fuel) s =
      let more = decrypt_loop fuel (decrypt_round s) in if ltb 16 (length s.rest) then more else s

  -- The plaintext and the tag, or `none` for the forgery error.
  unfoldable pub decrypt_last : Pass → Option (List ℕ × List ℕ)
  decrypt_last s =
      let delta = shift2 s.delta in
      let pad = pad_of (length s.rest) delta in
      let ppart = xor_bytes s.rest (take (length s.rest) pad) in
      let cs_temp = xor16 (zero_padded s.rest) pad in
      let checksum = xor16 s.checksum cs_temp in
      reject_if (same_front 15 cs_temp delta) (s.out ++ ppart, tag_of delta checksum)

  unfoldable pub ocb15_decrypt : List ℕ → List ℕ → Option (List ℕ × List ℕ)
  ocb15_decrypt nonce ciphertext =
      decrypt_last (decrypt_loop (length ciphertext) (start nonce ciphertext))
