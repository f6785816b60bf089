-- ===== src/Crypt/Legacy.antt =====
-- The encryption before Mumble 1.5, gumble/gumble/crypt.go: ocbCrypt, ocbEncrypt, ocbDecrypt and
-- cryptState. Under a key of 16 bytes aes.NewCipher does not fail.
pub mod RoundTrip
use barnard_stormdragon_ai_f.Prelude.{
  ℕ, zero, suc, ◌+◌, ◌-◌, ◌*◌, ◌/◌, ◌%◌, bit_xor, List, [], ◌∷◌, ◌++◌, Option, none, some, Bool,
  true, false, ◌&&◌, ◌||◌, not, if◌then◌else◌, ltb, ◌==◌, length, take, drop, replicate,
}
use barnard_stormdragon_ai_f.Varint.{big_endian, from_big_endian}
use barnard_stormdragon_ai_f.Crypt.Block.{BlockCipher, xor16, xor_bytes, shift2}
use barnard_stormdragon_ai_f.Crypt.Ocb15.{zero_padded, zero_block}
use barnard_stormdragon_ai_f.Crypt.State15.{same_bytes}

-- `Lntz`: the block doubled once for each time that 2 divides `i`; `i` is fuel enough.
unfoldable pub l_ntz : ℕ → ℕ → List ℕ → List ℕ
l_ntz zero i l = l
l_ntz (suc fuel) i l =
    let more = l_ntz fuel (i / 2) (shift2 l) in if not (i == 0) && i % 2 == 0 then more else l

-- What the loop over the blocks leaves: the bytes it wrote, the offset and the checksum.
pub record Blocks : Type 0 where
  pub out : List ℕ
  pub offset : List ℕ
  pub checksum : List ℕ

-- A block of associated data, the last one ended by 0x80.
unfoldable pub ad_block : List ℕ → List ℕ
ad_block ad = take 16 (if ltb (length ad) 16 then ad ++ (0x80 ∷ replicate 15 0) else ad)

module _ (aes : BlockCipher) (key : List ℕ) where
  abbrev pub l_star : List ℕ
  l_star = aes.encrypt key zero_block

  -- The first offset: the nonce bounds the bytes that are kept; `bitsToClear` is always 0.
  unfoldable pub first_offset : List ℕ → List ℕ
  first_offset nonce =
      take (length nonce) (aes.encrypt key (zero_padded nonce)) ++ replicate (16 - length nonce) 0

  unfoldable pub next_offset : ℕ → List ℕ → List ℕ
  next_offset i offset = xor16 offset (l_ntz i i l_star)

  -- The loop with `left` blocks to go, block `i` first.
  unfoldable pub encrypt_blocks : ℕ → ℕ → List ℕ → List ℕ → List ℕ → Blocks
  encrypt_blocks zero i offset checksum rest = record {
    out = [];
    offset = offset;
    checksum = checksum;
  }
  encrypt_blocks (suc zero) i offset checksum rest =
      let o = next_offset i offset in
      record {
        out = xor_bytes rest (take (length rest) (aes.encrypt key o));
        offset = o;
        checksum = xor16 checksum (zero_padded rest);
      }
  encrypt_blocks (suc (suc left)) i offset checksum rest =
      let o = next_offset i offset in
      let tmp = xor16 (aes.encrypt key (xor16 (take 16 rest) o)) o in
      let later =
        encrypt_blocks (suc left) (i + 1) o (xor16 checksum (take 16 rest)) (drop 16 rest) in
      record { out = tmp ++ later.out; offset = later.offset; checksum = later.checksum }

  unfoldable pub decrypt_blocks : ℕ → ℕ → List ℕ → List ℕ → List ℕ → Blocks
  decrypt_blocks zero i offset checksum rest = record {
    out = [];
    offset = offset;
    checksum = checksum;
  }
  decrypt_blocks (suc zero) i offset checksum rest =
      let o = next_offset i offset in
      let plain = xor_bytes rest (take (length rest) (aes.encrypt key o)) in
      record { out = plain; offset = o; checksum = xor16 checksum (zero_padded plain) }
  decrypt_blocks (suc (suc left)) i offset checksum rest =
      let o = next_offset i offset in
      let tmp = xor16 (aes.decrypt key (xor16 (take 16 rest) o)) o in
      let later = decrypt_blocks (suc left) (i + 1) o (xor16 checksum tmp) (drop 16 rest) in
      record { out = tmp ++ later.out; offset = later.offset; checksum = later.checksum }

  -- The loop over the associated data; its length is fuel enough.
  unfoldable pub ad_loop : ℕ → ℕ → List ℕ → List ℕ → List ℕ → List ℕ
  ad_loop zero i offset sum ad = sum
  ad_loop (suc fuel) i offset sum ad =
      let o = next_offset i offset in
      let s = xor16 sum (aes.encrypt key (xor16 (ad_block ad) o)) in
      let more = ad_loop fuel (i + 1) o s (drop 16 ad) in if ltb 0 (length ad) then more else sum

  unfoldable pub ad_sum : List ℕ → List ℕ
  ad_sum ad = ad_loop (length ad) 1 zero_block zero_block ad

  unfoldable pub tag_of : Blocks → List ℕ → List ℕ
  tag_of b ad = xor16 (aes.encrypt key (xor16 b.offset b.checksum)) (ad_sum ad)

  unfoldable pub encrypted : List ℕ → List ℕ → Blocks → Option (List ℕ)
  encrypted nonce ad b =
      if ltb (length nonce) 1 || ltb 15 (length nonce) then none else some (b.out ++ tag_of b ad)

  -- `ocbEncrypt`: `none` is the error on the nonce.
  unfoldable pub ocb_encrypt : List ℕ → List ℕ → List ℕ → Option (List ℕ)
  ocb_encrypt nonce plaintext ad =
      encrypted nonce ad
        (encrypt_blocks ((length plaintext + 15) / 16) 1 (first_offset nonce) zero_block plaintext)

  unfoldable pub decrypted : List ℕ → List ℕ → List ℕ → Blocks → Option (List ℕ)
  decrypted nonce ad tag b =
      if ltb (length nonce) 1 || ltb 15 (length nonce)
      then none
      else if same_bytes tag (tag_of b ad)
      then some b.out
      else none

  -- `ocbDecrypt`: `none` is an error, on the length, the nonce or the tag.
  unfoldable pub ocb_decrypt : List ℕ → List ℕ → List ℕ → Option (List ℕ)
  ocb_decrypt nonce ciphertext ad =
      let n = length ciphertext - 16 in
      let done =
        decrypted nonce ad (drop n ciphertext)
          (decrypt_blocks ((n + 15) / 16) 1 (first_offset nonce) zero_block (take n ciphertext)) in
      if ltb (length ciphertext) 16 then none else done

-- cryptState; its cipher is the block cipher under `key`.
pub record CryptState : Type 0 where
  pub key : List ℕ
  pub nonce : List ℕ
  pub initialized : Bool

abbrev pub fresh_crypt_state : CryptState
fresh_crypt_state = record { key = replicate 16 0; nonce = replicate 12 0; initialized = false }

module _ (aes : BlockCipher) where
  -- The state, and whether there was no error.
  unfoldable pub setup : CryptState → List ℕ → List ℕ → CryptState × Bool
  setup cs key iv =
      let nonce = take 4 (aes.encrypt key (zero_padded iv)) ++ drop 4 cs.nonce in
      if length key == 16
      then (record { key = key; nonce = nonce; initialized = true }, true)
      else (cs, false)

  -- The counter goes into the first four bytes.
  unfoldable pub nonce_for_packet : CryptState → ℕ → List ℕ
  nonce_for_packet cs counter =
      big_endian 4 (bit_xor (from_big_endian 4 (take 4 cs.nonce)) counter) ++ drop 4 cs.nonce

  unfoldable pub encrypt : CryptState → ℕ → List ℕ → Option (List ℕ)
  encrypt cs counter plaintext =
      if cs.initialized
      then ocb_encrypt aes cs.key (nonce_for_packet cs counter) plaintext []
      else some plaintext

  unfoldable pub decrypt : CryptState → ℕ → List ℕ → Option (List ℕ)
  decrypt cs counter ciphertext =
      if cs.initialized
      then ocb_decrypt aes cs.key (nonce_for_packet cs counter) ciphertext []
      else some ciphertext
