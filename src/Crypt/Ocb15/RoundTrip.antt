-- ===== src/Crypt/Ocb15/RoundTrip.antt =====
-- ocb15Decrypt after ocb15Encrypt (gumble/gumble/udp15.go), for every block cipher.
use barnard_stormdragon_ai_f.Prelude.{
  ℕ, zero, suc, ◌<◌, ◌≤◌, ◌≡◌, Bool, if◌then◌else◌, ap, ◌∙◌, arith, List, [], ◌++◌, none, some,
  length, take, drop, All, IsByte, All-drop, length-drop, length-append, append_assoc,
  take-length_append, drop-length_append,
}
use barnard_stormdragon_ai_f.Crypt.Block.{BlockCipher, IsBlock, xor_bytes, xor16, shift2}
use barnard_stormdragon_ai_f.Crypt.Block.Xor.{xor_bytes-IsBlock, xor_bytes_cancel, shift2-IsBlock}
use barnard_stormdragon_ai_f.Crypt.Ocb15.{
  Pass, flips, flip_if, encrypt_round, encrypt_loop, decrypt_round, decrypt_loop, decrypt_last,
  ocb15_encrypt, ocb15_decrypt, start,
}
use barnard_stormdragon_ai_f.Crypt.Ocb15.Loop.{
  flip_if-xor_bytes, xor_bytes-flip_if, flip_if-IsBlock, take-IsBlock, encrypt_loop_more,
  decrypt_loop_more,
}
use barnard_stormdragon_ai_f.Crypt.Ocb15.Pad.{
  mitigated, mitigated_more, Answer, Exchange, last_Exchange, last_forged,
}
use native.Mathlib.Decide.{dec_lt}

module _ (aes : BlockCipher) (key : List ℕ) where
  -- The pattern of a forgery in what `ocb15Encrypt` makes of a plaintext.
  unfoldable pub has_pattern : (nonce text : List ℕ) → Bool
  has_pattern nonce text =
      last_forged aes key (encrypt_loop aes key (length text) (start aes key nonce text))

module _ (aes : BlockCipher) (key : List ℕ) (hk : IsBlock key) where
  -- A full block.
  module _ (s : Pass) (h : 16 < length s.rest) (hd : IsBlock s.delta) (hb : All IsByte s.rest) where
    plain : List ℕ
    plain = flip_if (flips s.rest) (take 16 s.rest)

    cblock : List ℕ
    cblock = xor_bytes (aes.encrypt key (xor_bytes plain (shift2 s.delta))) (shift2 s.delta)

    plain-IsBlock : IsBlock plain
    unfolding plain
    plain-IsBlock = flip_if-IsBlock (flips s.rest) _ (take-IsBlock s.rest (omega arith) hb)

    masked-IsBlock : IsBlock (xor_bytes plain (shift2 s.delta))
    masked-IsBlock =
        xor_bytes-IsBlock plain (shift2 s.delta) plain-IsBlock (shift2-IsBlock s.delta hd)

    enciphered-IsBlock : IsBlock (aes.encrypt key (xor_bytes plain (shift2 s.delta)))
    enciphered-IsBlock = aes.encrypt-IsBlock key _ hk masked-IsBlock

    cblock-IsBlock : IsBlock cblock
    unfolding cblock
    cblock-IsBlock =
        xor_bytes-IsBlock _ (shift2 s.delta) enciphered-IsBlock (shift2-IsBlock s.delta hd)

    after_round : Pass
    after_round = record {
      delta = shift2 s.delta;
      checksum = xor16 s.checksum plain;
      out = s.out ++ cblock;
      rest = drop 16 s.rest;
    }

    encrypt_round_lem : encrypt_round aes key s ≡ after_round
    unfolding encrypt_round after_round cblock plain
    encrypt_round_lem = rw (
      flip_if-xor_bytes (flips s.rest) (take 16 s.rest) (shift2 s.delta),
      xor_bytes-flip_if (flips s.rest) s.checksum (take 16 s.rest),
    )

    deciphered :
        xor_bytes (aes.decrypt key (xor_bytes cblock (shift2 s.delta))) (shift2 s.delta) ≡ plain
    unfolding cblock
    deciphered =
        rw
          (
            xor_bytes_cancel (aes.encrypt key (xor_bytes plain (shift2 s.delta))) (shift2 s.delta)
                (omega (arith, enciphered-IsBlock.size, (shift2-IsBlock s.delta hd).size)),
            aes.decrypt-encrypt key (xor_bytes plain (shift2 s.delta)) hk masked-IsBlock,
          )
          (xor_bytes_cancel plain (shift2 s.delta)
            (omega (arith, plain-IsBlock.size, (shift2-IsBlock s.delta hd).size)))

    decrypt_round_lem :
        (o c : List ℕ)
        → decrypt_round aes key
            (record { delta = s.delta; checksum = s.checksum; out = o; rest = cblock ++ c })
          ≡ record {
            delta = shift2 s.delta;
            checksum = xor16 s.checksum plain;
            out = o ++ plain;
            rest = c;
          }
    unfolding decrypt_round
    decrypt_round_lem o c = rw (front, back, deciphered)
      where
        front : take 16 (cblock ++ c) ≡ cblock
        front = rw cblock-IsBlock.size at (take-length_append cblock c)

        back : drop 16 (cblock ++ c) ≡ c
        back = rw cblock-IsBlock.size at (drop-length_append cblock c)

    length-sent :
        (c : List ℕ) → length c ≡ length after_round.rest → length (cblock ++ c) ≡ length s.rest
    unfolding after_round
    length-sent c e =
        omega (arith, length-append cblock c, cblock-IsBlock.size, length-drop 16 s.rest)

    round_opened :
        (fuel : ℕ) (e : Exchange aes key hk fuel after_round) (o : List ℕ) (n : ℕ)
        → length (cblock ++ e.c) ≤ n
        → Answer
            (last_forged aes key (encrypt_loop aes key (suc fuel) s))
            (decrypt_last aes key
              (decrypt_loop aes key n (record s { out = o; rest = cblock ++ e.c })))
            (o ++ mitigated (suc fuel) s.rest)
            e.tag
    unfolding after_round plain
    round_opened fuel e o zero le = absurd (omega (arith, length-sent e.c e.size))
    round_opened fuel e o (suc n) le =
        rw
          (
            decrypt_loop_more aes key n (record s { out = o; rest = cblock ++ e.c })
                (omega (arith, length-sent e.c e.size)),
            decrypt_round_lem o e.c,
            mitigated_more fuel s.rest h,
            encrypt_loop_more aes key fuel s h,
            encrypt_round_lem,
            ← append_assoc,
          )
          (e.opened (o ++ plain) n (omega (arith, length-append cblock e.c, cblock-IsBlock.size)))

    round_Exchange :
        (fuel : ℕ) → Exchange aes key hk fuel after_round → Exchange aes key hk (suc fuel) s
    unfolding after_round
    round_Exchange fuel e = record {
      c = cblock ++ e.c;
      tag = e.tag;
      sent =
          rw (encrypt_loop_more aes key fuel s h, encrypt_round_lem)
            (e.sent ∙ ap (λ x. (x, e.tag)) (append_assoc s.out cblock e.c));
      size = length-sent e.c e.size;
      opened = round_opened fuel e;
    }

  exchange :
      (fuel : ℕ) (s : Pass)
      → length s.rest ≤ fuel
      → IsBlock s.delta
      → All IsByte s.rest
      → Exchange aes key hk fuel s
  exchange zero s le hd hb = last_Exchange aes key hk zero s (omega arith) hd
  exchange (suc fuel) s le hd hb = elim (dec_lt 16 (length s.rest)) [
    | yes h ↦ round_Exchange s h hd hb fuel (
        exchange fuel (after_round s h hd hb)
          (unfold after_round in omega (arith, length-drop 16 s.rest))
          (unfold after_round in shift2-IsBlock s.delta hd)
          (unfold after_round in All-drop IsByte 16 s.rest hb))
    | no h ↦ last_Exchange aes key hk (suc fuel) s (omega arith) hd
  ]

  -- Under every block cipher, key and nonce: what `ocb15Encrypt` makes of a plaintext has its length.
  -- Where the block that the sender's checksum takes last agrees with the delta in its first 15 bytes,
  -- `ocb15Decrypt` answers with the forgery error; where it does not, with the sender's tag and the
  -- plaintext that the XEX mitigation leaves.
  pub ocb15_decrypt-ocb15_encrypt :
      (nonce text : List ℕ)
      → IsBlock nonce
      → All IsByte text
      → let (ct, tag) = ocb15_encrypt aes key nonce text in
        (length ct ≡ length text)
        × (ocb15_decrypt aes key nonce ct ≡ (
            if has_pattern aes key nonce text
            then none
            else some (mitigated (length text) text, tag)))
  unfolding ocb15_encrypt ocb15_decrypt has_pattern
  ocb15_decrypt-ocb15_encrypt nonce text hn ht =
      let e =
        exchange (length text) (start aes key nonce text) (omega arith)
          (aes.encrypt-IsBlock key nonce hk hn) ht in
      rw e.sent (e.size, e.opened [] (length e.c) (omega arith))
