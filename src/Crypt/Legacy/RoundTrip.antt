-- ===== src/Crypt/Legacy/RoundTrip.antt =====
-- ocbDecrypt undoes ocbEncrypt, gumble/gumble/crypt.go.
use barnard_stormdragon_ai_f.Prelude.{
  ℕ, zero, suc, ◌+◌, ◌-◌, ◌*◌, ◌/◌, ◌%◌, ◌≤◌, ◌<◌, ◌≡◌, refl, sym, ap, ◌∙◌, List, [], ◌∷◌, ◌++◌,
  some, true, false, not, ◌&&◌, length, length-append, length-take, length-drop, length-replicate,
  take, drop, replicate, take-append-drop, take-length_append, drop-length_append, All, All-append,
  All-take, All-drop, All-replicate, IsByte, if_ind, ltb, ltb-false_of_le, ltb-false→le, ◌==◌,
  arith,
}
use barnard_stormdragon_ai_f.Crypt.Block.{BlockCipher, IsBlock, xor16, xor_bytes, shift2}
use barnard_stormdragon_ai_f.Crypt.Block.Xor.{
  length-xor_bytes, xor_bytes-IsBlock, xor_bytes_cancel, shift2-IsBlock,
}
use barnard_stormdragon_ai_f.Crypt.Ocb15.{zero_padded, zero_block}
use barnard_stormdragon_ai_f.Crypt.Ocb15.Loop.{take-IsBlock}
use barnard_stormdragon_ai_f.Crypt.State15.{same_bytes}
use barnard_stormdragon_ai_f.Crypt.Legacy.{
  l_ntz, Blocks, ad_block, first_offset, next_offset, encrypt_blocks, decrypt_blocks, ad_loop,
  ad_sum, tag_of, encrypted, decrypted, ocb_encrypt, ocb_decrypt,
}

l_ntz-IsBlock : (fuel i : ℕ) (l : List ℕ) → IsBlock l → IsBlock (l_ntz fuel i l)
unfolding l_ntz
l_ntz-IsBlock zero i l h = h
l_ntz-IsBlock (suc fuel) i l h =
    if_ind IsBlock (not (i == 0) && i % 2 == 0)
      (λ e. l_ntz-IsBlock fuel (i / 2) (shift2 l) (shift2-IsBlock l h)) (λ e. h)

zero_block-IsBlock : IsBlock zero_block
zero_block-IsBlock = record { size = refl; bytes = All-replicate IsByte 16 0 (omega arith) }

same_bytes_self : (a : List ℕ) → same_bytes a a ≡ true
unfolding same_bytes
same_bytes_self [] = refl
same_bytes_self (x ∷ a) = ground (arith, same_bytes_self a)

padded :
    (a : List ℕ) (n : ℕ) → All IsByte a → 16 ≤ length a + n → IsBlock (take 16 (a ++ replicate n 0))
padded a n h le =
    take-IsBlock (a ++ replicate n 0)
      (omega (arith, length-append a (replicate n 0), length-replicate {A = ℕ} n 0))
      (All-append IsByte a (replicate n 0) h (All-replicate IsByte n 0 (omega arith)))

zero_padded-IsBlock : (a : List ℕ) → All IsByte a → IsBlock (zero_padded a)
zero_padded-IsBlock a h = padded a (16 - length a) h (omega arith)

ad_block-IsBlock : (ad : List ℕ) → All IsByte ad → IsBlock (ad_block ad)
unfolding ad_block
ad_block-IsBlock ad h =
    if_ind (λ l. IsBlock (take 16 l)) (ltb (length ad) 16)
      (λ e.
        take-IsBlock _ (omega (arith, length-append ad (0x80 ∷ replicate 15 0)))
          (All-append IsByte ad _ h (omega arith, All-replicate IsByte 15 0 (omega arith))))
      (λ e. take-IsBlock ad (omega (arith, ltb-false→le (length ad) 16 e)) h)

take_block : (a b : List ℕ) → IsBlock a → take 16 (a ++ b) ≡ a
take_block a b h = sym (ap (λ n. take n (a ++ b)) h.size) ∙ take-length_append a b

drop_block : (a b : List ℕ) → IsBlock a → drop 16 (a ++ b) ≡ b
drop_block a b h = sym (ap (λ n. drop n (a ++ b)) h.size) ∙ drop-length_append a b

module _ (aes : BlockCipher) (key : List ℕ) (hk : IsBlock key) where
  next_offset-IsBlock : (i : ℕ) (o : List ℕ) → IsBlock o → IsBlock (next_offset aes key i o)
  unfolding next_offset
  next_offset-IsBlock i o h =
      xor_bytes-IsBlock o _ h
        (l_ntz-IsBlock i i _ (aes.encrypt-IsBlock key zero_block hk zero_block-IsBlock))

  -- What the loops make of each other's output.
  record IsExchanged (left i : ℕ) (o c rest : List ℕ) : Type 0 where
    size : length (encrypt_blocks aes key left i o c rest).out ≡ length rest
    back : decrypt_blocks aes key left i o c (encrypt_blocks aes key left i o c rest).out ≡ record {
      out = rest;
      offset = (encrypt_blocks aes key left i o c rest).offset;
      checksum = (encrypt_blocks aes key left i o c rest).checksum;
    }
    offset-IsBlock : IsBlock (encrypt_blocks aes key left i o c rest).offset
    checksum-IsBlock : IsBlock (encrypt_blocks aes key left i o c rest).checksum

  -- A whole block comes back.
  block_back :
      (b o : List ℕ)
      → IsBlock b
      → IsBlock o
      → xor16 (aes.decrypt key (xor16 (xor16 (aes.encrypt key (xor16 b o)) o) o)) o ≡ b
  block_back b o hb ho =
      let x = xor16 b o in
      let hx = xor_bytes-IsBlock b o hb ho in
      let he = aes.encrypt-IsBlock key x hk hx in
      rw
        (
          xor_bytes_cancel (aes.encrypt key x) o (omega (arith, he.size, ho.size)),
          aes.decrypt-encrypt key x hk hx,
        )
        (xor_bytes_cancel b o (omega (arith, hb.size, ho.size)))

  exchange :
      (left i : ℕ) (o c rest : List ℕ)
      → length rest ≤ 16 * left
      → 16 * left < length rest + 16
      → IsBlock o
      → IsBlock c
      → All IsByte rest
      → IsExchanged left i o c rest
  unfolding encrypt_blocks decrypt_blocks
  exchange zero i o c [] le lt ho hc hr = record {
    size = refl;
    back = refl;
    offset-IsBlock = ho;
    checksum-IsBlock = hc;
  }
  exchange zero i o c (x ∷ rest) le lt ho hc hr = absurd (omega arith)
  exchange (suc zero) i o c rest le lt ho hc hr =
      let o' = next_offset aes key i o in
      let hpad = aes.encrypt-IsBlock key o' hk (next_offset-IsBlock i o ho) in
      let pad = take (length rest) (aes.encrypt key o') in
      let room : length rest ≤ length pad =
        omega (arith, length-take (length rest) (aes.encrypt key o'), hpad.size) in
      let same : length (xor_bytes rest pad) ≡ length rest =
        omega (arith, length-xor_bytes rest pad) in
      record {
        size = same;
        back = rw (same, xor_bytes_cancel rest pad room) refl;
        offset-IsBlock = next_offset-IsBlock i o ho;
        checksum-IsBlock = xor_bytes-IsBlock c _ hc (zero_padded-IsBlock rest hr);
      }
  exchange (suc (suc left)) i o c rest le lt ho hc hr =
      let o' = next_offset aes key i o in
      let ho' = next_offset-IsBlock i o ho in
      let b = take 16 rest in
      let hb = take-IsBlock rest (omega arith) hr in
      let tmp = xor16 (aes.encrypt key (xor16 b o')) o' in
      let htmp =
        xor_bytes-IsBlock _ o' (aes.encrypt-IsBlock key _ hk (xor_bytes-IsBlock b o' hb ho')) ho' in
      let cut = length-drop 16 rest in
      let later =
        exchange (suc left) (i + 1) o' (xor16 c b) (drop 16 rest) (omega (arith, cut))
          (omega (arith, cut)) ho' (xor_bytes-IsBlock c b hc hb) (All-drop IsByte 16 rest hr) in
      record {
        size = omega (arith, length-append tmp _, htmp.size, later.size, cut);
        back =
            rw
              (
                take_block tmp _ htmp,
                drop_block tmp _ htmp,
                block_back b o' hb ho',
                later.back,
                take-append-drop 16 rest,
              )
              refl;
        offset-IsBlock = later.offset-IsBlock;
        checksum-IsBlock = later.checksum-IsBlock;
      }

  ad_loop-IsBlock :
      (fuel i : ℕ) (o s ad : List ℕ)
      → IsBlock o
      → IsBlock s
      → All IsByte ad
      → IsBlock (ad_loop aes key fuel i o s ad)
  unfolding ad_loop
  ad_loop-IsBlock zero i o s ad ho hs h = hs
  ad_loop-IsBlock (suc fuel) i o s ad ho hs h =
      let ho' = next_offset-IsBlock i o ho in
      let hx = xor_bytes-IsBlock (ad_block ad) _ (ad_block-IsBlock ad h) ho' in
      if_ind IsBlock (ltb 0 (length ad))
        (λ e.
          ad_loop-IsBlock fuel (i + 1) _ _ (drop 16 ad) ho'
            (xor_bytes-IsBlock s _ hs (aes.encrypt-IsBlock key _ hk hx)) (All-drop IsByte 16 ad h))
        (λ e. hs)

  tag_of-IsBlock :
      (b : Blocks) (ad : List ℕ)
      → IsBlock b.offset
      → IsBlock b.checksum
      → All IsByte ad
      → IsBlock (tag_of aes key b ad)
  unfolding tag_of ad_sum
  tag_of-IsBlock b ad ho hc h =
      xor_bytes-IsBlock _ _
        (aes.encrypt-IsBlock key _ hk (xor_bytes-IsBlock b.offset b.checksum ho hc))
        (ad_loop-IsBlock (length ad) 1 zero_block zero_block ad zero_block-IsBlock
          zero_block-IsBlock h)

  first_offset-IsBlock :
      (nonce : List ℕ) → All IsByte nonce → length nonce ≤ 15 → IsBlock (first_offset aes key nonce)
  unfolding first_offset
  first_offset-IsBlock nonce h le =
      let e = aes.encrypt-IsBlock key (zero_padded nonce) hk (zero_padded-IsBlock nonce h) in
      let x = aes.encrypt key (zero_padded nonce) in
      let z : List ℕ = replicate (16 - length nonce) 0 in
      record {
        size = omega (
          arith,
          length-append (take (length nonce) x) z,
          length-take (length nonce) x,
          e.size,
          length-replicate {A = ℕ} (16 - length nonce) 0,
        );
        bytes =
            All-append IsByte (take (length nonce) x) z (All-take IsByte (length nonce) x e.bytes)
              (All-replicate IsByte (16 - length nonce) 0 (omega arith));
      }

  encrypted_lem :
      (nonce ad : List ℕ) (b : Blocks)
      → 1 ≤ length nonce
      → length nonce ≤ 15
      → encrypted aes key nonce ad b ≡ some (b.out ++ tag_of aes key b ad)
  unfolding encrypted
  encrypted_lem nonce ad b lo hi = ground arith

  decrypted_lem :
      (nonce ad tag : List ℕ) (b : Blocks)
      → 1 ≤ length nonce
      → length nonce ≤ 15
      → tag_of aes key b ad ≡ tag
      → decrypted aes key nonce ad tag b ≡ some b.out
  unfolding decrypted
  decrypted_lem nonce ad tag b lo hi e = rw e (ground (arith, same_bytes_self tag))

  ocb_decrypt_lem :
      (nonce ad c tag : List ℕ)
      → IsBlock tag
      → ocb_decrypt aes key nonce (c ++ tag) ad
        ≡ decrypted aes key nonce ad tag (
            decrypt_blocks aes key
              ((length c + 15) / 16)
              1
              (first_offset aes key nonce)
              zero_block
              c)
  unfolding ocb_decrypt
  ocb_decrypt_lem nonce ad c tag h =
      let long : ltb (length (c ++ tag)) 16 ≡ false =
        ltb-false_of_le 16 (length (c ++ tag)) (omega (arith, length-append c tag, h.size)) in
      let n : length (c ++ tag) - 16 ≡ length c = omega (arith, length-append c tag, h.size) in
      rw (long, n, take-length_append c tag, drop-length_append c tag) refl

  -- Under a nonce of one to 15 bytes `ocbEncrypt` makes a ciphertext that is 16 bytes longer than the
  -- plaintext, and `ocbDecrypt`, with the same nonce and associated data, returns the plaintext.
  pub ocb_decrypt-ocb_encrypt :
      (nonce text ad : List ℕ)
      → 1 ≤ length nonce
      → length nonce ≤ 15
      → All IsByte nonce
      → All IsByte text
      → All IsByte ad
      → (ct : List ℕ) × (ocb_encrypt aes key nonce text ad ≡ some ct)
        × (length ct ≡ length text + 16)
        × (ocb_decrypt aes key nonce ct ad ≡ some text)
  unfolding ocb_encrypt tag_of
  ocb_decrypt-ocb_encrypt nonce text ad lo hi hn ht ha =
      let o = first_offset aes key nonce in
      let m = (length text + 15) / 16 in
      let x =
        exchange m 1 o zero_block text (omega arith) (omega arith)
          (first_offset-IsBlock nonce hn hi) zero_block-IsBlock ht in
      let e = encrypt_blocks aes key m 1 o zero_block text in
      let tag = tag_of aes key e ad in
      let htag = tag_of-IsBlock e ad x.offset-IsBlock x.checksum-IsBlock ha in
      (
        e.out ++ tag,
        encrypted_lem nonce ad e lo hi,
        omega (arith, length-append e.out tag, x.size, htag.size),
        ocb_decrypt_lem nonce ad e.out tag htag
            ∙ rw (x.size, x.back) (decrypted_lem nonce ad tag _ lo hi refl),
      )
