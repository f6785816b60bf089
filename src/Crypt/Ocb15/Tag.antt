-- ===== src/Crypt/Ocb15/Tag.antt =====
-- The tag of ocb15Encrypt (gumble/gumble/udp15.go) is a block of bytes, and so is the checksum.
use barnard_stormdragon_ai_f.Prelude.{
  ℕ, zero, suc, ◌-◌, ◌<◌, refl, arith, List, ◌++◌, length, replicate, All, IsByte, All-take,
  All-drop, All-append, All-replicate, length-take, length-append, length-replicate,
}
use barnard_stormdragon_ai_f.Crypt.Block.{BlockCipher, IsBlock, shift2}
use barnard_stormdragon_ai_f.Crypt.Block.Xor.{
  xor_bytes-IsBlock, xor_bytes-IsByte, shift2-IsBlock, shift3-IsBlock,
}
use barnard_stormdragon_ai_f.Crypt.Ocb15.{
  Pass, flips, zero_padded, encrypt_round, encrypt_loop, encrypt_last, pad_of, start, ocb15_encrypt,
}
use barnard_stormdragon_ai_f.Crypt.Ocb15.Loop.{
  flip_if-IsBlock, take-IsBlock, encrypt_loop_done, encrypt_loop_more,
}
use barnard_stormdragon_ai_f.Crypt.Ocb15.Pad.{pad-IsBlock}
use native.Mathlib.Decide.{dec_lt}

zero_padded-IsBlock : (b : List ℕ) → All IsByte b → IsBlock (zero_padded b)
zero_padded-IsBlock b h = record {
  size = omega (
    arith,
    length-take 16 (b ++ replicate (16 - length b) 0),
    length-append b (replicate (16 - length b) 0),
    length-replicate {A = ℕ} (16 - length b) 0,
  );
  bytes = All-take IsByte 16 (b ++ replicate (16 - length b) 0) (
      All-append IsByte b (replicate (16 - length b) 0) h
        (All-replicate IsByte (16 - length b) 0 (omega arith)));
}

-- What a pass keeps.
record IsSound (s : Pass) : Type 0 where
  delta : IsBlock s.delta
  checksum : IsBlock s.checksum
  rest : All IsByte s.rest

module _ (aes : BlockCipher) (key : List ℕ) (hk : IsBlock key) where
  last-IsBlock : (s : Pass) → IsSound s → IsBlock (encrypt_last aes key s).1
  unfolding encrypt_last
  last-IsBlock s h = aes.encrypt-IsBlock key _ hk (
      xor_bytes-IsBlock _ _ (shift3-IsBlock (shift2 s.delta) delta) (
        xor_bytes-IsBlock _ _ h.checksum (
          xor_bytes-IsBlock _ _
            (zero_padded-IsBlock _
              (xor_bytes-IsByte _ _ h.rest (All-take IsByte (length s.rest) _ pad.bytes)))
            pad)))
    where
      delta : IsBlock (shift2 s.delta)
      delta = shift2-IsBlock s.delta h.delta

      pad : IsBlock (pad_of aes key (length s.rest) (shift2 s.delta))
      pad = pad-IsBlock aes key hk (length s.rest) (shift2 s.delta) delta

  encrypt_round-IsSound :
      (s : Pass) → IsSound s → 16 < length s.rest → IsSound (encrypt_round aes key s)
  unfolding encrypt_round
  encrypt_round-IsSound s h lt = record {
    delta = shift2-IsBlock s.delta h.delta;
    checksum =
        flip_if-IsBlock (flips s.rest) _
          (xor_bytes-IsBlock s.checksum _ h.checksum (take-IsBlock s.rest (omega arith) h.rest));
    rest = All-drop IsByte 16 s.rest h.rest;
  }

  loop-IsBlock :
      (n : ℕ) (s : Pass) → IsSound s → IsBlock (encrypt_last aes key (encrypt_loop aes key n s)).1
  loop-IsBlock zero s h = unfold encrypt_loop in last-IsBlock s h
  loop-IsBlock (suc n) s h = elim (dec_lt 16 (length s.rest)) [
    | yes lt ↦
        rw (encrypt_loop_more aes key n s lt)
          (loop-IsBlock n (encrypt_round aes key s) (encrypt_round-IsSound s h lt))
    | no le ↦ rw (encrypt_loop_done aes key (suc n) s (omega arith)) (last-IsBlock s h)
  ]

  pub tag-IsBlock :
      (nonce text : List ℕ)
      → IsBlock nonce
      → All IsByte text
      → IsBlock (ocb15_encrypt aes key nonce text).1
  unfolding ocb15_encrypt
  tag-IsBlock nonce text hn ht = loop-IsBlock (length text) (start aes key nonce text) (record {
    delta = aes.encrypt-IsBlock key nonce hk hn;
    checksum = record { size = refl; bytes = omega arith };
    rest = ht;
  })
