-- ===== src/Crypt/Ocb15/Loop.antt =====
-- Rounds of the two loops of gumble/gumble/udp15.go: where they stop, and what a round does.
use barnard_stormdragon_ai_f.Prelude.{
  ℕ, zero, suc, ◌<◌, ◌≤◌, ◌≡◌, refl, ap, ◌∙◌, sym, arith, List, [], ◌∷◌, Bool, true, false, length,
  take, lt→ltb, ltb-false_of_le, All, IsByte, All-take, length-take, bit_xor,
}
use barnard_stormdragon_ai_f.Prelude.Bits
use barnard_stormdragon_ai_f.Crypt.Block.{BlockCipher, IsBlock, xor_bytes}
use barnard_stormdragon_ai_f.Crypt.Ocb15.{
  Pass, flip_first, flip_if, encrypt_round, encrypt_loop, decrypt_round, decrypt_loop,
}

-- The flipped bit may be put on the block before a mask is added.
pub flip_if-xor_bytes :
    (f : Bool) (a b : List ℕ) → flip_if f (xor_bytes a b) ≡ xor_bytes (flip_if f a) b
unfolding flip_first xor_bytes
flip_if-xor_bytes false a b = refl
flip_if-xor_bytes true [] b = refl
flip_if-xor_bytes true (x ∷ a) [] = refl
flip_if-xor_bytes true (x ∷ a) (y ∷ b) =
    ap (λ z. z ∷ xor_bytes a b)
      (Bits.xor_assoc x y 1 ∙ ap (bit_xor x) (Bits.xor_comm y 1) ∙ sym (Bits.xor_assoc x 1 y))

pub xor_bytes-flip_if :
    (f : Bool) (a b : List ℕ) → flip_if f (xor_bytes a b) ≡ xor_bytes a (flip_if f b)
unfolding flip_first xor_bytes
xor_bytes-flip_if false a b = refl
xor_bytes-flip_if true [] b = refl
xor_bytes-flip_if true (x ∷ a) [] = refl
xor_bytes-flip_if true (x ∷ a) (y ∷ b) = ap (λ z. z ∷ xor_bytes a b) (Bits.xor_assoc x y 1)

pub flip_if-IsBlock : (f : Bool) (b : List ℕ) → IsBlock b → IsBlock (flip_if f b)
unfolding flip_first
flip_if-IsBlock false b h = h
flip_if-IsBlock true [] h = h
flip_if-IsBlock true (x ∷ b) h = record {
  size = h.size;
  bytes = (Bits.xor-IsByte x 1 h.bytes.0 (omega arith), h.bytes.1);
}

pub take-IsBlock : (rest : List ℕ) → 16 ≤ length rest → All IsByte rest → IsBlock (take 16 rest)
take-IsBlock rest h b = record {
  size = omega (arith, length-take 16 rest);
  bytes = All-take IsByte 16 rest b;
}

module _ (aes : BlockCipher) (key : List ℕ) where
  pub encrypt_loop_done : (n : ℕ) (s : Pass) → length s.rest ≤ 16 → encrypt_loop aes key n s ≡ s
  unfolding encrypt_loop
  encrypt_loop_done zero s h = refl
  encrypt_loop_done (suc n) s h = rw (ltb-false_of_le (length s.rest) 16 h)

  pub decrypt_loop_done : (n : ℕ) (s : Pass) → length s.rest ≤ 16 → decrypt_loop aes key n s ≡ s
  unfolding decrypt_loop
  decrypt_loop_done zero s h = refl
  decrypt_loop_done (suc n) s h = rw (ltb-false_of_le (length s.rest) 16 h)

  pub encrypt_loop_more :
      (n : ℕ) (s : Pass)
      → 16 < length s.rest
      → encrypt_loop aes key (suc n) s ≡ encrypt_loop aes key n (encrypt_round aes key s)
  unfolding encrypt_loop
  encrypt_loop_more n s h = rw (lt→ltb 16 (length s.rest) h)

  pub decrypt_loop_more :
      (n : ℕ) (s : Pass)
      → 16 < length s.rest
      → decrypt_loop aes key (suc n) s ≡ decrypt_loop aes key n (decrypt_round aes key s)
  unfolding decrypt_loop
  decrypt_loop_more n s h = rw (lt→ltb 16 (length s.rest) h)
