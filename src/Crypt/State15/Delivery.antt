-- ===== src/Crypt/State15/Delivery.antt =====
-- A packet sent by `encrypt15` and received next by `decrypt15`.
use barnard_stormdragon_ai_f.Prelude.{
  ℕ, ◌≤◌, ◌≡◌, refl, ◌∙◌, arith, List, [], ◌∷◌, Option, none, some, true, false, Bool,
  if◌then◌else◌, length, All, IsByte, get_or, set, take, drop,
}
use barnard_stormdragon_ai_f.Crypt.Block.{BlockCipher, IsBlock}
use barnard_stormdragon_ai_f.Crypt.Iv.{advance_iv}
use barnard_stormdragon_ai_f.Crypt.Iv.Value.{advance_iv-IsByte, length-advance_iv}
use barnard_stormdragon_ai_f.Crypt.Ocb15.{ocb15_encrypt, ocb15_decrypt}
use barnard_stormdragon_ai_f.Crypt.Ocb15.Pad.{mitigated}
use barnard_stormdragon_ai_f.Crypt.Ocb15.RoundTrip.{ocb15_decrypt-ocb15_encrypt, has_pattern}
use barnard_stormdragon_ai_f.Crypt.Ocb15.Tag.{tag-IsBlock}
use barnard_stormdragon_ai_f.Crypt.State15.{
  State, ok, err, forgery, try, choose_iv, same_bytes, encrypt15, accept, opened, attempt,
  decrypt15,
}
use barnard_stormdragon_ai_f.Crypt.State15.Window.{choose_iv_next}

same_bytes_refl : (a : List ℕ) → same_bytes a a ≡ true
unfolding same_bytes
same_bytes_refl [] = refl
same_bytes_refl (x ∷ a) = ground (arith, same_bytes_refl a)

advance_iv-IsBlock : (iv : List ℕ) → IsBlock iv → IsBlock (advance_iv iv)
advance_iv-IsBlock iv h = record {
  size = length-advance_iv iv ∙ h.size;
  bytes = advance_iv-IsByte iv h.bytes;
}

-- The first bytes of a tag, as `encrypt15` sends them and `decrypt15` compares them.
three :
    (tag : List ℕ)
    → length tag ≡ 16
    → take 3 tag ≡ get_or tag 0 0 ∷ get_or tag 1 0 ∷ get_or tag 2 0 ∷ []
three [] h = absurd (omega arith)
three (a ∷ []) h = absurd (omega arith)
three (a ∷ b ∷ []) h = absurd (omega arith)
three (a ∷ b ∷ c ∷ rest) h = refl

next_choice :
    (iv : List ℕ)
    → IsBlock iv
    → choose_iv iv (get_or (advance_iv iv) 0 0) ≡ try (advance_iv iv) false false
next_choice [] h = absurd (omega (arith, h.size))
next_choice (b ∷ iv) h = choose_iv_next b iv h.bytes.0

-- The answer to a packet whose IV is the next one.
module _ (aes : BlockCipher) (r : State) where
  in_order :
      (p iv key : List ℕ)
      → r.initialized ≡ true
      → r.key ≡ key
      → 4 ≤ length p
      → choose_iv r.decrypt_iv (get_or p 0 0) ≡ try iv false false
      → decrypt15 aes r p
        ≡ opened aes r.decrypt_iv
            (record r { decrypt_iv = iv })
            (get_or p 0 0)
            false
            (take 3 (drop 1 p))
            (ocb15_decrypt aes key iv (drop 4 p))
  unfolding decrypt15 attempt
  in_order p iv key hr hk h e = ground arith

  opened_answer :
      (b : ℕ) (iv text tag : List ℕ) (o : Option (List ℕ × List ℕ)) (forged : Bool)
      → o ≡ (if forged then none else some (text, tag))
      → opened aes r.decrypt_iv (record r { decrypt_iv = iv }) b false (take 3 tag) o ≡ (
          if forged
          then (r, err forgery)
          else (record r { decrypt_iv = iv; history = set r.history b (get_or iv 1 0) }, ok text))
  unfolding opened accept
  opened_answer b iv text tag o true e = rw e refl
  opened_answer b iv text tag o false e = rw (e, same_bytes_refl (take 3 tag)) refl

module _ (aes : BlockCipher) (s r : State) (text : List ℕ) where
  iv : List ℕ
  iv = advance_iv s.encrypt_iv

  packet : List ℕ
  packet =
      let (ct, tag) = ocb15_encrypt aes s.key (advance_iv s.encrypt_iv) text in
      get_or (advance_iv s.encrypt_iv) 0 0 ∷ get_or tag 0 0 ∷ get_or tag 1 0 ∷ get_or tag 2 0 ∷ ct

  sent :
      s.initialized ≡ true
      → encrypt15 aes s text ≡ (record s { encrypt_iv = advance_iv s.encrypt_iv }, ok packet)
  unfolding encrypt15 packet
  sent h = rw h

  -- When the receiver's IV is the sender's, `encrypt15` makes a packet. Where what ocb15Encrypt made has
  -- the forgery pattern, `decrypt15` rejects it with its state as it was; where it has not, it returns the
  -- plaintext that the mitigation leaves, with its IV again the sender's and the packet entered in the
  -- history.
  pub decrypt15-encrypt15 :
      s.initialized ≡ true
      → r.initialized ≡ true
      → r.key ≡ s.key
      → r.decrypt_iv ≡ s.encrypt_iv
      → IsBlock s.key
      → IsBlock s.encrypt_iv
      → All IsByte text
      → (p : List ℕ) × (encrypt15 aes s text
          ≡ (record s { encrypt_iv = advance_iv s.encrypt_iv }, ok p))
        × (decrypt15 aes r p ≡ (
            if has_pattern aes s.key (advance_iv s.encrypt_iv) text then (r, err forgery) else (
              record r {
                decrypt_iv = advance_iv s.encrypt_iv;
                history =
                    set r.history
                      (get_or (advance_iv s.encrypt_iv) 0 0)
                      (get_or (advance_iv s.encrypt_iv) 1 0);
              },
              ok (mitigated (length text) text),
            )))
  unfolding packet
  decrypt15-encrypt15 hs hr ek ei hk hi ht = (
    packet,
    sent hs,
    rw
        (
          in_order aes r packet (advance_iv s.encrypt_iv) s.key hr ek (omega arith)
              (rw ei (next_choice s.encrypt_iv hi)),
          ← three (ocb15_encrypt aes s.key (advance_iv s.encrypt_iv) text).1
              (tag-IsBlock aes s.key hk (advance_iv s.encrypt_iv) text next ht).size,
        )
        (opened_answer aes r (get_or packet 0 0) (advance_iv s.encrypt_iv) _ _ _ _
          (ocb15_decrypt-ocb15_encrypt aes s.key hk (advance_iv s.encrypt_iv) text next ht).1),
  )
    where
      next : IsBlock (advance_iv s.encrypt_iv)
      next = advance_iv-IsBlock s.encrypt_iv hi
