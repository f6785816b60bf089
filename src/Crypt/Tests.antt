-- ===== src/Crypt/Tests.antt =====
-- Concrete runs, and the theorems at concrete inputs. The block cipher here is an exclusive or with
-- the key, which meets the laws of the interface.
use barnard_stormdragon_ai_f.Prelude.{
  ℕ, ◌+◌, ◌-◌, ◌%◌, ◌≡◌, refl, arith, List, [], ◌∷◌, none, some, true, false, if◌then◌else◌, length,
  replicate, get_or, set, take,
}
use barnard_stormdragon_ai_f.Crypt.Block.{BlockCipher, IsBlock, xor_bytes, shift2, shift3}
use barnard_stormdragon_ai_f.Crypt.Block.Xor.{xor_bytes-IsBlock, xor_bytes_cancel}
use barnard_stormdragon_ai_f.Crypt.Legacy.{ocb_encrypt, ocb_decrypt}
use barnard_stormdragon_ai_f.Crypt.Legacy.RoundTrip.{ocb_decrypt-ocb_encrypt}
use barnard_stormdragon_ai_f.Crypt.Iv.{advance_iv}
use barnard_stormdragon_ai_f.Crypt.Iv.Value.{value}
use barnard_stormdragon_ai_f.Crypt.Ocb15.{
  ocb15_encrypt, ocb15_decrypt, encrypt_loop, encrypt_round, all_zero, flip_first, same_front,
}
use barnard_stormdragon_ai_f.Crypt.Ocb15.Pad.{mitigated, last_forged}
use barnard_stormdragon_ai_f.Crypt.Ocb15.RoundTrip.{ocb15_decrypt-ocb15_encrypt, has_pattern}
use barnard_stormdragon_ai_f.Crypt.State15.{
  State, fresh_state, ok, err, forgery, too_short, try, choose_iv, encrypt15, decrypt15,
}
use barnard_stormdragon_ai_f.Crypt.State15.Window.{choose_iv_late_wrapped}
use barnard_stormdragon_ai_f.Crypt.State15.Delivery.{decrypt15-encrypt15}
use barnard_stormdragon_ai_f.Crypt.State15.Failure.{decrypt15_err}

toy-cancel : (key b : List ℕ) → IsBlock key → IsBlock b → xor_bytes (xor_bytes b key) key ≡ b
toy-cancel key b hk hb = xor_bytes_cancel b key (omega (arith, hk.size, hb.size))

abbrev toy : BlockCipher
toy = record {
  encrypt = λ key b. xor_bytes b key;
  decrypt = λ key b. xor_bytes b key;
  encrypt-IsBlock = λ key b hk hb. xor_bytes-IsBlock b key hb hk;
  decrypt-IsBlock = λ key b hk hb. xor_bytes-IsBlock b key hb hk;
  decrypt-encrypt = toy-cancel;
}

abbrev key : List ℕ
key = 1 ∷ 2 ∷ 3 ∷ 4 ∷ 5 ∷ 6 ∷ 7 ∷ 8 ∷ 9 ∷ 10 ∷ 11 ∷ 12 ∷ 13 ∷ 14 ∷ 15 ∷ 16 ∷ []

key-IsBlock : IsBlock key
key-IsBlock = record { size = refl; bytes = omega arith }

abbrev nonce : List ℕ
nonce = 255 ∷ 255 ∷ replicate 14 7

nonce-IsBlock : IsBlock nonce
nonce-IsBlock = record { size = refl; bytes = omega arith }

-- Two bytes behind a block of zeros.
abbrev text : List ℕ
text = 0 ∷ 0 ∷ 0 ∷ 0 ∷ 0 ∷ 0 ∷ 0 ∷ 0 ∷ 0 ∷ 0 ∷ 0 ∷ 0 ∷ 0 ∷ 0 ∷ 0 ∷ 0 ∷ 5 ∷ 6 ∷ []

no_pattern : has_pattern toy key nonce text ≡ false
unfolding has_pattern last_forged encrypt_loop encrypt_round all_zero flip_first same_front
    xor_bytes shift2 shift3
no_pattern = refl

no_pattern_next : has_pattern toy key (advance_iv nonce) text ≡ false
unfolding has_pattern last_forged encrypt_loop encrypt_round all_zero flip_first same_front
    xor_bytes shift2 shift3 advance_iv
no_pattern_next = refl

advance_carries : advance_iv (255 ∷ 255 ∷ 7 ∷ []) ≡ 0 ∷ 0 ∷ 8 ∷ []
unfolding advance_iv
advance_carries = refl

ocb15_decrypt-ocb15_encrypt_example :
    (length (ocb15_encrypt toy key nonce text).0 ≡ length text)
    × (ocb15_decrypt toy key nonce (ocb15_encrypt toy key nonce text).0 ≡ (
        if has_pattern toy key nonce text
        then none
        else some (mitigated (length text) text, (ocb15_encrypt toy key nonce text).1)))
ocb15_decrypt-ocb15_encrypt_example =
    ocb15_decrypt-ocb15_encrypt toy key key-IsBlock nonce text nonce-IsBlock (omega arith)

abbrev sender : State
sender = record fresh_state { key = key; encrypt_iv = nonce; initialized = true }

abbrev receiver : State
receiver = record fresh_state { key = key; decrypt_iv = nonce; initialized = true }

decrypt15-encrypt15_example :
    (p : List ℕ) × (encrypt15 toy sender text
      ≡ (record sender { encrypt_iv = advance_iv nonce }, ok p))
    × (decrypt15 toy receiver p ≡ (
        if has_pattern toy key (advance_iv nonce) text then (receiver, err forgery) else (
          record receiver {
            decrypt_iv = advance_iv nonce;
            history =
                set
                  (replicate 256 0)
                  (get_or (advance_iv nonce) 0 0)
                  (get_or (advance_iv nonce) 1 0);
          },
          ok (mitigated (length text) text),
        )))
decrypt15-encrypt15_example =
    decrypt15-encrypt15 toy sender receiver text refl refl refl refl key-IsBlock nonce-IsBlock
      (omega arith)

short_packet : (decrypt15 toy receiver (1 ∷ 2 ∷ [])).1 ≡ err too_short
unfolding decrypt15
short_packet = refl

decrypt15_err_example : (decrypt15 toy receiver (1 ∷ 2 ∷ [])).0 ≡ receiver
decrypt15_err_example = decrypt15_err toy receiver (1 ∷ 2 ∷ []) too_short short_packet

-- The sender used (251, 6); the receiver tries (250, 7).
choose_iv_late_wrapped_example :
    (iv' : List ℕ) × (choose_iv (5 ∷ 7 ∷ []) ((5 + 256 - 10) % 256) ≡ try iv' true true)
    × (value iv' + 10 ≡ value (5 ∷ 7 ∷ []) + 255)
choose_iv_late_wrapped_example = choose_iv_late_wrapped 5 10 (7 ∷ []) (omega arith) (omega arith)

ocb_decrypt-ocb_encrypt_example :
    (ct : List ℕ) × (ocb_encrypt toy key (take 12 nonce) text (1 ∷ 2 ∷ []) ≡ some ct)
    × (length ct ≡ 18 + 16)
    × (ocb_decrypt toy key (take 12 nonce) ct (1 ∷ 2 ∷ []) ≡ some text)
ocb_decrypt-ocb_encrypt_example =
    ocb_decrypt-ocb_encrypt toy key key-IsBlock (take 12 nonce) text (1 ∷ 2 ∷ []) (omega arith)
      (omega arith) (omega arith) (omega arith) (omega arith)
