-- ===== src/Crypt/State15/Failure.antt =====
-- A packet that `decrypt15` refuses leaves no trace.
use barnard_stormdragon_ai_f.Prelude.{
  ℕ, ◌≡◌, refl, arith, List, Option, none, some, Bool, get_or, take, drop,
}
use barnard_stormdragon_ai_f.Crypt.Block.{BlockCipher}
use barnard_stormdragon_ai_f.Crypt.State15.{
  State, Error, Choice, err, try, reject, accept, opened, attempt, decrypt15, choose_iv,
}
use barnard_stormdragon_ai_f.Crypt.Ocb15.{ocb15_decrypt}

module _ (aes : BlockCipher) (cs : State) where
  abbrev moved : List ℕ → State
  moved iv = record cs { decrypt_iv = iv }

  accept-err :
      (b : ℕ) (iv : List ℕ) (r : Bool) (t : List ℕ) (p : List ℕ × List ℕ) (e : Error)
      → (accept aes cs.decrypt_iv (moved iv) b r t p).1 ≡ err e
      → (accept aes cs.decrypt_iv (moved iv) b r t p).0 ≡ cs
  unfolding accept
  accept-err b iv r t p e h = ground arith

  opened-err :
      (b : ℕ) (iv : List ℕ) (r : Bool) (t : List ℕ) (o : Option (List ℕ × List ℕ)) (e : Error)
      → (opened aes cs.decrypt_iv (moved iv) b r t o).1 ≡ err e
      → (opened aes cs.decrypt_iv (moved iv) b r t o).0 ≡ cs
  unfolding opened
  opened-err b iv r t none e h = refl
  opened-err b iv r t (some p) e h = accept-err b iv r t p e h

  attempt-err :
      (packet : List ℕ) (c : Choice) (e : Error)
      → (attempt aes cs packet c).1 ≡ err e
      → (attempt aes cs packet c).0 ≡ cs
  unfolding attempt
  attempt-err packet reject e h = refl
  attempt-err packet (try iv check restore) e h = ground (
    arith,
    opened-err (get_or packet 0 0) iv restore (take 3 (drop 1 packet))
        (ocb15_decrypt aes cs.key iv (drop 4 packet)) e,
  )

  -- Whatever the error, `decrypt15` leaves the state as it was called with it: a forged, replayed, late or
  -- malformed packet changes neither the IV nor the replay history.
  pub decrypt15_err :
      (packet : List ℕ) (e : Error)
      → (decrypt15 aes cs packet).1 ≡ err e
      → (decrypt15 aes cs packet).0 ≡ cs
  unfolding decrypt15
  decrypt15_err packet e h =
      ground (arith, attempt-err packet (choose_iv cs.decrypt_iv (get_or packet 0 0)) e)
