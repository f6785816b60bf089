-- ===== src/Crypt/State15.antt =====
-- cryptState15 of gumble/gumble/udp15.go: setup15, encrypt15 and decrypt15. Each call runs under the
-- state's lock, so it is one step here. A method returns the new state and its result.
pub mod Window
pub mod Delivery
pub mod Failure
use barnard_stormdragon_ai_f.Prelude.{
  ℕ, ◌+◌, ◌-◌, ◌%◌, List, [], ◌∷◌, ◌++◌, Option, none, some, Bool, true, false, not, ◌&&◌,
  if◌then◌else◌, ltb, leb, ◌==◌, length, get_or, set, take, drop, replicate,
}
use barnard_stormdragon_ai_f.Prelude.Int.{ℤ, pos, negsuc, sub_ℕ, ltb_ℤ, ◌+ℤ◌, ◌-ℤ◌}
use barnard_stormdragon_ai_f.Crypt.Block.{BlockCipher}
use barnard_stormdragon_ai_f.Crypt.Iv.{advance_iv, advance_iv_high_bytes, backup_iv}
use barnard_stormdragon_ai_f.Crypt.Ocb15.{ocb15_encrypt, ocb15_decrypt}

pub data Error : Type 0 where
  invalid_key not_initialized too_short too_far_off replay forgery unauthentic : Error

pub data Result : Type 0 where
  ok : List ℕ → Result
  err : Error → Result

pub record State : Type 0 where
  pub key : List ℕ
  pub encrypt_iv : List ℕ
  pub decrypt_iv : List ℕ
  pub history : List ℕ
  pub initialized : Bool

abbrev pub fresh_state : State
fresh_state = record {
  key = replicate 16 0;
  encrypt_iv = replicate 16 0;
  decrypt_iv = replicate 16 0;
  history = replicate 256 0;
  initialized = false;
}

unfoldable pub setup15 : State → List ℕ → List ℕ → List ℕ → State × Result
setup15 cs key client_nonce server_nonce =
    if length key == 16 && (length client_nonce == 16 && length server_nonce == 16)
    then (
      record cs {
        key = key;
        encrypt_iv = client_nonce;
        decrypt_iv = server_nonce;
        initialized = true;
      },
      ok [],
    )
    else (cs, err invalid_key)

-- `int(ivByte) - int(cs.decryptIV[0])`, brought towards -128 to 128.
unfoldable pub iv_diff : ℕ → ℕ → ℤ
iv_diff iv_byte low =
    let diff = sub_ℕ iv_byte low in
    if ltb_ℤ diff (negsuc 127)
    then diff +ℤ pos 256
    else if ltb_ℤ (pos 128) diff
    then diff -ℤ pos 256
    else diff

-- The IV that `decrypt15` tries, whether it looks at the replay history, and whether it puts the old
-- IV back after success.
pub data Choice : Type 0 where
  try : List ℕ → (check restore : Bool) → Choice
  reject : Choice

unfoldable pub choose_iv : List ℕ → ℕ → Choice
choose_iv iv iv_byte =
    let low = get_or iv 0 0 in
    let diff = iv_diff iv_byte low in
    let late = ltb_ℤ (negsuc 29) diff && ltb_ℤ diff (pos 0) in
    if (low + 1) % 256 == iv_byte
    then try (set (if ltb iv_byte low then advance_iv iv else iv) 0 iv_byte) false false
    else if ltb iv_byte low && late
    then try (set iv 0 iv_byte) true true
    else if ltb low iv_byte && late
    then try (backup_iv (set iv 0 iv_byte)) true true
    else if ltb low iv_byte && ltb_ℤ (pos 0) diff
    then try (set iv 0 iv_byte) true false
    else if ltb iv_byte low && ltb_ℤ (pos 0) diff
    then try (set (advance_iv_high_bytes iv) 0 iv_byte) true false
    else reject

-- subtle.ConstantTimeCompare
unfoldable pub same_bytes : List ℕ → List ℕ → Bool
same_bytes [] [] = true
same_bytes [] (y ∷ b) = false
same_bytes (x ∷ a) [] = false
same_bytes (x ∷ a) (y ∷ b) = x == y && same_bytes a b

-- A packet seen before under this IV: `history[ivByte]` is set and is the IV's second byte.
abbrev pub is_replay : List ℕ → ℕ → List ℕ → Bool
is_replay history iv_byte iv =
    not (get_or history iv_byte 0 == 0) && get_or history iv_byte 0 == get_or iv 1 0

-- `cs.decryptIV = savedIV`
abbrev pub restored : List ℕ → State → State
restored saved cs = record cs { decrypt_iv = saved }

module _ (aes : BlockCipher) where
  unfoldable pub encrypt15 : State → List ℕ → State × Result
  encrypt15 cs plaintext =
      let iv = advance_iv cs.encrypt_iv in
      let (ciphertext, tag) = ocb15_encrypt aes cs.key iv plaintext in
      if not cs.initialized then (cs, err not_initialized) else (
        record cs { encrypt_iv = iv },
        ok (get_or iv 0 0 ∷ get_or tag 0 0 ∷ get_or tag 1 0 ∷ get_or tag 2 0 ∷ ciphertext),
      )

  -- What follows a successful decryption; `cs` has the IV that was tried.
  unfoldable pub accept :
      (saved : List ℕ) → State → ℕ → Bool → List ℕ → List ℕ × List ℕ → State × Result
  accept saved cs iv_byte restore expected_tag (plaintext, tag) =
      let entered = record cs { history = set cs.history iv_byte (get_or cs.decrypt_iv 1 0) } in
      if same_bytes (take 3 tag) expected_tag
      then (if restore then restored saved entered else entered, ok plaintext)
      else (restored saved cs, err unauthentic)

  unfoldable pub opened :
      (saved : List ℕ) → State → ℕ → Bool → List ℕ → Option (List ℕ × List ℕ) → State × Result
  opened saved cs iv_byte restore expected_tag none = (restored saved cs, err forgery)
  opened saved cs iv_byte restore expected_tag (some r) =
      accept saved cs iv_byte restore expected_tag r

  -- The IV is changed in place before the checks, with the old one in `saved`.
  unfoldable pub attempt : State → List ℕ → Choice → State × Result
  attempt cs packet reject = (cs, err too_far_off)
  attempt cs packet (try iv check restore) =
      let iv_byte = get_or packet 0 0 in
      let saved = cs.decrypt_iv in
      let moved = record cs { decrypt_iv = iv } in
      if check && is_replay moved.history iv_byte moved.decrypt_iv
      then (restored saved moved, err replay)
      else opened saved moved iv_byte restore (take 3 (drop 1 packet))
          (ocb15_decrypt aes moved.key moved.decrypt_iv (drop 4 packet))

  unfoldable pub decrypt15 : State → List ℕ → State × Result
  decrypt15 cs packet =
      if not cs.initialized
      then (cs, err not_initialized)
      else if ltb (length packet) 4
      then (cs, err too_short)
      else attempt cs packet (choose_iv cs.decrypt_iv (get_or packet 0 0))
