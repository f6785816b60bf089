-- ===== src/Crypt/Block.antt =====
-- Blocks of 16 bytes: xor16, xorBytes, shift2inplace and shift3inplace of gumble/gumble/udp15.go,
-- doubleBlock of gumble/gumble/crypt.go, and the block cipher (crypto/aes) as an interface.
pub mod Xor
use barnard_stormdragon_ai_f.Prelude.{
  ℕ, ◌*◌, ◌/◌, ◌%◌, ◌^◌, ◌≡◌, bit_and, bit_or, bit_xor, List, [], ◌∷◌, length, get_or, All, IsByte,
}

pub record IsBlock (b : List ℕ) : Type 0 where
  pub size : length b ≡ 16
  pub bytes : All IsByte b

-- crypto/aes on one block under a 16-byte key: Encrypt and Decrypt map blocks to blocks, and
-- Decrypt undoes Encrypt.
pub record BlockCipher : Type 0 where
  pub encrypt : List ℕ → List ℕ → List ℕ
  pub decrypt : List ℕ → List ℕ → List ℕ
  pub encrypt-IsBlock : (key b : List ℕ) → IsBlock key → IsBlock b → IsBlock (encrypt key b)
  pub decrypt-IsBlock : (key b : List ℕ) → IsBlock key → IsBlock b → IsBlock (decrypt key b)
  pub decrypt-encrypt : (key b : List ℕ) → IsBlock key → IsBlock b → decrypt key (encrypt key b) ≡ b

-- `xorBytes`, and `xor16`, its unrolled form for slices of 16 bytes.
unfoldable pub xor_bytes : List ℕ → List ℕ → List ℕ
xor_bytes [] b = []
xor_bytes (x ∷ a) [] = []
xor_bytes (x ∷ a) (y ∷ b) = bit_xor x y ∷ xor_bytes a b

abbrev pub xor16 : List ℕ → List ℕ → List ℕ
xor16 = xor_bytes

-- The shift of all bytes by one bit; `c` goes into the last byte.
unfoldable pub shift_bytes : ℕ → List ℕ → List ℕ
shift_bytes c [] = []
shift_bytes c (b ∷ []) = bit_xor (b * 2 % 256) c ∷ []
shift_bytes c (b ∷ next ∷ rest) = bit_or (b * 2 % 256) (next / 2 ^ 7) ∷ shift_bytes c (next ∷ rest)

-- `(block[0] >> 7) & 1`, times 0x87.
abbrev pub carry : List ℕ → ℕ
carry block = bit_and (get_or block 0 0 / 2 ^ 7) 1 * 0x87 % 256

-- `shift2inplace` and `doubleBlock`, which hold the same statements.
unfoldable pub shift2 : List ℕ → List ℕ
unfolding shift_bytes
shift2 block = shift_bytes (carry block) block

unfoldable pub shift3 : List ℕ → List ℕ
shift3 block = xor16 (shift2 block) block
