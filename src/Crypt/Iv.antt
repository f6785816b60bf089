-- ===== src/Crypt/Iv.antt =====
-- The 16-byte IV of gumble/gumble/udp15.go, a little-endian number: advanceIV,
-- advanceIVHighBytes and backupIV.
pub mod Value
use barnard_stormdragon_ai_f.Prelude.{ℕ, ◌+◌, ◌-◌, ◌%◌, List, [], ◌∷◌, if◌then◌else◌, ◌==◌}

-- `iv[i]++` and go on if it is 0 now.
unfoldable pub advance_iv : List ℕ → List ℕ
advance_iv [] = []
advance_iv (b ∷ bs) =
    let rest = advance_iv bs in let b' = (b + 1) % 256 in if b' == 0 then b' ∷ rest else b' ∷ bs

-- The same loop from index 1.
unfoldable pub advance_iv_high_bytes : List ℕ → List ℕ
unfolding advance_iv
advance_iv_high_bytes [] = []
advance_iv_high_bytes (b ∷ bs) = b ∷ advance_iv bs

unfoldable pub backup_iv : List ℕ → List ℕ
backup_iv [] = []
backup_iv (b ∷ bs) = let rest = backup_iv bs in if b == 0 then 0xFF ∷ rest else (b - 1) ∷ bs
