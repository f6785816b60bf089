-- ===== src/UdpAudio/Words.antt =====
-- The words that decodeUDPAudio and handleUDPTunnel read: where the bytes are there, nothing panics.
use barnard_stormdragon_ai_f.Prelude.{
  ℕ, ◌+◌, ◌≤◌, ◌≡◌, refl, List, some, length, drop, ltb-false_of_le,
}
use barnard_stormdragon_ai_f.UdpAudio.{uint32_at, from_little_endian_32}

-- Where four bytes stand, a word is read.
pub uint32_at-fits :
    (k : ℕ) (bytes : List ℕ)
    → k + 4 ≤ length bytes
    → uint32_at k bytes ≡ some (from_little_endian_32 (drop k bytes))
unfolding uint32_at
uint32_at-fits k bytes h = rw (ltb-false_of_le (k + 4) (length bytes) h) refl
