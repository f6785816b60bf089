-- ===== src/Crypt.antt =====
-- The packet ciphers of gumble/gumble/crypt.go and gumble/gumble/udp15.go.
pub mod Block
pub mod Iv
pub mod Legacy
pub mod Ocb15
pub mod State15
mod Tests
