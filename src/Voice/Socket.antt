-- ===== src/Voice/Socket.antt =====
-- The ends of the encrypted voice socket in gumble/gumble/udp15.go: HandleUDPPacket15
-- and WriteAudioUDP15. The socket itself is input and output.
use barnard_stormdragon_ai_f.Prelude.{
  ℕ, ◌+◌, ◌/◌, ◌%◌, ◌^◌, List, [], ◌∷◌, Option, none, some, Bool, true, not, if◌then◌else◌, ltb,
  ◌==◌, length,
}
use barnard_stormdragon_ai_f.Prelude.Int.{ℤ}
use barnard_stormdragon_ai_f.Crypt.Block.{BlockCipher}
use barnard_stormdragon_ai_f.Crypt.State15.{State, Result, ok, err, encrypt15, decrypt15}
use barnard_stormdragon_ai_f.UdpAudio.{Audio, encode_udp_audio, decode_udp_audio}
use barnard_stormdragon_ai_f.Voice.Legacy.{Parsed, encode_legacy_udp_audio, parse_legacy}

-- Where a decrypted packet goes.
pub data Route : Type 0 where
  ignored : Route
  audio : Option Audio → Route
  legacy : Parsed → Route

-- By the type byte: 0x00 is audio, 0x01 a ping, and 4 in the top three bits the older voice format.
unfoldable pub route : List ℕ → Route
route [] = ignored
route (msg_type ∷ plaintext) =
    let heard = decode_udp_audio plaintext in
    let old = parse_legacy plaintext in
    if msg_type == 0x01
    then ignored
    else if msg_type == 0x00
    then audio heard
    else if msg_type / 2 ^ 5 == 4
    then legacy old
    else ignored

-- The fields of a Client that the socket uses.
pub record Socket : Type 0 where
  pub crypto_in : Option State
  pub crypto_out : Option State
  pub connected : Bool
  pub active : Bool
  pub protobuf : Bool
  pub frame_number : ℕ

unfoldable pub handle_plaintext : Socket → State × Result → Socket × Route
handle_plaintext c (cs, err e) = (record c { crypto_in = some cs }, ignored)
handle_plaintext c (cs, ok plaintext) =
    (record c { crypto_in = some cs; active = true }, route plaintext)

-- What became of outgoing audio: the caller uses TCP, or the bytes of the packet, or an error.
pub data Sent : Type 0 where
  use_tcp failed : Sent
  sent : List ℕ → Sent

unfoldable pub packet_of : Socket → State × Result → Socket × Sent
packet_of c (cs, err e) = (record c { crypto_out = some cs }, failed)
packet_of c (cs, ok packet) = (record c { crypto_out = some cs }, sent packet)

module _ (aes : BlockCipher) where
  unfoldable pub handle_udp_packet15 : Socket → List ℕ → Socket × Route
  handle_udp_packet15 c packet = if ltb (length packet) 4 then (c, ignored) else elim c.crypto_in [
    | none ↦ (c, ignored)
    | some cs ↦ handle_plaintext c (decrypt15 aes cs packet)
  ]

  unfoldable pub encrypted : Socket → State → Option (List ℕ) → Socket × Sent
  encrypted c cs none = (c, failed)
  encrypted c cs (some payload) = packet_of c (encrypt15 aes cs payload)

  -- `none` for the message stands for a panic of its encoder, which never happens.
  unfoldable pub with_crypto : Socket → Option State → Option (List ℕ) → List ℕ → Socket × Sent
  with_crypto c none message old = (c, use_tcp)
  with_crypto c (some cs) message old =
      if not c.connected
      then (c, use_tcp)
      else if c.protobuf
      then encrypted c cs (elim message [ none ↦ none | some bytes ↦ some (0x00 ∷ bytes) ])
      else encrypted c cs (some old)

  unfoldable pub write_audio_udp15 :
      Socket → ℕ → ℕ → ℤ → List ℕ → Bool → Option ℕ → Option ℕ → Option ℕ → Socket × Sent
  write_audio_udp15 c format target sequence opus final x y z =
      let next = if c.protobuf then (c.frame_number + 1) % 2 ^ 64 else c.frame_number in
      with_crypto (record c { frame_number = next }) c.crypto_out
        (encode_udp_audio target c.frame_number opus final x y z)
        (encode_legacy_udp_audio format (target % 256) sequence opus final x y z)
