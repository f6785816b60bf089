-- ===== src/Server/Config.antt =====
-- handleServerConfig of gumble/gumble/handlers.go, with parseServerConfigRecordingAllowed, which looks
-- for a field in the message as it came. A string is its bytes.
pub mod Recording
use barnard_stormdragon_ai_f.Prelude.{
  ℕ, zero, suc, ◌+◌, ◌/◌, ◌%◌, List, [], ◌∷◌, Option, none, some, Bool, true, false, not, ◌&&◌,
  ◌||◌, if◌then◌else◌, ltb, ◌==◌, length, drop,
}
use barnard_stormdragon_ai_f.Prelude.Int.{ℤ, pos, negsuc}
use barnard_stormdragon_ai_f.Varint.{decode, to_uint64}

-- The message, and likewise the event.
pub record ServerConfig : Type 0 where
  pub max_bandwidth : Option ℕ
  pub welcome_text : Option (List ℕ)
  pub allow_html : Option Bool
  pub message_length : Option ℕ
  pub image_message_length : Option ℕ
  pub max_users : Option ℕ
  pub recording_allowed : Option Bool

unfoldable pub is_zero : ℤ → Bool
is_zero (pos n) = n == 0
is_zero (negsuc n) = false

-- How many bytes of a field of this wire type to skip; 0 where the loop gives up. The length of a string
-- is added as an int; no slice is near 2 ^ 63 bytes, so a sum that wraps is out of range like the true one.
unfoldable pub string_skip : ℤ × ℕ → ℕ
string_skip (pos len, n) = if n == 0 then 0 else n + len
string_skip (negsuc len, n) = 0

unfoldable pub skip_of : ℕ → List ℕ → ℕ
skip_of wire buffer =
    if wire == 0
    then (decode buffer).1
    else if wire == 1
    then 8
    else if wire == 2
    then string_skip (decode buffer)
    else if wire == 5
    then 4
    else 0

-- The value of the field; nothing where it has no bytes.
unfoldable pub flag_of : ℤ × ℕ → Option Bool
flag_of (value, n) = if n == 0 then none else some (not (is_zero value))

-- The loop, whose rounds take a byte at least; a field number and a wire type are read off the key as an
-- int64, shifted and masked.
unfoldable pub recording_rounds : ℕ → List ℕ → Option Bool
recording_rounds zero buffer = none
recording_rounds (suc rounds) [] = none
recording_rounds (suc rounds) (b ∷ bs) =
    let n = (decode (b ∷ bs)).1 in
    let key = to_uint64 (decode (b ∷ bs)).0 in
    let buffer = drop n (b ∷ bs) in
    let skip = skip_of (key % 8) buffer in
    let rest = recording_rounds rounds (drop skip buffer) in
    if n == 0
    then none
    else if key / 8 == 7 && key % 8 == 0
    then flag_of (decode buffer)
    else if skip == 0 || ltb (length buffer) skip
    then none
    else rest

-- `parseServerConfigRecordingAllowed`
unfoldable pub parse_recording_allowed : List ℕ → Option Bool
parse_recording_allowed buffer = recording_rounds (length buffer) buffer

-- `handleServerConfig`, from the message and its bytes to the event.
unfoldable pub handle_server_config : List ℕ → ServerConfig → ServerConfig
handle_server_config buffer p = record p {
  recording_allowed = elim p.recording_allowed [
    | some b ↦ some b
    | none ↦ parse_recording_allowed buffer
  ];
}
