-- ===== src/Admin/Bans.antt =====
-- The ban list: gumble/gumble/bans.go, handleBanList of gumble/gumble/handlers.go, and the commands of
-- admin.go that edit it. What net.ParseCIDR and time.Parse return comes with the call.
pub mod Resent
use barnard_stormdragon_ai_f.Prelude.{
  ℕ, zero, suc, ◌+◌, ◌-◌, ◌*◌, ◌/◌, ◌%◌, ◌^◌, ◌≡◌, List, [], ◌∷◌, ◌++◌, Option, none, some, Bool,
  true, false, if◌then◌else◌, ltb, leb, ◌==◌, length,
}
use barnard_stormdragon_ai_f.Prelude.Int.{ℤ, pos, negsuc}
use barnard_stormdragon_ai_f.Admin.Words.{parse_int64}

-- A `net.IPMask` that has so many leading ones and so many bits, or one that is nil.
pub data Mask : Type 0 where
  no_mask : Mask
  cidr : (ones size : ℕ) → Mask

-- A duration is in nanoseconds; the zero time is `none`.
pub record Ban : Type 0 where
  pub address : List ℕ
  pub mask : Mask
  pub name : List ℕ
  pub hash : List ℕ
  pub reason : List ℕ
  pub start : Option ℕ
  pub duration : ℕ
  pub unban : Bool

-- A BanEntry of the protocol.
pub record BanEntry : Type 0 where
  pub address : List ℕ
  pub mask : Option ℕ
  pub name : Option (List ℕ)
  pub hash : Option (List ℕ)
  pub reason : Option (List ℕ)
  pub start : Option (List ℕ)
  pub duration : Option ℕ

abbrev pub second : ℕ
second = 1000000000

abbrev pub minute : ℕ
minute = 60 * second

-- `net.CIDRMask`, nil where there are more ones than bits.
unfoldable pub cidr_mask : ℕ → ℕ → Mask
cidr_mask ones size = if leb ones size then cidr ones size else no_mask

unfoldable pub text_or_empty : Option (List ℕ) → List ℕ
text_or_empty none = []
text_or_empty (some text) = text

unfoldable pub mask_of : List ℕ → Option ℕ → Mask
mask_of address none = no_mask
mask_of address (some ones) = cidr_mask ones (if length address == 16 then 128 else 32)

-- `handleBanList`, for one entry; `parse_time` is time.Parse.
unfoldable pub read_ban : (List ℕ → Option ℕ) → BanEntry → Ban
read_ban parse_time e = record {
  address = e.address;
  mask = mask_of e.address e.mask;
  name = text_or_empty e.name;
  hash = text_or_empty e.hash;
  reason = text_or_empty e.reason;
  start = elim e.start [ none ↦ none | some text ↦ parse_time text ];
  duration = elim e.duration [ none ↦ 0 | some n ↦ n * second ];
  unban = false;
}

unfoldable pub handle_ban_list : (List ℕ → Option ℕ) → List BanEntry → List Ban
handle_ban_list parse_time [] = []
handle_ban_list parse_time (e ∷ es) = read_ban parse_time e ∷ handle_ban_list parse_time es

-- `Mask.Size`
unfoldable pub mask_size : Mask → ℕ
mask_size no_mask = 0
mask_size (cidr ones size) = ones

unfoldable pub write_ban : Ban → BanEntry
write_ban b = record {
  address = b.address;
  mask = some (mask_size b.mask);
  name = none;
  hash = none;
  reason = some b.reason;
  start = none;
  duration = some (b.duration / second % 2 ^ 32);
}

-- `BanList.writeMessage`: the entries of the message.
unfoldable pub write_bans : List Ban → List BanEntry
write_bans [] = []
write_bans (b ∷ bs) = let rest = write_bans bs in if b.unban then rest else write_ban b ∷ rest

-- `BanList.Add`, for a duration that is not negative.
unfoldable pub add_ban : List ℕ → Mask → List ℕ → ℕ → List Ban → List Ban
add_ban address mask reason duration bans =
    bans
    ++ (record {
      address = address;
      mask = mask;
      name = [];
      hash = [];
      reason = reason;
      start = none;
      duration = duration;
      unban = false;
    }
        ∷ [])

-- `Unban` of the entry at an index that is in range.
unfoldable pub unban_at : ℕ → List Ban → List Ban
unban_at i [] = []
unban_at zero (b ∷ bs) = record b { unban = true } ∷ bs
unban_at (suc i) (b ∷ bs) = b ∷ unban_at i bs

-- `manualBanDuration`, in nanoseconds.
pub data Minutes : Type 0 where
  not_number negative_minutes too_long : Minutes
  lasting : (duration : ℕ) → Minutes

unfoldable pub minutes_of : Option ℤ → Minutes
minutes_of none = not_number
minutes_of (some (negsuc n)) = negative_minutes
minutes_of (some (pos n)) = if ltb ((2 ^ 63 - 1) / minute) n then too_long else lasting (n * minute)

unfoldable pub manual_ban_duration : List ℕ → Minutes
manual_ban_duration text = minutes_of (parse_int64 text)
