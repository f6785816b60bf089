-- ===== src/Admin/Bans/Resent.antt =====
-- What the server hears of the ban list that it reported, for gumble/gumble/bans.go and admin.go.
use barnard_stormdragon_ai_f.Prelude.{
  ℕ, zero, suc, ◌*◌, ◌/◌, ◌%◌, ◌^◌, ◌≡◌, ◌≤◌, ◌<◌, refl, ap, ap₂, List, [], ◌∷◌, map, Option, none,
  some, if◌then◌else◌, ◌==◌, length, arith, All,
}
use barnard_stormdragon_ai_f.Prelude.Int.{pos}
use barnard_stormdragon_ai_f.Admin.Words.{parse_int64}
use barnard_stormdragon_ai_f.Admin.Bans.{
  cidr, Ban, BanEntry, second, minute, cidr_mask, text_or_empty, mask_of, read_ban, handle_ban_list,
  mask_size, write_ban, write_bans, add_ban, unban_at, lasting, minutes_of, manual_ban_duration,
}

-- An entry as a server reports it.
pub record IsReported (e : BanEntry) : Type 0 where
  pub ones : ℕ
  pub seconds : ℕ
  pub reason : List ℕ
  pub has_mask : e.mask ≡ some ones
  pub fits : ones ≤ (if length e.address == 16 then 128 else 32)
  pub has_reason : e.reason ≡ some reason
  pub has_duration : e.duration ≡ some seconds
  pub in_range : seconds < 2 ^ 32

unfoldable pub drop_at : ℕ → List BanEntry → List BanEntry
drop_at i [] = []
drop_at zero (e ∷ es) = es
drop_at (suc i) (e ∷ es) = e ∷ drop_at i es

-- The entry without the name, the certificate hash and the start.
unfoldable pub without_origin : BanEntry → BanEntry
without_origin e = record e { name = none; hash = none; start = none }

mask_kept : (ones size : ℕ) → ones ≤ size → mask_size (cidr_mask ones size) ≡ ones
unfolding cidr_mask mask_size
mask_kept ones size h = grind (arith, h)

seconds_kept : (n : ℕ) → n < 2 ^ 32 → n * second / second % 2 ^ 32 ≡ n
seconds_kept n h = omega (arith, h)

write-read_ban :
    (parse_time : List ℕ → Option ℕ) (e : BanEntry)
    → IsReported e
    → write_ban (read_ban parse_time e) ≡ without_origin e
unfolding write_ban read_ban mask_of text_or_empty without_origin
write-read_ban parse_time e r =
    rw
      (
        r.has_mask,
        r.has_reason,
        r.has_duration,
        mask_kept r.ones _ r.fits,
        seconds_kept r.seconds r.in_range,
      )
      refl

write-handle_ban_list :
    (parse_time : List ℕ → Option ℕ) (es : List BanEntry)
    → All IsReported es
    → write_bans (handle_ban_list parse_time es) ≡ map without_origin es
unfolding write_bans handle_ban_list read_ban
write-handle_ban_list parse_time [] h = refl
write-handle_ban_list parse_time (e ∷ es) h =
    ap₂ (λ x xs. x ∷ xs) (write-read_ban parse_time e h.0) (write-handle_ban_list parse_time es h.1)

-- Every entry of the list is as a server reports it, with a mask that fits its address, a reason, and
-- seconds below 2 ^ 32. When the list is sent back with the entry at an index unbanned, it has all the
-- other entries, in their order and with their addresses, masks, reasons and durations, but without the
-- names, the certificate hashes and the starts that they came with.
pub unban_resends :
    (parse_time : List ℕ → Option ℕ) (es : List BanEntry) (i : ℕ)
    → All IsReported es
    → write_bans (unban_at i (handle_ban_list parse_time es)) ≡ map without_origin (drop_at i es)
unfolding write_bans unban_at handle_ban_list drop_at read_ban
unban_resends parse_time [] i h = refl
unban_resends parse_time (e ∷ es) zero h = write-handle_ban_list parse_time es h.1
unban_resends parse_time (e ∷ es) (suc i) h =
    ap₂ (λ x xs. x ∷ xs) (write-read_ban parse_time e h.0) (unban_resends parse_time es i h.1)

-- A manual ban for so many minutes, up to 153722867, is accepted, and its nanoseconds are an int64; what
-- the server is asked for is its seconds modulo 2 ^ 32.
pub manual_ban_seconds :
    (text : List ℕ) (m : ℕ) (b : Ban)
    → parse_int64 text ≡ some (pos m)
    → m ≤ 153722867
    → (manual_ban_duration text ≡ lasting (m * minute))
      × (m * minute < 2 ^ 63)
      × ((write_ban (record b { duration = m * minute })).duration ≡ some (60 * m % 2 ^ 32))
unfolding manual_ban_duration minutes_of write_ban
manual_ban_seconds text m b h le =
    (rw h (grind (arith, le)), omega (arith, le), ap (λ n. some (n % 2 ^ 32)) (omega arith))

-- A manual ban whose address has 16 bytes and whose mask has 32 bits, as net.ParseCIDR returns them for an
-- IPv4 network, is reported back with its ones at the front of 128 bits.
pub manual_ban_widened :
    (parse_time : List ℕ → Option ℕ) (address reason : List ℕ) (ones duration : ℕ)
    → length address ≡ 16
    → ones ≤ 32
    → map
        (λ (b : Ban). b.mask)
        (handle_ban_list parse_time
          (write_bans (add_ban address (cidr ones 32) reason duration [])))
      ≡ cidr ones 128 ∷ []
unfolding handle_ban_list write_bans add_ban write_ban read_ban mask_of mask_size cidr_mask
manual_ban_widened parse_time address reason ones duration h le = rw h (grind (arith, le))
