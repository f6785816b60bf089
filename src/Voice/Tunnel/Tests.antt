-- ===== src/Voice/Tunnel/Tests.antt =====
-- Tunnelled packets of gumble/gumble/handlers.go, and the theorems at them. The decoder of these tests
-- returns the bytes that it is given.
use barnard_stormdragon_ai_f.Prelude.{
  ℕ, ◌+◌, ◌≡◌, ◌≢◌, refl, List, [], ◌∷◌, ◌++◌, map, Option, none, some, true, false, arith, take,
  drop,
}
use barnard_stormdragon_ai_f.Prelude.Int.{pos}
use barnard_stormdragon_ai_f.Prelude.Table.{Table, lookup, insert}
use barnard_stormdragon_ai_f.Varint.{encode}
use barnard_stormdragon_ai_f.Voice.{Stream}
use barnard_stormdragon_ai_f.Voice.Legacy.{encode_legacy_udp_audio}
use barnard_stormdragon_ai_f.Voice.Tunnel.{handled, panicked, tunnel_gap, handle_udp_tunnel}
use barnard_stormdragon_ai_f.Voice.Tunnel.Forwarded.{
  after_packet, heard_packet, given, tunnel_forwarded,
}
use barnard_stormdragon_ai_f.Voice.Tunnel.Total.{handle_udp_tunnel_safe}

abbrev echo : ℕ → List ℕ → Option (List ℕ) × ℕ
echo d bytes = (some bytes, d + 1)

abbrev restart : ℕ → ℕ
restart d = 0

abbrev silent : Stream ℕ
silent = record { decoder = none; sequence = pos 0; valid = false; step = 0 }

abbrev two_users : Table (Stream ℕ)
two_users = (5, silent) ∷ (9, silent) ∷ []

abbrev payload : List ℕ
payload = encode_legacy_udp_audio 4 3 (pos 17) (7 ∷ 8 ∷ []) true (some 1) (some 2) (some 3)

nine_known : lookup 9 two_users ≡ some silent
unfolding lookup
nine_known = refl

first_packet : tunnel_gap false (pos 17) ≡ tunnel_gap false (pos 0)
unfolding tunnel_gap
first_packet = refl

tunnel_forwarded_example :
    handle_udp_tunnel ℕ echo restart true
      (some 0)
      two_users
      (take 1 payload ++ (encode (pos 9) ++ drop 1 payload))
    ≡ (
      insert 9 (after_packet ℕ echo restart silent (pos 17) true 1) two_users,
      map
          (λ e. (9, e))
          (heard_packet ℕ echo restart
            (pos 17)
            (7 ∷ 8 ∷ [])
            3
            true
            (given (some 1) (some 2) (some 3))),
      handled,
    )
unfolding tunnel_gap
tunnel_forwarded_example =
    tunnel_forwarded ℕ echo restart (some 0) two_users silent 0 1 9 3 (pos 17) (7 ∷ 8 ∷ [])
      (7 ∷ 8 ∷ []) true (some 1) (some 2) (some 3) true (omega arith) (omega arith) (omega arith)
      (omega arith) (omega arith) (omega arith) (omega arith) nine_known refl refl refl

-- A length varint of -1.
handle_udp_tunnel_safe_example :
    (handle_udp_tunnel ℕ echo restart true (some 0) two_users (128 ∷ 9 ∷ 17 ∷ 252 ∷ 7 ∷ [])).2
    ≢ panicked
handle_udp_tunnel_safe_example =
    handle_udp_tunnel_safe ℕ echo restart true (some 0) two_users (128 ∷ 9 ∷ 17 ∷ 252 ∷ 7 ∷ [])
      (omega arith)
