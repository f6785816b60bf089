-- ===== src/Conn/Frames.antt =====
-- The frames of gumble/gumble/conn.go: what WritePacket sends is what ReadPacket reads.
use barnard_stormdragon_ai_f.Prelude.{
  ℕ, ◌%◌, ◌^◌, ◌<◌, ◌≤◌, ◌≡◌, refl, sym, ap, ◌∙◌, List, [], ◌∷◌, ◌++◌, if_ind, ltb, length, drop,
  All, arith, length-append, take-length_append, drop-length_append, map, append-nil, append_assoc,
}
use barnard_stormdragon_ai_f.Varint.{big_endian, from_big_endian}
use barnard_stormdragon_ai_f.Varint.Bytes.{read_u32}
use barnard_stormdragon_ai_f.Conn.{
  Reader, Packet, packet, read_body, read_packet, Wire, delivered, then_write, write_header,
  write_packet,
}

-- A packet that a connection with the limit `maximum` takes.
pub record IsSendable (maximum : ℕ) (p : ℕ × List ℕ) : Type 0 where
  pub kind : p.0 < 2 ^ 16
  pub size : length p.1 < 2 ^ 32
  pub fits : length p.1 ≤ maximum

abbrev frame : ℕ → List ℕ → List ℕ
frame kind bytes = big_endian 2 kind ++ (big_endian 4 (length bytes % 2 ^ 32) ++ bytes)

read_u16 : (v : ℕ) (rest : List ℕ) → v < 2 ^ 16 → from_big_endian 2 (big_endian 2 v ++ rest) ≡ v
unfolding big_endian from_big_endian
read_u16 v rest h = omega arith

-- What is to come of reading a packet.
record IsRead (r : Reader × Packet) (maximum kind : ℕ) (bytes rest : List ℕ) : Type 0 where
  got : r.1 ≡ packet kind bytes
  input : r.0.input ≡ rest
  same : r.0.maximum ≡ maximum

read_body-IsRead :
    (maximum : ℕ) (buffer bytes rest : List ℕ) (kind : ℕ)
    → IsRead
        (read_body
          (record { maximum = maximum; buffer = buffer; input = bytes ++ rest })
          kind
          (length bytes))
        maximum
        kind
        bytes
        rest
unfolding read_body
read_body-IsRead maximum buffer bytes rest kind =
    if_ind (λ r. IsRead r maximum kind bytes rest) (ltb (length (bytes ++ rest)) (length bytes))
      (λ e. absurd (grind (arith, length-append bytes rest)))
      (λ e. record {
        got =
            rw (take-length_append bytes rest)
              (ap (λ l. packet kind l) (take-length_append bytes _));
        input = drop-length_append bytes rest;
        same = refl;
      })

-- One packet, whatever is in the buffer and whatever follows.
IsRead-frame :
    (maximum : ℕ) (buffer bytes rest : List ℕ) (kind : ℕ)
    → IsSendable maximum (kind, bytes)
    → IsRead
        (read_packet
          (record { maximum = maximum; buffer = buffer; input = frame kind bytes ++ rest }))
        maximum
        kind
        bytes
        rest
unfolding read_packet big_endian
IsRead-frame maximum buffer bytes rest kind h =
    let input = frame kind bytes ++ rest in
    let code : from_big_endian 2 input ≡ kind = read_u16 kind _ h.kind in
    let size : from_big_endian 4 (drop 2 input) ≡ length bytes =
      read_u32 (length bytes % 2 ^ 32) (bytes ++ rest) (omega arith) ∙ omega (arith, h.size) in
    if_ind (λ r. IsRead r maximum kind bytes rest) (ltb (length input) 6)
      (λ e. absurd (grind arith))
      (λ e.
        if_ind (λ r. IsRead r maximum kind bytes rest)
          (ltb maximum (from_big_endian 4 (drop 2 input)))
          (λ f. absurd (grind (arith, size, h.fits)))
          (λ f. rw (code, size) (read_body-IsRead maximum buffer bytes rest kind)))

-- The frames of some packets, one behind the other.
unfoldable frames : List (ℕ × List ℕ) → List ℕ
frames [] = []
frames (p ∷ ps) = frame p.0 p.1 ++ frames ps

unfoldable pub write_packets : List (ℕ × List ℕ) → Wire → Wire
write_packets [] w = w
write_packets (p ∷ ps) w = write_packets ps (write_packet p.0 p.1 w).0

-- As many calls of ReadPacket as there are packets, each behind the other.
unfoldable pub read_packets : List (ℕ × List ℕ) → Reader → List Packet
read_packets [] c = []
read_packets (p ∷ ps) c = let (c2, got) = read_packet c in got ∷ read_packets ps c2

sent-write_packets :
    (ps : List (ℕ × List ℕ)) (sent : List ℕ)
    → write_packets ps (record { sent = sent; fate = [] })
      ≡ record { sent = sent ++ frames ps; fate = [] }
unfolding write_packets write_packet write_header then_write delivered frames
sent-write_packets [] sent =
    ap (λ (s : List ℕ). record { sent = s; fate = [] }) (sym (append-nil sent))
sent-write_packets (p ∷ ps) sent =
    sent-write_packets ps _
    ∙ ap (λ (s : List ℕ). record { sent = s; fate = [] }) (simp append_assoc)

read_frames :
    (maximum : ℕ) (ps : List (ℕ × List ℕ)) (c : Reader) (rest : List ℕ)
    → All (IsSendable maximum) ps
    → c.maximum ≡ maximum
    → c.input ≡ frames ps ++ rest
    → read_packets ps c ≡ map (λ p. packet p.0 p.1) ps
unfolding read_packets frames
read_frames maximum [] c rest h same e = refl
read_frames maximum (p ∷ ps) c rest h same e =
    let whole : c.input ≡ frame p.0 p.1 ++ (frames ps ++ rest) = e ∙ simp append_assoc in
    let r = IsRead-frame maximum c.buffer p.1 (frames ps ++ rest) p.0 h.0 in
    let is_c : c ≡ record {
      maximum = maximum;
      buffer = c.buffer;
      input = frame p.0 p.1 ++ (frames ps ++ rest);
    } =
      λ i. record { maximum = same i; buffer = c.buffer; input = whole i } in
    rw
      (
        ap (λ (d : Reader). (read_packet d).1) is_c ∙ r.got,
        read_frames maximum ps (read_packet c).0 rest h.1
            (ap (λ (d : Reader). (read_packet d).0.maximum) is_c ∙ r.same)
            (ap (λ (d : Reader). (read_packet d).0.input) is_c ∙ r.input),
      )
      refl

-- Packets with a uint16 kind, a size below 2 ^ 32 and within the reader's limit, sent one after the other
-- over a connection that does not fail, are read back in their order, whatever the reader's buffer holds
-- and whatever is sent after them.
pub read_packets-write_packets :
    (ps : List (ℕ × List ℕ)) (maximum : ℕ) (buffer later : List ℕ)
    → All (IsSendable maximum) ps
    → let w = write_packets ps (record { sent = []; fate = [] }) in
      read_packets ps (record { maximum = maximum; buffer = buffer; input = w.sent ++ later })
      ≡ map (λ p. packet p.0 p.1) ps
read_packets-write_packets ps maximum buffer later h = rw (sent-write_packets ps []) (
    read_frames maximum ps
      (record { maximum = maximum; buffer = buffer; input = frames ps ++ later }) later h refl refl)
