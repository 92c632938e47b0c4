-- ===== src/Packet/Decode.antt =====
-- `from_bytes` of link/src/packets.rs on the bytes of a packet, with whatever follows them.
use quote_link_rs.Base.{
  ℕ, ◌%◌, ◌<◌, ◌≡◌, ◌∙◌, refl, ap, List, [], ◌∷◌, ◌++◌, length, All, ok, arith,
}
use quote_link_rs.Deku.{Deku, IsMsbFirst, IsByte}
use quote_link_rs.Deku.Fields.{read_u8, read_u24, read_first_two, read_second_two, read_last_four}
use quote_link_rs.Packet.Enums.{
  Command, MsgType, ResponseStatus, command_id, msg_type_id, status_id, command_id-lt,
  msg_type_id-lt, status_id-lt, command_of-command_id, msg_type_of-msg_type_id, status_of-status_id,
}
use quote_link_rs.Packet.{Packet}
use quote_link_rs.Packet.Codec.{
  read_vec, read_command, read_msg_type, read_status, read_request, read_response, read_push,
  packet_with_id, packet_from_bytes,
}
use quote_link_rs.Packet.Layout.{IsWellFormed, first_byte, encoding}

module _ {d : Deku} (l : IsMsbFirst d) where
  -- The three parts of the first byte.
  pub read_type :
      (t r : ℕ) (c : Command) (bs : List ℕ)
      → t < 4
      → r < 4
      → d.read_uint 2 (first_byte t r c ∷ bs, 0) ≡ ok (t, (first_byte t r c ∷ bs, 2))
  read_type t r c bs ht hr =
      read_first_two l (first_byte t r c) bs (omega (arith, command_id-lt c))
      ∙ ap (λ (v : ℕ). ok (v, (first_byte t r c ∷ bs, 2))) (omega (arith, command_id-lt c))

  pub read_reserved :
      (t r : ℕ) (c : Command) (bs : List ℕ)
      → t < 4
      → r < 4
      → d.read_uint 2 (first_byte t r c ∷ bs, 2) ≡ ok (r, (first_byte t r c ∷ bs, 4))
  read_reserved t r c bs ht hr =
      read_second_two l (first_byte t r c) bs (omega (arith, command_id-lt c))
      ∙ ap (λ (v : ℕ). ok (v, (first_byte t r c ∷ bs, 4))) (omega (arith, command_id-lt c))

  pub read_command-first_byte :
      (t r : ℕ) (c : Command) (bs : List ℕ)
      → t < 4
      → r < 4
      → read_command d (first_byte t r c ∷ bs, 4) ≡ ok (c, (bs, 0))
  unfolding read_command
  read_command-first_byte t r c bs ht hr =
      let e : first_byte t r c % 16 ≡ command_id c = omega (arith, command_id-lt c) in
      rw (
        read_last_four l (first_byte t r c) bs (omega (arith, command_id-lt c)),
        e,
        command_of-command_id c,
      )

  pub read_msg_type-msg_type_id :
      (m : MsgType) (bs : List ℕ) → read_msg_type d (msg_type_id m ∷ bs, 0) ≡ ok (m, (bs, 0))
  unfolding read_msg_type
  read_msg_type-msg_type_id m bs =
      rw (read_u8 l (msg_type_id m) bs (msg_type_id-lt m), msg_type_of-msg_type_id m)

  pub read_status-status_id :
      (s : ResponseStatus) (bs : List ℕ) → read_status d (status_id s ∷ bs, 0) ≡ ok (s, (bs, 0))
  unfolding read_status
  read_status-status_id s bs =
      rw (read_u8 l (status_id s) bs (status_id-lt s), status_of-status_id s)

  pub read_vec-append :
      (bs rest : List ℕ)
      → All IsByte bs
      → read_vec d (length bs) (bs ++ rest, 0) ≡ ok (bs, (rest, 0))
  unfolding read_vec
  read_vec-append [] rest h = refl
  read_vec-append (b ∷ bs) rest h = rw (read_u8 l b (bs ++ rest) h.0, read_vec-append bs rest h.1)

  -- `from_bytes` reads back the packet whose bytes come first, and leaves what follows them.
  pub packet_from_bytes-encoding :
      (p : Packet) (rest : List ℕ)
      → IsWellFormed p
      → packet_from_bytes d (encoding p ++ rest, 0) ≡ ok ((rest, 0), p)
  unfolding packet_from_bytes packet_with_id read_request read_response read_push
  packet_from_bytes-encoding (Packet.request r) rest (hr, hi, ht, hl, e, hb) =
      rw
        (
          read_type 0 r.reserved r.command _ (omega arith) hr,
          read_reserved 0 r.reserved r.command _ (omega arith) hr,
          read_command-first_byte 0 r.reserved r.command _ (omega arith) hr,
          read_u24 l r.id _ hi,
          read_u8 l r.timeout _ ht,
          read_u24 l r.body_len _ hl,
        )
        (rw (ap (λ n. read_vec d n (r.body ++ rest, 0)) e, read_vec-append r.body rest hb))
  packet_from_bytes-encoding (Packet.response r) rest (hr, hi, hl, e, hb) =
      rw
        (
          read_type 1 r.reserved r.command _ (omega arith) hr,
          read_reserved 1 r.reserved r.command _ (omega arith) hr,
          read_command-first_byte 1 r.reserved r.command _ (omega arith) hr,
          read_u24 l r.id _ hi,
          read_status-status_id r.status _,
          read_u24 l r.body_len _ hl,
        )
        (rw (ap (λ n. read_vec d n (r.body ++ rest, 0)) e, read_vec-append r.body rest hb))
  packet_from_bytes-encoding (Packet.push r) rest (hr, hl, e, hb) =
      rw
        (
          read_type 2 r.reserved r.command _ (omega arith) hr,
          read_reserved 2 r.reserved r.command _ (omega arith) hr,
          read_command-first_byte 2 r.reserved r.command _ (omega arith) hr,
          read_msg_type-msg_type_id r.msg_type _,
          read_u24 l r.body_len _ hl,
        )
        (rw (ap (λ n. read_vec d n (r.body ++ rest, 0)) e, read_vec-append r.body rest hb))
