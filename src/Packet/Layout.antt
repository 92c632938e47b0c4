-- ===== src/Packet/Layout.antt =====
-- The bytes of a packet, as the diagram above `Request` in link/src/packets.rs draws them, and
-- that `to_bytes` writes these bytes.
use quote_link_rs.Base.{
  ℕ, ◌+◌, ◌*◌, ◌<◌, ◌≡◌, ◌∙◌, refl, ap, List, [], ◌∷◌, ◌++◌, append-nil, append_assoc, length, All,
  ok, arith,
}
use quote_link_rs.Deku.{Deku, IsMsbFirst, IsByte, start, to_be_bytes}
use quote_link_rs.Deku.Fields.{
  u24_mod, aligned, to_be_bytes-IsByte, write_u8, write_u24, write_first_two, write_second_two,
  write_last_four,
}
use quote_link_rs.Packet.Enums.{
  Command, command_id, msg_type_id, status_id, command_id-lt, msg_type_id-lt, status_id-lt,
}
use quote_link_rs.Packet.{Packet, total_bytes}
use quote_link_rs.Packet.Codec.{
  write_vec, write_request, write_response, write_push, write_packet, packet_to_bytes,
}

-- Each number fits its bits, and `body_len` is the length of the body.
abbrev pub IsWellFormed : Packet → Type 0
IsWellFormed (Packet.request r) =
    (r.reserved < 4)
    × (r.id < u24_mod)
    × (r.timeout < 256)
    × (r.body_len < u24_mod)
    × (r.body_len ≡ length r.body)
    × All IsByte r.body
IsWellFormed (Packet.response r) =
    (r.reserved < 4)
    × (r.id < u24_mod)
    × (r.body_len < u24_mod)
    × (r.body_len ≡ length r.body)
    × All IsByte r.body
IsWellFormed (Packet.push r) =
    (r.reserved < 4) × (r.body_len < u24_mod) × (r.body_len ≡ length r.body) × All IsByte r.body

-- |typ|res|cmd|
abbrev pub first_byte : ℕ → ℕ → Command → ℕ
first_byte t r c = (t * 4 + r) * 16 + command_id c

-- |typ|res|cmd| request_id | time_out | body_len | body
abbrev pub encoding : Packet → List ℕ
encoding (Packet.request r) =
    first_byte 0 r.reserved r.command
    ∷ (to_be_bytes 3 r.id ++ (r.timeout ∷ (to_be_bytes 3 r.body_len ++ r.body)))
encoding (Packet.response r) =
    first_byte 1 r.reserved r.command
    ∷ (to_be_bytes 3 r.id ++ (status_id r.status ∷ (to_be_bytes 3 r.body_len ++ r.body)))
encoding (Packet.push r) =
    first_byte 2 r.reserved r.command
    ∷ (msg_type_id r.msg_type ∷ (to_be_bytes 3 r.body_len ++ r.body))

-- The bytes of a packet are as many as `total_bytes` says.
pub length-encoding : (p : Packet) → IsWellFormed p → length (encoding p) ≡ total_bytes p
unfolding total_bytes
length-encoding (Packet.request r) h = omega arith
length-encoding (Packet.response r) h = omega arith
length-encoding (Packet.push r) h = omega arith

pub encoding-IsByte : (p : Packet) → IsWellFormed p → All IsByte (encoding p)
encoding-IsByte (Packet.request r) h =
    ground (arith, command_id-lt r.command, to_be_bytes-IsByte r.id, to_be_bytes-IsByte r.body_len)
encoding-IsByte (Packet.response r) h =
    ground (arith, command_id-lt r.command, status_id-lt r.status, to_be_bytes-IsByte r.id)
encoding-IsByte (Packet.push r) h =
    ground (arith, command_id-lt r.command, msg_type_id-lt r.msg_type)

module _ {d : Deku} (l : IsMsbFirst d) where
  write_vec-aligned :
      (bs out : List ℕ) → All IsByte bs → write_vec d bs (aligned out) ≡ ok (aligned (out ++ bs))
  unfolding write_vec
  write_vec-aligned [] out h = ap (λ bs. ok (aligned bs)) (rw append-nil)
  write_vec-aligned (b ∷ bs) out h = rw (write_u8 l b out h.0) (
      write_vec-aligned bs (out ++ (b ∷ [])) h.1
      ∙ ap (λ bs. ok (aligned bs)) (append_assoc out (b ∷ []) bs))

  write_packet-aligned :
      (p : Packet) → IsWellFormed p → write_packet d p start ≡ ok (aligned (encoding p))
  unfolding write_packet write_request write_response write_push
  write_packet-aligned (Packet.request r) h =
      rw
        (
          write_first_two l 0 (omega arith),
          write_second_two l 0 r.reserved (omega arith) h.0,
          write_last_four l (0 * 4 + r.reserved) (command_id r.command) (omega arith)
              (command_id-lt r.command),
          write_u24 l r.id (first_byte 0 r.reserved r.command ∷ []) h.1,
          write_u8 l r.timeout _ h.2,
          write_u24 l r.body_len _ h.3,
        )
        (write_vec-aligned r.body _ h.5)
  write_packet-aligned (Packet.response r) h =
      rw
        (
          write_first_two l 1 (omega arith),
          write_second_two l 1 r.reserved (omega arith) h.0,
          write_last_four l (1 * 4 + r.reserved) (command_id r.command) (omega arith)
              (command_id-lt r.command),
          write_u24 l r.id _ h.1,
          write_u8 l (status_id r.status) _ (status_id-lt r.status),
          write_u24 l r.body_len _ h.2,
        )
        (write_vec-aligned r.body _ h.4)
  write_packet-aligned (Packet.push r) h =
      rw
        (
          write_first_two l 2 (omega arith),
          write_second_two l 2 r.reserved (omega arith) h.0,
          write_last_four l (2 * 4 + r.reserved) (command_id r.command) (omega arith)
              (command_id-lt r.command),
          write_u8 l (msg_type_id r.msg_type) _ (msg_type_id-lt r.msg_type),
          write_u24 l r.body_len _ h.1,
        )
        (write_vec-aligned r.body _ h.3)

  -- `to_bytes` writes exactly the bytes of the diagram, for every packet whose numbers fit their
  -- bits and whose `body_len` is the length of its body.
  pub packet_to_bytes-encoding :
      (p : Packet) → IsWellFormed p → packet_to_bytes d p ≡ ok (encoding p)
  unfolding packet_to_bytes
  packet_to_bytes-encoding p h =
      rw (write_packet-aligned p h, l.finalize_whole (aligned (encoding p)) refl)
