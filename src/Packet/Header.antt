-- ===== src/Packet/Header.antt =====
-- `PacketHeader` of link/src/packets.rs beside `Packet`: the header that a packet starts with, its
-- bytes, and that a packet is a header and `body_len` more bytes.
use quote_link_rs.Base.{
  ℕ, ◌+◌, ◌<◌, ◌≤◌, ◌≡◌, ◌∙◌, refl, List, [], ◌∷◌, ◌++◌, length, take, drop, All, ok, err, arith,
  inl, inr, ◌==◌, Bool-cases, Result, zero, suc, ◌>>=◌, >>=-assoc, sym,
}
use quote_link_rs.Deku.{Deku, IsMsbFirst, IsByte, DekuError, Input, to_be_bytes, incomplete}
use quote_link_rs.Deku.Fields.{u24_mod, read_u8, read_u24, read_nothing}
use quote_link_rs.Packet.Enums.{msg_type_id, status_id}
use quote_link_rs.Packet.{Packet, PacketHeader, total_bytes, need_bytes}
use quote_link_rs.Packet.Codec.{
  read_vec, read_request, read_response, read_push, read_request_header, read_response_header,
  read_push_header, packet_from_bytes, header_from_bytes, packet_with_id, header_with_id,
}
use quote_link_rs.Packet.Layout.{IsWellFormed, first_byte, encoding}
use quote_link_rs.Packet.Decode.{
  read_type, read_reserved, read_command-first_byte, read_msg_type-msg_type_id,
  read_status-status_id,
}

abbrev pub header_of : Packet → PacketHeader
header_of (Packet.request r) = PacketHeader.request (record {
  reserved = r.reserved;
  command = r.command;
  id = r.id;
  timeout = r.timeout;
  body_len = r.body_len;
})
header_of (Packet.response r) = PacketHeader.response (record {
  reserved = r.reserved;
  command = r.command;
  id = r.id;
  status = r.status;
  body_len = r.body_len;
})
header_of (Packet.push r) = PacketHeader.push (record {
  reserved = r.reserved;
  command = r.command;
  msg_type = r.msg_type;
  body_len = r.body_len;
})

abbrev pub header_body_len : PacketHeader → ℕ
header_body_len (PacketHeader.request r) = r.body_len
header_body_len (PacketHeader.response r) = r.body_len
header_body_len (PacketHeader.push r) = r.body_len

abbrev pub with_body : PacketHeader → List ℕ → Packet
with_body (PacketHeader.request r) body = Packet.request (record {
  reserved = r.reserved;
  command = r.command;
  id = r.id;
  timeout = r.timeout;
  body_len = r.body_len;
  body = body;
})
with_body (PacketHeader.response r) body = Packet.response (record {
  reserved = r.reserved;
  command = r.command;
  id = r.id;
  status = r.status;
  body_len = r.body_len;
  body = body;
})
with_body (PacketHeader.push r) body = Packet.push (record {
  reserved = r.reserved;
  command = r.command;
  msg_type = r.msg_type;
  body_len = r.body_len;
  body = body;
})

abbrev pub IsHeader : PacketHeader → Type 0
IsHeader (PacketHeader.request r) =
    (r.reserved < 4) × (r.id < u24_mod) × (r.timeout < 256) × (r.body_len < u24_mod)
IsHeader (PacketHeader.response r) = (r.reserved < 4) × (r.id < u24_mod) × (r.body_len < u24_mod)
IsHeader (PacketHeader.push r) = (r.reserved < 4) × (r.body_len < u24_mod)

abbrev pub header_encoding : PacketHeader → List ℕ
header_encoding (PacketHeader.request r) =
    first_byte 0 r.reserved r.command
    ∷ (to_be_bytes 3 r.id ++ (r.timeout ∷ to_be_bytes 3 r.body_len))
header_encoding (PacketHeader.response r) =
    first_byte 1 r.reserved r.command
    ∷ (to_be_bytes 3 r.id ++ (status_id r.status ∷ to_be_bytes 3 r.body_len))
header_encoding (PacketHeader.push r) =
    first_byte 2 r.reserved r.command ∷ (msg_type_id r.msg_type ∷ to_be_bytes 3 r.body_len)

pub encoding-with_body :
    (h : PacketHeader) (body : List ℕ) → encoding (with_body h body) ≡ header_encoding h ++ body
encoding-with_body (PacketHeader.request r) body = refl
encoding-with_body (PacketHeader.response r) body = refl
encoding-with_body (PacketHeader.push r) body = refl

pub with_body-IsWellFormed :
    (h : PacketHeader) (body : List ℕ)
    → IsHeader h
    → header_body_len h ≡ length body
    → All IsByte body
    → IsWellFormed (with_body h body)
with_body-IsWellFormed (PacketHeader.request r) body (a, b, c, e) n hb = (a, b, c, e, n, hb)
with_body-IsWellFormed (PacketHeader.response r) body (a, b, c) n hb = (a, b, c, n, hb)
with_body-IsWellFormed (PacketHeader.push r) body (a, b) n hb = (a, b, n, hb)

pub need_bytes-eq-length :
    (h : PacketHeader) → need_bytes h ≡ length (header_encoding h) + header_body_len h
unfolding need_bytes
need_bytes-eq-length (PacketHeader.request r) = omega arith
need_bytes-eq-length (PacketHeader.response r) = omega arith
need_bytes-eq-length (PacketHeader.push r) = omega arith

-- The size that the header announces is the size of the packet.
pub total_bytes-with_body :
    (h : PacketHeader) (body : List ℕ) → total_bytes (with_body h body) ≡ need_bytes h
unfolding need_bytes total_bytes
total_bytes-with_body (PacketHeader.request r) body = refl
total_bytes-with_body (PacketHeader.response r) body = refl
total_bytes-with_body (PacketHeader.push r) body = refl

-- What follows a header: its body.
abbrev pub read_body : (d : Deku) → Input × PacketHeader → Result DekuError (Input × Packet)
read_body d (i, h) = read_vec d (header_body_len h) i >>= λ (body, i₁). ok (i₁, with_body h body)

module _ (d : Deku) where
  -- A struct of a packet is read as that of its header and `body_len` bytes.
  read_request_split :
      (i : Input)
      → (read_request d i >>= λ (r, i₁). ok (i₁, Packet.request r))
        ≡ (read_request_header d i >>= λ (h, i₁). read_body d (i₁, PacketHeader.request h))
  unfolding read_request read_request_header
  read_request_split i = simp >>=-assoc

  read_response_split :
      (i : Input)
      → (read_response d i >>= λ (r, i₁). ok (i₁, Packet.response r))
        ≡ (read_response_header d i >>= λ (h, i₁). read_body d (i₁, PacketHeader.response h))
  unfolding read_response read_response_header
  read_response_split i = simp >>=-assoc

  read_push_split :
      (i : Input)
      → (read_push d i >>= λ (r, i₁). ok (i₁, Packet.push r))
        ≡ (read_push_header d i >>= λ (h, i₁). read_body d (i₁, PacketHeader.push h))
  unfolding read_push read_push_header
  read_push_split i = simp >>=-assoc

  with_id_split :
      (id : ℕ) (i : Input) → packet_with_id d id i ≡ (header_with_id d id i >>= read_body d)
  unfolding packet_with_id header_with_id
  with_id_split id i = elim (Bool-cases (id == 0)) [
    | inl e ↦ rw e (read_request_split i ∙ sym (>>=-assoc (read_request_header d i) _ _))
    | inr e ↦ rw e (elim (Bool-cases (id == 1)) [
      | inl e₁ ↦ rw e₁ (read_response_split i ∙ sym (>>=-assoc (read_response_header d i) _ _))
      | inr e₁ ↦ rw e₁ (elim (Bool-cases (id == 2)) [
        | inl e₂ ↦ rw e₂ (read_push_split i ∙ sym (>>=-assoc (read_push_header d i) _ _))
        | inr e₂ ↦ rw e₂
      ])
    ])
  ]

  -- A packet is read as its header and `body_len` bytes.
  pub packet_from_bytes_split :
      (i : Input) → packet_from_bytes d i ≡ (header_from_bytes d i >>= read_body d)
  unfolding packet_from_bytes header_from_bytes
  packet_from_bytes_split i = simp (with_id_split, >>=-assoc)

module _ {d : Deku} (l : IsMsbFirst d) where
  pub header_from_bytes-encoding :
      (h : PacketHeader) (rest : List ℕ)
      → IsHeader h
      → header_from_bytes d (header_encoding h ++ rest, 0) ≡ ok ((rest, 0), h)
  unfolding header_from_bytes header_with_id read_request_header read_response_header
      read_push_header
  header_from_bytes-encoding (PacketHeader.request r) rest (hr, hi, ht, hl) = rw (
    read_type l 0 r.reserved r.command _ (omega arith) hr,
    read_reserved l 0 r.reserved r.command _ (omega arith) hr,
    read_command-first_byte l 0 r.reserved r.command _ (omega arith) hr,
    read_u24 l r.id _ hi,
    read_u8 l r.timeout _ ht,
    read_u24 l r.body_len _ hl,
  )
  header_from_bytes-encoding (PacketHeader.response r) rest (hr, hi, hl) = rw (
    read_type l 1 r.reserved r.command _ (omega arith) hr,
    read_reserved l 1 r.reserved r.command _ (omega arith) hr,
    read_command-first_byte l 1 r.reserved r.command _ (omega arith) hr,
    read_u24 l r.id _ hi,
    read_status-status_id l r.status _,
    read_u24 l r.body_len _ hl,
  )
  header_from_bytes-encoding (PacketHeader.push r) rest (hr, hl) = rw (
    read_type l 2 r.reserved r.command _ (omega arith) hr,
    read_reserved l 2 r.reserved r.command _ (omega arith) hr,
    read_command-first_byte l 2 r.reserved r.command _ (omega arith) hr,
    read_msg_type-msg_type_id l r.msg_type _,
    read_u24 l r.body_len _ hl,
  )

  -- `Vec<u8>` with enough bytes, and with too few.
  pub read_vec-take :
      (n : ℕ) (bs : List ℕ)
      → All IsByte bs
      → n ≤ length bs
      → read_vec d n (bs, 0) ≡ ok (take n bs, (drop n bs, 0))
  unfolding read_vec
  read_vec-take zero bs hb h = refl
  read_vec-take (suc n) [] hb h = absurd (omega arith)
  read_vec-take (suc n) (b ∷ bs) hb h =
      rw (read_u8 l b bs hb.0, read_vec-take n bs hb.1 (omega arith))

  pub read_vec_short :
      (n : ℕ) (bs : List ℕ) → All IsByte bs → length bs < n → read_vec d n (bs, 0) ≡ err incomplete
  unfolding read_vec
  read_vec_short zero bs hb h = absurd (omega arith)
  read_vec_short (suc n) [] hb h = rw (read_nothing l 7)
  read_vec_short (suc n) (b ∷ bs) hb h =
      rw (read_u8 l b bs hb.0, read_vec_short n bs hb.1 (omega arith))
