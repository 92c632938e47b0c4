-- ===== src/Packet/Codec.antt =====
-- The derived readers and writers of link/src/packets.rs: `#[deku(...)]` on the structs and enums
-- says which fields follow one another, and with how many bits.
use quote_link_rs.Base.{
  ℕ, zero, suc, Option, none, some, List, [], ◌∷◌, Result, ok, err, ◌>>=◌, ◌==◌, if◌then◌else◌,
}
use quote_link_rs.Deku.{Deku, DekuError, Input, Output, parse, start}
use quote_link_rs.Packet.Enums.{
  Command, MsgType, ResponseStatus, command_id, msg_type_id, status_id, command_of, msg_type_of,
  status_of,
}
use quote_link_rs.Packet.{
  Request, Response, Push, Packet, RequestHeader, ResponseHeader, PushHeader, PacketHeader,
}

-- An enum: the number that was read must be that of a variant.
abbrev pub variant {ℓ} : {A : Type ℓ} → Option A → Input → Result DekuError (A × Input)
variant none i = err parse
variant (some a) i = ok (a, i)

module _ (d : Deku) where
  open d use {read_uint, write_uint, finalize}

  unfoldable pub read_command : Input → Result DekuError (Command × Input)
  read_command i = do (v, i₁) ← read_uint 4 i; variant (command_of v) i₁

  unfoldable pub read_msg_type : Input → Result DekuError (MsgType × Input)
  read_msg_type i = do (v, i₁) ← read_uint 8 i; variant (msg_type_of v) i₁

  unfoldable pub read_status : Input → Result DekuError (ResponseStatus × Input)
  read_status i = do (v, i₁) ← read_uint 8 i; variant (status_of v) i₁

  -- `Vec<u8>` with `count`: that many bytes.
  unfoldable pub read_vec : ℕ → Input → Result DekuError (List ℕ × Input)
  read_vec zero i = ok ([], i)
  read_vec (suc n) i = do (b, i₁) ← read_uint 8 i; (bs, i₂) ← read_vec n i₁; ok (b ∷ bs, i₂)

  unfoldable pub read_request_header : Input → Result DekuError (RequestHeader × Input)
  read_request_header i = do
    (reserved, i₁) ← read_uint 2 i
    (command, i₂) ← read_command i₁
    (id, i₃) ← read_uint 24 i₂
    (timeout, i₄) ← read_uint 8 i₃
    (body_len, i₅) ← read_uint 24 i₄
    ok (
      record {
        reserved = reserved;
        command = command;
        id = id;
        timeout = timeout;
        body_len = body_len;
      },
      i₅,
    )

  unfoldable pub read_response_header : Input → Result DekuError (ResponseHeader × Input)
  read_response_header i = do
    (reserved, i₁) ← read_uint 2 i
    (command, i₂) ← read_command i₁
    (id, i₃) ← read_uint 24 i₂
    (status, i₄) ← read_status i₃
    (body_len, i₅) ← read_uint 24 i₄
    ok (
      record {
        reserved = reserved;
        command = command;
        id = id;
        status = status;
        body_len = body_len;
      },
      i₅,
    )

  unfoldable pub read_push_header : Input → Result DekuError (PushHeader × Input)
  read_push_header i = do
    (reserved, i₁) ← read_uint 2 i
    (command, i₂) ← read_command i₁
    (msg_type, i₃) ← read_msg_type i₂
    (body_len, i₄) ← read_uint 24 i₃
    ok (
      record { reserved = reserved; command = command; msg_type = msg_type; body_len = body_len },
      i₄,
    )

  unfoldable pub read_request : Input → Result DekuError (Request × Input)
  read_request i = do
    (reserved, i₁) ← read_uint 2 i
    (command, i₂) ← read_command i₁
    (id, i₃) ← read_uint 24 i₂
    (timeout, i₄) ← read_uint 8 i₃
    (body_len, i₅) ← read_uint 24 i₄
    (body, i₆) ← read_vec body_len i₅
    ok (
      record {
        reserved = reserved;
        command = command;
        id = id;
        timeout = timeout;
        body_len = body_len;
        body = body;
      },
      i₆,
    )

  unfoldable pub read_response : Input → Result DekuError (Response × Input)
  read_response i = do
    (reserved, i₁) ← read_uint 2 i
    (command, i₂) ← read_command i₁
    (id, i₃) ← read_uint 24 i₂
    (status, i₄) ← read_status i₃
    (body_len, i₅) ← read_uint 24 i₄
    (body, i₆) ← read_vec body_len i₅
    ok (
      record {
        reserved = reserved;
        command = command;
        id = id;
        status = status;
        body_len = body_len;
        body = body;
      },
      i₆,
    )

  unfoldable pub read_push : Input → Result DekuError (Push × Input)
  read_push i = do
    (reserved, i₁) ← read_uint 2 i
    (command, i₂) ← read_command i₁
    (msg_type, i₃) ← read_msg_type i₂
    (body_len, i₄) ← read_uint 24 i₃
    (body, i₅) ← read_vec body_len i₄
    ok (
      record {
        reserved = reserved;
        command = command;
        msg_type = msg_type;
        body_len = body_len;
        body = body;
      },
      i₅,
    )

  unfoldable pub packet_with_id : ℕ → Input → Result DekuError (Input × Packet)
  packet_with_id id i =
      if id == 0
      then (do (r, i₁) ← read_request i; ok (i₁, Packet.request r))
      else (if id == 1
          then (do (r, i₁) ← read_response i; ok (i₁, Packet.response r))
          else (if id == 2 then (do (r, i₁) ← read_push i; ok (i₁, Packet.push r)) else err parse))

  -- `Packet::from_bytes`: what is left, and the packet.
  unfoldable pub packet_from_bytes : Input → Result DekuError (Input × Packet)
  packet_from_bytes i = do (id, i₁) ← read_uint 2 i; packet_with_id id i₁

  unfoldable pub header_with_id : ℕ → Input → Result DekuError (Input × PacketHeader)
  header_with_id id i =
      if id == 0
      then (do (r, i₁) ← read_request_header i; ok (i₁, PacketHeader.request r))
      else (if id == 1
          then (do (r, i₁) ← read_response_header i; ok (i₁, PacketHeader.response r))
          else (if id == 2
              then (do (r, i₁) ← read_push_header i; ok (i₁, PacketHeader.push r))
              else err parse))

  -- `PacketHeader::from_bytes`.
  unfoldable pub header_from_bytes : Input → Result DekuError (Input × PacketHeader)
  header_from_bytes i = do (id, i₁) ← read_uint 2 i; header_with_id id i₁

  unfoldable pub write_vec : List ℕ → Output → Result DekuError Output
  write_vec [] o = ok o
  write_vec (b ∷ bs) o = do o₁ ← write_uint 8 b o; write_vec bs o₁

  unfoldable pub write_request : Request → Output → Result DekuError Output
  write_request r o = do
    o₁ ← write_uint 2 r.reserved o
    o₂ ← write_uint 4 (command_id r.command) o₁
    o₃ ← write_uint 24 r.id o₂
    o₄ ← write_uint 8 r.timeout o₃
    o₅ ← write_uint 24 r.body_len o₄
    write_vec r.body o₅

  unfoldable pub write_response : Response → Output → Result DekuError Output
  write_response r o = do
    o₁ ← write_uint 2 r.reserved o
    o₂ ← write_uint 4 (command_id r.command) o₁
    o₃ ← write_uint 24 r.id o₂
    o₄ ← write_uint 8 (status_id r.status) o₃
    o₅ ← write_uint 24 r.body_len o₄
    write_vec r.body o₅

  unfoldable pub write_push : Push → Output → Result DekuError Output
  write_push r o = do
    o₁ ← write_uint 2 r.reserved o
    o₂ ← write_uint 4 (command_id r.command) o₁
    o₃ ← write_uint 8 (msg_type_id r.msg_type) o₂
    o₄ ← write_uint 24 r.body_len o₃
    write_vec r.body o₄

  unfoldable pub write_packet : Packet → Output → Result DekuError Output
  write_packet (Packet.request r) o = do o₁ ← write_uint 2 0 o; write_request r o₁
  write_packet (Packet.response r) o = do o₁ ← write_uint 2 1 o; write_response r o₁
  write_packet (Packet.push r) o = do o₁ ← write_uint 2 2 o; write_push r o₁

  -- `to_bytes`.
  unfoldable pub packet_to_bytes : Packet → Result DekuError (List ℕ)
  packet_to_bytes p = do o ← write_packet p start; ok (finalize o)
