-- ===== src/Packet/Samples.antt =====
-- The packets of link/tests/packets.rs, and that they are well formed.
use quote_link_rs.Base.{ℕ, List, [], ◌∷◌, ◌++◌, All, All-append, arith}
use quote_link_rs.Deku.{IsByte}
use quote_link_rs.Packet.Enums.{heartbeat, cmd_sub_all_type, snapshot, success}
use quote_link_rs.Packet.{Packet}
use quote_link_rs.Packet.Layout.{IsWellFormed, encoding, encoding-IsByte}

abbrev pub ping : Packet
ping = Packet.request (record {
  reserved = 0;
  command = heartbeat;
  id = 1;
  timeout = 2;
  body_len = 3;
  body = 0 ∷ 1 ∷ 2 ∷ [];
})

abbrev pub pong : Packet
pong = Packet.response (record {
  reserved = 0;
  command = heartbeat;
  id = 1;
  status = success;
  body_len = 3;
  body = 0 ∷ 1 ∷ 2 ∷ [];
})

abbrev pub tick : Packet
tick = Packet.push (record {
  reserved = 0;
  command = cmd_sub_all_type;
  msg_type = snapshot;
  body_len = 2;
  body = 7 ∷ 9 ∷ [];
})

pub ping-IsWellFormed : IsWellFormed ping
ping-IsWellFormed = ground arith

pub pong-IsWellFormed : IsWellFormed pong
pong-IsWellFormed = ground arith

pub tick-IsWellFormed : IsWellFormed tick
tick-IsWellFormed = ground arith

abbrev pub two_packets : List ℕ
two_packets = encoding ping ++ encoding tick

pub two_packets-IsByte : All IsByte two_packets
two_packets-IsByte =
    All-append IsByte (encoding ping) (encoding tick) (encoding-IsByte ping ping-IsWellFormed)
      (encoding-IsByte tick tick-IsWellFormed)
