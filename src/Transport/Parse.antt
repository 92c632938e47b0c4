-- ===== src/Transport/Parse.antt =====
-- `parse_packet_buf` of link/src/transport/link.rs: it takes packets off the front of the received
-- bytes and sends them on. The loop takes fuel; each round but the last takes a packet, so one
-- more than the number of bytes is enough.
pub mod Sound
use quote_link_rs.Base.{
  ℕ, zero, suc, ◌+◌, ◌-◌, List, Option, none, some, Result, ok, err, length, ltb, if◌then◌else◌,
  add_usize,
}
use quote_link_rs.Channel.{Sender, send}
use quote_link_rs.Deku.{Deku, DekuError, Input, incomplete, parse}
use quote_link_rs.Packet.{Packet, PacketHeader, total_bytes, need_bytes, min_packet_header_size}
use quote_link_rs.Packet.Codec.{packet_from_bytes, header_from_bytes}

-- `Ok((consumed_bytes, need_size))`, the three errors, a subtraction below 0 (a panic or a wrap),
-- and the end of the fuel.
pub data Parsed : Type 0 where
  parsed : ℕ → ℕ → Parsed
  header_failed packet_failed send_failed : Parsed
  underflow out_of_fuel : Parsed

-- The local variables of the loop.
pub record ParseState : Type 0 where
  pub response_tx : Sender Packet
  pub input : Input
  pub consumed_bytes : ℕ
  pub occupied_bytes : ℕ
  pub need_size : ℕ

abbrev pub Outcome : Type 0
Outcome = Parsed × Sender Packet

module _ (d : Deku) where
  module _ (again : ParseState → Outcome) where
    unfoldable pub on_send : ParseState → Option (Sender Packet) → Outcome
    on_send s none = (send_failed, s.response_tx)
    on_send s (some tx) = again (record s { response_tx = tx })

    unfoldable pub on_packet : ParseState → Result DekuError (Input × Packet) → Outcome
    unfolding on_send
    on_packet s (err incomplete) = (parsed s.consumed_bytes min_packet_header_size, s.response_tx)
    on_packet s (err parse) = (packet_failed, s.response_tx)
    on_packet s (ok (rest, packet)) =
        let packet_size = total_bytes packet in
        if ltb s.occupied_bytes packet_size
        then (underflow, s.response_tx)
        else on_send
            (record s {
              occupied_bytes = s.occupied_bytes - packet_size;
              consumed_bytes = add_usize s.consumed_bytes packet_size;
              input = rest;
              need_size = min_packet_header_size;
            })
            (send s.response_tx packet)

    unfoldable pub on_header : ParseState → Result DekuError (Input × PacketHeader) → Outcome
    unfolding on_packet
    on_header s (err incomplete) = (parsed s.consumed_bytes s.need_size, s.response_tx)
    on_header s (err parse) = (header_failed, s.response_tx)
    on_header s (ok (i, header)) =
        let need_size = need_bytes header in
        if ltb s.occupied_bytes need_size
        then (parsed s.consumed_bytes need_size, s.response_tx)
        else on_packet (record s { need_size = need_size }) (packet_from_bytes d s.input)

    unfoldable pub parse_round : ParseState → Outcome
    unfolding on_header
    parse_round s = on_header s (header_from_bytes d s.input)

  unfoldable pub parse_loop : ℕ → ParseState → Outcome
  unfolding parse_round
  parse_loop zero s = (out_of_fuel, s.response_tx)
  parse_loop (suc fuel) s = parse_round (parse_loop fuel) s

  abbrev pub start_parse : Sender Packet → List ℕ → ParseState
  start_parse tx bs = record {
    response_tx = tx;
    input = (bs, 0);
    consumed_bytes = 0;
    occupied_bytes = length bs;
    need_size = min_packet_header_size;
  }

  unfoldable pub parse_packet_buf : Sender Packet → List ℕ → Outcome
  unfolding parse_loop
  parse_packet_buf tx packet_buffer =
      parse_loop (suc (length packet_buffer)) (start_parse tx packet_buffer)
