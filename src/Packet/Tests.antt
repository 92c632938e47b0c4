-- ===== src/Packet/Tests.antt =====
-- Runs of the reader and the writer on the vectors of link/tests/packets.rs.
use quote_link_rs.Base.{none, ℕ, zero, ◌≡◌, refl, List, [], ◌∷◌, ◌++◌, ok, some, arith}
use quote_link_rs.Deku.Msb.{msb_first, msb_first-IsMsbFirst}
use quote_link_rs.Protos.{Message, SubscribeResponse, AuthResponse, UnsubscribeResponse}
use quote_link_rs.Packet.{Response, Packet, Request, get_request_id}
use quote_link_rs.Packet.Codec.{
  packet_to_bytes, packet_from_bytes, packet_with_id, read_request, read_command, read_vec,
}
use quote_link_rs.Packet.Enums.{MsgType, command_id, command_of, cmd_sub_depth, success}
use quote_link_rs.Packet.Build.{
  new_request, new_heartbeat, new_heartbeat_response, body_of_packet, heartbeat_echo,
  new_request-IsWellFormed,
}
use quote_link_rs.Packet.Convert.{
  Exclusive, conversions-Exclusive, Quotation, quotation_msg_type, quotation_encode_to_vec,
  parse_quotation, AllMessages, parse_quotation-encode_to_vec,
}
use quote_link_rs.Packet.Codecs.{unary, unary-IsMessage, unary_heartbeat, unary_heartbeat-IsMessage}
use quote_link_rs.Packet.Layout.{IsWellFormed, encoding, packet_to_bytes-encoding}
use quote_link_rs.Packet.Whole.{packet_from_bytes-packet_to_bytes, packet_from_bytes-eq_ok}
use quote_link_rs.Packet.Samples.{
  ping, tick, ping-IsWellFormed, tick-IsWellFormed, two_packets, two_packets-IsByte,
}

ping_bytes : encoding ping ≡ 1 ∷ 0 ∷ 0 ∷ 1 ∷ 2 ∷ 0 ∷ 0 ∷ 3 ∷ 0 ∷ 1 ∷ 2 ∷ []
unfolding command_id
ping_bytes = refl

packet_to_bytes-encoding_example : packet_to_bytes msb_first ping ≡ ok (encoding ping)
packet_to_bytes-encoding_example =
    packet_to_bytes-encoding msb_first-IsMsbFirst ping ping-IsWellFormed

packet_from_bytes-packet_to_bytes_example :
    (bs : List ℕ) × (packet_to_bytes msb_first tick ≡ ok bs)
    × (packet_from_bytes msb_first (bs ++ (1 ∷ 0 ∷ []), 0) ≡ ok ((1 ∷ 0 ∷ [], 0), tick))
packet_from_bytes-packet_to_bytes_example =
    packet_from_bytes-packet_to_bytes msb_first-IsMsbFirst tick (1 ∷ 0 ∷ []) tick-IsWellFormed

first_packet : packet_from_bytes msb_first (two_packets, 0) ≡ ok ((encoding tick, 0), ping)
unfolding packet_from_bytes packet_with_id command_id read_request read_command command_of read_vec
first_packet = refl

packet_from_bytes-eq_ok_example :
    (two_packets ≡ encoding ping ++ encoding tick) × (zero ≡ zero) × IsWellFormed ping
packet_from_bytes-eq_ok_example =
    packet_from_bytes-eq_ok msb_first-IsMsbFirst two_packets (encoding tick, 0) ping
      two_packets-IsByte first_packet

heartbeat_echo_example :
    (bs : List ℕ) × (req : Request) × (bs' : List ℕ) × (packet_to_bytes msb_first
        (new_heartbeat unary_heartbeat 2 16777217)
      ≡ ok bs)
    × (packet_from_bytes msb_first (bs, 0) ≡ ok (([], 0), Packet.request req))
    × (packet_to_bytes msb_first (new_heartbeat_response req) ≡ ok bs')
    × (packet_from_bytes msb_first (bs', 0) ≡ ok (([], 0), new_heartbeat_response req))
    × (get_request_id (new_heartbeat_response req) ≡ 1)
    × (unary_heartbeat.decode (body_of_packet (new_heartbeat_response req))
        ≡ some (record { timestamp = 2 }))
heartbeat_echo_example =
    heartbeat_echo msb_first-IsMsbFirst unary_heartbeat (λ h. Unit {0}) unary_heartbeat-IsMessage 2
      16777217 tt (omega arith)

new_request-IsWellFormed_example : IsWellFormed (new_request cmd_sub_depth 4294967295 (1 ∷ 2 ∷ []))
new_request-IsWellFormed_example =
    new_request-IsWellFormed cmd_sub_depth 4294967295 (1 ∷ 2 ∷ []) (ground arith) (omega arith)

all_unary : AllMessages unary unary unary unary unary unary
all_unary = record {
  on_trade = unary-IsMessage;
  on_price = unary-IsMessage;
  on_depth = unary-IsMessage;
  on_broker = unary-IsMessage;
  on_k_line = unary-IsMessage;
  on_order_book = unary-IsMessage;
}

parse_quotation-encode_to_vec_example :
    ((q : Quotation ℕ ℕ ℕ ℕ ℕ ℕ)
      → parse_quotation unary unary unary unary unary unary
          (quotation_msg_type unary unary unary unary unary unary q)
          (quotation_encode_to_vec unary unary unary unary unary unary q)
        ≡ some q)
    × ((t : MsgType) (bytes : List ℕ) (q : Quotation ℕ ℕ ℕ ℕ ℕ ℕ)
        → parse_quotation unary unary unary unary unary unary t bytes ≡ some q
        → quotation_msg_type unary unary unary unary unary unary q ≡ t)
parse_quotation-encode_to_vec_example =
    parse_quotation-encode_to_vec unary unary unary unary unary unary all_unary

abbrev no_subscribe : Message SubscribeResponse
no_subscribe = record { encode_to_vec = λ r. []; decode = λ bs. none }

abbrev no_auth : Message AuthResponse
no_auth = record { encode_to_vec = λ r. []; decode = λ bs. none }

abbrev no_unsubscribe : Message UnsubscribeResponse
no_unsubscribe = record { encode_to_vec = λ r. []; decode = λ bs. none }

abbrev answer : Response
answer = record {
  reserved = 0;
  command = cmd_sub_depth;
  id = 3;
  status = success;
  body_len = 0;
  body = [];
}

conversions-Exclusive_example : Exclusive no_subscribe no_auth no_unsubscribe answer
conversions-Exclusive_example = conversions-Exclusive no_subscribe no_auth no_unsubscribe answer
