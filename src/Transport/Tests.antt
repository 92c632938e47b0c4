-- ===== src/Transport/Tests.antt =====
-- Runs of the read loop and the write loop on two packets.
use quote_link_rs.Base.{
  length, ltb, ◌==◌, if◌then◌else◌, ◌-◌, ℕ, ◌↔◌, ◌≡◌, refl, sym, ap, List, [], ◌∷◌, ◌++◌, some, All,
  concat, arith, inr,
}
use quote_link_rs.Channel.{Sender}
use quote_link_rs.Deku.{IsByte}
use quote_link_rs.Deku.Msb.{msb_first, msb_first-IsMsbFirst}
use quote_link_rs.Packet.{Packet}
use quote_link_rs.Packet.Layout.{IsWellFormed, encoding}
use quote_link_rs.Packet.Samples.{
  ping, tick, ping-IsWellFormed, tick-IsWellFormed, two_packets, two_packets-IsByte,
}
use quote_link_rs.SimpleBuf
use quote_link_rs.SimpleBuf.{SimpleBuf}
use quote_link_rs.SimpleBuf.Invariant.{IsValid}
use quote_link_rs.Transport.SendLoop.{Conn, accepted, done, Process, send_once}
use quote_link_rs.Transport.SendLoop.Order.{IsStream}
use quote_link_rs.Transport.SendLoop.Once.{Ordered}
use quote_link_rs.Transport.SendLoop.Chunk.{send_once-Ordered}
use quote_link_rs.Transport.Token.{
  SocketAddr, mint_token, validate_token, validate_token-mint_token,
}
use quote_link_rs.Transport.Parse.{parse_packet_buf}
use quote_link_rs.Transport.Parse.Sound.{Took, parse_packet_buf-Took}
use quote_link_rs.Transport.ReadLoop.{
  ReadState, push_failed, recv_closed, start_read, read_once, link_read_loop,
}
use quote_link_rs.Transport.ReadLoop.Push.{Fits}
use quote_link_rs.Transport.ReadLoop.Step.{buffered, Delivered, After, read_once-After}
use quote_link_rs.Transport.ReadLoop.Stream.{AllFit, start_read-Inv, link_read_loop-packets}
use quote_link_rs.Transport.ReadLoop.Stop.{read_once-push_failed, link_read_loop-Delivered}
use quote_link_rs.Transport.WriteLoop.{
  WriteError, request_closed, link_write_loop, link_write_loop-encoding,
}
use quote_link_rs.Transport.WriteLoop.EndToEnd.{link_read_loop-link_write_loop}

abbrev sent_packets : List Packet
sent_packets = ping ∷ tick ∷ []

sent_packets-IsWellFormed : All IsWellFormed sent_packets
sent_packets-IsWellFormed = (ping-IsWellFormed, (tick-IsWellFormed, tt))

abbrev receiver : Sender Packet
receiver = record { room = 5; sent = [] }

abbrev byte_receiver : Sender (List ℕ)
byte_receiver = record { room = 5; sent = [] }

-- The bytes of both packets, in one chunk.
abbrev one_chunk : List (List ℕ)
one_chunk = two_packets ∷ []

one_chunk-IsByte : All (All IsByte) one_chunk
one_chunk-IsByte = (two_packets-IsByte, tt)

one_chunk-Fits : Fits (SimpleBuf.new 64) two_packets
unfolding SimpleBuf.new SimpleBuf.len SimpleBuf.max_len
one_chunk-Fits = inr (omega arith, omega arith)

one_chunk-AllFit : AllFit msb_first one_chunk (start_read 64 receiver)
unfolding start_read
one_chunk-AllFit = (one_chunk-Fits, tt)

parse_packet_buf-Took_example :
    Took 0 two_packets receiver (parse_packet_buf msb_first receiver two_packets)
parse_packet_buf-Took_example =
    parse_packet_buf-Took msb_first-IsMsbFirst receiver two_packets two_packets-IsByte (omega arith)

read_once-After_example :
    After 5 ([] ++ two_packets) (read_once msb_first (start_read 64 receiver) two_packets)
unfolding start_read
read_once-After_example =
    read_once-After msb_first-IsMsbFirst 5 [] (start_read 64 receiver) two_packets
      (start_read-Inv 64 receiver (omega arith) refl) two_packets-IsByte one_chunk-Fits

link_read_loop-Delivered_example :
    (rest : List ℕ) × Delivered
      (concat one_chunk)
      (link_read_loop msb_first 64 receiver one_chunk).0
      rest
link_read_loop-Delivered_example =
    link_read_loop-Delivered msb_first-IsMsbFirst 64 receiver one_chunk (omega arith) refl
      one_chunk-IsByte

link_read_loop-packets_example :
    (s' : ReadState) × (link_read_loop msb_first 64 receiver one_chunk ≡ (s', recv_closed))
    × (s'.response_tx.sent ≡ sent_packets)
    × (buffered s' ≡ [])
link_read_loop-packets_example =
    link_read_loop-packets msb_first-IsMsbFirst 64 receiver sent_packets one_chunk (omega arith)
      refl sent_packets-IsWellFormed (omega arith) refl one_chunk-IsByte one_chunk-AllFit

link_write_loop-encoding_example :
    link_write_loop msb_first sent_packets byte_receiver
    ≡ (record { room = 3; sent = encoding ping ∷ encoding tick ∷ [] }, request_closed)
link_write_loop-encoding_example =
    link_write_loop-encoding msb_first-IsMsbFirst sent_packets byte_receiver
      sent_packets-IsWellFormed (omega arith)

written : concat one_chunk ≡ concat (link_write_loop msb_first sent_packets byte_receiver).0.sent
written =
    sym
      (ap (λ (o : Sender (List ℕ) × WriteError). concat o.0.sent) link_write_loop-encoding_example)

link_read_loop-link_write_loop_example :
    (s' : ReadState) × (link_read_loop msb_first 64 receiver one_chunk ≡ (s', recv_closed))
    × (s'.response_tx.sent ≡ sent_packets)
    × (buffered s' ≡ [])
link_read_loop-link_write_loop_example =
    link_read_loop-link_write_loop msb_first-IsMsbFirst sent_packets byte_receiver 64 receiver
      one_chunk sent_packets-IsWellFormed refl (omega arith) written (omega arith) refl
      (omega arith) one_chunk-IsByte one_chunk-AllFit

-- Three bytes of the five of a header wait at the end of a buffer of eight.
abbrev nearly_full : ReadState
nearly_full = record {
  packet_buffer = record {
    data_vec = 0 ∷ 0 ∷ 0 ∷ 0 ∷ 132 ∷ 1 ∷ 0 ∷ 0 ∷ [];
    capacity = 8;
    vacant_idx = 7;
    occupied_idx = 4;
  };
  need_size = 5;
  response_tx = receiver;
}

nearly_full-IsValid : IsValid nearly_full.packet_buffer
nearly_full-IsValid = ground arith

read_once-push_failed_example :
    read_once msb_first nearly_full (0 ∷ 0 ∷ []) ≡ (nearly_full, some push_failed)
unfolding SimpleBuf.len SimpleBuf.max_len
read_once-push_failed_example =
    read_once-push_failed msb_first nearly_full (0 ∷ 0 ∷ []) nearly_full-IsValid (omega arith)
      (omega arith) (omega arith)

abbrev home : SocketAddr
home = SocketAddr.v4 (127 ∷ 0 ∷ 0 ∷ 1 ∷ []) 4433

abbrev minted : List ℕ
minted = mint_token (1 ∷ 2 ∷ []) home

validate_token-mint_token_example :
    (validate_token home minted ≡ some (1 ∷ 2 ∷ [])) ↔ (minted ≡ mint_token (1 ∷ 2 ∷ []) home)
validate_token-mint_token_example = validate_token-mint_token home minted (1 ∷ 2 ∷ [])

-- A connection with a capacity in bytes, which sends no datagram.
abbrev capped : Conn
capped = record {
  State = ℕ;
  stream_send = λ s bs.
      if s == 0
      then (0, done)
      else (if ltb s (length bs) then (0, accepted s) else (s - length bs, accepted (length bs)));
  sends = λ s. (s, []);
}

capped-IsStream : IsStream capped
capped-IsStream = record {
  takes = λ s s' bs n some_bytes e. ground (arith, e);
  stays_done = λ s s' bs more some_bytes e h. (0, ground (arith, e));
}

-- Two bytes wait, and the connection takes three.
abbrev waiting : Process capped
waiting = record {
  conn = 3;
  stream_send_buffer = record {
    data_vec = 1 ∷ 2 ∷ 0 ∷ 0 ∷ 0 ∷ 0 ∷ 0 ∷ 0 ∷ [];
    capacity = 8;
    vacant_idx = 2;
    occupied_idx = 0;
  };
  written = [];
  udp_data_send_tx = byte_receiver;
}

waiting-IsValid : IsValid waiting.stream_send_buffer
waiting-IsValid = ground arith

send_once-Ordered_example :
    Ordered capped-IsStream waiting (3 ∷ 4 ∷ 5 ∷ []) (send_once capped (3 ∷ 4 ∷ 5 ∷ []) waiting)
send_once-Ordered_example =
    send_once-Ordered capped-IsStream waiting (3 ∷ 4 ∷ 5 ∷ []) waiting-IsValid
