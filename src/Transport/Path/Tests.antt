-- ===== src/Transport/Path/Tests.antt =====
-- Two packets on their way: the connection takes the first and one byte of the second, and the far
-- end hears the first.
use quote_link_rs.Base.{
  ℕ, ◌-◌, ◌≡◌, refl, ap, List, [], ◌∷◌, ◌++◌, Bool, true, false, none, some, length, take, ltb,
  ◌==◌, if◌then◌else◌, concat, All, arith,
}
use quote_link_rs.Channel.{Sender, send}
use quote_link_rs.Deku.Msb.{msb_first, msb_first-IsMsbFirst}
use quote_link_rs.Packet.{Packet}
use quote_link_rs.Packet.Layout.{IsWellFormed, encoding}
use quote_link_rs.Packet.Samples.{ping, tick, ping-IsWellFormed, tick-IsWellFormed}
use quote_link_rs.SimpleBuf
use quote_link_rs.Transport.ReadLoop.{link_read_loop}
use quote_link_rs.Transport.SendLoop.{Conn, Verdict, accepted, done}
use quote_link_rs.Transport.SendLoop.Order.{IsStream}
use quote_link_rs.Transport.WriteLoop.{WriteError, link_write_loop, link_write_loop-encoding}
use quote_link_rs.Transport.ProcessLoop
use quote_link_rs.Transport.ProcessLoop.{
  StreamRead, read, Driver, LoopEvent, udp_data, chunk, Looped, quic_process_loop,
}
use quote_link_rs.Transport.ProcessLoop.Order.{IsDriver, IsGood, outgoing}
use quote_link_rs.Transport.ProcessLoop.Carried.{chunks, Selected}
use quote_link_rs.Transport.Path.{link_read_loop-Selected}

abbrev both : List Packet
both = ping ∷ tick ∷ []

both-IsWellFormed : All IsWellFormed both
both-IsWellFormed = (ping-IsWellFormed, (tick-IsWellFormed, tt))

abbrev byte_receiver : Sender (List ℕ)
byte_receiver = record { room = 5; sent = [] }

abbrev receiver : Sender Packet
receiver = record { room = 5; sent = [] }

-- The bytes that the peer still takes, and whether a read is to come.
abbrev take_bytes : ℕ × Bool → List ℕ → (ℕ × Bool) × Verdict
take_bytes s bs =
    if s.0 == 0
    then ((0, s.1), done)
    else (if ltb s.0 (length bs)
        then ((0, s.1), accepted s.0)
        else ((s.0 - length bs, s.1), accepted (length bs)))

abbrev capped : Conn
capped = record { State = ℕ × Bool; stream_send = take_bytes; sends = λ s. (s, []) }

capped-IsStream : IsStream capped
capped-IsStream = record {
  takes = λ s s' bs n some_bytes e. ground (arith, e);
  stays_done = λ s s' bs more some_bytes e h. ((0, s.1), ground (arith, e));
}

abbrev hear_ping : ℕ × Bool → ℕ → (ℕ × Bool) × StreamRead
hear_ping s stream_id =
    if s.1 then ((s.0, false), read (encoding ping) false) else (s, ProcessLoop.done)

abbrev unread : ℕ × Bool → ℕ
unread s = if s.1 then 1 else 0

abbrev driver : Driver
driver = record {
  conn = capped;
  on_timeout = λ s. s;
  recv = λ s bs. ((s.0, true), some (length bs));
  readable = λ s. 4 ∷ [];
  stream_recv = hear_ping;
  has_expired = λ s. false;
  is_timed_out = λ s. false;
  is_closed = λ s. false;
  budget = unread;
}

driver-IsDriver : IsDriver driver
driver-IsDriver = record {
  is_stream = capped-IsStream;
  reads = λ c c' bs n some_bytes e. ground (arith, e);
  drains = λ c c' stream_id bs fin e. ground (arith, e);
  keeps_budget = λ c. omega arith;
}

abbrev start : Looped driver
start = record {
  process = record {
    conn = (12, false);
    stream_send_buffer = SimpleBuf.new 16;
    written = [];
    udp_data_send_tx = record { room = 9; sent = [] };
  };
  quic_data_recv_tx = record { room = 9; sent = [] };
  heard = [];
}

start-IsGood : IsGood driver-IsDriver [] start
start-IsGood = record { valid = SimpleBuf.Invariant.new-IsValid 16 (omega arith); handed_on = refl }

start-fresh : outgoing driver-IsDriver [] start ≡ []
unfolding SimpleBuf.new SimpleBuf.occupied_slice
start-fresh = refl

abbrev events : List LoopEvent
events = chunk (encoding ping) ∷ chunk (encoding tick) ∷ []

abbrev far_events : List LoopEvent
far_events = udp_data (9 ∷ []) ∷ []

written : (link_write_loop msb_first both byte_receiver).0.sent ≡ chunks events ++ []
written =
    ap (λ (o : Sender (List ℕ) × WriteError). o.0.sent)
      (link_write_loop-encoding msb_first-IsMsbFirst both byte_receiver both-IsWellFormed
        (omega arith))

abbrev near_end : Looped driver
near_end = (quic_process_loop driver events start).0

abbrev far_end : Looped driver
far_end = (quic_process_loop driver far_events start).0

near_run : quic_process_loop driver events start ≡ (near_end, none)
unfolding quic_process_loop SimpleBuf.is_empty SimpleBuf.reuse_if SimpleBuf.push_slice
    SimpleBuf.free SimpleBuf.occupied_slice SimpleBuf.new SimpleBuf.max_len SimpleBuf.len
    SimpleBuf.reuse
near_run = refl

far_run : quic_process_loop driver far_events start ≡ (far_end, none)
unfolding quic_process_loop send
far_run = refl

carried : near_end.process.written ≡ concat far_end.heard ++ take 1 (encoding tick)
unfolding quic_process_loop send SimpleBuf.is_empty SimpleBuf.reuse_if SimpleBuf.push_slice
    SimpleBuf.free SimpleBuf.occupied_slice SimpleBuf.new SimpleBuf.max_len SimpleBuf.len
    SimpleBuf.reuse
carried = refl

link_read_loop-Selected_example :
    (qs rs : List Packet) × Selected both qs
    × (qs
        ≡ (link_read_loop msb_first 64 receiver far_end.quic_data_recv_tx.sent).0.response_tx.sent
          ++ rs)
link_read_loop-Selected_example =
    link_read_loop-Selected msb_first-IsMsbFirst driver-IsDriver driver-IsDriver both byte_receiver
      events far_events start near_end start far_end [] (take 1 (encoding tick)) 64 receiver
      both-IsWellFormed refl (omega arith) written start-IsGood start-fresh near_run start-IsGood
      far_run carried (omega arith) refl
