-- ===== src/Transport/ProcessLoop/Tests.antt =====
-- A run of the loop with a connection that has a capacity in bytes, and reads that are to come.
use quote_link_rs.Base.{
  ℕ, ◌+◌, ◌-◌, ◌≡◌, refl, List, [], ◌∷◌, false, some, length, ltb, ◌==◌, if◌then◌else◌, arith,
}
use quote_link_rs.Channel.{send}
use quote_link_rs.SimpleBuf
use quote_link_rs.Transport.SendLoop.{Conn, Verdict, accepted, done}
use quote_link_rs.Transport.SendLoop.Order.{IsStream}
use quote_link_rs.Transport.ProcessLoop
use quote_link_rs.Transport.ProcessLoop.{
  StreamRead, read, Driver, LoopEvent, udp_data, chunk, ticked, Looped, quic_process_loop,
}
use quote_link_rs.Transport.ProcessLoop.Order.{IsDriver, IsGood}
use quote_link_rs.Transport.ProcessLoop.Carried.{Carried, quic_process_loop-Carried}

abbrev take_bytes : ℕ × ℕ → List ℕ → (ℕ × ℕ) × Verdict
take_bytes s bs =
    if s.0 == 0
    then ((0, s.1), done)
    else (if ltb s.0 (length bs)
        then ((0, s.1), accepted s.0)
        else ((s.0 - length bs, s.1), accepted (length bs)))

-- The bytes that the peer still takes, and the reads that are to come.
abbrev capped : Conn
capped = record { State = ℕ × ℕ; stream_send = take_bytes; sends = λ s. (s, []) }

capped-IsStream : IsStream capped
capped-IsStream = record {
  takes = λ s s' bs n some_bytes e. ground (arith, e);
  stays_done = λ s s' bs more some_bytes e h. ((0, s.1), ground (arith, e));
}

abbrev next_read : ℕ × ℕ → ℕ → (ℕ × ℕ) × StreamRead
next_read s stream_id =
    if s.1 == 0 then (s, ProcessLoop.done) else ((s.0, s.1 - 1), read (s.1 ∷ []) false)

-- Each datagram brings two reads.
abbrev driver : Driver
driver = record {
  conn = capped;
  on_timeout = λ s. s;
  recv = λ s bs. ((s.0, s.1 + 2), some (length bs));
  readable = λ s. 4 ∷ [];
  stream_recv = next_read;
  has_expired = λ s. false;
  is_timed_out = λ s. false;
  is_closed = λ s. false;
  budget = λ s. s.1;
}

driver-IsDriver : IsDriver driver
driver-IsDriver = record {
  is_stream = capped-IsStream;
  reads = λ c c' bs n some_bytes e. ground (arith, e);
  drains = λ c c' stream_id bs fin e. ground (arith, e);
  keeps_budget = λ c. omega arith;
}

abbrev start : Looped driver
start = record {
  process = record {
    conn = (3, 0);
    stream_send_buffer = record {
      data_vec = 0 ∷ 0 ∷ 0 ∷ 0 ∷ [];
      capacity = 4;
      vacant_idx = 0;
      occupied_idx = 0;
    };
    written = [];
    udp_data_send_tx = record { room = 9; sent = [] };
  };
  quic_data_recv_tx = record { room = 9; sent = [] };
  heard = [];
}

start-IsGood : IsGood driver-IsDriver [] start
start-IsGood = record { valid = ground arith; handed_on = refl }

-- Of the second chunk one byte is sent, and the third does not fit behind the rest.
abbrev events : List LoopEvent
events =
    chunk (1 ∷ 2 ∷ [])
    ∷ udp_data (9 ∷ [])
    ∷ chunk (3 ∷ 4 ∷ 5 ∷ [])
    ∷ ticked
    ∷ chunk (6 ∷ 7 ∷ 8 ∷ [])
    ∷ []

heard_both :
    (quic_process_loop driver events start).0.quic_data_recv_tx.sent ≡ (2 ∷ []) ∷ (1 ∷ []) ∷ []
unfolding quic_process_loop send SimpleBuf.is_empty SimpleBuf.reuse_if SimpleBuf.len
    SimpleBuf.max_len SimpleBuf.reuse SimpleBuf.push_slice SimpleBuf.occupied_slice
heard_both = refl

quic_process_loop-Carried_example :
    Carried driver-IsDriver [] events start (quic_process_loop driver events start)
quic_process_loop-Carried_example =
    quic_process_loop-Carried driver-IsDriver [] events start start-IsGood
