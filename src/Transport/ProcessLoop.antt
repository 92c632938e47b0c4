-- ===== src/Transport/ProcessLoop.antt =====
-- `quic_process_loop` of link/src/transport/link.rs as a whole: the branches of its `select!`, of
-- which SendLoop has the one for new chunks. The calls of quiche's connection are parameters; when a
-- timer fires is an event. `heard` is kept to speak of what the streams gave; the program has no such
-- variable. Logging and metrics are left out.
pub mod Order
pub mod Reads
pub mod Carried
mod Tests
use quote_link_rs.Base.{
  ℕ, zero, suc, ◌+◌, List, [], ◌∷◌, ◌++◌, Bool, true, false, Option, none, some, length, drop, ltb,
  if◌then◌else◌,
}
use quote_link_rs.Channel.{Sender, send}
use quote_link_rs.SimpleBuf
use quote_link_rs.SimpleBuf.{SimpleBuf}
use quote_link_rs.Transport.SendLoop.{
  Conn, SendError, Process, ProcessStep, conn_send_loop, flush, send_once,
}

-- What `stream_recv` answers: bytes with the `fin` flag, `Done`, or another error.
pub data StreamRead : Type 0 where
  read : List ℕ → Bool → StreamRead
  done failed : StreamRead

-- The further calls. `has_expired` says that `timeout()` is a duration of zero; `budget` bounds how
-- often `stream_recv` can still give bytes, and is the fuel of the loop that calls it.
pub record Driver : Type 1 where
  pub conn : Conn
  pub on_timeout : conn.State → conn.State
  pub recv : conn.State → List ℕ → conn.State × Option ℕ
  pub readable : conn.State → List ℕ
  pub stream_recv : conn.State → ℕ → conn.State × StreamRead
  pub has_expired : conn.State → Bool
  pub is_timed_out : conn.State → Bool
  pub is_closed : conn.State → Bool
  pub budget : conn.State → ℕ

pub data LoopEvent : Type 0 where
  -- Of the channels: a timer, a datagram, a chunk to send, and the ends of the latter two.
  timeout_signal udp_recv_closed quic_send_closed : LoopEvent
  udp_data chunk : List ℕ → LoopEvent
  ticked : LoopEvent

pub data LoopError : Type 0 where
  sending : SendError → LoopError
  conn_recv_failed stream_recv_failed stream_fin quic_data_closed : LoopError
  timed_out closed udp_data_closed chunks_closed out_of_fuel : LoopError

module _ (d : Driver) where
  pub record Looped : Type 0 where
    pub process : Process d.conn
    pub quic_data_recv_tx : Sender (List ℕ)
    pub heard : List (List ℕ)

  abbrev pub LoopStep : Type 0
  LoopStep = Looped × Option LoopError

  abbrev pub then_next : (Looped → LoopStep) → LoopStep → LoopStep
  then_next again (l, none) = again l
  then_next again (l, some e) = (l, some e)

  abbrev pub set_conn : Looped → d.conn.State → Looped
  set_conn l c = record l { process = record l.process { conn = c } }

  -- A part of the loop that sends.
  abbrev pub with_process : Looped → ProcessStep d.conn → LoopStep
  with_process l (p, none) = (record l { process = p }, none)
  with_process l (p, some e) = (record l { process = p }, some (sending e))

  abbrev pub send_pending : Looped → LoopStep
  send_pending l = with_process l (conn_send_loop d.conn l.process)

  unfoldable pub on_timeout : Looped → LoopStep
  unfolding conn_send_loop
  on_timeout l = send_pending (set_conn l (d.on_timeout l.process.conn))

  abbrev pub on_conn_recv :
      (ℕ → Looped → LoopStep) → ℕ → Looped → d.conn.State × Option ℕ → LoopStep
  on_conn_recv again sent l (c, none) = (set_conn l c, some conn_recv_failed)
  on_conn_recv again sent l (c, some n) = again (sent + n) (set_conn l c)

  -- `while sent < b.len()`.
  unfoldable pub recv_all : ℕ → List ℕ → ℕ → Looped → LoopStep
  recv_all zero b sent l = (l, some out_of_fuel)
  recv_all (suc fuel) b sent l =
      let rest = on_conn_recv (recv_all fuel b) sent l (d.recv l.process.conn (drop sent b)) in
      if ltb sent (length b) then rest else (l, none)

  abbrev pub on_forward : (Looped → LoopStep) → Bool → Looped → Option (Sender (List ℕ)) → LoopStep
  on_forward again fin l none = (l, some quic_data_closed)
  on_forward again true l (some tx) = (record l { quic_data_recv_tx = tx }, some stream_fin)
  on_forward again false l (some tx) =
      then_next again (send_pending (record l { quic_data_recv_tx = tx }))

  abbrev pub on_stream_recv : (Looped → LoopStep) → Looped → d.conn.State × StreamRead → LoopStep
  on_stream_recv again l (c, done) = (set_conn l c, none)
  on_stream_recv again l (c, failed) = (set_conn l c, some stream_recv_failed)
  on_stream_recv again l (c, read bs fin) =
      on_forward again fin (record (set_conn l c) { heard = l.heard ++ (bs ∷ []) })
        (send l.quic_data_recv_tx bs)

  -- `'stream_read`, on one stream.
  unfoldable pub stream_read : ℕ → ℕ → Looped → LoopStep
  unfolding conn_send_loop
  stream_read zero stream_id l = (l, some out_of_fuel)
  stream_read (suc fuel) stream_id l =
      on_stream_recv (stream_read fuel stream_id) l (d.stream_recv l.process.conn stream_id)

  unfoldable pub read_streams : List ℕ → Looped → LoopStep
  unfolding stream_read
  read_streams [] l = (l, none)
  read_streams (stream_id ∷ stream_ids) l =
      then_next (read_streams stream_ids) (stream_read (suc (d.budget l.process.conn)) stream_id l)

  abbrev pub read_readable : Looped → LoopStep
  read_readable l = read_streams (d.readable l.process.conn) l

  unfoldable pub on_udp_data : List ℕ → Looped → LoopStep
  unfolding recv_all read_streams conn_send_loop
  on_udp_data b l =
      then_next read_readable (then_next send_pending (recv_all (suc (length b)) b 0 l))

  abbrev pub expire : Looped → LoopStep
  expire l = let rest = on_timeout l in if d.has_expired l.process.conn then rest else (l, none)

  abbrev pub check_alive : Looped → LoopStep
  check_alive l =
      if d.is_timed_out l.process.conn
      then (l, some timed_out)
      else (if d.is_closed l.process.conn then (l, some closed) else (l, none))

  -- The bytes that were left over are sent, and the end of the connection is noticed.
  unfoldable pub on_tick : Looped → LoopStep
  unfolding flush on_timeout
  on_tick l = then_next check_alive (
      then_next expire (
        with_process l (
          flush d.conn (suc (length (SimpleBuf.occupied_slice l.process.stream_send_buffer)))
            l.process)))

  unfoldable pub loop_step : LoopEvent → Looped → LoopStep
  unfolding on_timeout on_udp_data on_tick send_once
  loop_step timeout_signal l = on_timeout l
  loop_step udp_recv_closed l = (l, some udp_data_closed)
  loop_step quic_send_closed l = (l, some chunks_closed)
  loop_step (udp_data b) l = on_udp_data b l
  loop_step (chunk b) l = with_process l (send_once d.conn b l.process)
  loop_step ticked l = on_tick l

  unfoldable pub quic_process_loop : List LoopEvent → Looped → LoopStep
  unfolding loop_step
  quic_process_loop [] l = (l, none)
  quic_process_loop (event ∷ events) l = then_next (quic_process_loop events) (loop_step event l)
