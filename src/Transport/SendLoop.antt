-- ===== src/Transport/SendLoop.antt =====
-- How `quic_process_loop` of link/src/transport/link.rs sends: its branch for the bytes that
-- `link_write_loop` hands it, with `conn_send_loop`. The connection is quiche's, which is not part of
-- the repository: its state and two of its calls are parameters. `written` is kept to speak of the
-- bytes that the connection took; the program has no such variable. Both loops take fuel; a round
-- takes at least one byte, so one more than the number of bytes is enough. The timer that
-- `conn_send_loop` may start, logging and metrics are left out.
pub mod Order
pub mod Once
pub mod Chunk
use quote_link_rs.Base.{
  ℕ, zero, suc, ◌+◌, List, [], ◌∷◌, ◌++◌, Bool, true, false, Option, none, some, Result, ok, err,
  length, take, drop, ltb, ◌==◌, if◌then◌else◌,
}
use quote_link_rs.Channel.{Sender, send}
use quote_link_rs.SimpleBuf
use quote_link_rs.SimpleBuf.{SimpleBuf, BufError}

-- What `stream_send` answers: how many bytes it took, `Done`, or another error.
pub data Verdict : Type 0 where
  accepted : ℕ → Verdict
  done failed : Verdict

-- The calls: `stream_send` on the one stream, and what `send` gives when it is called until `Done`:
-- datagrams, where `none` is an error.
pub record Conn : Type 1 where
  pub State : Type 0
  pub stream_send : State → List ℕ → State × Verdict
  pub sends : State → State × List (Option (List ℕ))

-- Why the loop is left.
pub data SendError : Type 0 where
  conn_send_failed udp_closed stream_failed free_failed no_room push_failed : SendError
  out_of_fuel : SendError

module _ (c : Conn) where
  pub record Process : Type 0 where
    pub conn : c.State
    pub stream_send_buffer : SimpleBuf
    pub written : List ℕ
    pub udp_data_send_tx : Sender (List ℕ)

  abbrev pub ProcessStep : Type 0
  ProcessStep = Process × Option SendError

  abbrev pub on_datagram :
      (Sender (List ℕ) → Sender (List ℕ) × Option SendError)
      → Sender (List ℕ)
      → Option (Sender (List ℕ))
      → Sender (List ℕ) × Option SendError
  on_datagram again tx none = (tx, some udp_closed)
  on_datagram again tx (some tx') = again tx'

  unfoldable pub send_datagrams :
      List (Option (List ℕ)) → Sender (List ℕ) → Sender (List ℕ) × Option SendError
  send_datagrams [] tx = (tx, none)
  send_datagrams (none ∷ ds) tx = (tx, some conn_send_failed)
  send_datagrams (some datagram ∷ ds) tx = on_datagram (send_datagrams ds) tx (send tx datagram)

  unfoldable pub conn_send_loop : Process → ProcessStep
  unfolding send_datagrams
  conn_send_loop p =
      let (conn', ds) = c.sends p.conn in
      let (tx, e) = send_datagrams ds p.udp_data_send_tx in
      (record p { conn = conn'; udp_data_send_tx = tx }, e)

  abbrev pub then_again : (Process → ProcessStep) → ProcessStep → ProcessStep
  then_again again (p, none) = again p
  then_again again (p, some e) = (p, some e)

  -- After `stream_send` took `sent` of the buffered bytes.
  unfoldable pub on_freed :
      (Process → ProcessStep) → Process → Result BufError SimpleBuf → ProcessStep
  unfolding conn_send_loop
  on_freed again p (err e) = (p, some free_failed)
  on_freed again p (ok buf) =
      then_again again (conn_send_loop (record p { stream_send_buffer = buf }))

  unfoldable pub on_flush_verdict :
      (Process → ProcessStep) → Process → c.State × Verdict → ProcessStep
  unfolding on_freed
  on_flush_verdict again p (conn', done) = (record p { conn = conn' }, none)
  on_flush_verdict again p (conn', failed) = (record p { conn = conn' }, some stream_failed)
  on_flush_verdict again p (conn', accepted sent) =
      on_freed again
        (record p {
          conn = conn';
          written = p.written ++ take sent (SimpleBuf.occupied_slice p.stream_send_buffer);
        })
        (SimpleBuf.free p.stream_send_buffer sent)

  -- The bytes that were left over are sent first.
  unfoldable pub flush : ℕ → Process → ProcessStep
  unfolding on_flush_verdict
  flush zero p = (p, some out_of_fuel)
  flush (suc fuel) p =
      let verdict =
        on_flush_verdict (flush fuel) p
          (c.stream_send p.conn (SimpleBuf.occupied_slice p.stream_send_buffer)) in
      if SimpleBuf.is_empty p.stream_send_buffer then (p, none) else verdict

  -- How many of the new bytes were sent.
  abbrev pub NewStep : Type 0
  NewStep = (Process × ℕ) × Option SendError

  abbrev pub then_more : (ℕ → Process → NewStep) → ℕ → ProcessStep → NewStep
  then_more again sent (p, none) = again sent p
  then_more again sent (p, some e) = ((p, sent), some e)

  unfoldable pub on_new_verdict :
      (ℕ → Process → NewStep) → List ℕ → ℕ → Process → c.State × Verdict → NewStep
  unfolding conn_send_loop
  on_new_verdict again b sent p (conn', done) = ((record p { conn = conn' }, sent), none)
  on_new_verdict again b sent p (conn', failed) =
      ((record p { conn = conn' }, sent), some stream_failed)
  on_new_verdict again b sent p (conn', accepted v) =
      then_more again (sent + v)
        (conn_send_loop (record p { conn = conn'; written = p.written ++ take v (drop sent b) }))

  unfoldable pub send_new : ℕ → List ℕ → ℕ → Process → NewStep
  unfolding on_new_verdict
  send_new zero b sent p = ((p, sent), some out_of_fuel)
  send_new (suc fuel) b sent p =
      let verdict =
        on_new_verdict (send_new fuel b) b sent p (c.stream_send p.conn (drop sent b)) in
      if ltb sent (length b) then verdict else ((p, sent), none)

  unfoldable pub on_store : Process → Result BufError SimpleBuf → ProcessStep
  on_store p (err e) = (p, some push_failed)
  on_store p (ok buf) = (record p { stream_send_buffer = buf }, none)

  abbrev pub store : Process → List ℕ → ProcessStep
  store p rest = on_store p (SimpleBuf.push_slice p.stream_send_buffer rest)

  abbrev pub moved : Process → Process
  moved p = record p { stream_send_buffer = SimpleBuf.reuse p.stream_send_buffer }

  -- What could not be sent is kept.
  unfoldable pub keep_rest : List ℕ → NewStep → ProcessStep
  unfolding on_store
  keep_rest b ((p, sent), some e) = (p, some e)
  keep_rest b ((p, sent), none) =
      if sent == length b
      then (p, none)
      else (if ltb (SimpleBuf.len p.stream_send_buffer) (length b)
          then (if ltb (SimpleBuf.max_len p.stream_send_buffer) (length b)
              then (p, some no_room)
              else store (moved p) (drop sent b))
          else store p (drop sent b))

  -- The new bytes, after those that were left over.
  unfoldable pub send_after_flush : List ℕ → Process → ProcessStep
  unfolding send_new keep_rest
  send_after_flush b p =
      let p₁ = record p { stream_send_buffer = (SimpleBuf.reuse_if p.stream_send_buffer).0 } in
      if ltb (SimpleBuf.len p₁.stream_send_buffer) (length b)
      then (if ltb (SimpleBuf.max_len p₁.stream_send_buffer) (length b)
          then (p₁, none)
          else keep_rest b (send_new (suc (length b)) b 0 (moved p₁)))
      else keep_rest b (send_new (suc (length b)) b 0 p₁)

  -- One chunk from `quic_data_send_rx`.
  unfoldable pub send_once : List ℕ → Process → ProcessStep
  unfolding flush send_after_flush
  send_once b p =
      then_again (send_after_flush b)
        (flush (suc (length (SimpleBuf.occupied_slice p.stream_send_buffer))) p)
