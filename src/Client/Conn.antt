-- ===== src/Client/Conn.antt =====
-- One connection of the client in link/src/client.rs (the loop `'data`). Times are numbers on the
-- clock of `Instant`; `micros` is what `unix_micros` reads. Logging and metrics are left out, and
-- the time limits on the user's callbacks and on the lock. The generator of the ids is shared with the
-- requests of the user, which take theirs between the other events and not within one.
pub mod Admitted
pub mod Limit
use quote_link_rs.Base.{
  ℕ, ◌-◌, List, [], ◌∷◌, Bool, true, false, Option, none, some, ltb, ◌==◌, if◌then◌else◌,
}
use quote_link_rs.Channel.{Sender, send}
use quote_link_rs.Packet.{Packet, Response}
use quote_link_rs.Packet.Enums.{Command, auth, heartbeat}
use quote_link_rs.Packet.Build.{new_heartbeat, new_subscribe}
use quote_link_rs.Protos.{Message, Heartbeat, SubscribeRequest}
use quote_link_rs.Client.{Queued, next_id, is_success}
use quote_link_rs.Client.Pending.{Pending, save_waiter}

pub record Subscribe : Type 0 where
  pub cmd : Command
  pub sub_all : Bool
  pub span_index : ℕ

pub record ConnConf : Type 0 where
  pub auth_timeout : ℕ
  pub heartbeat_timeout : ℕ
  pub subscribes : List Subscribe

pub record ConnState : Type 0 where
  pub is_authed : Bool
  pub conn_created_at : ℕ
  pub last_pong_at : ℕ
  pub request_id_gen : ℕ
  pub inner_request_tx : Sender Packet
  pub packet_process_tx : Sender Packet
  pub pending : Pending

pub data ConnEvent : Type 0 where
  ctrl_c exit_signal : ConnEvent
  -- The end of the task that keeps the connection, and whether it was without an error.
  conn_done : Bool → ConnEvent
  -- The time, and the time in microseconds.
  ping_tick : ℕ → ℕ → ConnEvent
  request : Queued → ConnEvent
  -- `send_request` of the handle, in a task of the user, takes an id from the shared generator.
  id_taken : ConnEvent
  -- The time, the packet, and whether `try_send` finds a free slot.
  response : ℕ → Packet → Bool → ConnEvent
  response_closed : ConnEvent

-- How the loop is left: `finished` and `exited` for the returns of `link`, the latter with a notice
-- to the consumer, and the others for its errors.
pub data ConnEnd : Type 0 where
  finished exited connect_failed auth_timed_out heartbeat_timed_out heartbeat_failed : ConnEnd
  undecodable_heartbeat auth_refused process_closed subscribe_failed recv_closed : ConnEnd

abbrev pub ConnStep : Type 0
ConnStep = ConnState × Option ConnEnd

unfoldable pub start_conn : ℕ → ℕ → Sender Packet → Sender Packet → Pending → ConnState
start_conn now request_id_gen tx process_tx pending = record {
  is_authed = false;
  conn_created_at = now;
  last_pong_at = now;
  request_id_gen = request_id_gen;
  inner_request_tx = tx;
  packet_process_tx = process_tx;
  pending = pending;
}

abbrev pub take_id : ConnState → ConnState
take_id s = record s { request_id_gen = next_id s.request_id_gen }

-- The next packet of the loop is handed to the transport.
abbrev pub sent_or : ConnEnd → ConnState → Option (Sender Packet) → ConnStep
sent_or e s none = (s, some e)
sent_or e s (some tx) = (record s { inner_request_tx = tx }, none)

abbrev pub continue : (ConnState → ConnStep) → ConnStep → ConnStep
continue again (s, none) = again s
continue again (s, some e) = (s, some e)

module _ (heartbeats : Message Heartbeat) (subs : Message SubscribeRequest) where
  unfoldable pub timed_out : ConnConf → ConnState → ℕ → Option ConnEnd
  timed_out conf s now =
      if s.is_authed
      then (if ltb conf.heartbeat_timeout (now - s.last_pong_at)
          then some heartbeat_timed_out
          else none)
      else (if ltb conf.auth_timeout (now - s.conn_created_at) then some auth_timed_out else none)

  abbrev pub send_heartbeat : ConnState → ℕ → Option ConnEnd → ConnStep
  send_heartbeat s micros (some e) = (s, some e)
  send_heartbeat s micros none =
      sent_or heartbeat_failed (take_id s)
        (send s.inner_request_tx (new_heartbeat heartbeats micros s.request_id_gen))

  unfoldable pub on_ping_tick : ConnConf → ConnState → ℕ → ℕ → ConnStep
  unfolding timed_out
  on_ping_tick conf s now micros = send_heartbeat s micros (timed_out conf s now)

  -- `sub_packets`: the packets, and the next id.
  unfoldable pub sub_packets : List Subscribe → ℕ → List Packet × ℕ
  sub_packets [] id = ([], id)
  sub_packets (sub ∷ rest) id =
      let (ps, id') = sub_packets rest (next_id id) in
      (new_subscribe subs sub.cmd id sub.sub_all sub.span_index ∷ ps, id')

  unfoldable pub send_all : List Packet → ConnState → ConnStep
  send_all [] s = (s, none)
  send_all (p ∷ ps) s =
      continue (send_all ps) (sent_or subscribe_failed s (send s.inner_request_tx p))

  unfoldable pub subscribe_all : ConnConf → ConnState → ConnStep
  unfolding sub_packets send_all
  subscribe_all conf s =
      let (packets, id) = sub_packets conf.subscribes s.request_id_gen in
      send_all packets (record s { request_id_gen = id })

  abbrev authed : ConnConf → ConnState → Option (Sender Packet) → ConnStep
  authed conf s none = (record s { is_authed = true }, some process_closed)
  authed conf s (some tx) =
      subscribe_all conf (record s { is_authed = true; packet_process_tx = tx })

  unfoldable pub on_auth_response : ConnConf → ConnState → Response → ConnStep
  unfolding subscribe_all
  on_auth_response conf s r =
      if is_success r.status
      then authed conf s (send s.packet_process_tx (Packet.response r))
      else (s, some auth_refused)

  -- `try_send` to the task that calls the consumer: without a free slot the packet is dropped.
  unfoldable pub broadcast : ConnState → Packet → Bool → ConnStep
  broadcast s packet slot =
      if s.packet_process_tx.room == 0
      then (s, some process_closed)
      else (if slot then on_send (send s.packet_process_tx packet) else (s, none))
    where
      on_send : Option (Sender Packet) → ConnStep
      on_send none = (s, some process_closed)
      on_send (some tx) = (record s { packet_process_tx = tx }, none)

  abbrev pub pong : ConnState → Option Heartbeat → ConnStep
  pong s none = (s, some undecodable_heartbeat)
  pong s (some h) = (s, none)

  unfoldable pub on_response : ConnConf → ConnState → Response → Bool → Command → ConnStep
  unfolding on_auth_response broadcast
  on_response conf s r slot heartbeat = pong s (heartbeats.decode r.body)
  on_response conf s r slot auth = on_auth_response conf s r
  on_response conf s r slot c = broadcast s (Packet.response r) slot

  unfoldable pub on_packet : ConnConf → ConnState → Packet → Bool → ConnStep
  unfolding on_response
  on_packet conf s (Packet.response r) slot = on_response conf s r slot r.command
  on_packet conf s (Packet.request q) slot = broadcast s (Packet.request q) slot
  on_packet conf s (Packet.push p) slot = broadcast s (Packet.push p) slot

  -- A request of the user: its waiter is kept if the packet was handed on.
  abbrev pub forwarded : ConnState → Queued → Option (Sender Packet) → ConnStep
  forwarded s q none = (s, none)
  forwarded s q (some tx) =
      (record s { inner_request_tx = tx; pending = save_waiter q s.pending }, none)

  unfoldable pub conn_step : ConnConf → ConnState → ConnEvent → ConnStep
  unfolding on_ping_tick on_packet
  conn_step conf s ctrl_c = (s, some finished)
  conn_step conf s exit_signal = (s, some exited)
  conn_step conf s (conn_done true) = (s, some finished)
  conn_step conf s (conn_done false) = (s, some connect_failed)
  conn_step conf s (ping_tick now micros) = on_ping_tick conf s now micros
  conn_step conf s id_taken = (take_id s, none)
  conn_step conf s (request q) = forwarded s q (send s.inner_request_tx q.0)
  conn_step conf s (response now packet slot) =
      on_packet conf (record s { last_pong_at = now }) packet slot
  conn_step conf s response_closed = (s, some recv_closed)

  unfoldable pub conn_loop : ConnConf → List ConnEvent → ConnState → ConnStep
  unfolding conn_step
  conn_loop conf [] s = (s, none)
  conn_loop conf (e ∷ es) s = continue (conn_loop conf es) (conn_step conf s e)
