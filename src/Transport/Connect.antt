-- ===== src/Transport/Connect.antt =====
-- `Transport` of link/src/transport/transport.rs with `connect`, and the loops that it and
-- `accept_new_conn` of link/src/transport/server.rs start. What the operating system and quiche
-- answer, and how the loops end, is given; durations, and the address that is bound, are left out.
pub mod Joined
pub mod Ends
mod Tests
use quote_link_rs.Base.{
  ℕ, zero, suc, List, [], ◌∷◌, ◌++◌, Bool, true, false, Option, none, some, Result, ok, err, max,
}
use quote_link_rs.Channel.{Sender, send}
use quote_link_rs.Config.{
  BufferConfig, ChannelConfig, TimeoutConfig, QuicheConfig, HealthyConfig,
  default_max_udp_packet_size,
}
use quote_link_rs.Client.Conn.{Subscribe}
use quote_link_rs.Packet.{Packet}
use quote_link_rs.Protos.{Text}
use quote_link_rs.Resolve.{BackupConfig}
use quote_link_rs.Transport.Udp.{Socket, Outgoing}
use quote_link_rs.Transport.Handshake.{
  Quic, HandshakeError, waiting, Received, Handshake, HandshakeStep, quic_handshake,
}

pub record LinkClientConfig : Type 0 where
  pub addr : Text
  pub username : Text
  pub password : Text
  pub client_name : Text
  pub subscribes : List Subscribe
  pub backup_config : Option BackupConfig
  pub healthy_config : HealthyConfig
  pub channel_config : ChannelConfig
  pub buffer_config : BufferConfig
  pub quiche_config : QuicheConfig
  pub timeout_config : TimeoutConfig

pub record LinkServerConfig : Type 0 where
  pub listen_addr : Text
  pub healthy_config : HealthyConfig
  pub channel_config : ChannelConfig
  pub buffer_config : BufferConfig
  pub quiche_config : QuicheConfig
  pub timeout_config : TimeoutConfig

pub record Transport : Type 0 where
  pub buffer_config : BufferConfig
  pub channel_config : ChannelConfig
  pub quiche_config : QuicheConfig
  pub timeout_config : TimeoutConfig

unfoldable pub from_client_config : LinkClientConfig → Transport
from_client_config cfg = record {
  buffer_config = cfg.buffer_config;
  channel_config = cfg.channel_config;
  quiche_config = cfg.quiche_config;
  timeout_config = cfg.timeout_config;
}

unfoldable pub from_server_config : LinkServerConfig → Transport
from_server_config cfg = record {
  buffer_config = cfg.buffer_config;
  channel_config = cfg.channel_config;
  quiche_config = cfg.quiche_config;
  timeout_config = cfg.timeout_config;
}

-- A task with the sizes that it is given: of `quic_process_loop` the buffers for datagrams, for
-- reading and for sending on the stream, and the interval of its ticker.
pub data Task : Type 0 where
  udp_read_loop link_read_loop : ℕ → Task
  quic_process_loop : ℕ → ℕ → ℕ → ℕ → Task
  link_write_loop udp_write_loop : Task

abbrev unwrap_or : ℕ → Option ℕ → ℕ
unwrap_or n none = n
unwrap_or n (some m) = m

-- The buffer of the client's `udp_read_loop`.
unfoldable pub udp_read_size : Transport → ℕ
udp_read_size t =
    max t.buffer_config.max_udp_read_size
      (unwrap_or default_max_udp_packet_size t.quiche_config.max_recv_udp_payload_size)

-- What `accept_new_conn` starts once the handshake is done.
unfoldable pub accept_tasks : BufferConfig → TimeoutConfig → List Task
accept_tasks buffer timeout =
    quic_process_loop (max buffer.max_udp_read_size buffer.max_udp_write_size)
      buffer.max_stream_read_size buffer.max_stream_send_size timeout.idle_interval
    ∷ link_read_loop buffer.max_stream_read_size
    ∷ link_write_loop
    ∷ udp_write_loop
    ∷ []

unfoldable pub connect_tasks : Transport → List Task
unfolding udp_read_size
connect_tasks t =
    udp_read_loop (udp_read_size t)
    ∷ quic_process_loop (max t.buffer_config.max_udp_read_size t.buffer_config.max_udp_write_size)
        t.buffer_config.max_stream_read_size t.buffer_config.max_stream_send_size
        t.timeout_config.idle_interval
    ∷ link_read_loop t.buffer_config.max_stream_read_size
    ∷ link_write_loop
    ∷ udp_write_loop
    ∷ []

-- How a spawned task ends: with the result of its loop, or without one (a panic).
pub data Ending (E : Type 0) : Type 0 where
  returned : Result E (Unit {0}) → Ending E
  panicked : Ending E

-- `try_join!` over the handles, by the endings in the order of time: `none` while it waits, else
-- whether it is `Ok`. It looks at the error of a handle, and not at the result of the loop.
unfoldable pub try_join : {E : Type 0} → ℕ → List (Ending E) → Option Bool
try_join zero endings = some true
try_join (suc running) [] = none
try_join (suc running) (panicked ∷ endings) = some false
try_join (suc running) (returned r ∷ endings) = try_join running endings

pub data ConnectError : Type 0 where
  bind_failed connect_failed auth_failed task_failed : ConnectError
  handshake_failed : HandshakeError → ConnectError

module _ (q : Quic) (s : Socket) where
  -- What an attempt finds: the socket that is bound and connected, the connection of
  -- `quiche::connect`, the datagrams of the handshake, and how the loops end.
  pub record Surroundings (E : Type 0) : Type 0 where
    pub socket : Option s.State
    pub quic : Option q.State
    pub inputs : List Received
    pub endings : List (Ending E)

  -- The sender of the requests, the tasks that were spawned, and the result: `none` while it waits,
  -- in the handshake or for the tasks.
  pub record Connected : Type 0 where
    pub request_tx : Sender Packet
    pub tasks : List Task
    pub result : Option (Result ConnectError (Unit {0}))

  abbrev pub joined : Option Bool → Option (Result ConnectError (Unit {0}))
  joined none = none
  joined (some true) = some (ok tt)
  joined (some false) = some (err task_failed)

  abbrev pub stopped : Sender Packet → ConnectError → Connected
  stopped tx e = record { request_tx = tx; tasks = []; result = some (err e) }

  abbrev pub on_auth_sent :
      {E : Type 0}
      → Transport
      → List (Ending E)
      → Sender Packet
      → Option (Sender Packet)
      → Connected
  on_auth_sent t endings tx none = stopped tx auth_failed
  on_auth_sent t endings tx (some tx') = record {
    request_tx = tx';
    tasks = connect_tasks t;
    result = joined (try_join 5 endings);
  }

  abbrev pub on_handshake :
      {E : Type 0} {size : ℕ}
      → Transport
      → List (Ending E)
      → Packet
      → Sender Packet
      → HandshakeStep q s size
      → Connected
  on_handshake t endings auth_packet tx (h, some waiting) = record {
    request_tx = tx;
    tasks = [];
    result = none;
  }
  on_handshake t endings auth_packet tx (h, some e) = stopped tx (handshake_failed e)
  on_handshake t endings auth_packet tx (h, none) = on_auth_sent t endings tx (send tx auth_packet)

  abbrev pub on_quic :
      {E : Type 0}
      → Transport
      → Surroundings E
      → Packet
      → Sender Packet
      → s.State
      → Option q.State
      → Connected
  on_quic t e auth_packet tx socket none = stopped tx connect_failed
  on_quic t e auth_packet tx socket (some conn) = on_handshake t e.endings auth_packet tx (
      quic_handshake q s t.buffer_config.max_udp_read_size t.timeout_config.handshake_timeout
        e.inputs (record { conn = conn; out = record { socket = socket; wire = [] }; elapsed = 0 }))

  abbrev pub on_socket :
      {E : Type 0}
      → Transport
      → Surroundings E
      → Packet
      → Sender Packet
      → Option s.State
      → Connected
  on_socket t e auth_packet tx none = stopped tx bind_failed
  on_socket t e auth_packet tx (some socket) = on_quic t e auth_packet tx socket e.quic

  unfoldable pub connect :
      {E : Type 0} → Transport → Surroundings E → Packet → Sender Packet → Connected
  unfolding connect_tasks try_join
  connect t e auth_packet tx = on_socket t e auth_packet tx e.socket
