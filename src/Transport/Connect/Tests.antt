-- ===== src/Transport/Connect/Tests.antt =====
-- An attempt to connect that starts its loops, and the end of all of them.
use quote_link_rs.Base.{
  ℕ, ◌+◌, ◌<◌, ◌≡◌, refl, List, [], ◌∷◌, map, Bool, true, false, none, some, Result, ok, err,
  length, ltb, if◌then◌else◌, arith,
}
use quote_link_rs.Channel.{Sender, send}
use quote_link_rs.Config.{
  default_buffer_config, default_channel_config, default_quiche_config, default_timeout_config,
}
use quote_link_rs.Packet.{Packet}
use quote_link_rs.Packet.Samples.{ping}
use quote_link_rs.Protos.{Message, Heartbeat, SubscribeRequest}
use quote_link_rs.Client.Conn.{ConnConf, ConnState, response_closed, finished, conn_loop}
use quote_link_rs.Client.Link.{conn_ended, LinkState, connected, done, link_loop}
use quote_link_rs.Transport.Udp.{Socket}
use quote_link_rs.Transport.Handshake.{Quic, datagram, received, quic_handshake}
use quote_link_rs.Transport.Connect.{
  Transport, returned, connect_tasks, Surroundings, connect, accept_tasks, udp_read_loop,
}
use quote_link_rs.Transport.Connect.Joined.{Started, connect-Started}
use quote_link_rs.Transport.Connect.Ends.{conn_result, connect-link_loop}

abbrev open_socket : Socket
open_socket = record {
  State = ℕ;
  send = λ n b. (n + 1, some (length b));
  send_to = λ n b to. (n + 1, some (length b));
}

-- Established by the first datagram.
abbrev first_round : Quic
first_round = record {
  State = Bool;
  is_established = λ b. b;
  send = λ b. (b, datagram (7 ∷ []));
  sends = λ b. (b, []);
  recv = λ b d. (true, some (length d));
  dcid_of = λ d. some d;
  accept = λ scid. some false;
  max_conn_id_len = 20;
  sign = λ cid. cid;
}

abbrev default_transport : Transport
unfolding default_buffer_config default_channel_config default_quiche_config default_timeout_config
default_transport = record {
  buffer_config = default_buffer_config;
  channel_config = default_channel_config;
  quiche_config = default_quiche_config;
  timeout_config = default_timeout_config;
}

-- Every loop fails.
abbrev failures : List (Result ℕ (Unit {0}))
failures = err 1 ∷ err 2 ∷ err 3 ∷ err 4 ∷ err 5 ∷ []

abbrev surroundings : Surroundings first_round open_socket ℕ
surroundings = record {
  socket = some 0;
  quic = some false;
  inputs = received 20 (1 ∷ []) ∷ [];
  endings = map returned failures;
}

abbrev requests : Sender Packet
requests = record { room = 4; sent = [] }

-- The loops of both ends are given the same sizes.
same_tasks :
    connect_tasks default_transport
    ≡ udp_read_loop 65535
      ∷ accept_tasks default_transport.buffer_config default_transport.timeout_config
unfolding connect_tasks accept_tasks default_transport
same_tasks = refl

request_sent :
    (connect first_round open_socket default_transport surroundings ping requests).request_tx.sent
    ≡ ping ∷ []
unfolding connect quic_handshake send default_transport
request_sent = refl

connect-Started_example :
    Started first_round open_socket default_transport surroundings ping requests
      (connect first_round open_socket default_transport surroundings ping requests)
connect-Started_example =
    connect-Started first_round open_socket default_transport ping requests surroundings

all_started :
    0 < length (connect first_round open_socket default_transport surroundings ping requests).tasks
unfolding connect quic_handshake send default_transport
all_started = omega arith

abbrev heartbeats : Message Heartbeat
heartbeats = record { encode_to_vec = λ h. []; decode = λ bs. none }

abbrev subs : Message SubscribeRequest
subs = record { encode_to_vec = λ h. []; decode = λ bs. none }

abbrev conf : ConnConf
conf = record { auth_timeout = 10; heartbeat_timeout = 3; subscribes = [] }

abbrev conn : ConnState
conn = record {
  is_authed = true;
  conn_created_at = 0;
  last_pong_at = 1;
  request_id_gen = 2;
  inner_request_tx = record { room = 0; sent = [] };
  packet_process_tx = record { room = 4; sent = [] };
  pending = record { requests = []; calls = [] };
}

abbrev link : LinkState
link = record { retry_times = 0; request_id_gen = 2; auth_ids = []; notices = [] }

connect-link_loop_example :
    ((connect first_round open_socket default_transport surroundings ping requests).result
      ≡ (if ltb (length failures) 5 then none else some (ok tt)))
    × (conn_loop heartbeats subs conf (conn_result (ok tt) ∷ response_closed ∷ []) conn
        ≡ (conn, some finished))
    × (link_loop 0 (conn_ended 0 finished 3 ∷ []) link ≡ (connected 0 3 link, some done))
connect-link_loop_example =
    connect-link_loop first_round open_socket default_transport surroundings ping requests failures
      heartbeats subs conf (response_closed ∷ []) conn 0 0 3 [] link refl all_started
