-- ===== src/Transport/Handshake.antt =====
-- The QUIC handshake: `quic_handshake` of link/src/transport/client.rs, the task that
-- `accept_new_conn` of link/src/transport/server.rs spawns, up to the loops that it starts, and
-- `sign_cid` of link/src/utils.rs. The connection is quiche's, the signature ring's: their calls are
-- parameters. `wire` and `accepted` are kept to speak of what was sent, and of the ids that `accept`
-- was called with; the program has no such variables.
pub mod Client
pub mod Server
mod Tests
use quote_link_rs.Base.{
  ℕ, zero, suc, ◌+◌, List, [], ◌∷◌, ◌++◌, Bool, true, false, Option, none, some, Result, ok, err,
  length, take, drop, ltb, if◌then◌else◌,
}
use quote_link_rs.Transport.Token.{SocketAddr}
use quote_link_rs.Transport.Udp.{
  Socket, Outgoing, OutgoingStep, UdpError, send_datagram, send_to_peer,
}

-- What `send` of a connection answers.
pub data Produced : Type 0 where
  datagram : List ℕ → Produced
  done failed : Produced

-- The calls of quiche and of ring. `sends` is what `send` gives when it is called until `Done`:
-- datagrams with the address that they go to, where `none` is an error. `recv` says how many bytes it
-- has read, `dcid_of` parses the header of a datagram, `accept` makes a connection with an id.
pub record Quic : Type 1 where
  pub State : Type 0
  pub is_established : State → Bool
  pub send : State → State × Produced
  pub sends : State → State × List (Option (List ℕ × SocketAddr))
  pub recv : State → List ℕ → State × Option ℕ
  pub dcid_of : List ℕ → Option (List ℕ)
  pub accept : List ℕ → Option State
  pub max_conn_id_len : ℕ
  pub sign : List ℕ → List ℕ

pub data HandshakeError : Type 0 where
  header_failed accept_failed conn_send_failed conn_recv_failed : HandshakeError
  socket_send_failed socket_recv_failed timed_out channel_closed out_of_fuel : HandshakeError
  -- Nothing came in any more: the loop still waits.
  waiting : HandshakeError

-- What `recv` of the client's socket gives, and after how long: a datagram, an error, or nothing.
pub data Received : Type 0 where
  received : ℕ → List ℕ → Received
  recv_failed : ℕ → Received
  silence : Received

module _ (q : Quic) where
  unfoldable pub sign_cid : List ℕ → List ℕ
  sign_cid cid = take q.max_conn_id_len (q.sign cid)

  module _ (s : Socket) (buffer_size : ℕ) where
    pub record Handshake : Type 0 where
      pub conn : q.State
      pub out : Outgoing s.State
      -- How long the calls of `recv` of the socket took, in all.
      pub elapsed : ℕ

    abbrev pub HandshakeStep : Type 0
    HandshakeStep = Handshake × Option HandshakeError

    -- The count that the socket answers is not looked at.
    abbrev on_socket_sent : Handshake → List ℕ → s.State × Option ℕ → HandshakeStep
    on_socket_sent h d (state, none) =
        (record h { out = record h.out { socket = state } }, some socket_send_failed)
    on_socket_sent h d (state, some n) =
        (record h { out = record { socket = state; wire = h.out.wire ++ (d ∷ []) } }, none)

    on_produced : Handshake → q.State × Produced → HandshakeStep
    on_produced h (conn, datagram d) =
        on_socket_sent (record h { conn = conn }) d (s.send h.out.socket d)
    on_produced h (conn, done) = (record h { conn = conn }, none)
    on_produced h (conn, failed) = (record h { conn = conn }, some conn_send_failed)

    -- At most one datagram in a round.
    unfoldable pub send_one : Handshake → HandshakeStep
    unfolding on_produced
    send_one h = on_produced h (q.send h.conn)

    abbrev pub on_conn_recv :
        (Handshake → HandshakeStep) → Handshake → q.State × Option ℕ → HandshakeStep
    on_conn_recv again h (conn, none) = (record h { conn = conn }, some conn_recv_failed)
    on_conn_recv again h (conn, some read) = again (record h { conn = conn })

    abbrev pub waited : ℕ → Handshake → Handshake
    waited time h = record h { elapsed = h.elapsed + time }

    -- `timeout(handshake_timeout, socket.recv(..))` and what follows: the time runs anew in each
    -- round.
    abbrev pub on_socket_recv :
        ℕ → (Handshake → HandshakeStep) → Received → Handshake → HandshakeStep
    on_socket_recv handshake_timeout again silence h = (waited handshake_timeout h, some timed_out)
    on_socket_recv handshake_timeout again (recv_failed time) h =
        if ltb handshake_timeout time
        then (waited handshake_timeout h, some timed_out)
        else (waited time h, some socket_recv_failed)
    on_socket_recv handshake_timeout again (received time d) h =
        if ltb handshake_timeout time
        then (waited handshake_timeout h, some timed_out)
        else on_conn_recv again (waited time h) (q.recv h.conn (take buffer_size d))

    abbrev pub after_send : (Handshake → HandshakeStep) → HandshakeStep → HandshakeStep
    after_send again (h, none) = again h
    after_send again (h, some e) = (h, some e)

    -- `none` is `Ok(conn)`.
    unfoldable pub quic_handshake : ℕ → List Received → Handshake → HandshakeStep
    unfolding send_one
    quic_handshake handshake_timeout [] h =
        let rest = after_send (λ h'. (h', some waiting)) (send_one h) in
        if q.is_established h.conn then (h, none) else rest
    quic_handshake handshake_timeout (input ∷ inputs) h =
        let rest =
          after_send
            (on_socket_recv handshake_timeout (quic_handshake handshake_timeout inputs) input)
            (send_one h) in
        if q.is_established h.conn then (h, none) else rest

  module _ (s : Socket) where
    pub record Accepting : Type 0 where
      pub conn : Option q.State
      pub accepted : List (List ℕ)
      pub out : Outgoing s.State

    abbrev pub AcceptStep : Type 0
    AcceptStep = Accepting × Option HandshakeError

    abbrev pub on_read :
        (ℕ → q.State → q.State × Option HandshakeError)
        → ℕ
        → q.State × Option ℕ
        → q.State × Option HandshakeError
    on_read again read (c, none) = (c, some conn_recv_failed)
    on_read again read (c, some r) = again (read + r) c

    -- `while read < data.len()`.
    unfoldable pub recv_all : ℕ → List ℕ → ℕ → q.State → q.State × Option HandshakeError
    recv_all zero b read c = (c, some out_of_fuel)
    recv_all (suc fuel) b read c =
        let rest = on_read (recv_all fuel b) read (q.recv c (drop read b)) in
        if ltb read (length b) then rest else (c, none)

    abbrev pub SendStep : Type 0
    SendStep = Outgoing s.State × Option HandshakeError

    abbrev pub on_datagram_sent : (Outgoing s.State → SendStep) → OutgoingStep s.State → SendStep
    on_datagram_sent again (o, none) = again o
    on_datagram_sent again (o, some UdpError.out_of_fuel) = (o, some out_of_fuel)
    on_datagram_sent again (o, some e) = (o, some socket_send_failed)

    -- What the connection has to send, until `Done`.
    unfoldable pub send_pending : List (Option (List ℕ × SocketAddr)) → Outgoing s.State → SendStep
    send_pending [] o = (o, none)
    send_pending (none ∷ ds) o = (o, some conn_send_failed)
    send_pending (some (d, to) ∷ ds) o =
        on_datagram_sent (send_pending ds) (send_datagram (send_to_peer s to) d o)

    abbrev pub on_recv_all : Accepting → q.State × Option HandshakeError → AcceptStep
    on_recv_all a (c, some e) = (record a { conn = some c }, some e)
    on_recv_all a (c, none) =
        let (c', ds) = q.sends c in
        let (o, e) = send_pending ds a.out in (record a { conn = some c'; out = o }, e)

    abbrev pub exchange : List ℕ → Accepting → q.State → AcceptStep
    exchange b a c = on_recv_all a (recv_all (suc (length b)) b 0 c)

    abbrev pub on_accept : List ℕ → Accepting → Option q.State → AcceptStep
    on_accept b a none = (a, some accept_failed)
    on_accept b a (some c) = exchange b a c

    -- `conn.is_none()`: only the first datagram makes a connection.
    abbrev pub on_conn : List ℕ → List ℕ → Accepting → Option q.State → AcceptStep
    on_conn dcid b a none =
        let scid = sign_cid dcid in
        on_accept b (record a { accepted = a.accepted ++ (scid ∷ []) }) (q.accept scid)
    on_conn dcid b a (some c) = exchange b a c

    abbrev pub on_header : List ℕ → Accepting → Option (List ℕ) → AcceptStep
    on_header b a none = (a, some header_failed)
    on_header b a (some dcid) = on_conn dcid b a a.conn

    unfoldable pub accept_datagram : List ℕ → Accepting → AcceptStep
    unfolding recv_all send_pending
    accept_datagram b a = on_header b a (q.dcid_of b)

    abbrev pub is_ready : Option q.State → Bool
    is_ready none = false
    is_ready (some c) = q.is_established c

    -- The datagrams that are left in the queue go to `quic_process_loop`.
    abbrev pub AcceptResult : Type 0
    AcceptResult = Accepting × Result HandshakeError (List (List ℕ))

    abbrev pub on_accepted : (Accepting → AcceptResult) → AcceptStep → AcceptResult
    on_accepted again (a, none) = again a
    on_accepted again (a, some e) = (a, err e)

    -- What `udp_data_recv_rx` gives until it is closed.
    unfoldable pub accept_loop : List (List ℕ) → Accepting → AcceptResult
    unfolding accept_datagram
    accept_loop [] a = if is_ready a.conn then (a, ok []) else (a, err channel_closed)
    accept_loop (b ∷ bs) a =
        let rest = on_accepted (accept_loop bs) (accept_datagram b a) in
        if is_ready a.conn then (a, ok (b ∷ bs)) else rest

    -- As the task starts.
    abbrev pub start_accept : Outgoing s.State → Accepting
    start_accept o = record { conn = none; accepted = []; out = o }
