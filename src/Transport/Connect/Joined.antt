-- ===== src/Transport/Connect/Joined.antt =====
-- What `connect` of link/src/transport/transport.rs starts, and what it makes of the results of its
-- loops.
use quote_link_rs.Base.{
  ℕ, ◌≡◌, ◌⊎◌, inl, inr, refl, sym, ap, subst, List, [], ◌∷◌, ◌++◌, true, Option, none, some,
  Option-cases, Bool-cases, err, ◌==◌, arith,
}
use quote_link_rs.Channel.{Sender, send_open, send_closed}
use quote_link_rs.Packet.{Packet}
use quote_link_rs.Transport.Udp.{Socket}
use quote_link_rs.Transport.Handshake.{
  Quic, HandshakeError, waiting, Received, Handshake, HandshakeStep, quic_handshake,
}
use quote_link_rs.Transport.Handshake.Client.{Ended, quic_handshake-Ended}
use quote_link_rs.Transport.Connect.{
  Transport, connect_tasks, try_join, ConnectError, bind_failed, connect_failed, auth_failed,
  task_failed, handshake_failed, Surroundings, Connected, joined, on_handshake, on_quic, on_socket,
  connect,
}

module _ (q : Quic) (s : Socket) where
  abbrev pub HandshakeOf : Transport → Type 0
  HandshakeOf t = Handshake q s t.buffer_config.max_udp_read_size

  abbrev begin_handshake : (t : Transport) → s.State → q.State → HandshakeOf t
  begin_handshake t socket conn = record {
    conn = conn;
    out = record { socket = socket; wire = [] };
    elapsed = 0;
  }

  abbrev HandshakeStepOf : Transport → Type 0
  HandshakeStepOf t = HandshakeStep q s t.buffer_config.max_udp_read_size

  abbrev handshake : (t : Transport) → List Received → s.State → q.State → HandshakeStepOf t
  handshake t inputs socket conn =
      quic_handshake q s t.buffer_config.max_udp_read_size t.timeout_config.handshake_timeout inputs
        (begin_handshake t socket conn)

  -- The handshake on the socket and the connection that were made has come to `o`.
  abbrev pub Came :
      {E : Type 0}
      → (t : Transport) → Surroundings q s E
      → HandshakeOf t
      → Option HandshakeError
      → Type 0
  Came t e h o =
      (socket : s.State) × (conn : q.State) × (e.socket ≡ some socket)
      × (e.quic ≡ some conn)
      × (handshake t e.inputs socket conn ≡ (h, o))

  -- Why there is an error before the loops were started: the step that failed.
  abbrev pub Reason :
      {E : Type 0} → Transport → Surroundings q s E → Sender Packet → ConnectError → Type 0
  Reason t e tx bind_failed = e.socket ≡ none
  Reason t e tx connect_failed = e.quic ≡ none
  Reason t e tx auth_failed = tx.room ≡ 0
  Reason t e tx task_failed = ⊥
  Reason t e tx (handshake_failed waiting) = ⊥
  Reason t e tx (handshake_failed x) = (h : HandshakeOf t) × Came t e h (some x)

  -- Nothing was started, and there is the error of the step that failed, or the handshake still waits
  -- for the peer; or the handshake ended with an established connection, the authentication was put
  -- into the queue, all loops were started, and the result is that of `try_join!`.
  abbrev pub Started :
      {E : Type 0}
      → Transport
      → Surroundings q s E
      → Packet
      → Sender Packet
      → Connected q s
      → Type 0
  Started t e auth_packet tx c =
      ((c.tasks ≡ [])
        × (c.request_tx ≡ tx)
        × (((x : ConnectError) × (c.result ≡ some (err x)) × Reason t e tx x)
            ⊎ ((c.result ≡ none) × ((h : HandshakeOf t) × Came t e h (some waiting)))))
      ⊎ ((c.tasks ≡ connect_tasks t)
          × (c.request_tx.sent ≡ tx.sent ++ (auth_packet ∷ []))
          × (c.result ≡ joined q s (try_join 5 e.endings))
          × ((h : HandshakeOf t) × Came t e h none × (q.is_established h.conn ≡ true)))

  Ended-established :
      {size : ℕ} (limit : ℕ) (inputs : List Received) (h : Handshake q s size)
      (r : HandshakeStep q s size)
      → Ended q s size limit inputs h r
      → r.1 ≡ none
      → q.is_established r.0.conn ≡ true
  Ended-established limit inputs h (h', none) o e = o.1
  Ended-established limit inputs h (h', some x) o e = cc

  module _ {E : Type 0} (t : Transport) (auth_packet : Packet) (tx : Sender Packet) where
    on_handshake-Started :
        (e : Surroundings q s E) (r : HandshakeStepOf t)
        → ((h : HandshakeOf t) (o : Option HandshakeError) → r ≡ (h, o) → Came t e h o)
        → (r.1 ≡ none → q.is_established r.0.conn ≡ true)
        → Started t e auth_packet tx (on_handshake q s t e.endings auth_packet tx r)
    on_handshake-Started e (h, some waiting) k ready =
        inl (refl, refl, inr (refl, (h, k h (some waiting) refl)))
    on_handshake-Started e (h, some x) k ready =
        inl (refl, refl, inl (handshake_failed x, refl, (h, k h (some x) refl)))
    on_handshake-Started e (h, none) k ready = elim (Bool-cases (tx.room == 0)) [
      | inl gone ↦
          let shut : tx.room ≡ 0 = ground (arith, gone) in
          rw (send_closed tx auth_packet shut) (inl (refl, refl, inl (auth_failed, refl, shut)))
      | inr there ↦
          rw (send_open tx auth_packet (ground (arith, there)))
            (inr (refl, refl, refl, (h, k h none refl, ready refl)))
    ]

    on_quic-Started :
        (e : Surroundings q s E) (socket : s.State)
        → e.socket ≡ some socket
        → Started t e auth_packet tx (on_quic q s t e auth_packet tx socket e.quic)
    on_quic-Started e socket n = elim (Option-cases e.quic) [
      | inl m ↦
          subst (Started t e auth_packet tx) (sym (ap (on_quic q s t e auth_packet tx socket) m))
            (inl (refl, refl, inl (connect_failed, refl, m)))
      | inr (conn, m) ↦
          subst (Started t e auth_packet tx) (sym (ap (on_quic q s t e auth_packet tx socket) m)) (
            on_handshake-Started e (handshake t e.inputs socket conn)
              (λ h o k. (socket, conn, n, m, k))
              (Ended-established t.timeout_config.handshake_timeout e.inputs
                (begin_handshake t socket conn) (handshake t e.inputs socket conn)
                (quic_handshake-Ended q s t.buffer_config.max_udp_read_size
                  t.timeout_config.handshake_timeout e.inputs (begin_handshake t socket conn))))
    ]

    -- `connect` puts the authentication into the queue of the requests, and starts its loops, only
    -- after a handshake that ended with an established connection; the authentication is then the
    -- one packet that it puts there. In every other case nothing is put there and no loop is
    -- started, and the result is the error of the step that failed, or there is none yet and the
    -- handshake still waits for a datagram of the peer.
    pub connect-Started :
        (e : Surroundings q s E) → Started t e auth_packet tx (connect q s t e auth_packet tx)
    unfolding connect
    connect-Started e = elim (Option-cases e.socket) [
      | inl n ↦
          subst (Started t e auth_packet tx) (sym (ap (on_socket q s t e auth_packet tx) n))
            (inl (refl, refl, inl (bind_failed, refl, n)))
      | inr (socket, n) ↦
          subst (Started t e auth_packet tx) (sym (ap (on_socket q s t e auth_packet tx) n))
            (on_quic-Started e socket n)
    ]
