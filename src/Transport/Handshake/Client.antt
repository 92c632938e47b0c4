-- ===== src/Transport/Handshake/Client.antt =====
-- What `quic_handshake` of link/src/transport/client.rs ends with, and when.
use quote_link_rs.Base.{
  ℕ, ◌+◌, ◌<◌, ◌≤◌, ◌≡◌, refl, ap, List, [], ◌∷◌, ◌++◌, Bool-cases, true, inl, inr, Option, none,
  some, All, take, lt→ltb, le→ltb, arith,
}
use native.Mathlib.Decide.{dec_lt}
use quote_link_rs.Transport.Udp.{Socket}
use quote_link_rs.Transport.Handshake.{
  Quic, Produced, datagram, done, failed, timed_out, waiting, Received, received, recv_failed,
  silence, Handshake, HandshakeStep, on_socket_sent, on_produced, send_one, on_conn_recv, waited,
  on_socket_recv, after_send, quic_handshake,
}

-- How long `recv` took, if it returned.
abbrev pub time_of : Received → ℕ
time_of (received time d) = time
time_of (recv_failed time) = time
time_of silence = 0

abbrev pub total_time : List Received → ℕ
total_time [] = 0
total_time (input ∷ inputs) = time_of input + total_time inputs

abbrev pub InTime : ℕ → Received → Type 0
InTime limit (received time d) = time ≤ limit
InTime limit (recv_failed time) = time ≤ limit
InTime limit silence = ⊥

abbrev pub IsLate : ℕ → Received → Type 0
IsLate limit (received time d) = limit < time
IsLate limit (recv_failed time) = limit < time
IsLate limit silence = Unit

module _ (q : Quic) (s : Socket) (buffer_size : ℕ) where
  -- The first of the inputs came, each in time, and the time was spent on them.
  abbrev pub Spent :
      ℕ → List Received → Handshake q s buffer_size → Handshake q s buffer_size → Type 0
  Spent limit inputs h h' =
      (before after : List Received) × (inputs ≡ before ++ after)
      × All (InTime limit) before
      × (h'.elapsed ≡ h.elapsed + total_time before)

  -- It ran out of time on one input, after all before it had come in time; or it still waits, and
  -- all have come in time; or it is done, with an established connection; or it failed.
  abbrev pub Ended :
      ℕ → List Received → Handshake q s buffer_size → HandshakeStep q s buffer_size → Type 0
  Ended limit inputs h (h', some timed_out) =
      (before after : List Received) × (late : Received) × (inputs ≡ before ++ (late ∷ after))
      × All (InTime limit) before
      × IsLate limit late
      × (h'.elapsed ≡ h.elapsed + total_time before + limit)
  Ended limit inputs h (h', some waiting) =
      All (InTime limit) inputs × (h'.elapsed ≡ h.elapsed + total_time inputs)
  Ended limit inputs h (h', none) = Spent limit inputs h h' × (q.is_established h'.conn ≡ true)
  Ended limit inputs h (h', some e) = Spent limit inputs h h'

  -- A sending round takes no time, and does not end by the time limit.
  abbrev IsSending : Handshake q s buffer_size → HandshakeStep q s buffer_size → Type 0
  IsSending h (h', some timed_out) = ⊥
  IsSending h (h', some waiting) = ⊥
  IsSending h (h', o) = h'.elapsed ≡ h.elapsed

  on_produced-IsSending :
      (h : Handshake q s buffer_size) (p : q.State × Produced)
      → IsSending h (on_produced q s buffer_size h p)
  unfolding on_produced
  on_produced-IsSending h (conn, datagram d) = by_answer (s.send h.out.socket d)
    where
      by_answer :
          (answer : s.State × Option ℕ)
          → IsSending h (on_socket_sent q s buffer_size (record h { conn = conn }) d answer)
      by_answer (state, none) = refl
      by_answer (state, some n) = refl
  on_produced-IsSending h (conn, done) = refl
  on_produced-IsSending h (conn, failed) = refl

  send_one-IsSending : (h : Handshake q s buffer_size) → IsSending h (send_one q s buffer_size h)
  unfolding send_one
  send_one-IsSending h = on_produced-IsSending h (q.send h.conn)

  after_send-Ended :
      (limit : ℕ) (inputs : List Received) (h : Handshake q s buffer_size)
      (again : Handshake q s buffer_size → HandshakeStep q s buffer_size)
      (r : HandshakeStep q s buffer_size)
      → IsSending h r
      → ((h' : Handshake q s buffer_size)
          → h'.elapsed ≡ h.elapsed
          → Ended limit inputs h (again h'))
      → Ended limit inputs h (after_send q s buffer_size again r)
  after_send-Ended limit inputs h again (h', none) sending k = k h' sending
  after_send-Ended limit inputs h again (h', some timed_out) sending k = absurd sending
  after_send-Ended limit inputs h again (h', some waiting) sending k = absurd sending
  after_send-Ended limit inputs h again (h', some e) sending k =
      ([], inputs, refl, tt, omega (arith, sending))

  -- One more input that came in time.
  later-Spent :
      (limit : ℕ) (input : Received) (inputs : List Received) (h h' p : Handshake q s buffer_size)
      → InTime limit input
      → h'.elapsed ≡ h.elapsed + time_of input
      → Spent limit inputs h' p
      → Spent limit (input ∷ inputs) h p
  later-Spent limit input inputs h h' p in_time spent (before, after, cut, all, sum) =
      (input ∷ before, after, ap (λ xs. input ∷ xs) cut, (in_time, all), omega (arith, spent, sum))

  later-Ended :
      (limit : ℕ) (input : Received) (inputs : List Received) (h h' : Handshake q s buffer_size)
      (r : HandshakeStep q s buffer_size)
      → InTime limit input
      → h'.elapsed ≡ h.elapsed + time_of input
      → Ended limit inputs h' r
      → Ended limit (input ∷ inputs) h r
  later-Ended limit input inputs h h' (p, some timed_out) in_time spent
        (before, after, late, cut, all, is_late, sum) =
      (
        input ∷ before,
        after,
        late,
        ap (λ xs. input ∷ xs) cut,
        (in_time, all),
        is_late,
        omega (arith, spent, sum),
      )
  later-Ended limit input inputs h h' (p, some waiting) in_time spent (all, sum) =
      ((in_time, all), omega (arith, spent, sum))
  later-Ended limit input inputs h h' (p, none) in_time spent (k, ready) =
      (later-Spent limit input inputs h h' p in_time spent k, ready)
  later-Ended limit input inputs h h' (p, some e) in_time spent k =
      later-Spent limit input inputs h h' p in_time spent k

  module _ (limit : ℕ) (inputs : List Received)
      (again : Handshake q s buffer_size → HandshakeStep q s buffer_size)
      (all_Ended : (p : Handshake q s buffer_size) → Ended limit inputs p (again p)) where
    on_conn_recv-Ended :
        (time : ℕ) (d : List ℕ) (h h' : Handshake q s buffer_size) (answer : q.State × Option ℕ)
        → time ≤ limit
        → h'.elapsed ≡ h.elapsed + time
        → Ended limit (received time d ∷ inputs) h (on_conn_recv q s buffer_size again h' answer)
    on_conn_recv-Ended time d h h' (conn, none) in_time spent =
        (received time d ∷ [], inputs, refl, (in_time, tt), omega (arith, spent))
    on_conn_recv-Ended time d h h' (conn, some n) in_time spent =
        let p : Handshake q s buffer_size = record h' { conn = conn } in
        later-Ended limit (received time d) inputs h p (again p) in_time spent (all_Ended p)

    on_socket_recv-Ended :
        (input : Received) (h h' : Handshake q s buffer_size)
        → h'.elapsed ≡ h.elapsed
        → Ended limit (input ∷ inputs) h (on_socket_recv q s buffer_size limit again input h')
    on_socket_recv-Ended silence h h' same =
        ([], inputs, silence, refl, tt, tt, omega (arith, same))
    on_socket_recv-Ended (recv_failed time) h h' same = elim (dec_lt limit time) [
      | yes late ↦
          rw (lt→ltb limit time late)
            ([], inputs, recv_failed time, refl, tt, late, omega (arith, same))
      | no in_time ↦
          rw (le→ltb limit time (omega arith))
            (recv_failed time ∷ [], inputs, refl, (omega arith, tt), omega (arith, same))
    ]
    on_socket_recv-Ended (received time d) h h' same = elim (dec_lt limit time) [
      | yes late ↦
          rw (lt→ltb limit time late)
            ([], inputs, received time d, refl, tt, late, omega (arith, same))
      | no in_time ↦ rw (le→ltb limit time (omega arith)) (
          on_conn_recv-Ended time d h (waited q s buffer_size time h')
            (q.recv h'.conn (take buffer_size d)) (omega arith) (omega (arith, same)))
    ]

  -- `quic_handshake` succeeds only with an established connection. It runs out of time only on a
  -- single datagram that does not come within `handshake_timeout`: then all before it came in time,
  -- and the handshake has taken their times and the limit once. It still waits only after all came in
  -- time, and has then taken their times in all, which no limit bounds.
  pub quic_handshake-Ended :
      (limit : ℕ) (inputs : List Received) (h : Handshake q s buffer_size)
      → Ended limit inputs h (quic_handshake q s buffer_size limit inputs h)
  unfolding quic_handshake
  quic_handshake-Ended limit [] h = elim (Bool-cases (q.is_established h.conn)) [
    | inl ready ↦ rw ready (([], [], refl, tt, omega arith), ready)
    | inr not_yet ↦ rw not_yet (
        after_send-Ended limit [] h (λ h'. (h', some waiting)) (send_one q s buffer_size h)
          (send_one-IsSending h) (λ h' same. (tt, omega (arith, same))))
  ]
  quic_handshake-Ended limit (input ∷ inputs) h = elim (Bool-cases (q.is_established h.conn)) [
    | inl ready ↦ rw ready (([], input ∷ inputs, refl, tt, omega arith), ready)
    | inr not_yet ↦ rw not_yet (
        after_send-Ended limit (input ∷ inputs) h
          (on_socket_recv q s buffer_size limit (quic_handshake q s buffer_size limit inputs) input)
          (send_one q s buffer_size h) (send_one-IsSending h)
          (λ h' same.
            on_socket_recv-Ended limit inputs (quic_handshake q s buffer_size limit inputs)
              (quic_handshake-Ended limit inputs) input h h' same))
  ]
