-- ===== src/Transport/Handshake/Server.antt =====
-- What the accepting task of link/src/transport/server.rs ends with.
use quote_link_rs.Base.{
  ℕ, zero, suc, ◌+◌, ◌-◌, ◌≤◌, ◌<◌, ◌≡◌, ◌≢◌, ◌∙◌, refl, ap, List, [], ◌∷◌, ◌++◌, Bool-cases, true,
  inl, inr, Option, none, some, Option-cases, ok, err, length, length-drop, drop, lt→ltb, le→ltb,
  arith,
}
use native.Mathlib.Decide.{dec_lt}
use quote_link_rs.Transport.Token.{SocketAddr}
use quote_link_rs.Transport.Udp.{
  Socket, Outgoing, OutgoingStep, UdpError, send_to_peer, send_datagram,
}
use quote_link_rs.Transport.Udp.Order.{IsDatagram, send_datagram-fuel}
use quote_link_rs.Transport.Handshake.{
  Quic, HandshakeError, out_of_fuel, sign_cid, Accepting, AcceptStep, AcceptResult, recv_all,
  on_recv_all, exchange, SendStep, on_datagram_sent, accept_datagram, is_ready, on_accepted,
  accept_loop, start_accept, send_pending,
}

-- The documented behaviour of the calls: `recv` on bytes, of which there are some, reads at least
-- one; and the socket sends a datagram whole or not at all.
pub record IsReliable (q : Quic) (s : Socket) : Type 0 where
  pub reads :
      (c c' : q.State) (bs : List ℕ) (n : ℕ) → 0 < length bs → q.recv c bs ≡ (c', some n) → 0 < n
  pub sends_whole : (to : SocketAddr) → IsDatagram (send_to_peer s to)

-- The fuel was enough.
abbrev pub IsFueled : Option HandshakeError → Type 0
IsFueled (some out_of_fuel) = ⊥
IsFueled e = Unit {0}

module _ {q : Quic} {s : Socket} (law : IsReliable q s) where
  recv_all-IsFueled :
      (fuel : ℕ) (b : List ℕ) (read : ℕ) (c : q.State)
      → length b - read < fuel
      → IsFueled (recv_all q s fuel b read c).1
  unfolding recv_all
  recv_all-IsFueled zero b read c h = absurd (omega arith)
  recv_all-IsFueled (suc fuel) b read c h = elim (dec_lt read (length b)) [
    | no all_read ↦ rw (le→ltb read (length b) (omega arith)) tt
    | yes more ↦
        let c' : q.State = (q.recv c (drop read b)).0 in
        elim (Option-cases (q.recv c (drop read b)).1) [
          | inl e ↦
              let k : q.recv c (drop read b) ≡ (c', none) = ap (λ x. (c', x)) e in
              rw (lt→ltb read (length b) more, k) tt
          | inr (n, e) ↦
              let k : q.recv c (drop read b) ≡ (c', some n) = ap (λ x. (c', x)) e in
              let some_read : 0 < n =
                law.reads c c' (drop read b) n (omega (arith, length-drop read b)) k in
              rw (lt→ltb read (length b) more, k)
                (recv_all-IsFueled fuel b (read + n) c' (omega arith))
        ]
  ]

  on_datagram_sent-IsFueled :
      (again : Outgoing s.State → SendStep q s) (r : OutgoingStep s.State)
      → r.1 ≢ some UdpError.out_of_fuel
      → ((o : Outgoing s.State) → IsFueled (again o).1)
      → IsFueled (on_datagram_sent q s again r).1
  on_datagram_sent-IsFueled again (o, none) h k = k o
  on_datagram_sent-IsFueled again (o, some UdpError.out_of_fuel) h k = h refl
  on_datagram_sent-IsFueled again (o, some UdpError.socket_failed) h k = tt
  on_datagram_sent-IsFueled again (o, some UdpError.channel_closed) h k = tt
  on_datagram_sent-IsFueled again (o, some UdpError.waiting) h k = tt

  send_pending-IsFueled :
      (ds : List (Option (List ℕ × SocketAddr))) (o : Outgoing s.State)
      → IsFueled (send_pending q s ds o).1
  unfolding send_pending
  send_pending-IsFueled [] o = tt
  send_pending-IsFueled (none ∷ ds) o = tt
  send_pending-IsFueled (some (d, to) ∷ ds) o =
      on_datagram_sent-IsFueled (send_pending q s ds) (send_datagram (send_to_peer s to) d o)
        (send_datagram-fuel (law.sends_whole to) d o) (send_pending-IsFueled ds)

  -- The one connection was made with the id `scid`.
  abbrev Made : List ℕ → AcceptStep q s → Type 0
  Made scid (a, e) = IsFueled e × (a.accepted ≡ scid ∷ []) × ((c : q.State) × (a.conn ≡ some c))

  on_recv_all-Made :
      (scid : List ℕ) (a : Accepting q s) (r : q.State × Option HandshakeError)
      → IsFueled r.1
      → a.accepted ≡ scid ∷ []
      → Made scid (on_recv_all q s a r)
  on_recv_all-Made scid a (c, some e) f h = (f, h, (c, refl))
  on_recv_all-Made scid a (c, none) f h =
      (send_pending-IsFueled (q.sends c).1 a.out, h, ((q.sends c).0, refl))

  exchange-Made :
      (b scid : List ℕ) (a : Accepting q s) (c : q.State)
      → a.accepted ≡ scid ∷ []
      → Made scid (exchange q s b a c)
  exchange-Made b scid a c h =
      on_recv_all-Made scid a (recv_all q s (suc (length b)) b 0 c)
        (recv_all-IsFueled (suc (length b)) b 0 c (omega arith)) h

  -- Once there is a connection, no other is made.
  accept_datagram-Made :
      (b scid : List ℕ) (a : Accepting q s) (c : q.State)
      → a.conn ≡ some c
      → a.accepted ≡ scid ∷ []
      → Made scid (accept_datagram q s b a)
  unfolding accept_datagram
  accept_datagram-Made b scid a c h k = elim (Option-cases (q.dcid_of b)) [
    | inl e ↦ rw e (tt, k, (c, h))
    | inr (dcid, e) ↦ rw (e, h) (exchange-Made b scid a c k)
  ]

  -- The first datagram makes it, or the task ends.
  First : List ℕ → AcceptStep q s → Type 0
  First b (a, none) = (dcid : List ℕ) × (q.dcid_of b ≡ some dcid) × Made (sign_cid q dcid) (a, none)
  First b (a, some e) = IsFueled (some e) × (length a.accepted ≤ 1)

  Made-First :
      (b dcid : List ℕ) (r : AcceptStep q s)
      → q.dcid_of b ≡ some dcid
      → Made (sign_cid q dcid) r
      → First b r
  unfolding First
  Made-First b dcid (a, none) e m = (dcid, e, m)
  Made-First b dcid (a, some x) e (f, one, c) = (f, omega (arith, ap length one))

  accept_datagram-First :
      (b : List ℕ) (o : Outgoing s.State) → First b (accept_datagram q s b (start_accept q s o))
  unfolding accept_datagram First
  accept_datagram-First b o = elim (Option-cases (q.dcid_of b)) [
    | inl e ↦ rw e (tt, omega arith)
    | inr (dcid, e) ↦ elim (Option-cases (q.accept (sign_cid q dcid))) [
      | inl n ↦ rw (e, n) (tt, omega arith)
      | inr (c, n) ↦
          let a : Accepting q s = record (start_accept q s o) { accepted = sign_cid q dcid ∷ [] } in
          rw (e, n)
            (Made-First b dcid (exchange q s b a c) e (exchange-Made b (sign_cid q dcid) a c refl))
    ]
  ]

  -- The datagrams one after the other, whether there is an established connection or not, until one
  -- of them fails.
  abbrev then_all : (Accepting q s → AcceptStep q s) → AcceptStep q s → AcceptStep q s
  then_all again (a, none) = again a
  then_all again (a, some e) = (a, some e)

  abbrev pub accept_all : List (List ℕ) → Accepting q s → AcceptStep q s
  accept_all [] a = (a, none)
  accept_all (b ∷ bs) a = then_all (accept_all bs) (accept_datagram q s b a)

  -- The task from its first connection on: what it takes is at the front of the queue.
  Continued : List ℕ → List (List ℕ) → Accepting q s → AcceptResult q s → Type 0
  Continued scid bs start (a, ok rest) =
      (used : List (List ℕ)) × (bs ≡ used ++ rest)
      × (accept_all used start ≡ (a, none))
      × (a.accepted ≡ scid ∷ [])
      × (is_ready q s a.conn ≡ true)
  Continued scid bs start (a, err e) = IsFueled (some e) × (a.accepted ≡ scid ∷ [])

  next-Continued :
      (scid b : List ℕ) (bs : List (List ℕ)) (start next : Accepting q s) (r : AcceptResult q s)
      → accept_datagram q s b start ≡ (next, none)
      → Continued scid bs next r
      → Continued scid (b ∷ bs) start r
  unfolding Continued
  next-Continued scid b bs start next (a, ok rest) step (used, e, run, one, ready) =
      (b ∷ used, ap (λ xs. b ∷ xs) e, ap (then_all (accept_all used)) step ∙ run, one, ready)
  next-Continued scid b bs start next (a, err e) step h = h

  on_accepted-Continued :
      (scid b : List ℕ) (bs : List (List ℕ)) (again : Accepting q s → AcceptResult q s)
      (start : Accepting q s) (r : AcceptStep q s)
      → accept_datagram q s b start ≡ r
      → Made scid r
      → ((a : Accepting q s) (c : q.State)
          → a.conn ≡ some c
          → a.accepted ≡ scid ∷ []
          → Continued scid bs a (again a))
      → Continued scid (b ∷ bs) start (on_accepted q s again r)
  unfolding Continued
  on_accepted-Continued scid b bs again start (a, none) step (f, one, (c, e)) k =
      next-Continued scid b bs start a (again a) step (k a c e one)
  on_accepted-Continued scid b bs again start (a, some x) step (f, one, c) k = (f, one)

  accept_loop-Continued :
      (scid : List ℕ) (bs : List (List ℕ)) (a : Accepting q s) (c : q.State)
      → a.conn ≡ some c
      → a.accepted ≡ scid ∷ []
      → Continued scid bs a (accept_loop q s bs a)
  unfolding accept_loop Continued
  accept_loop-Continued scid [] a c h k = elim (Bool-cases (is_ready q s a.conn)) [
    | inl ready ↦ rw ready ([], refl, refl, k, ready)
    | inr not_yet ↦ rw not_yet (tt, k)
  ]
  accept_loop-Continued scid (b ∷ bs) a c h k = elim (Bool-cases (is_ready q s a.conn)) [
    | inl ready ↦ rw ready ([], refl, refl, k, ready)
    | inr not_yet ↦ rw not_yet (
        on_accepted-Continued scid b bs (accept_loop q s bs) a (accept_datagram q s b a) refl
          (accept_datagram-Made b scid a c h k) (accept_loop-Continued scid bs))
  ]

  -- With success: the first datagram made the connection, with the id that was signed from its own,
  -- no other was made, it is established, and the connection and the socket have come to their states
  -- by the datagrams that are gone from the front of the queue, each handled once. With an
  -- error at most one connection was asked for, and the fuel was not the reason.
  abbrev pub Accepted : List (List ℕ) → Accepting q s → AcceptResult q s → Type 0
  Accepted bs start (a, ok rest) =
      (first dcid : List ℕ) × (used : List (List ℕ)) × (bs ≡ first ∷ (used ++ rest))
      × (accept_all (first ∷ used) start ≡ (a, none))
      × (q.dcid_of first ≡ some dcid)
      × (a.accepted ≡ sign_cid q dcid ∷ [])
      × (is_ready q s a.conn ≡ true)
  Accepted bs start (a, err e) = IsFueled (some e) × (length a.accepted ≤ 1)

  Continued-Accepted :
      (b dcid : List ℕ) (bs : List (List ℕ)) (start next : Accepting q s) (r : AcceptResult q s)
      → q.dcid_of b ≡ some dcid
      → accept_datagram q s b start ≡ (next, none)
      → Continued (sign_cid q dcid) bs next r
      → Accepted (b ∷ bs) start r
  unfolding Continued
  Continued-Accepted b dcid bs start next (a, ok rest) e step (used, cut, run, one, ready) = (
    b,
    dcid,
    used,
    ap (λ xs. b ∷ xs) cut,
    ap (then_all (accept_all used)) step ∙ run,
    e,
    one,
    ready,
  )
  Continued-Accepted b dcid bs start next (a, err x) e step (f, one) =
      (f, omega (arith, ap length one))

  on_First-Accepted :
      (b : List ℕ) (bs : List (List ℕ)) (start : Accepting q s) (r : AcceptStep q s)
      → accept_datagram q s b start ≡ r
      → First b r
      → Accepted (b ∷ bs) start (on_accepted q s (accept_loop q s bs) r)
  unfolding First
  on_First-Accepted b bs start (a, none) step (dcid, e, (f, one, (c, k))) =
      Continued-Accepted b dcid bs start a (accept_loop q s bs a) e step
        (accept_loop-Continued (sign_cid q dcid) bs a c k one)
  on_First-Accepted b bs start (a, some e) step h = h

  -- The task that `accept_new_conn` spawns makes one connection for its peer, whatever the peer
  -- sends: its id is signed from the id in the header of the first datagram. When the task goes on to
  -- start the loops, the connection is established; it has handled datagrams from the front of the
  -- queue, each once and in order, and no others, and those behind them are all still in the queue.
  -- Else it ends with an error other than the end of the fuel, and has asked quiche for at most one
  -- connection.
  pub accept_loop-Accepted :
      (bs : List (List ℕ)) (o : Outgoing s.State)
      → Accepted bs (start_accept q s o) (accept_loop q s bs (start_accept q s o))
  unfolding accept_loop
  accept_loop-Accepted [] o = (tt, omega arith)
  accept_loop-Accepted (b ∷ bs) o =
      on_First-Accepted b bs (start_accept q s o) (accept_datagram q s b (start_accept q s o)) refl
        (accept_datagram-First b o)
