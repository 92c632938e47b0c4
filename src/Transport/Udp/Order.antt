-- ===== src/Transport/Udp/Order.antt =====
-- What the UDP loops of link/src/transport/client.rs and link/src/transport/server.rs hand on.
use quote_link_rs.Base.{
  ℕ, suc, ◌+◌, ◌-◌, ◌≡◌, ◌≢◌, ◌∙◌, refl, sym, ap, List, [], ◌∷◌, ◌++◌, map, append-nil,
  append_assoc, Bool-cases, inl, inr, Option, none, some, Option-cases, length, take, take_all, ltb,
  le→ltb, lt→ltb, ◌==◌, if◌then◌else◌, arith,
}
use quote_link_rs.Channel.{Sender, send_closed, send_open}
use quote_link_rs.Transport.Token.{SocketAddr}
use quote_link_rs.Transport.Udp.{
  Socket, UdpError, socket_failed, channel_closed, out_of_fuel, waiting, udp_read_loop, Outgoing,
  OutgoingStep, send_all, send_datagram, write_on, write_loop, send_to_peer, client_udp_write_loop,
  server_udp_write_loop,
}

-- The datagrams before the first error of the socket.
abbrev pub received : List (Option (List ℕ)) → List (List ℕ)
received [] = []
received (none ∷ rest) = []
received (some datagram ∷ rest) = datagram ∷ received rest

-- What the socket ends with.
abbrev pub ends : List (Option (List ℕ)) → UdpError
ends [] = waiting
ends (none ∷ rest) = socket_failed
ends (some datagram ∷ rest) = ends rest

-- The values that the channel still takes, in order, and why the loop is left.
abbrev pub Forwarded :
    List (List ℕ) → UdpError → Sender (List ℕ) → Sender (List ℕ) × UdpError → Type 0
Forwarded ds last tx (tx', e) =
    (tx'.sent ≡ tx.sent ++ take tx.room ds)
    × (e ≡ (if ltb tx.room (length ds) then channel_closed else last))

forward_one :
    (d : List ℕ) (ds : List (List ℕ)) (last : UdpError) (tx tx' : Sender (List ℕ))
    (r : Sender (List ℕ) × UdpError)
    → tx.room ≡ suc tx'.room
    → tx'.sent ≡ tx.sent ++ (d ∷ [])
    → Forwarded ds last tx' r
    → Forwarded (d ∷ ds) last tx r
forward_one d ds last tx tx' (out, e) one more (sent, exit) = (
  rw one (
      sent
      ∙ ap (λ xs. xs ++ take tx'.room ds) more
      ∙ append_assoc tx.sent (d ∷ []) (take tx'.room ds)),
  exit ∙ ap (λ b. if b then channel_closed else last) one_less,
)
  where
    one_less : ltb tx'.room (length ds) ≡ ltb tx.room (suc (length ds))
    one_less = ground arith

-- Nothing is left to hand on.
none_left : (last : UdpError) (tx : Sender (List ℕ)) → Forwarded [] last tx (tx, last)
none_left last tx = (
  sym (ap (λ xs. tx.sent ++ xs) (take_all tx.room ([]) (omega arith)) ∙ append-nil tx.sent),
  rw (le→ltb tx.room 0 (omega arith)) refl,
)

-- The client's `udp_read_loop` hands on the datagrams that it receives, in order and each once, cut
-- at the size of its buffer; it is left at the first error of the socket, or when the receiver of
-- the channel is gone and a further datagram comes in.
pub udp_read_loop-Forwarded :
    (buffer_size : ℕ) (input : List (Option (List ℕ))) (tx : Sender (List ℕ))
    → Forwarded
        (map (take buffer_size) (received input))
        (ends input)
        tx
        (udp_read_loop buffer_size input tx)
unfolding udp_read_loop
udp_read_loop-Forwarded size [] tx = none_left waiting tx
udp_read_loop-Forwarded size (none ∷ rest) tx = none_left socket_failed tx
udp_read_loop-Forwarded size (some d ∷ rest) tx = elim (Bool-cases (tx.room == 0)) [
  | inl full ↦
      let e : tx.room ≡ 0 = ground (arith, full) in
      rw
        (
          send_closed tx (take size d) e,
          e,
          lt→ltb 0 (suc (length (map (take size) (received rest)))) (omega arith),
        )
        (sym (append-nil tx.sent), refl)
  | inr open_still ↦
      let e : tx.room ≢ 0 = ground (arith, open_still) in
      let tx' : Sender (List ℕ) = record {
        room = tx.room - 1;
        sent = tx.sent ++ (take size d ∷ []);
      } in
      rw (send_open tx (take size d) e) (
        forward_one (take size d) (map (take size) (received rest)) (ends rest) tx tx'
          (udp_read_loop size rest tx') (omega arith) refl (udp_read_loop-Forwarded size rest tx'))
]

-- What the operating system documents of a datagram socket: a datagram is sent whole or not at all.
abbrev pub IsDatagram : {S : Type 0} → (S → List ℕ → S × Option ℕ) → Type 0
IsDatagram {S} call = (s s' : S) (b : List ℕ) (n : ℕ) → call s b ≡ (s', some n) → n ≡ length b

-- The datagrams that have a byte.
abbrev pub filled : List (List ℕ) → List (List ℕ)
filled [] = []
filled ([] ∷ bs) = filled bs
filled ((x ∷ xs) ∷ bs) = (x ∷ xs) ∷ filled bs

module _ {S : Type 0} {call : S → List ℕ → S × Option ℕ} (law : IsDatagram call) where
  -- The socket after calls with these datagrams, one after the other.
  abbrev pub after_calls : S → List (List ℕ) → S
  after_calls s [] = s
  after_calls s (d ∷ ds) = after_calls (call s d).0 ds

  -- All datagrams were sent when the channel was closed; or the socket has answered a datagram with
  -- an error, and those before it were sent.
  abbrev pub Wrote : Outgoing S → List (List ℕ) → Outgoing S × UdpError → Type 0
  Wrote start all (o, channel_closed) =
      (o.wire ≡ start.wire ++ all) × (o.socket ≡ after_calls start.socket all)
  Wrote start all (o, socket_failed) =
      (done : List (List ℕ)) × (d : List ℕ) × (rest : List (List ℕ)) × (all ≡ done ++ (d ∷ rest))
      × (o.wire ≡ start.wire ++ done)
      × (call (after_calls start.socket done) d ≡ (o.socket, none))
  Wrote start all (o, out_of_fuel) = ⊥
  Wrote start all (o, waiting) = ⊥

  -- One datagram that has a byte.
  SentWhole : List ℕ → Outgoing S → OutgoingStep S → Type 0
  SentWhole b o (o', none) = (o'.wire ≡ o.wire ++ (b ∷ [])) × (o'.socket ≡ (call o.socket b).0)
  SentWhole b o (o', some socket_failed) =
      (o'.wire ≡ o.wire) × (call o.socket b ≡ (o'.socket, none))
  SentWhole b o (o', some e) = ⊥

  send_datagram-SentWhole :
      (x : ℕ) (xs : List ℕ) (o : Outgoing S) → SentWhole (x ∷ xs) o (send_datagram call (x ∷ xs) o)
  unfolding SentWhole send_all
  send_datagram-SentWhole x xs o =
      let b : List ℕ = x ∷ xs in
      let s' : S = (call o.socket b).0 in
      elim (Option-cases (call o.socket b).1) [
        | inl e ↦
            let k : call o.socket b ≡ (s', none) = ap (λ y. (s', y)) e in
            rw (lt→ltb 0 (suc (length xs)) (omega arith), k) (refl, k)
        | inr (n, e) ↦
            let k : call o.socket b ≡ (s', some n) = ap (λ y. (s', y)) e in
            let all_sent : n ≡ length b = law o.socket s' b n k in
            rw
              (
                lt→ltb 0 (suc (length xs)) (omega arith),
                k,
                le→ltb (0 + n) (suc (length xs)) (omega arith),
              )
              (
                ap (λ d. o.wire ++ (d ∷ [])) (take_all n b (omega arith)),
                sym (ap (λ (r : S × Option ℕ). r.0) k),
              )
      ]

  SentWhole-fuel :
      (b : List ℕ) (o : Outgoing S) (r : OutgoingStep S) → SentWhole b o r → r.1 ≢ some out_of_fuel
  unfolding SentWhole
  SentWhole-fuel b o (o', none) w e = cc
  SentWhole-fuel b o (o', some socket_failed) w e = cc
  SentWhole-fuel b o (o', some channel_closed) w e = w
  SentWhole-fuel b o (o', some out_of_fuel) w e = w
  SentWhole-fuel b o (o', some waiting) w e = w

  -- The fuel is enough.
  pub send_datagram-fuel :
      (b : List ℕ) (o : Outgoing S) → (send_datagram call b o).1 ≢ some out_of_fuel
  unfolding send_all
  send_datagram-fuel [] o e = cc
  send_datagram-fuel (x ∷ xs) o e =
      SentWhole-fuel (x ∷ xs) o (send_datagram call (x ∷ xs) o) (send_datagram-SentWhole x xs o) e

  then_write :
      (b : List ℕ) (bs : List (List ℕ)) (o o' : Outgoing S) (r : Outgoing S × UdpError)
      → o'.wire ≡ o.wire ++ (b ∷ [])
      → o'.socket ≡ (call o.socket b).0
      → Wrote o' bs r
      → Wrote o (b ∷ bs) r
  then_write b bs o o' (q, channel_closed) w s (h, all_called) = (
    h ∙ ap (λ xs. xs ++ bs) w ∙ append_assoc o.wire (b ∷ []) bs,
    all_called ∙ ap (λ x. after_calls x bs) s,
  )
  then_write b bs o o' (q, socket_failed) w s (done, d, rest, cut, h, answer) = (
    b ∷ done,
    d,
    rest,
    ap (λ xs. b ∷ xs) cut,
    h ∙ ap (λ xs. xs ++ done) w ∙ append_assoc o.wire (b ∷ []) done,
    ap (λ x. call (after_calls x done) d) (sym s) ∙ answer,
  )
  then_write b bs o o' (q, out_of_fuel) w s h = h
  then_write b bs o o' (q, waiting) w s h = h

  on_SentWhole :
      (b : List ℕ) (bs ds : List (List ℕ)) (o : Outgoing S) (r : OutgoingStep S)
      → SentWhole b o r
      → ((o' : Outgoing S) → Wrote o' ds (write_loop call bs o'))
      → Wrote o (b ∷ ds) (write_on call (write_loop call bs) r)
  unfolding SentWhole
  on_SentWhole b bs ds o (o', none) (w, s) again =
      then_write b ds o o' (write_loop call bs o') w s (again o')
  on_SentWhole b bs ds o (o', some socket_failed) (w, answer) again =
      ([], b, ds, refl, w ∙ sym (append-nil o.wire), answer)
  on_SentWhole b bs ds o (o', some channel_closed) w again = absurd w
  on_SentWhole b bs ds o (o', some out_of_fuel) w again = absurd w
  on_SentWhole b bs ds o (o', some waiting) w again = absurd w

  pub write_loop-Wrote :
      (bs : List (List ℕ)) (o : Outgoing S) → Wrote o (filled bs) (write_loop call bs o)
  unfolding write_loop
  write_loop-Wrote [] o = (sym (append-nil o.wire), refl)
  write_loop-Wrote ([] ∷ bs) o = write_loop-Wrote bs o
  write_loop-Wrote ((x ∷ xs) ∷ bs) o =
      on_SentWhole (x ∷ xs) bs (filled bs) o (send_datagram call (x ∷ xs) o)
        (send_datagram-SentWhole x xs o) (write_loop-Wrote bs)

-- Over a datagram socket both write loops, the client's and the server's, send what they take from
-- their channel as datagrams of the same bytes and in the same order, less the empty ones: all of
-- them when the channel is closed, and else those before one for which the socket has answered
-- with an error. The socket has got these calls and no others, and the loops are left for no other
-- reason.
pub udp_write_loop-Wrote :
    (s : Socket) (peer : SocketAddr) (client : IsDatagram s.send)
    (server : IsDatagram (send_to_peer s peer)) (bs : List (List ℕ)) (o : Outgoing s.State)
    (q : Outgoing s.State)
    → Wrote client o (filled bs) (client_udp_write_loop s bs o)
      × Wrote server q (filled bs) (server_udp_write_loop s peer bs q)
unfolding client_udp_write_loop server_udp_write_loop
udp_write_loop-Wrote s peer client server bs o q =
    (write_loop-Wrote client bs o, write_loop-Wrote server bs q)
