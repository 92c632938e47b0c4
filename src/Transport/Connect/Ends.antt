-- ===== src/Transport/Connect/Ends.antt =====
-- How the results of the loops reach the client: `connect` of link/src/transport/transport.rs in the
-- loops of link/src/client.rs.
use quote_link_rs.Base.{
  ℕ, zero, suc, ◌<◌, ◌≤◌, ◌≡◌, ◌∙◌, inl, inr, refl, ap, List, [], ◌∷◌, map, true, false, none, some,
  Result, ok, err, length, ltb, lt→ltb, le→ltb, if◌then◌else◌, arith,
}
use native.Mathlib.Decide.{dec_lt}
use quote_link_rs.Channel.{Sender}
use quote_link_rs.Packet.{Packet}
use quote_link_rs.Protos.{Message, Heartbeat, SubscribeRequest}
use quote_link_rs.Client.Conn.{ConnConf, ConnState, ConnEvent, conn_done, finished, conn_loop}
use quote_link_rs.Client.Link.{Attempt, conn_ended, LinkState, connected, done, link_loop}
use quote_link_rs.Transport.Udp.{Socket}
use quote_link_rs.Transport.Handshake.{Quic}
use quote_link_rs.Transport.Connect.{
  Transport, returned, try_join, ConnectError, Surroundings, joined, connect,
}
use quote_link_rs.Transport.Connect.Joined.{connect-Started}

-- The arms of the client's `select!` for the result of the task that runs `connect`.
abbrev pub conn_result : Result ConnectError (Unit {0}) → ConnEvent
conn_result (ok x) = conn_done true
conn_result (err e) = conn_done false

-- While a loop still runs, nothing is decided.
try_join_waiting :
    {E : Type 0} (running : ℕ) (rs : List (Result E (Unit {0})))
    → length rs < running
    → try_join running (map returned rs) ≡ none
unfolding try_join
try_join_waiting zero rs h = absurd (omega arith)
try_join_waiting (suc running) [] h = refl
try_join_waiting (suc running) (r ∷ rs) h = try_join_waiting running rs (omega arith)

try_join_returned :
    {E : Type 0} (running : ℕ) (rs : List (Result E (Unit {0})))
    → running ≤ length rs
    → try_join running (map returned rs) ≡ some true
unfolding try_join
try_join_returned zero rs h = refl
try_join_returned (suc running) [] h = absurd (omega arith)
try_join_returned (suc running) (r ∷ rs) h = try_join_returned running rs (omega arith)

-- Once the loops were started, no error of a loop makes `connect` end: it waits until all five have
-- returned.
connect_waiting :
    (q : Quic) (s : Socket) {E : Type 0} (t : Transport) (e : Surroundings q s E)
    (auth_packet : Packet) (tx : Sender Packet) (rs : List (Result E (Unit {0})))
    → e.endings ≡ map returned rs
    → 0 < length (connect q s t e auth_packet tx).tasks
    → (connect q s t e auth_packet tx).result ≡ (if ltb (length rs) 5 then none else some (ok tt))
connect_waiting q s t e auth_packet tx rs ends started =
    elim (connect-Started q s t auth_packet tx e) [
      | inl nothing ↦ absurd (omega (arith, ap length nothing.0))
      | inr all ↦ elim (dec_lt (length rs) 5) [
        | yes fewer ↦ rw (lt→ltb (length rs) 5 fewer) (
            all.2
            ∙ ap (λ x. joined q s (try_join 5 x)) ends
            ∙ ap (joined q s) (try_join_waiting 5 rs fewer))
        | no enough ↦ rw (le→ltb (length rs) 5 (omega arith)) (
            all.2
            ∙ ap (λ x. joined q s (try_join 5 x)) ends
            ∙ ap (joined q s) (try_join_returned 5 rs (omega arith)))
      ]
    ]

-- After its loops were started, `connect` does not look at their results, which are errors: it
-- goes on while fewer than five have returned, and is `Ok(())` when all have. If that is what the client
-- sees first, its loop over the events of the connection is finished, and the loop that connects
-- again ends with `Ok(())`, without another attempt and without a notice to the consumer.
pub connect-link_loop :
    (q : Quic) (s : Socket) {E : Type 0} (t : Transport) (e : Surroundings q s E)
    (auth_packet : Packet) (tx : Sender Packet) (rs : List (Result E (Unit {0})))
    (heartbeats : Message Heartbeat) (subs : Message SubscribeRequest) (conf : ConnConf)
    (events : List ConnEvent) (conn : ConnState) (max_retry_times before during : ℕ)
    (attempts : List Attempt) (link : LinkState)
    → e.endings ≡ map returned rs
    → 0 < length (connect q s t e auth_packet tx).tasks
    → ((connect q s t e auth_packet tx).result ≡ (if ltb (length rs) 5 then none else some (ok tt)))
      × (conn_loop heartbeats subs conf (conn_result (ok tt) ∷ events) conn ≡ (conn, some finished))
      × (link_loop max_retry_times (conn_ended before finished during ∷ attempts) link
          ≡ (connected before during link, some done))
unfolding conn_loop link_loop
connect-link_loop q s t e auth_packet tx rs hb subs conf events conn m before during attempts link
      ends started =
    (connect_waiting q s t e auth_packet tx rs ends started, refl, refl)
