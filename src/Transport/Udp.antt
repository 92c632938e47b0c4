-- ===== src/Transport/Udp.antt =====
-- The loops that move datagrams between a socket and the channels: `udp_read_loop` and
-- `udp_write_loop` of link/src/transport/client.rs, and `udp_write_loop` of
-- link/src/transport/server.rs. The socket is the operating system's: what it answers is a parameter.
-- `wire` is kept to speak of what was sent; the program has no such variable.
pub mod Order
mod Tests
use quote_link_rs.Base.{
  ℕ, zero, suc, ◌+◌, List, [], ◌∷◌, ◌++◌, Option, none, some, length, take, drop, ltb,
  if◌then◌else◌,
}
use quote_link_rs.Channel.{Sender, send}
use quote_link_rs.Transport.Token.{SocketAddr}

-- `send` of a connected socket and `send_to`: how many bytes were taken, where `none` is an error.
pub record Socket : Type 1 where
  pub State : Type 0
  pub send : State → List ℕ → State × Option ℕ
  pub send_to : State → List ℕ → SocketAddr → State × Option ℕ

pub data UdpError : Type 0 where
  socket_failed channel_closed out_of_fuel : UdpError
  -- Nothing came in any more: the loop still waits.
  waiting : UdpError

-- `udp_read_loop`: what `recv` gives, `none` being an error. The socket cuts a datagram that is
-- longer than the buffer.
abbrev pub read_on :
    (Sender (List ℕ) → Sender (List ℕ) × UdpError)
    → Sender (List ℕ)
    → Option (Sender (List ℕ))
    → Sender (List ℕ) × UdpError
read_on again tx none = (tx, channel_closed)
read_on again tx (some tx') = again tx'

unfoldable pub udp_read_loop :
    ℕ → List (Option (List ℕ)) → Sender (List ℕ) → Sender (List ℕ) × UdpError
udp_read_loop buffer_size [] tx = (tx, waiting)
udp_read_loop buffer_size (none ∷ rest) tx = (tx, socket_failed)
udp_read_loop buffer_size (some datagram ∷ rest) tx =
    read_on (udp_read_loop buffer_size rest) tx (send tx (take buffer_size datagram))

-- A socket, and what was sent through it.
pub record Outgoing (S : Type 0) : Type 0 where
  pub socket : S
  pub wire : List (List ℕ)

abbrev pub OutgoingStep : Type 0 → Type 0
OutgoingStep S = Outgoing S × Option UdpError

-- The sending calls of both ends, on a socket of the type `S`.
module _ {S : Type 0} (call : S → List ℕ → S × Option ℕ) where
  unfoldable pub on_sent :
      (ℕ → Outgoing S → OutgoingStep S) → List ℕ → ℕ → Outgoing S → S × Option ℕ → OutgoingStep S
  on_sent again b sent o (s, none) = (record o { socket = s }, some socket_failed)
  on_sent again b sent o (s, some v) =
      again (sent + v) (record { socket = s; wire = o.wire ++ (take v (drop sent b) ∷ []) })

  -- `while sent < total`.
  unfoldable pub send_all : ℕ → List ℕ → ℕ → Outgoing S → OutgoingStep S
  unfolding on_sent
  send_all zero b sent o = (o, some out_of_fuel)
  send_all (suc fuel) b sent o =
      let rest = on_sent (send_all fuel b) b sent o (call o.socket (drop sent b)) in
      if ltb sent (length b) then rest else (o, none)

  -- A datagram as a whole; a round that takes a byte or more is enough for the fuel.
  abbrev pub send_datagram : List ℕ → Outgoing S → OutgoingStep S
  send_datagram b o = send_all (suc (length b)) b 0 o

  abbrev pub write_on :
      (Outgoing S → Outgoing S × UdpError) → OutgoingStep S → Outgoing S × UdpError
  write_on again (o, none) = again o
  write_on again (o, some e) = (o, e)

  -- What `udp_data_send_rx` gives until it is closed.
  unfoldable pub write_loop : List (List ℕ) → Outgoing S → Outgoing S × UdpError
  unfolding send_all
  write_loop [] o = (o, channel_closed)
  write_loop (b ∷ bs) o = write_on (write_loop bs) (send_datagram b o)

module _ (s : Socket) where
  abbrev pub send_to_peer : SocketAddr → s.State → List ℕ → s.State × Option ℕ
  send_to_peer peer state b = s.send_to state b peer

  -- The client's.
  unfoldable pub client_udp_write_loop :
      List (List ℕ) → Outgoing s.State → Outgoing s.State × UdpError
  unfolding write_loop
  client_udp_write_loop bs o = write_loop s.send bs o

  -- The server's.
  unfoldable pub server_udp_write_loop :
      (peer : SocketAddr) → List (List ℕ) → Outgoing s.State → Outgoing s.State × UdpError
  unfolding write_loop
  server_udp_write_loop peer bs o = write_loop (send_to_peer peer) bs o
