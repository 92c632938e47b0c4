-- ===== src/Transport/Udp/Tests.antt =====
-- Runs of the UDP loops on a socket that fails after a number of datagrams.
use quote_link_rs.Base.{
  ℕ, ◌-◌, ◌≡◌, refl, List, [], ◌∷◌, map, Option, none, some, length, take, ◌==◌, if◌then◌else◌,
  arith,
}
use quote_link_rs.Channel.{Sender, send}
use quote_link_rs.Transport.Token.{SocketAddr}
use quote_link_rs.Transport.Udp.{
  Socket, socket_failed, channel_closed, udp_read_loop, Outgoing, client_udp_write_loop,
  server_udp_write_loop,
}
use quote_link_rs.Transport.Udp.Order.{
  received, ends, Forwarded, udp_read_loop-Forwarded, IsDatagram, filled, Wrote,
  udp_write_loop-Wrote,
}

abbrev peer : SocketAddr
peer = SocketAddr.v4 (10 ∷ 0 ∷ 0 ∷ 1 ∷ []) 4433

abbrev limited_send : ℕ → List ℕ → ℕ × Option ℕ
limited_send left b = if left == 0 then (0, none) else (left - 1, some (length b))

abbrev limited : Socket
limited = record { State = ℕ; send = limited_send; send_to = λ left b to. limited_send left b }

limited-IsDatagram : IsDatagram limited_send
limited-IsDatagram left left' b n e = ground (arith, e)

abbrev datagrams : List (List ℕ)
datagrams = (1 ∷ 2 ∷ []) ∷ [] ∷ (3 ∷ []) ∷ []

abbrev socket_of : ℕ → Outgoing ℕ
socket_of left = record { socket = left; wire = [] }

all_sent :
    client_udp_write_loop limited datagrams (socket_of 2)
    ≡ (record { socket = 0; wire = (1 ∷ 2 ∷ []) ∷ (3 ∷ []) ∷ [] }, channel_closed)
unfolding client_udp_write_loop
all_sent = refl

one_sent :
    server_udp_write_loop limited peer datagrams (socket_of 1)
    ≡ (record { socket = 0; wire = (1 ∷ 2 ∷ []) ∷ [] }, socket_failed)
unfolding server_udp_write_loop
one_sent = refl

udp_write_loop-Wrote_example :
    Wrote limited-IsDatagram
      (socket_of 2)
      (filled datagrams)
      (client_udp_write_loop limited datagrams (socket_of 2))
    × Wrote limited-IsDatagram
        (socket_of 1)
        (filled datagrams)
        (server_udp_write_loop limited peer datagrams (socket_of 1))
udp_write_loop-Wrote_example =
    udp_write_loop-Wrote limited peer limited-IsDatagram limited-IsDatagram datagrams (socket_of 2)
      (socket_of 1)

-- A datagram that is cut, one that fits, and an error.
abbrev input : List (Option (List ℕ))
input = some (1 ∷ 2 ∷ 3 ∷ []) ∷ some (4 ∷ []) ∷ none ∷ []

abbrev one_slot : Sender (List ℕ)
one_slot = record { room = 1; sent = [] }

stopped :
    udp_read_loop 2 input one_slot ≡ (record { room = 0; sent = (1 ∷ 2 ∷ []) ∷ [] }, channel_closed)
unfolding udp_read_loop send
stopped = refl

udp_read_loop-Forwarded_example :
    Forwarded (map (take 2) (received input)) (ends input) one_slot (udp_read_loop 2 input one_slot)
udp_read_loop-Forwarded_example = udp_read_loop-Forwarded 2 input one_slot
