-- ===== src/Transport/Handshake/Tests.antt =====
-- Handshakes with a connection that is established by its second datagram.
use quote_link_rs.Base.{
  ℕ, ◌+◌, ◌≡◌, refl, List, [], ◌∷◌, ◌++◌, false, Option, none, some, ok, length, leb, replicate,
  arith,
}
use quote_link_rs.Transport.Token.{SocketAddr}
use quote_link_rs.Transport.Udp.{Socket, Outgoing, send_all}
use quote_link_rs.Transport.Handshake.{
  Quic, datagram, timed_out, waiting, Received, received, silence, Handshake, quic_handshake,
  sign_cid, accept_loop, start_accept,
}
use quote_link_rs.Transport.Handshake.Client.{Ended, quic_handshake-Ended}
use quote_link_rs.Transport.Handshake.Server.{IsReliable, Accepted, accept_loop-Accepted}

abbrev peer : SocketAddr
peer = SocketAddr.v4 (10 ∷ 0 ∷ 0 ∷ 1 ∷ []) 4433

-- A socket that sends all, and counts.
abbrev open_socket : Socket
open_socket = record {
  State = ℕ;
  send = λ n b. (n + 1, some (length b));
  send_to = λ n b to. (n + 1, some (length b));
}

abbrev first_byte : List ℕ → Option (List ℕ)
first_byte [] = none
first_byte (x ∷ xs) = some (x ∷ [])

-- The state is the number of datagrams that were read; the id is the first byte of a datagram.
abbrev second_round : Quic
second_round = record {
  State = ℕ;
  is_established = λ n. leb 2 n;
  send = λ n. (n, datagram (7 ∷ []));
  sends = λ n. (n, some (8 ∷ 8 ∷ [], peer) ∷ []);
  recv = λ n b. (n + 1, some (length b));
  dcid_of = first_byte;
  accept = λ scid. some 0;
  max_conn_id_len = 2;
  sign = λ cid. cid ++ (9 ∷ 9 ∷ 9 ∷ []);
}

second_round-IsReliable : IsReliable second_round open_socket
second_round-IsReliable = record {
  reads = λ c c' bs n some_bytes e. ground (arith, e);
  sends_whole = λ to s s' b n e. ground (arith, e);
}

abbrev nothing_sent : Outgoing ℕ
nothing_sent = record { socket = 0; wire = [] }

abbrev queue : List (List ℕ)
queue = (5 ∷ 6 ∷ []) ∷ (7 ∷ []) ∷ (8 ∷ []) ∷ []

-- Two datagrams are used, and the third is left.
accepts_once :
    accept_loop second_round open_socket queue (start_accept second_round open_socket nothing_sent)
    ≡ (
      record {
        conn = some 2;
        accepted = (5 ∷ 9 ∷ []) ∷ [];
        out = record { socket = 2; wire = (8 ∷ 8 ∷ []) ∷ (8 ∷ 8 ∷ []) ∷ [] };
      },
      ok ((8 ∷ []) ∷ []),
    )
unfolding accept_loop sign_cid send_all
accepts_once = refl

accept_loop-Accepted_example :
    Accepted second_round-IsReliable queue (start_accept second_round open_socket nothing_sent) (
      accept_loop second_round open_socket queue
        (start_accept second_round open_socket nothing_sent))
accept_loop-Accepted_example = accept_loop-Accepted second_round-IsReliable queue nothing_sent

abbrev client_start : Handshake second_round open_socket 64
client_start = record { conn = 0; out = nothing_sent; elapsed = 0 }

-- The server falls silent after its first datagram, which took 2000 milliseconds.
abbrev one_answer : List Received
one_answer = received 2000 (1 ∷ []) ∷ silence ∷ []

gives_up :
    (quic_handshake second_round open_socket 64 3000 one_answer client_start).1 ≡ some timed_out
unfolding quic_handshake
gives_up = refl

-- A connection that is never established.
abbrev stuck : Quic
stuck = record second_round { is_established = λ n. false }

abbrev stuck_start : Handshake stuck open_socket 64
stuck_start = record { conn = 0; out = nothing_sent; elapsed = 0 }

-- With a datagram every 2000 milliseconds it still waits after 6000, with a limit of 3000.
still_waits :
    (quic_handshake stuck open_socket 64 3000 (replicate 3 (received 2000 (1 ∷ []))) stuck_start)
    ≡ (
      record { conn = 3; out = record { socket = 4; wire = replicate 4 (7 ∷ []) }; elapsed = 6000 },
      some waiting,
    )
unfolding quic_handshake
still_waits = refl

quic_handshake-Ended_example :
    Ended stuck open_socket 64 3000
      (replicate 3 (received 2000 (1 ∷ [])))
      stuck_start
      (quic_handshake stuck open_socket 64 3000 (replicate 3 (received 2000 (1 ∷ []))) stuck_start)
quic_handshake-Ended_example =
    quic_handshake-Ended stuck open_socket 64 3000 (replicate 3 (received 2000 (1 ∷ [])))
      stuck_start
