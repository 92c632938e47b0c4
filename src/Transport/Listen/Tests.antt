-- ===== src/Transport/Listen/Tests.antt =====
-- A run of the listener with two addresses.
use quote_link_rs.Base.{◌≡◌, refl, List, [], ◌∷◌, ◌++◌, true, false, some, arith}
use quote_link_rs.Transport.Token.{SocketAddr}
use quote_link_rs.Transport.Listen.{
  queued, delayed, Peer, Event, ticked, arrived, closes, takes, resumes, lookup, step, listen,
  start_listen,
}
use quote_link_rs.Transport.Listen.Demux.{arrivals, Demuxed, listen-Demuxed}
use quote_link_rs.Transport.Listen.Reconnect.{listen-reconnect}

abbrev alice : SocketAddr
alice = SocketAddr.v4 (10 ∷ 0 ∷ 0 ∷ 1 ∷ []) 5000

abbrev bob : SocketAddr
bob = SocketAddr.v4 (10 ∷ 0 ∷ 0 ∷ 1 ∷ []) 5001

abbrev events : List Event
events =
    arrived alice (1 ∷ [])
    ∷ arrived bob (2 ∷ [])
    ∷ arrived alice (3 ∷ 4 ∷ [])
    ∷ closes bob
    ∷ ticked
    ∷ arrived alice (5 ∷ [])
    ∷ takes alice 2
    ∷ arrived alice (6 ∷ [])
    ∷ resumes alice 0
    ∷ []

-- The channels have two slots: the third datagram of alice is given to a task, and the fourth is
-- put into the channel before that task is run.
alice_only : (listen 1500 2 events start_listen).0 ≡ record {
  peers =
      (
        alice,
        record {
          free = 0;
          is_closed = false;
          channel = queued (1 ∷ []) ∷ queued (3 ∷ 4 ∷ []) ∷ queued (6 ∷ []) ∷ delayed (5 ∷ []) ∷ [];
          waiting = [];
        },
      )
      ∷ [];
  accepts = alice ∷ bob ∷ [];
}
unfolding listen
alice_only = refl

listen-Demuxed_example :
    Demuxed alice (arrivals 1500 alice events) (listen 1500 2 events start_listen).0
listen-Demuxed_example = listen-Demuxed alice 1500 2 events (refl, tt)

abbrev gone : List Event
gone = arrived bob (2 ∷ []) ∷ closes bob ∷ []

abbrev closed_bob : Peer
closed_bob = record { free = 1; is_closed = true; channel = queued (2 ∷ []) ∷ []; waiting = [] }

bob-closed : lookup bob (listen 1500 2 gone start_listen).0.peers ≡ some closed_bob
unfolding listen lookup
bob-closed = refl

-- Bob's entry is cleared when alice comes.
listen-reconnect_example :
    let l = (listen 1500 2 gone start_listen).0 in
    let cleared = step 1500 2 (arrived alice (7 ∷ [])) l in
    let l' = step 1500 2 (arrived bob (9 ∷ [])) cleared in
    (step 1500 2 (arrived bob (9 ∷ [])) l ≡ l)
    × (lookup bob l'.peers
        ≡ some
            (record { free = 1; is_closed = false; channel = queued (9 ∷ []) ∷ []; waiting = [] }))
    × (l'.accepts ≡ cleared.accepts ++ (bob ∷ []))
unfolding listen lookup
listen-reconnect_example =
    listen-reconnect 1500 2 gone bob (9 ∷ []) closed_bob (arrived alice (7 ∷ [])) bob-closed refl
      (omega arith) refl
