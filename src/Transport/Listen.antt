-- ===== src/Transport/Listen.antt =====
-- `listen_at` of link/src/transport/transport.rs: datagrams are handed to one task for each address
-- that they come from, and a new address is a new connection. `accept_new_conn` returns at once and
-- never with an error: it only spawns a task. `channel` holds what came into the channel of a
-- connection, and `waiting` what tasks hold that wait for a slot of it; the program keeps the channel's
-- sender in that place. The address that is bound, and logging, are left out.
pub mod Peers
pub mod Inbox
pub mod Demux
pub mod Reconnect
mod Tests
use quote_link_rs.Base.{
  ℕ, zero, suc, ◌+◌, ◌-◌, List, [], ◌∷◌, ◌++◌, Bool, true, false, ◌&&◌, Option, none, some, take,
  text_eq, ◌==◌, if◌then◌else◌,
}
use quote_link_rs.Transport.Token.{SocketAddr}

abbrev pub addr_eq : SocketAddr → SocketAddr → Bool
addr_eq (SocketAddr.v4 o p) (SocketAddr.v4 o' p') = text_eq o o' && p == p'
addr_eq (SocketAddr.v6 o p) (SocketAddr.v6 o' p') = text_eq o o' && p == p'
addr_eq a b = false

-- A datagram in the channel: put there by the loop, or by a task that has waited for a slot.
pub data Handed : Type 0 where
  queued delayed : List ℕ → Handed

-- A channel: the slots that are free, and whether the receiver is gone.
pub record Peer : Type 0 where
  pub free : ℕ
  pub is_closed : Bool
  pub channel : List Handed
  pub waiting : List (List ℕ)

-- `HashMap<SocketAddr, mpsc::Sender<Vec<u8>>>`.
abbrev pub PeerMap : Type 0
PeerMap = List (SocketAddr × Peer)

pub record Listener : Type 0 where
  pub peers : PeerMap
  -- The connections that were sent to `accept_tx`.
  pub accepts : List SocketAddr

pub data Event : Type 0 where
  ticked recv_failed : Event
  arrived : SocketAddr → List ℕ → Event
  -- Of the task of an address: it has ended, or has taken a number of datagrams.
  closes : SocketAddr → Event
  takes : SocketAddr → ℕ → Event
  -- One of the tasks that wait is run, no matter which: it sends, or finds the receiver gone.
  resumes : SocketAddr → ℕ → Event

unfoldable pub lookup : SocketAddr → PeerMap → Option Peer
lookup a [] = none
lookup a ((b, p) ∷ m) = if addr_eq b a then some p else lookup a m

-- A change of the one entry.
unfoldable pub update : SocketAddr → (Peer → Peer) → PeerMap → PeerMap
update a f [] = []
update a f ((b, p) ∷ m) = if addr_eq b a then (b, f p) ∷ m else (b, p) ∷ update a f m

unfoldable pub retain_open : PeerMap → PeerMap
retain_open [] = []
retain_open ((b, p) ∷ m) = if p.is_closed then retain_open m else (b, p) ∷ retain_open m

-- `try_send`, with what the loop does when the channel is full.
unfoldable pub hand_over : List ℕ → Peer → Peer
hand_over d p =
    if p.free == 0
    then record p { waiting = p.waiting ++ (d ∷ []) }
    else record p { free = p.free - 1; channel = p.channel ++ (queued d ∷ []) }

-- The task at a place, and the others.
abbrev behind : List ℕ → Option (List ℕ × List (List ℕ)) → Option (List ℕ × List (List ℕ))
behind d none = none
behind d (some (d', ds)) = some (d', d ∷ ds)

abbrev pub pick : ℕ → List (List ℕ) → Option (List ℕ × List (List ℕ))
pick k [] = none
pick zero (d ∷ ds) = some (d, ds)
pick (suc k) (d ∷ ds) = behind d (pick k ds)

-- `t.send(data).await` of a task that waits: it goes on waiting while no slot is free.
abbrev pub send_delayed : Peer → Option (List ℕ × List (List ℕ)) → Peer
send_delayed p none = p
send_delayed p (some (d, ds)) =
    if p.is_closed
    then record p { waiting = ds }
    else (if p.free == 0
        then p
        else record p { free = p.free - 1; channel = p.channel ++ (delayed d ∷ []); waiting = ds })

unfoldable pub resume : ℕ → Peer → Peer
resume k p = send_delayed p (pick k p.waiting)

-- The channel of a new connection, with its first datagram.
unfoldable pub new_peer : ℕ → List ℕ → Peer
unfolding hand_over
new_peer recv_chan_size d =
    hand_over d (record { free = recv_chan_size; is_closed = false; channel = []; waiting = [] })

unfoldable pub accept : ℕ → SocketAddr → List ℕ → Listener → Listener
unfolding retain_open new_peer
accept recv_chan_size from d l = record {
  peers = (from, new_peer recv_chan_size d) ∷ retain_open l.peers;
  accepts = l.accepts ++ (from ∷ []);
}

abbrev pub on_lookup : ℕ → SocketAddr → List ℕ → Listener → Option Peer → Listener
on_lookup recv_chan_size from d l none = accept recv_chan_size from d l
on_lookup recv_chan_size from d l (some p) =
    if p.is_closed then l else record l { peers = update from (hand_over d) l.peers }

-- `tokio` panics on a channel of size 0, so the first `try_send` has a slot.
unfoldable pub step : ℕ → ℕ → Event → Listener → Listener
unfolding lookup update retain_open hand_over accept resume
step buffer_size recv_chan_size ticked l = record l { peers = retain_open l.peers }
step buffer_size recv_chan_size recv_failed l = l
step buffer_size recv_chan_size (arrived from d) l =
    on_lookup recv_chan_size from (take buffer_size d) l (lookup from l.peers)
step buffer_size recv_chan_size (closes a) l = record l {
  peers = update a (λ p. record p { is_closed = true }) l.peers;
}
step buffer_size recv_chan_size (takes a n) l = record l {
  peers = update a (λ p. record p { free = p.free + n }) l.peers;
}
step buffer_size recv_chan_size (resumes a k) l = record l { peers = update a (resume k) l.peers }

-- The loop; `true` says that it was left, by an error of the socket.
unfoldable pub listen : ℕ → ℕ → List Event → Listener → Listener × Bool
unfolding step
listen buffer_size recv_chan_size [] l = (l, false)
listen buffer_size recv_chan_size (recv_failed ∷ events) l = (l, true)
listen buffer_size recv_chan_size (event ∷ events) l =
    listen buffer_size recv_chan_size events (step buffer_size recv_chan_size event l)

-- As the loop starts.
abbrev pub start_listen : Listener
start_listen = record { peers = []; accepts = [] }
