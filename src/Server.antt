-- ===== src/Server.antt =====
-- The server of link/src/server.rs: its handle, the loop that waits for its tasks and accepts
-- connections, and, in the children, the loops that it starts. A task that is spawned is an effect
-- in a log. A value that is sent with a failure that is only logged is an effect too, whether or
-- not it arrives.
pub mod Session
pub mod Clients
pub mod Callback
pub mod Stale
mod Tests
use quote_link_rs.Base.{
  ℕ, List, [], ◌∷◌, ◌++◌, Bool, true, false, Option, none, some, Result, ok, err,
}
use quote_link_rs.Channel.{Sender, send}
use quote_link_rs.Packet.{Packet}
use quote_link_rs.Packet.Enums.{Command, MsgType}
use quote_link_rs.Packet.Build.{quotation_push}
use quote_link_rs.Protos.{Text, Message}

pub data ServerSignal : Type 0 where
  close_client : Text → ServerSignal
  shutdown : ServerSignal

-- The handle: its two senders, which `serve_linker` sets.
pub record Server : Type 0 where
  pub send_tx : Option (Sender Packet)
  pub signal_tx : Option (Sender ServerSignal)

pub data ServerError : Type 0 where
  not_init send_failed : ServerError

unfoldable pub new : Server
new = record { send_tx = none; signal_tx = none }

unfoldable pub get_sender : Server → Result ServerError (Sender Packet)
get_sender s = of s.send_tx
  where
    of : Option (Sender Packet) → Result ServerError (Sender Packet)
    of none = err not_init
    of (some tx) = ok tx

-- The handle after a value was sent.
abbrev sent {ℓ} : {A : Type ℓ} → (Sender A → Server) → Option (Sender A) → Result ServerError Server
sent put none = err send_failed
sent put (some tx) = ok (put tx)

unfoldable pub send_packet : Server → Packet → Result ServerError Server
send_packet s packet = on s.send_tx
  where
    on : Option (Sender Packet) → Result ServerError Server
    on none = err not_init
    on (some tx) = sent (λ tx'. record s { send_tx = some tx' }) (send tx packet)

unfoldable pub send_signal : Server → ServerSignal → Result ServerError Server
send_signal s signal = on s.signal_tx
  where
    on : Option (Sender ServerSignal) → Result ServerError Server
    on none = err not_init
    on (some tx) = sent (λ tx'. record s { signal_tx = some tx' }) (send tx signal)

unfoldable pub send_quotation :
    {A : Type 0} → Message A → Server → A → Command → MsgType → Result ServerError Server
unfolding send_packet
send_quotation m s quotation cmd msg_type = send_packet s (quotation_push m quotation cmd msg_type)

-- What the loop of `serve_linker` waits for: the interrupt, the end of the task that listens and of
-- the task that manages the clients (with whether each was without an error), and a connection.
pub data ServeEvent : Type 0 where
  ctrl_c : ServeEvent
  listen_done clients_done : Bool → ServeEvent
  accepted : Text → ServeEvent

-- The addresses of the peers for which tasks were started, and the result once the loop is left.
unfoldable pub serve_loop :
    List ServeEvent → List Text → List Text × Option (Result (Unit {0}) (Unit {0}))
serve_loop [] started = (started, none)
serve_loop (ctrl_c ∷ es) started = (started, some (ok tt))
serve_loop (listen_done true ∷ es) started = (started, some (ok tt))
serve_loop (listen_done false ∷ es) started = (started, some (err tt))
serve_loop (clients_done true ∷ es) started = (started, some (ok tt))
serve_loop (clients_done false ∷ es) started = (started, some (err tt))
serve_loop (accepted peer ∷ es) started = serve_loop es (started ++ (peer ∷ []))
