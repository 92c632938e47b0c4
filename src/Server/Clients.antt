-- ===== src/Server/Clients.antt =====
-- The map of the clients that `conn_mgmt_task` in link/src/server.rs keeps. The `HashMap` is an
-- association list, whose order stands for the unspecified order of its values. The two senders of
-- a client are named by one number, that of its connection.
pub mod View
use quote_link_rs.Base.{
  ℕ, List, [], ◌∷◌, ◌++◌, Bool, true, false, Option, none, some, map, length, text_eq,
  if◌then◌else◌,
}
use quote_link_rs.Packet.{Packet}
use quote_link_rs.Protos.{Text}
use quote_link_rs.Server.{ServerSignal, close_client, shutdown}

abbrev pub Clients : Type 0
Clients = List (Text × ℕ)

unfoldable pub lookup : Text → Clients → Option ℕ
lookup k [] = none
lookup k ((a, c) ∷ m) = if text_eq k a then some c else lookup k m

unfoldable pub remove : Text → Clients → Clients
remove k [] = []
remove k ((a, c) ∷ m) = let rest = remove k m in if text_eq k a then rest else ((a, c) ∷ rest)

unfoldable pub insert : Text → ℕ → Clients → Clients
unfolding remove
insert k c m = (k, c) ∷ remove k m

pub data MgmtEvent : Type 0 where
  signal : ServerSignal → MgmtEvent
  new_client : Text → ℕ → MgmtEvent
  exit_client : Text → MgmtEvent
  interval : MgmtEvent
  send : Packet → MgmtEvent

-- What the task does: it signals a connection to close, hands a packet to one, and reports the
-- number of clients.
pub data MgmtEffect : Type 0 where
  signalled_exit : ℕ → MgmtEffect
  broadcast : ℕ → Packet → MgmtEffect
  gauge : ℕ → MgmtEffect

abbrev closing : Option ℕ → List MgmtEffect
closing none = []
closing (some c) = signalled_exit c ∷ []

-- The clients and the effects, and whether the task goes on.
unfoldable pub mgmt_step : Clients → MgmtEvent → (Clients × List MgmtEffect) × Bool
unfolding lookup remove insert
mgmt_step m (signal (close_client name)) = ((remove name m, closing (lookup name m)), true)
mgmt_step m (signal shutdown) = ((m, []), false)
mgmt_step m (new_client name c) = ((insert name c m, []), true)
mgmt_step m (exit_client name) = ((remove name m, []), true)
mgmt_step m interval = ((m, gauge (length m) ∷ []), true)
mgmt_step m (send packet) = ((m, map (λ (e : Text × ℕ). broadcast e.1 packet) m), true)

abbrev pub then_run :
    (Clients → Clients × List MgmtEffect)
    → (Clients × List MgmtEffect) × Bool
    → Clients × List MgmtEffect
then_run again ((m, es), true) = let (m', es') = again m in (m', es ++ es')
then_run again ((m, es), false) = (m, es)

unfoldable pub mgmt_loop : List MgmtEvent → Clients → Clients × List MgmtEffect
unfolding mgmt_step
mgmt_loop [] m = (m, [])
mgmt_loop (e ∷ es) m = then_run (mgmt_loop es) (mgmt_step m e)
