-- ===== src/Server/Session.antt =====
-- The loop that `serve_linker` of link/src/server.rs runs for each connection (`client main process
-- loop`). Times are numbers on the clock of `Instant`, whose `elapsed` is 0 for a time to come.
-- `on_auth` is the user's: what it answers comes with the event.
pub mod Auth
pub mod Ping
pub mod Notices
use quote_link_rs.Base.{
  ℕ, ◌-◌, List, [], ◌∷◌, ◌++◌, Bool, true, false, Option, none, some, ltb, if◌then◌else◌,
}
use quote_link_rs.Packet.{Request, Packet}
use quote_link_rs.Packet.Enums.{Command, auth, heartbeat}
use quote_link_rs.Packet.Build.{new_heartbeat_response}
use quote_link_rs.Protos.{Text, Message, AuthInfo, AuthRequest}

abbrev pub wait_auth : Text
wait_auth = 119 ∷ 97 ∷ 105 ∷ 116 ∷ 65 ∷ 117 ∷ 116 ∷ 104 ∷ []

-- `format!("{}@{}", name, peer_addr)`.
abbrev pub at_peer : Text → Text → Text
at_peer name peer = name ++ (64 ∷ peer)

pub record Timeouts : Type 0 where
  pub heartbeat_timeout : ℕ
  pub auth_timeout : ℕ

-- How `try_send` into the channel of the callback loop ends.
pub data TrySend : Type 0 where
  taken full closed : TrySend

pub data SessionEvent : Type 0 where
  tick : ℕ → SessionEvent
  exit_signal : SessionEvent
  -- The time, the packet, what `on_auth` answers if it is asked, and how `try_send` ends.
  recv : ℕ → Packet → Bool → TrySend → SessionEvent
  recv_none : SessionEvent

-- What the loop does: it sends a packet to the peer, asks `on_auth`, tells the clients' manager of a
-- client or of its end, hands a packet to the callback loop, at once or from a task of its own, and
-- calls `on_disconnect`.
pub data Effect : Type 0 where
  reply to_callback to_callback_later : Packet → Effect
  asked_auth : ℕ → AuthInfo → Bool → Effect
  signal_new signal_exit : Text → Effect
  called_disconnect : AuthInfo → Effect

pub record Session : Type 0 where
  pub is_auth_ok : Bool
  pub client_name : Text
  pub last_ping_at : ℕ
  pub auth_info : AuthInfo
  pub log : List Effect

-- Why the loop is left.
pub data SessionEnd : Type 0 where
  heartbeat_timed_out auth_timed_out exit_received undecodable recv_closed : SessionEnd

abbrev pub SessionStep : Type 0
SessionStep = Session × Option SessionEnd

abbrev empty_info : AuthInfo
empty_info = record { user_name = []; password = []; client_name = [] }

abbrev pub info_or_default : Option AuthInfo → AuthInfo
info_or_default none = empty_info
info_or_default (some a) = a

abbrev pub logged : Session → List Effect → Session
logged s es = record s { log = s.log ++ es }

unfoldable pub start_session : Text → ℕ → Session
start_session peer now = record {
  is_auth_ok = false;
  client_name = at_peer wait_auth peer;
  last_ping_at = now;
  auth_info = empty_info;
  log = [];
}

unfoldable pub on_tick : Timeouts → Session → ℕ → Option SessionEnd
on_tick t s now =
    if s.is_auth_ok
    then (if ltb t.heartbeat_timeout (now - s.last_ping_at) then some heartbeat_timed_out else none)
    else (if ltb t.auth_timeout (now - s.last_ping_at) then some auth_timed_out else none)

-- The request was decoded: `auth_info` and `client_name` are set before `on_auth` is asked.
unfoldable pub on_auth_request : Text → Session → Request → Bool → AuthRequest → Session
on_auth_request peer s request answer auth_req =
    let info = info_or_default auth_req.auth_info in
    let name = at_peer info.client_name peer in
    let s₁ = record s {
      client_name = name;
      auth_info = info;
      log = s.log ++ (asked_auth request.id info answer ∷ []);
    } in
    if answer
    then record s₁ {
      is_auth_ok = true;
      log = s₁.log ++ (signal_new name ∷ to_callback (Packet.request request) ∷ []);
    }
    else s₁

unfoldable pub on_other : Session → Packet → TrySend → Session
on_other s packet taken = logged s (to_callback packet ∷ [])
on_other s packet full = logged s (to_callback_later packet ∷ [])
on_other s packet closed = s

module _ (m : Message AuthRequest) (peer : Text) where
  abbrev decoded_auth : Session → Request → Bool → Option AuthRequest → SessionStep
  decoded_auth s request answer none = (s, some undecodable)
  decoded_auth s request answer (some auth_req) =
      (on_auth_request peer s request answer auth_req, none)

  unfoldable pub on_request : Session → Request → Bool → TrySend → Command → SessionStep
  unfolding on_auth_request on_other
  on_request s request answer slot heartbeat =
      (logged s (reply (new_heartbeat_response request) ∷ []), none)
  on_request s request answer slot auth = decoded_auth s request answer (m.decode request.body)
  on_request s request answer slot c = (on_other s (Packet.request request) slot, none)

  unfoldable pub on_packet : Session → Packet → Bool → TrySend → SessionStep
  unfolding on_request
  on_packet s (Packet.request request) answer slot =
      on_request s request answer slot request.command
  on_packet s (Packet.response r) answer slot = (on_other s (Packet.response r) slot, none)
  on_packet s (Packet.push p) answer slot = (on_other s (Packet.push p) slot, none)

  unfoldable pub session_step : Timeouts → Session → SessionEvent → SessionStep
  unfolding on_packet on_tick
  session_step t s (tick now) = (s, on_tick t s now)
  session_step t s exit_signal = (s, some exit_received)
  session_step t s (recv now packet answer slot) =
      on_packet (record s { last_ping_at = now }) packet answer slot
  session_step t s recv_none = (s, some recv_closed)

-- After the loop.
unfoldable pub close_session : Session → Session
close_session s =
    if s.is_auth_ok
    then logged s (called_disconnect s.auth_info ∷ signal_exit s.client_name ∷ [])
    else logged s (signal_exit s.client_name ∷ [])

module _ (m : Message AuthRequest) (peer : Text) (t : Timeouts) where
  abbrev pub continue : (Session → SessionStep) → SessionStep → SessionStep
  continue again (s, none) = again s
  continue again (s, some e) = (close_session s, some e)

  -- The events that come; `none` if the loop still waits after them.
  unfoldable pub session_loop : List SessionEvent → Session → SessionStep
  unfolding session_step close_session
  session_loop [] s = (s, none)
  session_loop (e ∷ es) s = continue (session_loop es) (session_step m peer t s e)
