-- ===== src/Server/Tests.antt =====
-- Runs of the server's loops.
use quote_link_rs.Base.{ℕ, ◌≡◌, refl, List, [], ◌∷◌, true, false, none, some}
use quote_link_rs.Packet.{Request}
use quote_link_rs.Packet.Enums.{auth}
use quote_link_rs.Packet.Samples
use quote_link_rs.Protos.{Text, Message, AuthInfo, AuthRequest}
use quote_link_rs.Server.Session.{
  Timeouts, SessionEvent, recv, recv_none, taken, at_peer, start_session, session_loop, recv_closed,
  on_auth_request, on_request, on_packet, close_session,
}
use quote_link_rs.Server.Session.Auth.{Closed, session_loop-Closed}
use quote_link_rs.Server.Session.Ping.{Answered, answers, session_loop-Answered}
use quote_link_rs.Server.Clients.{lookup, MgmtEvent, new_client, exit_client, send, mgmt_loop}
use quote_link_rs.Server.Clients.View.{expected, Distinct, mgmt_loop-Shows}
use quote_link_rs.Server.Callback.{
  CallbackEvent, recved, to_send, lagged, send_closed, start_callback, callback_loop,
}
use quote_link_rs.Server.Callback.{HandedOver, offered, callback_loop-HandedOver}
use quote_link_rs.Server.Session.Notices.{notices, auth_packet}
use quote_link_rs.Server.Stale.{session_loop-stale}

-- The name of the client is the body.
abbrev named : List ℕ → AuthInfo
named body = record { user_name = []; password = []; client_name = body }

abbrev by_name : Message AuthRequest
by_name = record {
  encode_to_vec = λ q. [];
  decode = λ body. some (record { auth_info = some (named body) });
}

abbrev limits : Timeouts
limits = record { heartbeat_timeout = 3; auth_timeout = 10 }

abbrev peer : Text
peer = 49 ∷ []

abbrev ask : ℕ → Request
ask name = record {
  reserved = 0;
  command = auth;
  id = 1;
  timeout = 5;
  body_len = 1;
  body = name ∷ [];
}

-- A heartbeat, two requests to be let in, of which the second fails, and the end.
abbrev session_events : List SessionEvent
session_events =
    recv 1 Samples.ping false taken
    ∷ recv 2 (auth_packet (ask 65)) true taken
    ∷ SessionEvent.tick 3
    ∷ recv 4 (auth_packet (ask 66)) false taken
    ∷ recv_none
    ∷ []

session_loop-Closed_example :
    Closed (session_loop by_name peer limits session_events (start_session peer 0))
session_loop-Closed_example = session_loop-Closed by_name peer limits session_events 0

session_loop-Answered_example :
    Answered by_name peer limits
      (answers session_events)
      (session_loop by_name peer limits session_events (start_session peer 0))
session_loop-Answered_example = session_loop-Answered by_name peer limits session_events 0

-- It was let in under 65, and refused under 66.
session_loop-stale_example :
    let log = (session_loop by_name peer limits session_events (start_session peer 0)).0.log in
    (notices 7 log
      ≡ new_client (at_peer (65 ∷ []) peer) 7 ∷ exit_client (at_peer (66 ∷ []) peer) ∷ [])
    × (lookup (at_peer (65 ∷ []) peer) (mgmt_loop (notices 7 log) []).0 ≡ some 7)
unfolding session_loop start_session on_auth_request on_request on_packet close_session
session_loop-stale_example =
    session_loop-stale by_name peer limits session_events 0 7 recv_closed (at_peer (65 ∷ []) peer)
      [] [] refl refl refl

abbrev mgmt_events : List MgmtEvent
mgmt_events =
    new_client (65 ∷ []) 1
    ∷ new_client (66 ∷ []) 2
    ∷ send Samples.tick
    ∷ new_client (65 ∷ []) 3
    ∷ exit_client (66 ∷ [])
    ∷ []

mgmt_loop-Shows_example :
    ((k : Text) → lookup k (mgmt_loop mgmt_events []).0 ≡ expected mgmt_events (λ k'. none) k)
    × Distinct (mgmt_loop mgmt_events []).0
mgmt_loop-Shows_example = mgmt_loop-Shows mgmt_events

abbrev callback_events : List CallbackEvent
callback_events =
    to_send Samples.tick
    ∷ recved (some Samples.ping)
    ∷ lagged
    ∷ to_send Samples.ping
    ∷ send_closed
    ∷ []

callback_loop-HandedOver_example :
    HandedOver by_name peer
      (offered callback_events)
      (callback_loop by_name peer callback_events (start_callback peer))
callback_loop-HandedOver_example = callback_loop-HandedOver by_name peer callback_events
