-- ===== src/Client/Tests.antt =====
-- Runs of the client's loops.
use quote_link_rs.Base.{
  ℕ, ◌+◌, ◌≡◌, ◌≤◌, refl, List, [], ◌∷◌, ◌++◌, true, false, none, some, All, length, replicate,
  arith,
}
use quote_link_rs.Packet.{Packet, Response}
use quote_link_rs.Packet.Enums.{auth, success, cmd_sub_depth, cmd_sub_trades}
use quote_link_rs.Packet.Samples
use quote_link_rs.Protos.{Message, Heartbeat, SubscribeRequest}
use quote_link_rs.Client.Pending.{Pending, PendingEvent, sent, received, pending_run}
use quote_link_rs.Client.Pending.Match.{answers, pending_run-answers}
use quote_link_rs.Client.Conn.{
  ConnEvent, response, ping_tick, conn_loop, ConnConf, ConnState, ConnEnd, connect_failed,
  auth_refused, heartbeat_timed_out, on_auth_response,
}
use quote_link_rs.Client.Conn.Limit.{conn_loop-auth_timeout}
use quote_link_rs.Client.Conn.Admitted.{subscriptions, on_auth_response-success}
use quote_link_rs.Client.Link.{
  conn_ended, cid_failed, LinkState, gave_up, link_loop, start_link, conn_error,
  disconnected_forever,
}
use quote_link_rs.Client.Link.Retry.{Ended, attempts, link_loop-gives_up, link_loop-endless}

abbrev nothing_pending : Pending
nothing_pending = record { requests = []; calls = [] }

-- A request waits, and its response comes twice.
abbrev pending_events : List PendingEvent
pending_events =
    sent (Samples.ping, some 9)
    ∷ received Samples.pong
    ∷ received Samples.pong
    ∷ received Samples.tick
    ∷ []

abbrev IsFirst : ℕ × ℕ → Type 0
IsFirst (id, waiter) = id ≡ 1

pending_run-answers_example :
    All IsFirst (answers (pending_run pending_events nothing_pending).calls)
    × (length (answers (pending_run pending_events nothing_pending).calls)
          + length (pending_run pending_events nothing_pending).requests
        ≤ 1)
pending_run-answers_example = pending_run-answers IsFirst pending_events (refl, tt)

-- Two connections that failed; the user took two ids before the second, and the first took seven.
abbrev failures : List Ended
failures =
    record { before = 0; end = connect_failed; during = 7 }
    ∷ record { before = 2; end = auth_refused; during = 1 }
    ∷ []

abbrev last_end : Ended
last_end = record { before = 0; end = heartbeat_timed_out; during = 9 }

link_loop-gives_up_example :
    (s : LinkState) × (link_loop 3
        (attempts failures ++ (conn_ended 0 heartbeat_timed_out 9 ∷ cid_failed ∷ []))
        start_link
      ≡ (s, some gave_up))
    × (s.notices ≡ replicate 2 conn_error ++ (disconnected_forever ∷ []))
    × (s.retry_times ≡ 3)
link_loop-gives_up_example =
    link_loop-gives_up failures last_end (cid_failed ∷ []) (tt, (tt, tt)) tt (omega arith)

link_loop-endless_example :
    (s : LinkState) × (link_loop 0 (attempts failures) start_link ≡ (s, none))
    × (s.notices ≡ replicate 2 conn_error)
    × (s.auth_ids ≡ 1 ∷ 3 ∷ [])
link_loop-endless_example = link_loop-endless failures (tt, (tt, tt)) (omega arith)

abbrev empty_heartbeat : Message Heartbeat
empty_heartbeat = record { encode_to_vec = λ h. []; decode = λ bs. none }

abbrev empty_subscribe : Message SubscribeRequest
empty_subscribe = record { encode_to_vec = λ h. []; decode = λ bs. none }

abbrev two_subscribes : ConnConf
two_subscribes = record {
  auth_timeout = 10;
  heartbeat_timeout = 3;
  subscribes =
      record { cmd = cmd_sub_depth; sub_all = true; span_index = 0 }
      ∷ record { cmd = cmd_sub_trades; sub_all = false; span_index = 1 }
      ∷ [];
}

abbrev fresh : ConnState
fresh = record {
  is_authed = false;
  conn_created_at = 0;
  last_pong_at = 1;
  request_id_gen = 2;
  inner_request_tx = record { room = 4; sent = [] };
  packet_process_tx = record { room = 4; sent = [] };
  pending = nothing_pending;
}

abbrev let_in : Response
let_in = record { reserved = 0; command = auth; id = 1; status = success; body_len = 0; body = [] }

on_auth_response-success_example :
    on_auth_response empty_heartbeat empty_subscribe two_subscribes fresh let_in ≡ (
      record fresh {
        is_authed = true;
        request_id_gen = 4;
        packet_process_tx = record { room = 3; sent = Packet.response let_in ∷ [] };
        inner_request_tx = record {
          room = 2;
          sent = subscriptions empty_subscribe two_subscribes.subscribes 2;
        };
      },
      none,
    )
on_auth_response-success_example =
    on_auth_response-success empty_heartbeat empty_subscribe two_subscribes fresh let_in refl
      (λ h. absurd (omega arith)) (omega arith) (omega arith)

-- A push and a tick come, and then a tick after the time limit.
abbrev early_events : List ConnEvent
early_events = response 3 Samples.tick true ∷ ping_tick 4 100 ∷ []

conn_loop-auth_timeout_example :
    (e : ConnEnd) × ((conn_loop empty_heartbeat empty_subscribe two_subscribes
        (early_events ++ (ping_tick 11 200 ∷ []))
        fresh).1
      ≡ some e)
conn_loop-auth_timeout_example =
    conn_loop-auth_timeout empty_heartbeat empty_subscribe two_subscribes early_events 11 200 fresh
      refl refl (omega arith)
