-- ===== src/Client/Link.antt =====
-- The loop of `link` in link/src/client.rs that connects again (`'conn`). Each attempt is given by
-- how it ends. `retry_times` is a `u32`.
pub mod Retry
use quote_link_rs.Base.{
  ℕ, suc, ◌+◌, ◌%◌, ◌^◌, ◌<◌, ◌≤◌, ◌≡◌, ◌∙◌, refl, sym, ap, map, length, List, [], ◌∷◌, ◌++◌,
  append-nil, append_assoc, Bool, true, false, ◌&&◌, Option, none, some, ltb, leb, lt→leb, lt→ltb,
  le→ltb, le→leb, if◌then◌else◌, replicate, arith,
}
use native.Mathlib.Decide.{dec_lt}
use quote_link_rs.Client.{next_id}
use quote_link_rs.Client.Conn.{ConnEnd, finished, exited}

-- An attempt: no connection id could be made, or a connection came to its end. The user's requests
-- take ids too: as many before the attempt takes one for its authentication, and as many during the
-- connection, with those of its heartbeats and subscriptions.
pub data Attempt : Type 0 where
  cid_failed : Attempt
  conn_ended : ℕ → ConnEnd → ℕ → Attempt

-- `ClientConnEvent`.
pub data ConnNotice : Type 0 where
  conn_error disconnected_forever : ConnNotice

-- `auth_ids` is kept to speak of the ids of the authentications; the program has no such variable.
pub record LinkState : Type 0 where
  pub retry_times : ℕ
  pub request_id_gen : ℕ
  pub auth_ids : List ℕ
  pub notices : List ConnNotice

-- The result of `link`: `Ok(())`, or an error after the notice that it is for good.
pub data LinkEnd : Type 0 where
  done gave_up : LinkEnd

abbrev pub notice : LinkState → ConnNotice → LinkState
notice s n = record s { notices = s.notices ++ (n ∷ []) }

-- `fetch_add` by others, a number of times.
abbrev pub take_ids : ℕ → LinkState → LinkState
take_ids n s = record s { request_id_gen = (s.request_id_gen + n) % 2 ^ 32 }

-- The connection until its end: the packet of `new_auth` has the next id.
abbrev pub authenticate : LinkState → LinkState
authenticate s = record s {
  request_id_gen = next_id s.request_id_gen;
  auth_ids = s.auth_ids ++ (s.request_id_gen ∷ []);
}

abbrev pub connected : ℕ → ℕ → LinkState → LinkState
connected before during s = take_ids during (authenticate (take_ids before s))

-- After a connection that failed.
abbrev pub failed : LinkState → LinkState
failed s = record s { retry_times = (s.retry_times + 1) % 2 ^ 32; request_id_gen = 1 }

abbrev pub exceeds : ℕ → ℕ → Bool
exceeds max_retry_times retry_times = ltb 0 max_retry_times && leb max_retry_times retry_times

abbrev pub on_end :
    ℕ → (LinkState → LinkState × Option LinkEnd) → ConnEnd → LinkState → LinkState × Option LinkEnd
on_end max_retry_times again finished s = (s, some done)
on_end max_retry_times again exited s = (notice s disconnected_forever, some done)
on_end max_retry_times again e s =
    if exceeds max_retry_times (failed s).retry_times
    then (notice (failed s) disconnected_forever, some gave_up)
    else again (notice (failed s) conn_error)

unfoldable pub link_loop : ℕ → List Attempt → LinkState → LinkState × Option LinkEnd
link_loop max_retry_times [] s = (s, none)
link_loop max_retry_times (cid_failed ∷ as') s = (notice s disconnected_forever, some gave_up)
link_loop max_retry_times (conn_ended before e during ∷ as') s =
    on_end max_retry_times (link_loop max_retry_times as') e (connected before during s)

abbrev pub start_link : LinkState
start_link = record { retry_times = 0; request_id_gen = 1; auth_ids = []; notices = [] }
