-- ===== src/Client.antt =====
-- The client of link/src/client.rs: its handle. The loops that `link` starts are in the children.
pub mod Pending
pub mod Conn
pub mod Link
mod Tests
use quote_link_rs.Base.{
  ℕ, ◌+◌, ◌%◌, ◌^◌, List, [], ◌∷◌, ◌++◌, Bool, true, false, Option, none, some, Result, ok, err,
  if◌then◌else◌,
}
use quote_link_rs.Channel.{Sender, send}
use quote_link_rs.Packet.{Packet, Response, Push}
use quote_link_rs.Packet.Enums.{Command, ResponseStatus, auth, heartbeat, success}
use quote_link_rs.Packet.Build.{new_request}
use quote_link_rs.Protos.{Message, LinkError}

-- A packet for the peer, and the number of the one who waits for the response, if someone does.
abbrev pub Queued : Type 0
Queued = Packet × Option ℕ

pub record Client : Type 0 where
  pub request_id_gen : ℕ
  pub request_tx : Option (Sender Queued)

pub data ClientError (E : Type 0) : Type 0 where
  not_supported not_init send_timeout send_failed : ClientError E
  response_timeout wait_failed : ClientError E
  link_error : LinkError → ClientError E
  convert_failed : E → ClientError E

-- `AtomicU32::fetch_add(1)` gives the old value and wraps.
abbrev pub next_id : ℕ → ℕ
next_id id = (id + 1) % 2 ^ 32

unfoldable pub new : Client
new = record { request_id_gen = 1; request_tx = none }

abbrev pub is_success : ResponseStatus → Bool
is_success success = true
is_success s = false

-- How the wait for the response ends: in time, with no answer in time, or with a sender that was
-- dropped.
pub data Wait : Type 0 where
  answered : Response → Wait
  timed_out dropped : Wait

module _ {Resp E : Type 0} (link : Message LinkError) (try_from : Response → Result E Resp) where
  abbrev converted : Result E Resp → Result (ClientError E) Resp
  converted (ok resp) = ok resp
  converted (err e) = err (convert_failed e)

  abbrev or_link_error : Option LinkError → Response → Result (ClientError E) Resp
  or_link_error none resp = converted (try_from resp)
  or_link_error (some e) resp = err (link_error e)

  unfoldable pub on_wait : Wait → Result (ClientError E) Resp
  on_wait timed_out = err response_timeout
  on_wait dropped = err wait_failed
  on_wait (answered resp) =
      if is_success resp.status
      then converted (try_from resp)
      else or_link_error (link.decode resp.body) resp

  -- The handle after the request was queued. That the loop is gone is not looked at: the waiter's
  -- sender is dropped then.
  abbrev queued : Client → Sender Queued → Option (Sender Queued) → Client
  queued c tx none = record c { request_id_gen = next_id c.request_id_gen }
  queued c tx (some tx') = record {
    request_id_gen = next_id c.request_id_gen;
    request_tx = some tx';
  }

  -- `in_time` tells whether the queue took the request before `timeout_config.request` ran out.
  unfoldable pub send_request_on :
      Client
      → Command
      → List ℕ
      → ℕ
      → Bool
      → Wait
      → Option (Sender Queued)
      → Client × Result (ClientError E) Resp
  unfolding on_wait
  send_request_on c cmd body waiter in_time wait none = (c, err not_init)
  send_request_on c cmd body waiter in_time wait (some tx) =
      let packet = new_request cmd c.request_id_gen body in
      if in_time
      then (queued c tx (send tx (packet, some waiter)), on_wait wait)
      else (record c { request_id_gen = next_id c.request_id_gen }, err send_timeout)

  unfoldable pub send_request :
      Client → Command → List ℕ → ℕ → Bool → Wait → Client × Result (ClientError E) Resp
  unfolding send_request_on
  send_request c heartbeat body waiter in_time wait = (c, err not_supported)
  send_request c auth body waiter in_time wait = (c, err not_supported)
  send_request c cmd body waiter in_time wait =
      send_request_on c cmd body waiter in_time wait c.request_tx

abbrev after_send : Client → Option (Sender Queued) → Result (ClientError ⊥) Client
after_send c none = err send_failed
after_send c (some tx) = ok (record c { request_tx = some tx })

abbrev send_on : Client → Packet → Option (Sender Queued) → Result (ClientError ⊥) Client
send_on c packet none = err not_init
send_on c packet (some tx) = after_send c (send tx (packet, none))

unfoldable pub send_push : Client → Push → Result (ClientError ⊥) Client
send_push c push = send_on c (Packet.push push) c.request_tx

unfoldable pub send_response : Client → Response → Result (ClientError ⊥) Client
send_response c response = send_on c (Packet.response response) c.request_tx
