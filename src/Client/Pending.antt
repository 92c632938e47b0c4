-- ===== src/Client/Pending.antt =====
-- The requests that wait for a response in link/src/client.rs, and the task that hands the received
-- packets to the user. The `HashMap` from ids to the senders of the waiters is an association
-- list, and a waiter's sender a number.
pub mod Match
use quote_link_rs.Base.{
  ℕ, ◌+◌, ◌≤◌, ◌≡◌, ◌∙◌, refl, sym, ap, List, [], ◌∷◌, ◌++◌, Bool, true, false, Bool-cases, inl,
  inr, Option, none, some, Option-cases, length, All, arith, ◌==◌, ==_iff, if◌then◌else◌,
}
use quote_link_rs.Packet.{Packet, Request, Response, Push}
use quote_link_rs.Packet.Enums.{Command, ResponseStatus, auth, success}
use quote_link_rs.Client.{Queued, is_success}

abbrev pub Requests : Type 0
Requests = List (ℕ × ℕ)

unfoldable pub lookup : ℕ → Requests → Option ℕ
lookup k [] = none
lookup k ((id, w) ∷ m) = if k == id then some w else lookup k m

unfoldable pub remove : ℕ → Requests → Requests
remove k [] = []
remove k ((id, w) ∷ m) = let rest = remove k m in if k == id then rest else ((id, w) ∷ rest)

unfoldable pub insert : ℕ → ℕ → Requests → Requests
unfolding remove
insert k w m = (k, w) ∷ remove k m

-- The calls of the user's consumer, and the answers to those who wait.
pub data Call : Type 0 where
  on_request : Request → Call
  on_response : Response → Call
  on_push : Push → Call
  on_connected : Call
  answer : ℕ → Response → Call

pub record Pending : Type 0 where
  pub requests : Requests
  pub calls : List Call

abbrev pub called : Pending → Call → Pending
called p c = record p { calls = p.calls ++ (c ∷ []) }

-- A request that was sent on: its waiter is kept. The time limit on the lock is left out.
unfoldable pub save_waiter : Queued → Pending → Pending
unfolding insert
save_waiter (Packet.request request, some w) p = record p {
  requests = insert request.id w p.requests;
}
save_waiter q p = p

abbrev unmatched : Pending → Response → Command → Pending
unmatched p response auth =
    if is_success response.status then called p on_connected else called p (on_response response)
unmatched p response c = called p (on_response response)

unfoldable pub on_waiter : Pending → Response → Option ℕ → Pending
unfolding remove
on_waiter p response none = unmatched p response response.command
on_waiter p response (some w) =
    called (record p { requests = remove response.id p.requests }) (answer w response)

-- One packet in the task.
unfoldable pub process_packet : Packet → Pending → Pending
unfolding on_waiter lookup
process_packet (Packet.request request) p = called p (on_request request)
process_packet (Packet.response response) p = on_waiter p response (lookup response.id p.requests)
process_packet (Packet.push push) p = called p (on_push push)

-- Requests that are sent, and packets that come, as they follow one another.
pub data PendingEvent : Type 0 where
  sent : Queued → PendingEvent
  received : Packet → PendingEvent

unfoldable pub pending_run : List PendingEvent → Pending → Pending
unfolding save_waiter process_packet
pending_run [] p = p
pending_run (sent q ∷ es) p = pending_run es (save_waiter q p)
pending_run (received packet ∷ es) p = pending_run es (process_packet packet p)
