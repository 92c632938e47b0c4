-- ===== src/Client/Conn/Limit.antt =====
-- The time limit on being let in, of a connection in link/src/client.rs.
use quote_link_rs.Base.{
  ℕ, ◌-◌, ◌<◌, ◌≡◌, ◌∙◌, refl, ap, List, [], ◌∷◌, ◌++◌, Bool, true, false, ◌||◌, Bool-cases, none,
  some, Option-cases, inl, inr, lt→ltb, ◌==◌, arith,
}
use quote_link_rs.Channel.{send}
use quote_link_rs.Packet.{Packet, Response}
use quote_link_rs.Packet.Enums.{Command, ResponseStatus, auth, heartbeat}
use quote_link_rs.Packet.Build.{new_heartbeat}
use quote_link_rs.Protos.{Message, Heartbeat, SubscribeRequest}
use quote_link_rs.Client.{is_success}
use quote_link_rs.Client.Conn.{
  ConnConf, ConnState, ConnStep, ConnEvent, ctrl_c, exit_signal, conn_done, ping_tick, request,
  id_taken, response, response_closed, ConnEnd, auth_timed_out, timed_out, on_ping_tick,
  on_auth_response, broadcast, on_response, on_packet, conn_step, conn_loop,
}

-- A response that lets the client in.
abbrev lets_in : Command → ResponseStatus → Bool
lets_in auth s = is_success s
lets_in c s = false

abbrev pub admits_of : ConnEvent → Bool
admits_of (response now (Packet.response r) slot) = lets_in r.command r.status
admits_of e = false

abbrev pub admits : List ConnEvent → Bool
admits [] = false
admits (e ∷ es) = admits_of e || admits es

module _ (heartbeats : Message Heartbeat) (subs : Message SubscribeRequest) (conf : ConnConf) where
  -- What counts for the limit has not changed.
  abbrev Same : ConnState → ConnStep → Type 0
  Same s (s', e) = (s'.is_authed ≡ s.is_authed) × (s'.conn_created_at ≡ s.conn_created_at)

  broadcast-Same :
      (s : ConnState) (p : Packet) (slot : Bool) → Same s (broadcast heartbeats subs s p slot)
  unfolding broadcast
  broadcast-Same s p slot = elim (Bool-cases (s.packet_process_tx.room == 0)) [
    | inl shut ↦ rw shut (refl, refl)
    | inr live ↦ elim (Bool-cases slot) [
      | inr none_free ↦ rw (live, none_free) (refl, refl)
      | inl free_slot ↦ elim (Option-cases (send s.packet_process_tx p)) [
        | inl e ↦ rw (live, free_slot, e) (refl, refl)
        | inr (tx, e) ↦ rw (live, free_slot, e) (refl, refl)
      ]
    ]
  ]

  on_response-Same :
      (s : ConnState) (r : Response) (slot : Bool) (c : Command)
      → lets_in c r.status ≡ false
      → Same s (on_response heartbeats subs conf s r slot c)
  unfolding on_response on_auth_response
  on_response-Same s r slot heartbeat h = elim (Option-cases (heartbeats.decode r.body)) [
    | inl e ↦ rw e (refl, refl)
    | inr (b, e) ↦ rw e (refl, refl)
  ]
  on_response-Same s r slot auth h = rw h (refl, refl)
  on_response-Same s r slot c h = broadcast-Same s (Packet.response r) slot

  tick-Same :
      (s : ConnState) (now micros : ℕ) → Same s (on_ping_tick heartbeats subs conf s now micros)
  unfolding on_ping_tick
  tick-Same s now micros = elim (Option-cases (timed_out heartbeats subs conf s now)) [
    | inr (e, h) ↦ rw h (refl, refl)
    | inl h ↦
        elim (Option-cases
          (send s.inner_request_tx (new_heartbeat heartbeats micros s.request_id_gen))) [
            | inl e ↦ rw (h, e) (refl, refl)
            | inr (tx, e) ↦ rw (h, e) (refl, refl)
          ]
  ]

  step-Same :
      (s : ConnState) (e : ConnEvent)
      → admits_of e ≡ false
      → Same s (conn_step heartbeats subs conf s e)
  unfolding conn_step on_packet
  step-Same s ctrl_c h = (refl, refl)
  step-Same s exit_signal h = (refl, refl)
  step-Same s (conn_done true) h = (refl, refl)
  step-Same s (conn_done false) h = (refl, refl)
  step-Same s (ping_tick now micros) h = tick-Same s now micros
  step-Same s id_taken h = (refl, refl)
  step-Same s (request q) h = elim (Option-cases (send s.inner_request_tx q.0)) [
    | inl e ↦ rw e (refl, refl)
    | inr (tx, e) ↦ rw e (refl, refl)
  ]
  step-Same s (response now (Packet.response r) slot) h =
      on_response-Same (record s { last_pong_at = now }) r slot r.command h
  step-Same s (response now (Packet.request q) slot) h =
      broadcast-Same (record s { last_pong_at = now }) (Packet.request q) slot
  step-Same s (response now (Packet.push p) slot) h =
      broadcast-Same (record s { last_pong_at = now }) (Packet.push p) slot
  step-Same s response_closed h = (refl, refl)

  -- A connection that the peer has not let in has come to its end when a tick comes after the time
  -- limit, counted from its start, whatever else came before: other packets do not extend it.
  pub conn_loop-auth_timeout :
      (es : List ConnEvent) (now micros : ℕ) (s : ConnState)
      → s.is_authed ≡ false
      → admits es ≡ false
      → conf.auth_timeout < now - s.conn_created_at
      → (e : ConnEnd) × ((conn_loop heartbeats subs conf (es ++ (ping_tick now micros ∷ [])) s).1
          ≡ some e)
  unfolding conn_loop on_ping_tick timed_out conn_step
  conn_loop-auth_timeout [] now micros s out h late =
      (auth_timed_out, rw (out, lt→ltb conf.auth_timeout (now - s.conn_created_at) late) refl)
  conn_loop-auth_timeout (e ∷ es) now micros s out h late =
      let s' : ConnState = (conn_step heartbeats subs conf s e).0 in
      let h₁ : admits_of e ≡ false = ground (arith, h) in
      let h₂ : admits es ≡ false = ground (arith, h) in
      let (authed_same, start_same) = step-Same s e h₁ in
      elim (Option-cases (conn_step heartbeats subs conf s e).1) [
        | inl n ↦
            let step : conn_step heartbeats subs conf s e ≡ (s', none) = ap (λ o. (s', o)) n in
            rw step
              (conn_loop-auth_timeout es now micros s' (authed_same ∙ out) h₂ (rw start_same late))
        | inr (x, n) ↦
            let step : conn_step heartbeats subs conf s e ≡ (s', some x) = ap (λ o. (s', o)) n in
            (x, rw step refl)
      ]
