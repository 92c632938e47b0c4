-- ===== src/Server/Session/Ping.antt =====
-- The heartbeats that a session in link/src/server.rs answers.
use quote_link_rs.Base.{
  ℕ, ◌≡◌, ◌∙◌, refl, sym, ap, List, [], ◌∷◌, ◌++◌, append-nil, append_assoc, Bool, none, some,
  Option-cases, inl, inr, arith, true, false,
}
use quote_link_rs.Packet.{Request, Packet}
use quote_link_rs.Packet.Enums.{Command, auth, heartbeat, success}
use quote_link_rs.Packet.Build.{new_heartbeat_response}
use quote_link_rs.Protos.{Text, Message, AuthRequest}
use quote_link_rs.Server.Session.{
  Timeouts, TrySend, taken, full, closed, SessionEvent, tick, exit_signal, recv, recv_none, Effect,
  reply, to_callback, to_callback_later, asked_auth, signal_new, signal_exit, called_disconnect,
  Session, SessionStep, info_or_default, start_session, on_other, on_auth_request, on_request,
  on_packet, session_step, close_session, session_loop,
}

-- What the peer was sent.
abbrev pub replies : List Effect → List Packet
replies [] = []
replies (reply p ∷ es) = p ∷ replies es
replies (e ∷ es) = replies es

-- A heartbeat is answered by a response that has its id and its body, with their numbers written out.
abbrev answer_to : Request → Command → List Packet
answer_to q heartbeat =
    Packet.response (record {
      reserved = 0;
      command = heartbeat;
      id = q.id;
      status = success;
      body_len = q.body_len;
      body = q.body;
    })
    ∷ []
answer_to q c = []

-- The answers to the heartbeats among the events, whatever else comes between them.
abbrev pub answers_of : SessionEvent → List Packet
answers_of (recv now (Packet.request q) answer slot) = answer_to q q.command
answers_of e = []

abbrev pub answers : List SessionEvent → List Packet
answers [] = []
answers (e ∷ es) = answers_of e ++ answers es

replies-append : (xs ys : List Effect) → replies (xs ++ ys) ≡ replies xs ++ replies ys
replies-append [] ys = refl
replies-append (reply p ∷ xs) ys = ap (λ ps. p ∷ ps) (replies-append xs ys)
replies-append (_ ∷ xs) ys = replies-append xs ys

-- Effects that send the peer nothing.
silent : (log es : List Effect) → replies es ≡ [] → replies (log ++ es) ≡ replies log ++ []
silent log es h = replies-append log es ∙ ap (λ ps. replies log ++ ps) h

unchanged : (log : List Effect) → replies log ≡ replies log ++ []
unchanged log = sym (append-nil (replies log))

on_other-replies :
    (s : Session) (p : Packet) (slot : TrySend)
    → replies (on_other s p slot).log ≡ replies s.log ++ []
unfolding on_other
on_other-replies s p taken = silent s.log (to_callback p ∷ []) refl
on_other-replies s p full = silent s.log (to_callback_later p ∷ []) refl
on_other-replies s p closed = unchanged s.log

on_auth_request-replies :
    (peer : Text) (s : Session) (request : Request) (answer : Bool) (q : AuthRequest)
    → replies (on_auth_request peer s request answer q).log ≡ replies s.log ++ []
unfolding on_auth_request
on_auth_request-replies peer s request true q =
    silent (s.log ++ (asked ∷ [])) (signal_new _ ∷ to_callback _ ∷ []) refl
    ∙ ap (λ ps. ps ++ []) (silent s.log (asked ∷ []) refl ∙ append-nil (replies s.log))
  where
    asked : Effect
    asked = asked_auth request.id (info_or_default q.auth_info) true
on_auth_request-replies peer s request false q =
    silent s.log (asked_auth request.id (info_or_default q.auth_info) false ∷ []) refl

close_session-replies : (s : Session) → replies (close_session s).log ≡ replies s.log ++ []
unfolding close_session
close_session-replies s = ground (
  arith,
  silent s.log (called_disconnect s.auth_info ∷ signal_exit s.client_name ∷ []) refl,
  silent s.log (signal_exit s.client_name ∷ []) refl,
)

module _ (m : Message AuthRequest) (peer : Text) (t : Timeouts) where
  step-replies :
      (s : Session) (e : SessionEvent)
      → replies (session_step m peer t s e).0.log ≡ replies s.log ++ answers_of e
  unfolding session_step on_packet on_request new_heartbeat_response
  step-replies s (tick now) = unchanged s.log
  step-replies s exit_signal = unchanged s.log
  step-replies s recv_none = unchanged s.log
  step-replies s (recv now (Packet.response p) answer slot) =
      on_other-replies (record s { last_ping_at = now }) (Packet.response p) slot
  step-replies s (recv now (Packet.push p) answer slot) =
      on_other-replies (record s { last_ping_at = now }) (Packet.push p) slot
  step-replies s (recv now (Packet.request q) answer slot) =
      by_command (record s { last_ping_at = now }) q.command
    where
      by_command :
          (s : Session) (c : Command)
          → replies (on_request m peer s q answer slot c).0.log ≡ replies s.log ++ answer_to q c
      by_command s heartbeat = replies-append s.log (reply _ ∷ [])
      by_command s auth = elim (Option-cases (m.decode q.body)) [
        | inl e ↦ rw e (unchanged s.log)
        | inr (a, e) ↦ rw e (on_auth_request-replies peer s q answer a)
      ]
      by_command s c = on_other-replies s (Packet.request q) slot

  -- The replies so far and those to come, if the loop still waits after all events.
  abbrev pub Answered : List Packet → SessionStep → Type 0
  Answered ps (s, none) = replies s.log ≡ ps
  Answered ps (s, some e) = (rest : List Packet) × (ps ≡ replies s.log ++ rest)

  loop-Answered :
      (es : List SessionEvent) (s : Session)
      → Answered (replies s.log ++ answers es) (session_loop m peer t es s)
  unfolding session_loop
  loop-Answered [] s = unchanged s.log
  loop-Answered (e ∷ es) s =
      let s' = (session_step m peer t s e).0 in
      let more : (replies s.log ++ (answers_of e ++ answers es)) ≡ replies s'.log ++ answers es =
        sym (append_assoc (replies s.log) (answers_of e) (answers es))
        ∙ ap (λ ps. ps ++ answers es) (sym (step-replies s e)) in
      elim (Option-cases (session_step m peer t s e).1) [
        | inl n ↦
            let step : session_step m peer t s e ≡ (s', none) = ap (λ o. (s', o)) n in
            rw (more, step) (loop-Answered es s')
        | inr (end, n) ↦
            let step : session_step m peer t s e ≡ (s', some end) = ap (λ o. (s', o)) n in
            rw (more, step)
              (
                answers es,
                ap (λ ps. ps ++ answers es)
                    (sym (close_session-replies s' ∙ append-nil (replies s'.log))),
              )
      ]

  -- The peer is sent the answers to its heartbeats and nothing else, one for each that the session
  -- takes, in order and with the heartbeat's own id and body: all of them if the session still
  -- waits, and the first of them if it ended.
  pub session_loop-Answered :
      (es : List SessionEvent) (now : ℕ)
      → Answered (answers es) (session_loop m peer t es (start_session peer now))
  unfolding start_session
  session_loop-Answered es now = loop-Answered es (start_session peer now)
