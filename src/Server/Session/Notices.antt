-- ===== src/Server/Session/Notices.antt =====
-- What a session of link/src/server.rs tells the manager of the clients: the names under which
-- `on_auth` let the peer in, and at its end the one under which it was asked last.
use quote_link_rs.Base.{
  ℕ, ◌≡◌, ◌∙◌, refl, sym, ap, ap₂, List, [], ◌∷◌, ◌++◌, map, append-nil, append_assoc, Bool, true,
  false, none, some, Option-cases, Bool-cases, inl, inr,
}
use quote_link_rs.Packet.{Request, Packet}
use quote_link_rs.Packet.Enums.{Command, auth, heartbeat}
use quote_link_rs.Protos.{Text, Message, AuthRequest}
use quote_link_rs.Server.Session.{
  Timeouts, TrySend, taken, full, closed, SessionEvent, tick, exit_signal, recv, recv_none, Effect,
  reply, to_callback, to_callback_later, asked_auth, signal_new, signal_exit, called_disconnect,
  Session, SessionStep, SessionEnd, wait_auth, at_peer, info_or_default, on_other, on_auth_request,
  on_request, on_packet, session_step, close_session, continue, session_loop,
}
use quote_link_rs.Server.Clients.{MgmtEvent, new_client, exit_client}

-- What the clients' manager hears of the connection `c`.
abbrev pub notices : ℕ → List Effect → List MgmtEvent
notices c [] = []
notices c (signal_new name ∷ es) = new_client name c ∷ notices c es
notices c (signal_exit name ∷ es) = exit_client name ∷ notices c es
notices c (e ∷ es) = notices c es

-- The names under which `on_auth` let the peer in.
abbrev pub admitted : Text → List Effect → List Text
admitted peer [] = []
admitted peer (asked_auth id info true ∷ es) = at_peer info.client_name peer ∷ admitted peer es
admitted peer (e ∷ es) = admitted peer es

-- The name under which it was asked last, whatever it answered; `name` if it was not.
abbrev pub last_asked : Text → Text → List Effect → Text
last_asked peer name [] = name
last_asked peer name (asked_auth id info answer ∷ es) =
    last_asked peer (at_peer info.client_name peer) es
last_asked peer name (e ∷ es) = last_asked peer name es

abbrev pub entry : ℕ → Text → MgmtEvent
entry c name = new_client name c

abbrev pub auth_packet : Request → Packet
auth_packet q = Packet.request (record q { command = auth })

module _ (c : ℕ) (peer : Text) where
  notices-append : (xs ys : List Effect) → notices c (xs ++ ys) ≡ notices c xs ++ notices c ys
  notices-append [] ys = refl
  notices-append (signal_new name ∷ xs) ys =
      ap (λ es. new_client name c ∷ es) (notices-append xs ys)
  notices-append (signal_exit name ∷ xs) ys =
      ap (λ es. exit_client name ∷ es) (notices-append xs ys)
  notices-append (_ ∷ xs) ys = notices-append xs ys

  -- The notices are of the names that were let in, and the session has the name that was asked last.
  pub record Noted (s : Session) : Type 0 where
    pub noted : notices c s.log ≡ map (entry c) (admitted peer s.log)
    pub named : s.client_name ≡ last_asked peer (at_peer wait_auth peer) s.log

  admitted_news-append :
      (xs ys : List Effect)
      → map (entry c) (admitted peer (xs ++ ys))
        ≡ map (entry c) (admitted peer xs) ++ map (entry c) (admitted peer ys)
  admitted_news-append [] ys = refl
  admitted_news-append (asked_auth id info true ∷ xs) ys =
      ap (λ es. entry c (at_peer info.client_name peer) ∷ es) (admitted_news-append xs ys)
  admitted_news-append (asked_auth id info false ∷ xs) ys = admitted_news-append xs ys
  admitted_news-append (_ ∷ xs) ys = admitted_news-append xs ys

  last_asked-append :
      (name : Text) (xs ys : List Effect)
      → last_asked peer name (xs ++ ys) ≡ last_asked peer (last_asked peer name xs) ys
  last_asked-append name [] ys = refl
  last_asked-append name (asked_auth id info answer ∷ xs) ys =
      last_asked-append (at_peer info.client_name peer) xs ys
  last_asked-append name (_ ∷ xs) ys = last_asked-append name xs ys

  -- A step that adds `es` to the log.
  extended-Noted :
      (s s' : Session) (es : List Effect)
      → s'.log ≡ s.log ++ es
      → notices c es ≡ map (entry c) (admitted peer es)
      → s'.client_name ≡ last_asked peer s.client_name es
      → Noted s
      → Noted s'
  extended-Noted s s' es more news name h = record {
    noted =
        ap (notices c) more
        ∙ notices-append s.log es
        ∙ ap₂ (λ xs ys. xs ++ ys) h.noted news
        ∙ sym (admitted_news-append s.log es)
        ∙ ap (λ xs. map (entry c) (admitted peer xs)) (sym more);
    named =
        name
        ∙ ap (λ n. last_asked peer n es) h.named
        ∙ sym (last_asked-append (at_peer wait_auth peer) s.log es)
        ∙ ap (last_asked peer (at_peer wait_auth peer)) (sym more);
  }

  on_other-Noted : (s : Session) (p : Packet) (slot : TrySend) → Noted s → Noted (on_other s p slot)
  unfolding on_other
  on_other-Noted s p taken h = extended-Noted s _ (to_callback p ∷ []) refl refl refl h
  on_other-Noted s p full h = extended-Noted s _ (to_callback_later p ∷ []) refl refl refl h
  on_other-Noted s p closed h = h

  on_auth_request-Noted :
      (s : Session) (request : Request) (answer : Bool) (q : AuthRequest)
      → Noted s
      → Noted (on_auth_request peer s request answer q)
  unfolding on_auth_request
  on_auth_request-Noted s request true q h =
      extended-Noted s _
        (asked_auth request.id (info_or_default q.auth_info) true
          ∷ signal_new (at_peer (info_or_default q.auth_info).client_name peer)
          ∷ to_callback (Packet.request request)
          ∷ [])
        (append_assoc s.log (_ ∷ []) (_ ∷ _ ∷ [])) refl refl h
  on_auth_request-Noted s request false q h =
      extended-Noted s _ (asked_auth request.id (info_or_default q.auth_info) false ∷ []) refl refl
        refl h

  module _ (m : Message AuthRequest) (t : Timeouts) where
    by_command-Noted :
        (s : Session) (q : Request) (answer : Bool) (slot : TrySend) (command : Command)
        → Noted s
        → Noted (on_request m peer s q answer slot command).0
    unfolding on_request
    by_command-Noted s q answer slot heartbeat h =
        extended-Noted s _ (reply _ ∷ []) refl refl refl h
    by_command-Noted s q answer slot auth h = elim (Option-cases (m.decode q.body)) [
      | inl e ↦ rw e h
      | inr (a, e) ↦ rw e (on_auth_request-Noted s q answer a h)
    ]
    by_command-Noted s q answer slot command h = on_other-Noted s (Packet.request q) slot h

    heard-Noted : (s : Session) (now : ℕ) → Noted s → Noted (record s { last_ping_at = now })
    heard-Noted s now h = record { noted = h.noted; named = h.named }

    step-Noted : (s : Session) (e : SessionEvent) → Noted s → Noted (session_step m peer t s e).0
    unfolding session_step on_packet
    step-Noted s (tick now) h = h
    step-Noted s exit_signal h = h
    step-Noted s recv_none h = h
    step-Noted s (recv now (Packet.response p) answer slot) h =
        on_other-Noted (record s { last_ping_at = now }) (Packet.response p) slot
          (heard-Noted s now h)
    step-Noted s (recv now (Packet.push p) answer slot) h =
        on_other-Noted (record s { last_ping_at = now }) (Packet.push p) slot (heard-Noted s now h)
    step-Noted s (recv now (Packet.request q) answer slot) h =
        by_command-Noted (record s { last_ping_at = now }) q answer slot q.command
          (heard-Noted s now h)

    -- What the manager has heard of a session that ended.
    abbrev pub Told : List Effect → Type 0
    Told log =
        notices c log
        ≡ map (entry c) (admitted peer log)
          ++ (exit_client (last_asked peer (at_peer wait_auth peer) log) ∷ [])

    -- The last effects, which end with the report of the end of the name.
    ended-Told :
        (s : Session) (es : List Effect)
        → notices c es ≡ exit_client s.client_name ∷ []
        → admitted peer es ≡ []
        → last_asked peer s.client_name es ≡ s.client_name
        → Noted s
        → Told (s.log ++ es)
    ended-Told s es told silent same h =
        notices-append s.log es
        ∙ ap₂ (λ xs ys. xs ++ ys)
            (h.noted
              ∙ sym (append-nil _)
              ∙ ap (λ ns. map (entry c) (admitted peer s.log) ++ map (entry c) ns) (sym silent)
              ∙ sym (admitted_news-append s.log es))
            (told
              ∙ ap (λ n. exit_client n ∷ [])
                  (sym same
                    ∙ ap (λ n. last_asked peer n es) h.named
                    ∙ sym (last_asked-append (at_peer wait_auth peer) s.log es)))

    close_session-Told : (s : Session) → Noted s → Told (close_session s).log
    unfolding close_session
    close_session-Told s h = elim (Bool-cases s.is_auth_ok) [
      | inl ok ↦ rw ok (
          ended-Told s (called_disconnect s.auth_info ∷ signal_exit s.client_name ∷ []) refl refl
            refl h)
      | inr never ↦ rw never (ended-Told s (signal_exit s.client_name ∷ []) refl refl refl h)
    ]

    continue-Told :
        (end : SessionEnd) (again : Session → SessionStep) (r : SessionStep)
        → ((s : Session) → Noted s → (again s).1 ≡ some end → Told (again s).0.log)
        → Noted r.0
        → (continue m peer t again r).1 ≡ some end
        → Told (continue m peer t again r).0.log
    continue-Told end again (s, none) k h e = k s h e
    continue-Told end again (s, some x) k h e = close_session-Told s h

    pub loop-Told :
        (es : List SessionEvent) (s : Session) (end : SessionEnd)
        → Noted s
        → (session_loop m peer t es s).1 ≡ some end
        → Told (session_loop m peer t es s).0.log
    unfolding session_loop
    loop-Told [] s end h e = cc
    loop-Told (x ∷ es) s end h e =
        continue-Told end (session_loop m peer t es) (session_step m peer t s x)
          (λ s' h' e'. loop-Told es s' end h' e') (step-Noted s x h) e
