-- ===== src/Server/Session/Auth.antt =====
-- `on_auth`, `on_disconnect` and the exit of a session in link/src/server.rs.
use quote_link_rs.Base.{
  ℕ, ◌+◌, ◌≡◌, ◌∙◌, refl, sym, ap, append_assoc, List, [], ◌∷◌, ◌++◌, Bool, true, false, ◌||◌, none,
  some, Option-cases, Bool-cases, inl, inr, if◌then◌else◌, arith,
}
use quote_link_rs.Packet.{Request, Packet}
use quote_link_rs.Packet.Enums.{Command, auth, heartbeat}
use quote_link_rs.Protos.{Text, Message, AuthInfo, AuthRequest}
use quote_link_rs.Server.Session.{
  Timeouts, TrySend, taken, full, closed, SessionEvent, tick, exit_signal, recv, recv_none, Effect,
  reply, to_callback, to_callback_later, asked_auth, signal_new, signal_exit, called_disconnect,
  at_peer, info_or_default, Session, SessionEnd, SessionStep, start_session, on_other,
  on_auth_request, on_request, on_packet, session_step, close_session, session_loop,
}

-- Whether `on_auth` has answered yes.
abbrev pub authed : List Effect → Bool
authed [] = false
authed (asked_auth id info true ∷ es) = true
authed (e ∷ es) = authed es

abbrev pub exits : List Effect → ℕ
exits [] = 0
exits (signal_exit name ∷ es) = 1 + exits es
exits (e ∷ es) = exits es

abbrev pub disconnects : List Effect → ℕ
disconnects [] = 0
disconnects (called_disconnect info ∷ es) = 1 + disconnects es
disconnects (e ∷ es) = disconnects es

authed-append : (xs ys : List Effect) → authed (xs ++ ys) ≡ authed xs || authed ys
authed-append [] ys = refl
authed-append (asked_auth id info true ∷ xs) ys = refl
authed-append (asked_auth id info false ∷ xs) ys = authed-append xs ys
authed-append (reply p ∷ xs) ys = authed-append xs ys
authed-append (_ ∷ xs) ys = authed-append xs ys

exits-append : (xs ys : List Effect) → exits (xs ++ ys) ≡ exits xs + exits ys
exits-append [] ys = omega arith
exits-append (signal_exit name ∷ xs) ys = omega (arith, exits-append xs ys)
exits-append (_ ∷ xs) ys = exits-append xs ys

disconnects-append :
    (xs ys : List Effect) → disconnects (xs ++ ys) ≡ disconnects xs + disconnects ys
disconnects-append [] ys = omega arith
disconnects-append (called_disconnect info ∷ xs) ys = omega (arith, disconnects-append xs ys)
disconnects-append (_ ∷ xs) ys = disconnects-append xs ys

or_true : (b : Bool) → b || true ≡ true
or_true true = refl
or_true false = refl

-- While the loop runs.
abbrev Runs : Session → Type 0
Runs s = (s.is_auth_ok ≡ authed s.log) × (exits s.log ≡ 0) × (disconnects s.log ≡ 0)

-- Once it is left.
abbrev pub Closed : SessionStep → Type 0
Closed (s, none) = (exits s.log ≡ 0) × (disconnects s.log ≡ 0)
Closed (s, some e) = (exits s.log ≡ 1) × (disconnects s.log ≡ (if authed s.log then 1 else 0))

-- The log grew by effects of no account here.
grow :
    (s : Session) (es : List Effect)
    → Runs s
    → authed es ≡ false
    → exits es ≡ 0
    → disconnects es ≡ 0
    → Runs (record s { log = s.log ++ es })
grow s es (a, x, d) ha hx hd = (
  a ∙ ground (arith, authed-append s.log es),
  omega (arith, exits-append s.log es),
  omega (arith, disconnects-append s.log es),
)

on_other-Runs : (s : Session) (p : Packet) (slot : TrySend) → Runs s → Runs (on_other s p slot)
unfolding on_other
on_other-Runs s p taken r = grow s (to_callback p ∷ []) r refl refl refl
on_other-Runs s p full r = grow s (to_callback_later p ∷ []) r refl refl refl
on_other-Runs s p closed r = r

on_auth_request-Runs :
    (peer : Text) (s : Session) (request : Request) (answer : Bool) (q : AuthRequest)
    → Runs s
    → Runs (on_auth_request peer s request answer q)
unfolding on_auth_request
on_auth_request-Runs peer s request true q (a, x, d) = (
  sym (authed-append s.log es ∙ or_true (authed s.log)) ∙ ap authed one,
  ap exits (sym one) ∙ omega (arith, exits-append s.log es),
  ap disconnects (sym one) ∙ omega (arith, disconnects-append s.log es),
)
  where
    info : AuthInfo
    info = info_or_default q.auth_info

    asked : Effect
    asked = asked_auth request.id info true

    name : Text
    name = at_peer info.client_name peer

    es : List Effect
    es = asked ∷ signal_new name ∷ to_callback (Packet.request request) ∷ []

    one :
        s.log ++ es
        ≡ (s.log ++ (asked ∷ [])) ++ (signal_new name ∷ to_callback (Packet.request request) ∷ [])
    one = sym (append_assoc s.log (asked ∷ []) _)
on_auth_request-Runs peer s request false q r =
    grow s (asked_auth request.id (info_or_default q.auth_info) false ∷ []) r refl refl refl

module _ (m : Message AuthRequest) (peer : Text) (t : Timeouts) where
  -- One event leaves the invariant.
  step-Runs : (s : Session) (e : SessionEvent) → Runs s → Runs (session_step m peer t s e).0
  unfolding session_step on_packet on_request
  step-Runs s (tick now) r = r
  step-Runs s exit_signal r = r
  step-Runs s recv_none r = r
  step-Runs s (recv now (Packet.response p) answer slot) r =
      on_other-Runs (record s { last_ping_at = now }) (Packet.response p) slot r
  step-Runs s (recv now (Packet.push p) answer slot) r =
      on_other-Runs (record s { last_ping_at = now }) (Packet.push p) slot r
  step-Runs s (recv now (Packet.request q) answer slot) r =
      by_command (record s { last_ping_at = now }) q.command r
    where
      by_command :
          (s : Session) (c : Command) → Runs s → Runs (on_request m peer s q answer slot c).0
      by_command s heartbeat r = grow s (reply _ ∷ []) r refl refl refl
      by_command s auth r = elim (Option-cases (m.decode q.body)) [
        | inl e ↦ rw e r
        | inr (a, e) ↦ rw e (on_auth_request-Runs peer s q answer a r)
      ]
      by_command s c r = on_other-Runs s (Packet.request q) slot r

  close-Closed : (s : Session) (e : SessionEnd) → Runs s → Closed (close_session s, some e)
  unfolding close_session
  close-Closed s e (a, x, d) = elim (Bool-cases s.is_auth_ok) [
    | inl ok ↦
        let es = called_disconnect s.auth_info ∷ signal_exit s.client_name ∷ [] in
        rw (ok, authed-append s.log es, sym a ∙ ok)
          (omega (arith, exits-append s.log es), omega (arith, disconnects-append s.log es))
    | inr off ↦
        let es = signal_exit s.client_name ∷ [] in
        rw (off, authed-append s.log es, sym a ∙ off)
          (omega (arith, exits-append s.log es), omega (arith, disconnects-append s.log es))
  ]

  loop-Closed :
      (es : List SessionEvent) (s : Session) → Runs s → Closed (session_loop m peer t es s)
  unfolding session_loop
  loop-Closed [] s (a, x, d) = (x, d)
  loop-Closed (e ∷ es) s r = elim (Option-cases (session_step m peer t s e).1) [
    | inl n ↦
        let step : session_step m peer t s e ≡ ((session_step m peer t s e).0, none) =
          ap (λ o. ((session_step m peer t s e).0, o)) n in
        rw step (loop-Closed es _ (step-Runs s e r))
    | inr (end, n) ↦
        let step : session_step m peer t s e ≡ ((session_step m peer t s e).0, some end) =
          ap (λ o. ((session_step m peer t s e).0, o)) n in
        rw step (close-Closed _ end (step-Runs s e r))
  ]

  -- Each session that ends tells the clients' manager so exactly once, and calls `on_disconnect`
  -- exactly once if `on_auth` has ever answered yes, else never; a session that has not ended does
  -- neither.
  pub session_loop-Closed :
      (es : List SessionEvent) (now : ℕ)
      → Closed (session_loop m peer t es (start_session peer now))
  unfolding start_session
  session_loop-Closed es now = loop-Closed es (start_session peer now) (refl, refl, refl)
