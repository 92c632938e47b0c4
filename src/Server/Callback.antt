-- ===== src/Server/Callback.antt =====
-- The loop that `serve_linker` of link/src/server.rs runs for each connection to call its handler.
-- `on_request`, `on_response` and `on_push` are called from tasks of their own, `on_send` in the
-- loop. A metric of a sent push is an effect too.
use quote_link_rs.Base.{
  ◌≡◌, ◌∙◌, refl, sym, ap, List, [], ◌∷◌, ◌++◌, append-nil, append_assoc, Option, none, some,
  Option-cases, inl, inr,
}
use quote_link_rs.Packet.{Packet, Request, Response, Push}
use quote_link_rs.Packet.Enums.{Command, MsgType, auth}
use quote_link_rs.Protos.{Text, Message, AuthInfo, AuthRequest}
use quote_link_rs.Server.Session.{at_peer, wait_auth}

pub data CallbackEvent : Type 0 where
  recved : Option Packet → CallbackEvent
  to_send : Packet → CallbackEvent
  lagged send_closed : CallbackEvent

pub data HandlerCall : Type 0 where
  on_request : Request → HandlerCall
  on_response : Response → HandlerCall
  on_push : Push → HandlerCall
  on_send : Packet → HandlerCall
  count_send : Text → MsgType → HandlerCall
  count_lagged : Text → HandlerCall

pub data CallbackEnd : Type 0 where
  undecodable recv_stopped broadcast_closed : CallbackEnd

pub record Callback : Type 0 where
  pub client_name : Text
  pub calls : List HandlerCall

abbrev pub CallbackStep : Type 0
CallbackStep = Callback × Option CallbackEnd

-- "lackAuthInfo"
abbrev lack_auth_info : Text
lack_auth_info = 108 ∷ 97 ∷ 99 ∷ 107 ∷ 65 ∷ 117 ∷ 116 ∷ 104 ∷ 73 ∷ 110 ∷ 102 ∷ 111 ∷ []

abbrev name_or_lack : Option AuthInfo → Text
name_or_lack none = lack_auth_info
name_or_lack (some info) = info.client_name

abbrev called : Callback → List HandlerCall → Callback
called s cs = record s { calls = s.calls ++ cs }

unfoldable pub start_callback : Text → Callback
start_callback peer = record { client_name = at_peer wait_auth peer; calls = [] }

module _ (m : Message AuthRequest) (peer : Text) where
  abbrev renamed : Callback → Option AuthRequest → CallbackStep
  renamed s none = (s, some undecodable)
  renamed s (some q) = (record s { client_name = at_peer (name_or_lack q.auth_info) peer }, none)

  unfoldable pub on_recved_request : Callback → Request → Command → CallbackStep
  on_recved_request s q auth = renamed s (m.decode q.body)
  on_recved_request s q c = (called s (on_request q ∷ []), none)

  unfoldable pub on_to_send : Callback → Packet → Callback
  on_to_send s (Packet.push p) =
      called s (count_send s.client_name p.msg_type ∷ on_send (Packet.push p) ∷ [])
  on_to_send s packet = called s (on_send packet ∷ [])

  unfoldable pub callback_step : Callback → CallbackEvent → CallbackStep
  unfolding on_recved_request on_to_send
  callback_step s (recved none) = (s, some recv_stopped)
  callback_step s (recved (some (Packet.request q))) = on_recved_request s q q.command
  callback_step s (recved (some (Packet.response r))) = (called s (on_response r ∷ []), none)
  callback_step s (recved (some (Packet.push p))) = (called s (on_push p ∷ []), none)
  callback_step s (to_send packet) = (on_to_send s packet, none)
  callback_step s lagged = (called s (count_lagged s.client_name ∷ []), none)
  callback_step s send_closed = (s, some broadcast_closed)

  abbrev continue : (Callback → CallbackStep) → CallbackStep → CallbackStep
  continue again (s, none) = again s
  continue again (s, some e) = (s, some e)

  unfoldable pub callback_loop : List CallbackEvent → Callback → CallbackStep
  unfolding callback_step
  callback_loop [] s = (s, none)
  callback_loop (e ∷ es) s = continue (callback_loop es) (callback_step s e)

-- What `on_send` was called with, and what came to be sent.
abbrev pub sends : List HandlerCall → List Packet
sends [] = []
sends (on_send p ∷ cs) = p ∷ sends cs
sends (c ∷ cs) = sends cs

abbrev pub offered_of : CallbackEvent → List Packet
offered_of (to_send p) = p ∷ []
offered_of e = []

abbrev pub offered : List CallbackEvent → List Packet
offered [] = []
offered (e ∷ es) = offered_of e ++ offered es

sends-append : (xs ys : List HandlerCall) → sends (xs ++ ys) ≡ sends xs ++ sends ys
sends-append [] ys = refl
sends-append (on_send p ∷ xs) ys = ap (λ ps. p ∷ ps) (sends-append xs ys)
sends-append (_ ∷ xs) ys = sends-append xs ys

module _ (m : Message AuthRequest) (peer : Text) where
  step-sends :
      (s : Callback) (e : CallbackEvent)
      → sends (callback_step m peer s e).0.calls ≡ sends s.calls ++ offered_of e
  unfolding callback_step
  step-sends s (recved none) = sym (append-nil (sends s.calls))
  step-sends s (recved (some (Packet.request q))) = by_command q.command
    where
      by_command :
          (c : Command) → sends (on_recved_request m peer s q c).0.calls ≡ sends s.calls ++ []
      by_command auth = elim (Option-cases (m.decode q.body)) [
        | inl e ↦ rw e (sym (append-nil (sends s.calls)))
        | inr (a, e) ↦ rw e (sym (append-nil (sends s.calls)))
      ]
      by_command c = sends-append s.calls (on_request q ∷ [])
  step-sends s (recved (some (Packet.response r))) = sends-append s.calls (on_response r ∷ [])
  step-sends s (recved (some (Packet.push p))) = sends-append s.calls (on_push p ∷ [])
  step-sends s (to_send (Packet.push p)) =
      sends-append s.calls (count_send s.client_name p.msg_type ∷ on_send (Packet.push p) ∷ [])
  step-sends s (to_send (Packet.request q)) = sends-append s.calls (on_send (Packet.request q) ∷ [])
  step-sends s (to_send (Packet.response r)) =
      sends-append s.calls (on_send (Packet.response r) ∷ [])
  step-sends s lagged = sends-append s.calls (count_lagged s.client_name ∷ [])
  step-sends s send_closed = sym (append-nil (sends s.calls))

  -- The packets handed over so far, and those to come, if the loop still waits after all events.
  abbrev pub HandedOver : List Packet → CallbackStep → Type 0
  HandedOver ps (s, none) = sends s.calls ≡ ps
  HandedOver ps (s, some e) = (rest : List Packet) × (ps ≡ sends s.calls ++ rest)

  loop-HandedOver :
      (es : List CallbackEvent) (s : Callback)
      → HandedOver (sends s.calls ++ offered es) (callback_loop m peer es s)
  unfolding callback_loop
  loop-HandedOver [] s = sym (append-nil (sends s.calls))
  loop-HandedOver (e ∷ es) s =
      let s' = (callback_step m peer s e).0 in
      let more : (sends s.calls ++ (offered_of e ++ offered es)) ≡ sends s'.calls ++ offered es =
        sym (append_assoc (sends s.calls) (offered_of e) (offered es))
        ∙ ap (λ ps. ps ++ offered es) (sym (step-sends s e)) in
      elim (Option-cases (callback_step m peer s e).1) [
        | inl n ↦
            let step : callback_step m peer s e ≡ (s', none) = ap (λ o. (s', o)) n in
            rw (more, step) (loop-HandedOver es s')
        | inr (end, n) ↦
            let step : callback_step m peer s e ≡ (s', some end) = ap (λ o. (s', o)) n in
            rw (more, step) (offered es, refl)
      ]

  -- `on_send` is called with the packets that the broadcast hands to this client, each once and in
  -- their order, whatever comes between them: with all of them if the loop still waits, and with
  -- the first of them if it ended.
  pub callback_loop-HandedOver :
      (es : List CallbackEvent)
      → HandedOver (offered es) (callback_loop m peer es (start_callback peer))
  unfolding start_callback
  callback_loop-HandedOver es = loop-HandedOver es (start_callback peer)
