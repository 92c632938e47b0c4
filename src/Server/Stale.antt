-- ===== src/Server/Stale.antt =====
-- A session of link/src/server.rs and the map of the clients together: what the map keeps when the
-- peer has asked `on_auth` under several names.
use quote_link_rs.Base.{
  ℕ, ◌≡◌, ◌∙◌, refl, ap, List, [], ◌∷◌, ◌++◌, map, false, none, some, text_eq, text_eq_refl, arith,
}
use quote_link_rs.Protos.{Text, Message, AuthRequest}
use quote_link_rs.Server.Session.{
  Timeouts, SessionEvent, SessionEnd, wait_auth, at_peer, start_session, session_loop,
}
use quote_link_rs.Server.Clients.{lookup, exit_client, mgmt_loop}
use quote_link_rs.Server.Clients.View.{View, set, expected, mgmt_loop-Shows}
use quote_link_rs.Server.Session.Notices.{notices, admitted, last_asked, entry, loop-Told}

-- The entry of a name that is not the last one stays.
kept_entry :
    (c : ℕ) (n last : Text) (names : List Text) (v : View)
    → text_eq n last ≡ false
    → v n ≡ some c
    → expected (map (entry c) names ++ (exit_client last ∷ [])) v n ≡ some c
kept_entry c n last [] v other h = rw other h
kept_entry c n last (name ∷ names) v other h =
    kept_entry c n last names (set name (some c) v) other (ground (arith, h))

named_entry :
    (c : ℕ) (n last : Text) (before after : List Text) (v : View)
    → text_eq n last ≡ false
    → expected (map (entry c) (before ++ (n ∷ after)) ++ (exit_client last ∷ [])) v n ≡ some c
named_entry c n last [] after v other =
    kept_entry c n last after (set n (some c) v) other (ground (arith, text_eq_refl n))
named_entry c n last (name ∷ before) after v other =
    named_entry c n last before after (set name (some c) v) other

-- A session that ended, after any events, has told the manager of the clients of each name under
-- which `on_auth` let the peer in, and of the end of the one name under which it was asked last. A
-- name under which the peer was let in, and which is not that last name, keeps its entry in the map,
-- with the connection that is gone.
pub session_loop-stale :
    (m : Message AuthRequest) (peer : Text) (t : Timeouts) (es : List SessionEvent) (start c : ℕ)
    (end : SessionEnd) (n : Text) (before after : List Text)
    → (session_loop m peer t es (start_session peer start)).1 ≡ some end
    → admitted peer (session_loop m peer t es (start_session peer start)).0.log
      ≡ before ++ (n ∷ after)
    → text_eq n (
        last_asked peer
          (at_peer wait_auth peer)
          (session_loop m peer t es (start_session peer start)).0.log)
      ≡ false
    → let log = (session_loop m peer t es (start_session peer start)).0.log in
      (notices c log
        ≡ map (entry c) (before ++ (n ∷ after))
          ++ (exit_client (last_asked peer (at_peer wait_auth peer) log) ∷ []))
      × (lookup n (mgmt_loop (notices c log) []).0 ≡ some c)
unfolding start_session
session_loop-stale m peer t es start c end n before after ended let_in other =
    let last =
      last_asked peer (at_peer wait_auth peer)
        (session_loop m peer t es (start_session peer start)).0.log in
    let told =
      loop-Told c peer m t es (start_session peer start) end (record { noted = refl; named = refl })
        ended
      ∙ ap (λ names. map (entry c) names ++ (exit_client last ∷ [])) let_in in
    (
      told,
      (mgmt_loop-Shows _).0 n
          ∙ ap (λ es. expected es (λ k. none) n) told
          ∙ named_entry c n last before after (λ k. none) other,
    )
