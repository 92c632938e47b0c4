-- ===== src/Transport/Listen/Reconnect.antt =====
-- What `listen_at` of link/src/transport/transport.rs does with an address whose task has ended.
use quote_link_rs.Base.{
  ℕ, ◌-◌, ◌<◌, ◌≡◌, ◌∙◌, refl, sym, ap, List, [], ◌∷◌, ◌++◌, Bool-cases, inl, inr, true, false,
  none, some, take, ◌==◌, arith,
}
use quote_link_rs.Transport.Token.{SocketAddr}
use quote_link_rs.Transport.Listen.{
  addr_eq, queued, Peer, Listener, Event, ticked, recv_failed, arrived, closes, takes, resumes,
  lookup, hand_over, new_peer, accept, step, listen, start_listen,
}
use quote_link_rs.Transport.Listen.Peers.{
  addr_eq→≡, addr_eq_refl, IsDistinct, step-IsDistinct, lookup-retain_closed,
}

-- At any time an address has at most one entry in the map.
listen-IsDistinct :
    (size chan : ℕ) (events : List Event) (l : Listener)
    → IsDistinct l.peers
    → IsDistinct (listen size chan events l).0.peers
unfolding listen
listen-IsDistinct size chan [] l v = v
listen-IsDistinct size chan (recv_failed ∷ events) l v = v
listen-IsDistinct size chan (ticked ∷ events) l v =
    listen-IsDistinct size chan events _ (step-IsDistinct size chan ticked l v)
listen-IsDistinct size chan (arrived b d ∷ events) l v =
    listen-IsDistinct size chan events _ (step-IsDistinct size chan (arrived b d) l v)
listen-IsDistinct size chan (closes b ∷ events) l v =
    listen-IsDistinct size chan events _ (step-IsDistinct size chan (closes b) l v)
listen-IsDistinct size chan (takes b n ∷ events) l v =
    listen-IsDistinct size chan events _ (step-IsDistinct size chan (takes b n) l v)
listen-IsDistinct size chan (resumes b k ∷ events) l v =
    listen-IsDistinct size chan events _ (step-IsDistinct size chan (resumes b k) l v)

-- The events that clear the map of closed entries: a tick, and a datagram from an address that has no
-- entry.
abbrev pub Clears : Listener → Event → Type 0
Clears l ticked = Unit
Clears l (arrived b d) = lookup b l.peers ≡ none
Clears l e = ⊥

lookup-step_cleared :
    (size chan : ℕ) (a : SocketAddr) (l : Listener) (p : Peer) (e : Event)
    → IsDistinct l.peers
    → lookup a l.peers ≡ some p
    → p.is_closed ≡ true
    → Clears l e
    → lookup a (step size chan e l).peers ≡ none
unfolding step accept lookup
lookup-step_cleared size chan a l p ticked v h k c = lookup-retain_closed a l.peers p v h k
lookup-step_cleared size chan a l p recv_failed v h k c = absurd c
lookup-step_cleared size chan a l p (closes b) v h k c = absurd c
lookup-step_cleared size chan a l p (takes b n) v h k c = absurd c
lookup-step_cleared size chan a l p (resumes b n) v h k c = absurd c
lookup-step_cleared size chan a l p (arrived b d) v h k c = rw c (elim (Bool-cases (addr_eq b a)) [
  | inl same ↦
      let both : some p ≡ none =
        sym h ∙ ap (λ x. lookup x l.peers) (sym (addr_eq→≡ b a same)) ∙ c in
      cc
  | inr other ↦ accepted other
])
  where
    accepted : addr_eq b a ≡ false → lookup a (accept chan b (take size d) l).peers ≡ none
    accepted other = rw other (lookup-retain_closed a l.peers p v h k)

-- After any events, if the task of an address has ended and its entry is still in the map: a datagram
-- from that address is dropped. The next tick, or the next datagram from an address without an entry,
-- clears the map; the first datagram from the address after that makes a new connection, and is the
-- one thing in its channel.
pub listen-reconnect :
    (size chan : ℕ) (events : List Event) (a : SocketAddr) (d : List ℕ) (p : Peer)
    (clearing : Event)
    → lookup a (listen size chan events start_listen).0.peers ≡ some p
    → p.is_closed ≡ true
    → 0 < chan
    → Clears (listen size chan events start_listen).0 clearing
    → let l = (listen size chan events start_listen).0 in
      let cleared = step size chan clearing l in
      let l' = step size chan (arrived a d) cleared in
      (step size chan (arrived a d) l ≡ l)
      × (lookup a l'.peers
          ≡ some (record {
            free = chan - 1;
            is_closed = false;
            channel = queued (take size d) ∷ [];
            waiting = [];
          }))
      × (l'.accepts ≡ cleared.accepts ++ (a ∷ []))
unfolding step lookup accept new_peer hand_over
listen-reconnect size chan events a d p clearing h k some_slot c =
    (rw (h, k) refl, rw (gone, addr_eq_refl a, not_full) refl, rw gone refl)
  where
    l : Listener
    l = (listen size chan events start_listen).0

    gone : lookup a (step size chan clearing l).peers ≡ none
    gone =
        lookup-step_cleared size chan a l p clearing
          (listen-IsDistinct size chan events start_listen tt) h k c

    not_full : (chan == 0) ≡ false
    not_full = ground (arith, some_slot)
