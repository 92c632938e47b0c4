-- ===== src/Transport/Listen/Demux.antt =====
-- How `listen_at` of link/src/transport/transport.rs divides the datagrams among the connections.
use quote_link_rs.Base.{
  ℕ, suc, ◌+◌, ◌<◌, ◌≡◌, ◌∙◌, inl, inr, refl, sym, ap, subst, List, [], ◌∷◌, ◌++◌, append-nil,
  append_assoc, Bool-cases, true, false, Option, none, some, Option-cases, take, length,
  length-append, if◌then◌else◌, arith,
}
use quote_link_rs.Transport.Token.{SocketAddr}
use quote_link_rs.Transport.ProcessLoop.Carried.{Selected, nothing}
use quote_link_rs.Transport.Listen.{
  addr_eq, Peer, PeerMap, Listener, Event, ticked, recv_failed, arrived, closes, takes, resumes,
  lookup, update, retain_open, hand_over, resume, new_peer, accept, on_lookup, step, listen,
  start_listen,
}
use quote_link_rs.Transport.Listen.Peers.{
  addr_eq→≡, addr_eq_refl, lookup-update_self, lookup-update_absent, lookup-update_other,
  lookup-retain_open, lookup-retain_absent,
}
use quote_link_rs.Transport.Listen.Inbox.{
  held, direct, count, count-append, Gained, Keeps, takes-Keeps, resume-Keeps, hand_over-Gained,
}

-- How often an address stands in the list.
abbrev pub times : SocketAddr → List SocketAddr → ℕ
times a [] = 0
times a (b ∷ bs) = if addr_eq b a then suc (times a bs) else times a bs

times-append :
    (a : SocketAddr) (bs cs : List SocketAddr) → times a (bs ++ cs) ≡ times a bs + times a cs
times-append a [] cs = omega arith
times-append a (b ∷ bs) cs = ground (arith, times-append a bs cs)

-- The datagrams from an address, before the first error of the socket.
abbrev pub arrivals : ℕ → SocketAddr → List Event → List (List ℕ)
arrivals size a [] = []
arrivals size a (ticked ∷ events) = arrivals size a events
arrivals size a (recv_failed ∷ events) = []
arrivals size a (closes b ∷ events) = arrivals size a events
arrivals size a (takes b n ∷ events) = arrivals size a events
arrivals size a (resumes b k ∷ events) = arrivals size a events
arrivals size a (arrived b d ∷ events) =
    if addr_eq b a then take size d ∷ arrivals size a events else arrivals size a events

-- The task of the address does not end.
abbrev pub StaysOpen : SocketAddr → List Event → Type 0
StaysOpen a [] = Unit
StaysOpen a (closes b ∷ events) = (addr_eq b a ≡ false) × StaysOpen a events
StaysOpen a (ticked ∷ events) = StaysOpen a events
StaysOpen a (recv_failed ∷ events) = Unit
StaysOpen a (takes b n ∷ events) = StaysOpen a events
StaysOpen a (resumes b k ∷ events) = StaysOpen a events
StaysOpen a (arrived b d ∷ events) = StaysOpen a events

-- An address from which nothing came has no entry and no connection. Else it has one connection,
-- which is open: what it holds is what came, each as often as it came, and what the loop put into its
-- channel itself is in the order of arrival.
abbrev pub Shown : List (List ℕ) → ℕ → Option Peer → Type 0
Shown ds n none = (ds ≡ []) × (n ≡ 0)
Shown ds n (some p) =
    (p.is_closed ≡ false)
    × ((x : List ℕ) → count x (held p) ≡ count x ds)
    × Selected ds (direct p.channel)
    × (0 < length ds)
    × (n ≡ 1)

abbrev pub Demuxed : SocketAddr → List (List ℕ) → Listener → Type 0
Demuxed a ds l = Shown ds (times a l.accepts) (lookup a l.peers)

module _ (a : SocketAddr) where
  retain_open-Shown :
      (ds : List (List ℕ)) (n : ℕ) (m : PeerMap)
      → Shown ds n (lookup a m)
      → Shown ds n (lookup a (retain_open m))
  retain_open-Shown ds n m h = elim (Option-cases (lookup a m)) [
    | inl e ↦ rw (lookup-retain_absent a m e) (subst (Shown ds n) e h)
    | inr (p, e) ↦
        let h' : Shown ds n (some p) = subst (Shown ds n) e h in
        rw (lookup-retain_open a m p e h'.0) h'
  ]

  -- A change of an entry that gives it the datagrams `more`.
  update-Shown :
      (ds more : List (List ℕ)) (n : ℕ) (f : Peer → Peer) (m : PeerMap) (p : Peer)
      → lookup a m ≡ some p
      → Gained more p (f p)
      → Shown ds n (some p)
      → Shown (ds ++ more) n (lookup a (update a f m))
  update-Shown ds more n f m p e (same, counts, in_order) (open_still, given, chosen, came, once) =
      rw (lookup-update_self a f m p e) (
        same ∙ open_still,
        (λ x. counts x ∙ ap (λ k. k + count x more) (given x) ∙ sym (count-append x ds more)),
        in_order ds chosen,
        omega (arith, length-append ds more),
        once,
      )

  -- Of another address.
  other-Shown :
      (ds : List (List ℕ)) (n : ℕ) (b : SocketAddr) (f : Peer → Peer) (m : PeerMap)
      → addr_eq b a ≡ false
      → Shown ds n (lookup a m)
      → Shown ds n (lookup a (update b f m))
  other-Shown ds n b f m other h = rw (lookup-update_other a b f m other) h

  -- A change that keeps what an open connection holds, of any entry.
  self_change-Shown :
      (ds : List (List ℕ)) (n : ℕ) (f : Peer → Peer) (m : PeerMap)
      → Keeps f
      → Shown ds n (lookup a m)
      → Shown ds n (lookup a (update a f m))
  self_change-Shown ds n f m k h = elim (Option-cases (lookup a m)) [
    | inl e ↦ rw (lookup-update_absent a a f m e) (subst (Shown ds n) e h)
    | inr (p, e) ↦
        let h' : Shown ds n (some p) = subst (Shown ds n) e h in
        subst (λ xs. Shown xs n (lookup a (update a f m))) (append-nil ds)
          (update-Shown ds [] n f m p e (k p h'.0) h')
  ]

  change-Shown :
      (ds : List (List ℕ)) (n : ℕ) (b : SocketAddr) (f : Peer → Peer) (m : PeerMap)
      → Keeps f
      → Shown ds n (lookup a m)
      → Shown ds n (lookup a (update b f m))
  change-Shown ds n b f m k h = elim (Bool-cases (addr_eq b a)) [
    | inr other ↦ other-Shown ds n b f m other h
    | inl same ↦
        subst (λ x. Shown ds n (lookup a (update x f m))) (sym (addr_eq→≡ b a same))
          (self_change-Shown ds n f m k h)
  ]

  -- A first datagram makes the connection, a further one is handed to it.
  arrived-Demuxed :
      (chan : ℕ) (d : List ℕ) (ds : List (List ℕ)) (l : Listener) (o : Option Peer)
      → lookup a l.peers ≡ o
      → Shown ds (times a l.accepts) o
      → Demuxed a (ds ++ (d ∷ [])) (on_lookup chan a d l o)
  unfolding accept lookup new_peer
  arrived-Demuxed chan d ds l none e (nothing_came, never) =
      let (same, counts, in_order) =
        hand_over-Gained d
          (record { free = chan; is_closed = false; channel = []; waiting = [] }) in
      let first : ds ++ (d ∷ []) ≡ d ∷ [] = ap (λ xs. xs ++ (d ∷ [])) nothing_came in
      rw (addr_eq_refl a, first)
        (
          same,
          (λ x. counts x ∙ omega arith),
          in_order [] nothing,
          omega arith,
          ground (arith, times-append a l.accepts (a ∷ []), addr_eq_refl a),
        )
  arrived-Demuxed chan d ds l (some p) e h = rw h.0 (
      update-Shown ds (d ∷ []) (times a l.accepts) (hand_over d) l.peers p e (hand_over-Gained d p)
        h)

  -- A datagram of another address.
  other-Demuxed :
      (chan : ℕ) (b : SocketAddr) (d : List ℕ) (ds : List (List ℕ)) (l : Listener) (o : Option Peer)
      → addr_eq b a ≡ false
      → Demuxed a ds l
      → Demuxed a ds (on_lookup chan b d l o)
  unfolding accept lookup
  other-Demuxed chan b d ds l none other h =
      let same : times a l.accepts ≡ times a (l.accepts ++ (b ∷ [])) =
        ground (arith, times-append a l.accepts (b ∷ [])) in
      rw other (
        subst (λ n. Shown ds n (lookup a (retain_open l.peers))) same
          (retain_open-Shown ds (times a l.accepts) l.peers h))
  other-Demuxed chan b d ds l (some p) other h = elim (Bool-cases p.is_closed) [
    | inl closed ↦ rw closed h
    | inr open_still ↦ rw open_still (other-Shown ds (times a l.accepts) b _ l.peers other h)
  ]

  self-Demuxed :
      (size chan : ℕ) (b : SocketAddr) (d : List ℕ) (ds : List (List ℕ)) (l : Listener)
      → addr_eq b a ≡ true
      → Demuxed a ds l
      → Demuxed a (ds ++ (take size d ∷ [])) (step size chan (arrived b d) l)
  unfolding step
  self-Demuxed size chan b d ds l same h =
      subst (λ x. Demuxed a (ds ++ (d' ∷ [])) (on_lookup chan x d' l (lookup x l.peers)))
        (sym (addr_eq→≡ b a same)) (arrived-Demuxed chan d' ds l (lookup a l.peers) refl h)
    where
      d' : List ℕ
      d' = take size d

  -- From any state on.
  listen_from-Demuxed :
      (size chan : ℕ) (events : List Event) (ds : List (List ℕ)) (l : Listener)
      → StaysOpen a events
      → Demuxed a ds l
      → Demuxed a (ds ++ arrivals size a events) (listen size chan events l).0
  unfolding listen step
  listen_from-Demuxed size chan [] ds l o h = rw (append-nil ds) h
  listen_from-Demuxed size chan (recv_failed ∷ events) ds l o h = rw (append-nil ds) h
  listen_from-Demuxed size chan (ticked ∷ events) ds l o h =
      listen_from-Demuxed size chan events ds (step size chan ticked l) o
        (retain_open-Shown ds (times a l.accepts) l.peers h)
  listen_from-Demuxed size chan (closes b ∷ events) ds l (other, o) h =
      listen_from-Demuxed size chan events ds (step size chan (closes b) l) o
        (other-Shown ds (times a l.accepts) b _ l.peers other h)
  listen_from-Demuxed size chan (takes b n ∷ events) ds l o h =
      listen_from-Demuxed size chan events ds (step size chan (takes b n) l) o
        (change-Shown ds (times a l.accepts) b _ l.peers (takes-Keeps n) h)
  listen_from-Demuxed size chan (resumes b k ∷ events) ds l o h =
      listen_from-Demuxed size chan events ds (step size chan (resumes b k) l) o
        (change-Shown ds (times a l.accepts) b (resume k) l.peers (resume-Keeps k) h)
  listen_from-Demuxed size chan (arrived b d ∷ events) ds l o h = elim (Bool-cases (addr_eq b a)) [
    | inl same ↦ rw same (
        subst (λ xs. Demuxed a xs (listen size chan events (step size chan (arrived b d) l)).0)
          (append_assoc ds (take size d ∷ []) (arrivals size a events))
          (listen_from-Demuxed size chan events (ds ++ (take size d ∷ [])) _ o
            (self-Demuxed size chan b d ds l same h)))
    | inr other ↦ rw other (
        listen_from-Demuxed size chan events ds (step size chan (arrived b d) l) o
          (other-Demuxed chan b (take size d) ds l (lookup b l.peers) other h))
  ]

  -- Whatever else arrives, and however full the channels are: as long as the task of an address does
  -- not end, there is one connection for all the datagrams that came from the address; if none came
  -- there is no connection. What its channel and the tasks that wait for a slot hold, with what was
  -- taken from the channel, is what came, each datagram as often as it came. Those that the loop put into
  -- the channel itself are in the order of arrival; one that found the channel full is sent by a task
  -- of its own, and may come later.
  pub listen-Demuxed :
      (size chan : ℕ) (events : List Event)
      → StaysOpen a events
      → Demuxed a (arrivals size a events) (listen size chan events start_listen).0
  unfolding lookup
  listen-Demuxed size chan events o =
      listen_from-Demuxed size chan events [] start_listen o (refl, refl)
