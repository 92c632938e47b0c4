-- ===== src/Transport/SendLoop/Order.antt =====
-- The order of the bytes that `quic_process_loop` of link/src/transport/link.rs sends.
use quote_link_rs.Base.{
  ℕ, zero, suc, ◌<◌, ◌≤◌, ◌≡◌, ◌∙◌, refl, sym, ap, ap₂, length-drop, subst, List, [], ◌∷◌, ◌++◌,
  append_assoc, Bool-cases, inl, inr, ◌⊎◌, Option, none, some, Option-cases, length, take, drop,
  take-append-drop, arith,
}
use quote_link_rs.Channel.{Sender, send}
use quote_link_rs.SimpleBuf
use quote_link_rs.SimpleBuf.{SimpleBuf, BufError}
use quote_link_rs.SimpleBuf.Invariant.{IsValid, len-eq, length-occupied_slice, free-IsValid}
use quote_link_rs.SimpleBuf.Refine.{free_within}
use quote_link_rs.Transport.SendLoop.{
  Verdict, accepted, done, failed, Conn, SendError, Process, ProcessStep, conn_send_failed,
  udp_closed, stream_failed, send_datagrams, on_datagram, conn_send_loop, then_again, on_freed,
  on_flush_verdict, flush,
}

-- The documented behaviour of `stream_send` on bytes, of which there are some: it takes at least one
-- of them and at most all, else it answers `Done`; and after `Done`, which says that there is no
-- capacity, a call that follows at once is answered alike.
pub record IsStream (c : Conn) : Type 0 where
  pub takes :
      (s s' : c.State) (bs : List ℕ) (n : ℕ)
      → 0 < length bs
      → c.stream_send s bs ≡ (s', accepted n)
      → (0 < n) × (n ≤ length bs)
  pub stays_done :
      (s s' : c.State) (bs more : List ℕ)
      → 0 < length bs
      → c.stream_send s bs ≡ (s', done)
      → 0 < length more
      → (s'' : c.State) × (c.stream_send s' more ≡ (s'', done))

pub Verdict-cases : (v : Verdict) → (v ≡ done) ⊎ (v ≡ failed) ⊎ ((n : ℕ) × (v ≡ accepted n))
Verdict-cases done = inl refl
Verdict-cases failed = inr (inl refl)
Verdict-cases (accepted n) = inr (inr (n, refl))

pub nil_of_length : (xs : List ℕ) → length xs ≡ 0 → xs ≡ []
nil_of_length [] h = refl
nil_of_length (x ∷ xs) h = absurd (omega arith)

-- The errors of quiche and of the UDP loop.
abbrev pub IsOutside : SendError → Type 0
IsOutside conn_send_failed = Unit {0}
IsOutside udp_closed = Unit {0}
IsOutside stream_failed = Unit {0}
IsOutside e = ⊥

module _ {c : Conn} (l : IsStream c) where
  abbrev pub occupied : Process c → List ℕ
  occupied p = SimpleBuf.occupied_slice p.stream_send_buffer

  -- The bytes that the connection took, and behind them those that wait.
  abbrev pub in_order : Process c → List ℕ
  in_order p = p.written ++ occupied p

  -- The connection has said `Done`.
  abbrev pub Stuck : c.State → Type 0
  Stuck s = (more : List ℕ) → 0 < length more → (s' : c.State) × (c.stream_send s more ≡ (s', done))

  send_datagrams-IsOutside :
      (ds : List (Option (List ℕ))) (tx : Sender (List ℕ)) (e : SendError)
      → (send_datagrams c ds tx).1 ≡ some e
      → IsOutside e
  unfolding send_datagrams
  send_datagrams-IsOutside [] tx e h = absurd (ground (arith, h))
  send_datagrams-IsOutside (none ∷ ds) tx e h =
      let k : conn_send_failed ≡ e = ground (arith, h) in subst IsOutside k tt
  send_datagrams-IsOutside (some d ∷ ds) tx e h = elim (Option-cases (send tx d)) [
    | inl n ↦
        let k : some udp_closed ≡ some e =
          sym (ap (λ o. (on_datagram c (send_datagrams c ds) tx o).1) n) ∙ h in
        let k' : udp_closed ≡ e = ground (arith, k) in subst IsOutside k' tt
    | inr (tx', n) ↦
        send_datagrams-IsOutside ds tx' e
          (sym (ap (λ o. (on_datagram c (send_datagrams c ds) tx o).1) n) ∙ h)
  ]

  pub conn_send_loop-IsOutside :
      (p : Process c) (e : SendError) → (conn_send_loop c p).1 ≡ some e → IsOutside e
  unfolding conn_send_loop
  conn_send_loop-IsOutside p e h =
      send_datagrams-IsOutside (c.sends p.conn).1 p.udp_data_send_tx e h

  -- After the bytes that were left over: all are sent, or the connection has said `Done`.
  abbrev pub Flushed : List ℕ → ProcessStep c → Type 0
  Flushed all (p, none) =
      IsValid p.stream_send_buffer × (in_order p ≡ all) × ((occupied p ≡ []) ⊎ Stuck p.conn)
  Flushed all (p, some e) = IsOutside e

  -- `conn_send_loop`, and then a loop that is right.
  then_flush :
      (again : Process c → ProcessStep c) (all : List ℕ) (p : Process c)
      → ((p' : Process c)
          → p'.written ≡ p.written
          → p'.stream_send_buffer ≡ p.stream_send_buffer
          → Flushed all (again p'))
      → Flushed all (then_again c again (conn_send_loop c p))
  unfolding conn_send_loop
  then_flush again all p h =
      let p' : Process c = (conn_send_loop c p).0 in
      elim (Option-cases (conn_send_loop c p).1) [
        | inl n ↦
            let e : conn_send_loop c p ≡ (p', none) = ap (λ o. (p', o)) n in
            subst (λ o. Flushed all (then_again c again o)) (sym e) (h p' refl refl)
        | inr (x, n) ↦
            let e : conn_send_loop c p ≡ (p', some x) = ap (λ o. (p', o)) n in
            subst (λ o. Flushed all (then_again c again o)) (sym e) (conn_send_loop-IsOutside p x n)
      ]

  -- The bytes that were taken move from the one list to the other.
  after_take :
      (p p' : Process c) (buf' : SimpleBuf) (n : ℕ)
      → p'.written ≡ p.written ++ take n (occupied p)
      → p'.stream_send_buffer ≡ buf'
      → SimpleBuf.occupied_slice buf' ≡ drop n (occupied p)
      → in_order p' ≡ in_order p
  after_take p p' buf' n w b bytes =
      ap₂ (λ x y. x ++ SimpleBuf.occupied_slice y) w b
      ∙ ap (λ ys. (p.written ++ take n (occupied p)) ++ ys) bytes
      ∙ append_assoc p.written (take n (occupied p)) (drop n (occupied p))
      ∙ ap (λ ys. p.written ++ ys) (take-append-drop n (occupied p))

  pub flush-Flushed :
      (fuel : ℕ) (p : Process c)
      → IsValid p.stream_send_buffer
      → length (occupied p) < fuel
      → Flushed (in_order p) (flush c fuel p)
  unfolding flush on_flush_verdict on_freed SimpleBuf.is_empty
  flush-Flushed zero p v h = absurd (omega arith)
  flush-Flushed (suc fuel) p v h = elim (Bool-cases (SimpleBuf.is_empty p.stream_send_buffer)) [
    | inl nothing ↦ rw nothing (
      v,
      refl,
      inl (nil_of_length (occupied p) (ground (arith, length-occupied_slice v, nothing))),
    )
    | inr something ↦
        let some_bytes : 0 < length (occupied p) =
          ground (arith, length-occupied_slice v, something) in
        let s' : c.State = (c.stream_send p.conn (occupied p)).0 in
        elim (Verdict-cases (c.stream_send p.conn (occupied p)).1) [
          | inl e ↦
              let k : c.stream_send p.conn (occupied p) ≡ (s', done) = ap (λ x. (s', x)) e in
              rw (something, k)
                (v, refl, inr (λ more m. l.stays_done p.conn s' (occupied p) more some_bytes k m))
          | inr (inl e) ↦
              let k : c.stream_send p.conn (occupied p) ≡ (s', failed) = ap (λ x. (s', x)) e in
              rw (something, k) tt
          | inr (inr (n, e)) ↦
              let k : c.stream_send p.conn (occupied p) ≡ (s', accepted n) = ap (λ x. (s', x)) e in
              let (pos, within) = l.takes p.conn s' (occupied p) n some_bytes k in
              let (buf', freed, bytes, _, _, _) = free_within n v within in
              rw (something, k, freed)
                (then_flush (flush c fuel) (in_order p) _ (λ p' w b.
                  subst (λ all. Flushed all (flush c fuel p')) (after_take p p' buf' n w b bytes)
                    (flush-Flushed fuel p'
                      (subst IsValid (sym b)
                        (free-IsValid n v (omega (arith, length-occupied_slice v, len-eq v)) freed))
                      (omega (
                        arith,
                        ap (λ x. length (SimpleBuf.occupied_slice x)) b,
                        ap length bytes,
                        length-drop n (occupied p),
                      )))))
        ]
  ]
