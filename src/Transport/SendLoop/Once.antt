-- ===== src/Transport/SendLoop/Once.antt =====
-- One chunk in the sending branch of `quic_process_loop` of link/src/transport/link.rs.
use quote_link_rs.Base.{
  ℕ, zero, suc, ◌+◌, ◌-◌, ◌<◌, ◌≤◌, ◌≡◌, ◌∙◌, refl, sym, ap, subst, List, [], ◌∷◌, ◌++◌, append-nil,
  append_assoc, Bool-cases, inl, inr, ◌⊎◌, none, some, Option-cases, length, length-drop, take,
  drop, take-append-drop, drop-drop, drop_all, ltb, lt→ltb, le→ltb, ◌==◌, arith,
}
use quote_link_rs.SimpleBuf
use quote_link_rs.SimpleBuf.{SimpleBuf, BufError}
use quote_link_rs.SimpleBuf.Invariant.{IsValid, push_slice-IsValid, reuse-IsValid}
use quote_link_rs.SimpleBuf.Refine.{push_slice_fits, push_slice_full, occupied_slice-reuse}
use native.Mathlib.Decide.{dec_le, dec_lt}
use quote_link_rs.Transport.SendLoop.{
  accepted, done, failed, Conn, SendError, out_of_fuel, free_failed, Process, ProcessStep, NewStep,
  conn_send_loop, then_more, on_new_verdict, send_new, on_store, store, keep_rest, moved,
}
use quote_link_rs.Transport.SendLoop.Order.{
  IsStream, Verdict-cases, IsOutside, occupied, in_order, Stuck, conn_send_loop-IsOutside,
}

-- Every error but the end of the fuel and a failed `free`.
abbrev pub IsExit : SendError → Type 0
IsExit out_of_fuel = ⊥
IsExit free_failed = ⊥
IsExit e = Unit {0}

pub IsOutside-IsExit : (e : SendError) → IsOutside e → IsExit e
IsOutside-IsExit out_of_fuel h = h
IsOutside-IsExit free_failed h = h
IsOutside-IsExit e h = tt

module _ {c : Conn} (l : IsStream c) where
  -- From `sent` bytes of `b` on: what the connection took moves on from the bytes that are left.
  abbrev NewSent : List ℕ → SimpleBuf → List ℕ → NewStep c → Type 0
  NewSent all buf b ((p, sent), none) =
      (p.stream_send_buffer ≡ buf) × (sent ≤ length b) × (p.written ++ drop sent b ≡ all)
  NewSent all buf b ((p, sent), some e) = IsOutside e

  then_send :
      (again : ℕ → Process c → NewStep c) (all b : List ℕ) (sent : ℕ) (p : Process c)
      → ((p' : Process c)
          → p'.written ≡ p.written
          → p'.stream_send_buffer ≡ p.stream_send_buffer
          → NewSent all p.stream_send_buffer b (again sent p'))
      → NewSent all p.stream_send_buffer b (then_more c again sent (conn_send_loop c p))
  unfolding conn_send_loop
  then_send again all b sent p h =
      let p' : Process c = (conn_send_loop c p).0 in
      elim (Option-cases (conn_send_loop c p).1) [
        | inl n ↦
            let e : conn_send_loop c p ≡ (p', none) = ap (λ o. (p', o)) n in
            subst (λ o. NewSent all p.stream_send_buffer b (then_more c again sent o)) (sym e)
              (h p' refl refl)
        | inr (x, n) ↦
            let e : conn_send_loop c p ≡ (p', some x) = ap (λ o. (p', o)) n in
            subst (λ o. NewSent all p.stream_send_buffer b (then_more c again sent o)) (sym e)
              (conn_send_loop-IsOutside l p x n)
      ]

  after_send :
      (before after b : List ℕ) (sent n : ℕ)
      → after ≡ before ++ take n (drop sent b)
      → after ++ drop (sent + n) b ≡ before ++ drop sent b
  after_send before after b sent n w =
      ap (λ xs. xs ++ drop (sent + n) b) w
      ∙ append_assoc before (take n (drop sent b)) (drop (sent + n) b)
      ∙ ap (λ ys. before ++ (take n (drop sent b) ++ ys)) (sym (drop-drop n sent b))
      ∙ ap (λ ys. before ++ ys) (take-append-drop n (drop sent b))

  send_new-NewSent :
      (fuel : ℕ) (b : List ℕ) (sent : ℕ) (p : Process c)
      → sent ≤ length b
      → length b - sent < fuel
      → NewSent (p.written ++ drop sent b) p.stream_send_buffer b (send_new c fuel b sent p)
  unfolding send_new on_new_verdict
  send_new-NewSent zero b sent p k h = absurd (omega arith)
  send_new-NewSent (suc fuel) b sent p k h = elim (dec_lt sent (length b)) [
    | no all_sent ↦ rw (le→ltb sent (length b) (omega arith)) (refl, k, refl)
    | yes more ↦
        let left : 0 < length (drop sent b) = omega (arith, length-drop sent b) in
        let s' : c.State = (c.stream_send p.conn (drop sent b)).0 in
        elim (Verdict-cases (c.stream_send p.conn (drop sent b)).1) [
          | inl e ↦
              let q : c.stream_send p.conn (drop sent b) ≡ (s', done) = ap (λ x. (s', x)) e in
              rw (lt→ltb sent (length b) more, q) (refl, k, refl)
          | inr (inl e) ↦
              let q : c.stream_send p.conn (drop sent b) ≡ (s', failed) = ap (λ x. (s', x)) e in
              rw (lt→ltb sent (length b) more, q) tt
          | inr (inr (n, e)) ↦
              let q : c.stream_send p.conn (drop sent b) ≡ (s', accepted n) = ap (λ x. (s', x)) e in
              let (pos, within) = l.takes p.conn s' (drop sent b) n left q in
              let room : sent + n ≤ length b = omega (arith, length-drop sent b) in
              rw (lt→ltb sent (length b) more, q)
                (then_send (send_new c fuel b) (p.written ++ drop sent b) b (sent + n) _ (λ p' w e'.
                  subst
                    (λ buf.
                      NewSent (p.written ++ drop sent b) buf b (send_new c fuel b (sent + n) p'))
                    e'
                    (subst
                      (λ all. NewSent all p'.stream_send_buffer b (send_new c fuel b (sent + n) p'))
                      (after_send p.written p'.written b sent n w)
                      (send_new-NewSent fuel b (sent + n) p' room (omega arith)))))
        ]
  ]

  -- The new bytes stand, sent or not, behind those that wait.
  abbrev Sent : Process c → List ℕ → NewStep c → Type 0
  Sent p b ((p', n), none) =
      (p'.stream_send_buffer ≡ p.stream_send_buffer)
      × (p'.written ++ (occupied l p ++ drop n b) ≡ in_order l p ++ b)
  Sent p b ((p', n), some e) = IsOutside e

  -- With nothing before them.
  alone-Sent :
      (p : Process c) (b : List ℕ) (o : NewStep c)
      → occupied l p ≡ []
      → NewSent (p.written ++ b) p.stream_send_buffer b o
      → Sent p b o
  alone-Sent p b ((p', n), none) alone (same, k, moved_on) = (
    same,
    ap (λ xs. p'.written ++ (xs ++ drop n b)) alone
        ∙ moved_on
        ∙ ap (λ xs. xs ++ b) (sym (append-nil p.written) ∙ ap (λ xs. p.written ++ xs) (sym alone)),
  )
  alone-Sent p b ((p', n), some e) alone h = h

  -- After `Done` nothing is sent.
  at_done-Sent :
      (fuel : ℕ) (p : Process c) (b : List ℕ)
      → Stuck l p.conn
      → Sent p b (send_new c (suc fuel) b 0 p)
  unfolding send_new on_new_verdict
  at_done-Sent fuel p [] stuck = (refl, sym (append_assoc p.written (occupied l p) []))
  at_done-Sent fuel p (x ∷ xs) stuck =
      let (s', e) = stuck (x ∷ xs) (omega arith) in
      rw (lt→ltb 0 (length (x ∷ xs)) (omega arith), e)
        (refl, sym (append_assoc p.written (occupied l p) (x ∷ xs)))

  -- One chunk: all its bytes stand behind those that were there, or it is dropped as a whole, since
  -- the buffer is too small.
  abbrev pub Ordered : Process c → List ℕ → ProcessStep c → Type 0
  Ordered p b (p', none) =
      IsValid p'.stream_send_buffer
      × ((in_order l p' ≡ in_order l p ++ b)
          ⊎ ((in_order l p' ≡ in_order l p) × (SimpleBuf.max_len p'.stream_send_buffer < length b)))
  Ordered p b (p', some e) = IsExit e

  store-Ordered :
      (p p' : Process c) (b : List ℕ) (n : ℕ)
      → IsValid p'.stream_send_buffer
      → p'.written ++ (occupied l p' ++ drop n b) ≡ in_order l p ++ b
      → Ordered p b (store c p' (drop n b))
  unfolding on_store
  store-Ordered p p' b n v h =
      elim (dec_le (length (drop n b))
        (p'.stream_send_buffer.capacity - p'.stream_send_buffer.vacant_idx)) [
          | yes fits ↦
              let (buf, e, bytes, _, _, _) = push_slice_fits (drop n b) v fits in
              rw e (push_slice-IsValid (drop n b) v e, inl (ap (λ ys. p'.written ++ ys) bytes ∙ h))
          | no full ↦ rw (push_slice_full (drop n b) v (omega arith)) tt
        ]

  keep_rest-Ordered :
      (p : Process c) (b : List ℕ) (o : NewStep c)
      → IsValid p.stream_send_buffer
      → Sent p b o
      → Ordered p b (keep_rest c b o)
  unfolding keep_rest
  keep_rest-Ordered p b ((p', n), some e) v h = IsOutside-IsExit e h
  keep_rest-Ordered p b ((p', n), none) v (same, h) = elim (Bool-cases (n == length b)) [
    | inl all_sent ↦
        let nothing : drop n b ≡ [] = drop_all n b (ground (arith, all_sent)) in
        rw all_sent (
          v',
          inl (
              ap (λ ys. p'.written ++ ys)
                (sym (append-nil (occupied l p')) ∙ ap (λ ys. occupied l p' ++ ys) (sym nothing))
              ∙ h'),
        )
    | inr some_left ↦ elim (Bool-cases (ltb (SimpleBuf.len p'.stream_send_buffer) (length b))) [
      | inr short ↦ rw (some_left, short) (store-Ordered p p' b n v' h')
      | inl long ↦ elim (Bool-cases (ltb (SimpleBuf.max_len p'.stream_send_buffer) (length b))) [
        | inl full ↦ rw (some_left, long, full) tt
        | inr room ↦
            rw (some_left, long, room)
              (store-Ordered p (moved c p') b n (reuse-IsValid v')
                (ap (λ ys. p'.written ++ (ys ++ drop n b)) (occupied_slice-reuse v') ∙ h'))
      ]
    ]
  ]
    where
      v' : IsValid p'.stream_send_buffer
      v' = subst IsValid (sym same) v

      h' : p'.written ++ (occupied l p' ++ drop n b) ≡ in_order l p ++ b
      h' = ap (λ buf. p'.written ++ (SimpleBuf.occupied_slice buf ++ drop n b)) same ∙ h

  -- The new bytes, from a state that is flushed.
  pub new-Ordered :
      (p : Process c) (b : List ℕ)
      → IsValid p.stream_send_buffer
      → (occupied l p ≡ []) ⊎ Stuck l p.conn
      → Ordered p b (keep_rest c b (send_new c (suc (length b)) b 0 p))
  new-Ordered p b v (inl alone) = keep_rest-Ordered p b _ v (
      alone-Sent p b (send_new c (suc (length b)) b 0 p) alone
        (send_new-NewSent (suc (length b)) b 0 p (omega arith) (omega arith)))
  new-Ordered p b v (inr stuck) = keep_rest-Ordered p b _ v (at_done-Sent (length b) p b stuck)

  pub same-Ordered :
      (p p' : Process c) (b : List ℕ) (r : ProcessStep c)
      → in_order l p' ≡ in_order l p
      → Ordered p' b r
      → Ordered p b r
  same-Ordered p p' b (q, none) e (v, inl h) = (v, inl (h ∙ ap (λ xs. xs ++ b) e))
  same-Ordered p p' b (q, none) e (v, inr (h, full)) = (v, inr (h ∙ e, full))
  same-Ordered p p' b (q, some x) e h = h
