-- ===== src/Transport/ProcessLoop/Order.antt =====
-- The order of the bytes that `quic_process_loop` of link/src/transport/link.rs carries, in both
-- directions.
use quote_link_rs.Base.{
  ℕ, zero, suc, ◌+◌, ◌-◌, ◌<◌, ◌≤◌, ◌≡◌, ◌∙◌, inl, inr, refl, sym, ap, subst, List, ◌++◌, Bool,
  none, some, Option-cases, length, length-drop, drop, lt→ltb, le→ltb, arith,
}
use native.Mathlib.Decide.{dec_lt}
use quote_link_rs.SimpleBuf.Invariant.{IsValid}
use quote_link_rs.Transport.SendLoop.{Process, ProcessStep, conn_send_loop}
use quote_link_rs.Transport.SendLoop.Order.{IsStream, in_order, conn_send_loop-IsOutside}
use quote_link_rs.Transport.SendLoop.Once.{IsExit, IsOutside-IsExit}
use quote_link_rs.Transport.ProcessLoop.{
  read, Driver, LoopError, sending, out_of_fuel, Looped, LoopStep, then_next, set_conn,
  with_process, send_pending, on_timeout, recv_all,
}

-- The documented behaviour of the further calls: `recv` on bytes reads at least one of them, and
-- each time that `stream_recv` gives bytes there are fewer left to give, which sending does not
-- change.
pub record IsDriver (d : Driver) : Type 0 where
  pub is_stream : IsStream d.conn
  pub reads :
      (c c' : d.conn.State) (bs : List ℕ) (n : ℕ)
      → 0 < length bs
      → d.recv c bs ≡ (c', some n)
      → 0 < n
  pub drains :
      (c c' : d.conn.State) (stream_id : ℕ) (bs : List ℕ) (fin : Bool)
      → d.stream_recv c stream_id ≡ (c', read bs fin)
      → d.budget c' < d.budget c
  pub keeps_budget : (c : d.conn.State) → d.budget (d.conn.sends c).0 ≤ d.budget c

-- Every error but the end of the fuel, or of a `free` that fails.
abbrev pub IsLoopExit : LoopError → Type 0
IsLoopExit (sending e) = IsExit e
IsLoopExit out_of_fuel = ⊥
IsLoopExit e = Unit {0}

module _ {d : Driver} (law : IsDriver d) (before : List (List ℕ)) where
  -- The buffer is valid, and all that the streams gave was handed on, in order.
  pub record IsGood (l : Looped d) : Type 0 where
    pub valid : IsValid l.process.stream_send_buffer
    pub handed_on : l.quic_data_recv_tx.sent ≡ before ++ l.heard

  -- The bytes that the connection took, and behind them those that wait.
  abbrev pub outgoing : Looped d → List ℕ
  outgoing l = in_order law.is_stream l.process

  abbrev pub Keeps : Looped d → LoopStep d → Type 0
  Keeps l (l', none) = IsGood l' × (outgoing l' ≡ outgoing l)
  Keeps l (l', some e) = IsLoopExit e

  pub same-Keeps :
      (l l' : Looped d) (r : LoopStep d) → outgoing l' ≡ outgoing l → Keeps l' r → Keeps l r
  same-Keeps l l' (l₂, none) same (good, more) = (good, more ∙ same)
  same-Keeps l l' (l₂, some e) same h = h

  pub then_next-Keeps :
      (l : Looped d) (again : Looped d → LoopStep d) (r : LoopStep d)
      → Keeps l r
      → ((l' : Looped d) → IsGood l' → Keeps l' (again l'))
      → Keeps l (then_next d again r)
  then_next-Keeps l again (l', none) (good, same) k = same-Keeps l l' (again l') same (k l' good)
  then_next-Keeps l again (l', some e) h k = h

  -- A part of the loop that sends.
  unfoldable pub Fine : List ℕ → ProcessStep d.conn → Type 0
  Fine all (p, none) = IsValid p.stream_send_buffer × (in_order law.is_stream p ≡ all)
  Fine all (p, some e) = IsExit e

  pub with_process-Keeps :
      (l : Looped d) (r : ProcessStep d.conn)
      → IsGood l
      → Fine (outgoing l) r
      → Keeps l (with_process d l r)
  unfolding Fine
  with_process-Keeps l (p, none) good (valid, same) =
      (record { valid = valid; handed_on = good.handed_on }, same)
  with_process-Keeps l (p, some e) good h = h

  -- `conn_send_loop` leaves the reads that are still to come.
  unfoldable pub Sent : Looped d → LoopStep d → Type 0
  Sent l (l', none) =
      IsGood l' × (outgoing l' ≡ outgoing l) × (d.budget l'.process.conn ≤ d.budget l.process.conn)
  Sent l (l', some e) = IsLoopExit e

  pub send_pending-Sent : (l : Looped d) → IsGood l → Sent l (send_pending d l)
  unfolding conn_send_loop Sent
  send_pending-Sent l good =
      let p' : Process d.conn = (conn_send_loop d.conn l.process).0 in
      elim (Option-cases (conn_send_loop d.conn l.process).1) [
        | inl n ↦
            let e : conn_send_loop d.conn l.process ≡ (p', none) = ap (λ o. (p', o)) n in
            subst (λ o. Sent l (with_process d l o)) (sym e)
              (
                record { valid = good.valid; handed_on = good.handed_on },
                refl,
                law.keeps_budget l.process.conn,
              )
        | inr (x, n) ↦
            let e : conn_send_loop d.conn l.process ≡ (p', some x) = ap (λ o. (p', o)) n in
            subst (λ o. Sent l (with_process d l o)) (sym e)
              (IsOutside-IsExit x (conn_send_loop-IsOutside law.is_stream l.process x n))
      ]

  pub Sent-Keeps : (l : Looped d) (r : LoopStep d) → Sent l r → Keeps l r
  unfolding Sent
  Sent-Keeps l (l', none) (good, same, less) = (good, same)
  Sent-Keeps l (l', some e) h = h

  pub send_pending-Keeps : (l : Looped d) → IsGood l → Keeps l (send_pending d l)
  send_pending-Keeps l good = Sent-Keeps l (send_pending d l) (send_pending-Sent l good)

  pub on_timeout-Keeps : (l : Looped d) → IsGood l → Keeps l (on_timeout d l)
  unfolding on_timeout
  on_timeout-Keeps l good =
      send_pending-Keeps (set_conn d l (d.on_timeout l.process.conn))
        (record { valid = good.valid; handed_on = good.handed_on })

  pub recv_all-Keeps :
      (fuel : ℕ) (b : List ℕ) (sent : ℕ) (l : Looped d)
      → length b - sent < fuel
      → IsGood l
      → Keeps l (recv_all d fuel b sent l)
  unfolding recv_all
  recv_all-Keeps zero b sent l h good = absurd (omega arith)
  recv_all-Keeps (suc fuel) b sent l h good = elim (dec_lt sent (length b)) [
    | no all_read ↦ rw (le→ltb sent (length b) (omega arith)) (good, refl)
    | yes more ↦
        let c' : d.conn.State = (d.recv l.process.conn (drop sent b)).0 in
        elim (Option-cases (d.recv l.process.conn (drop sent b)).1) [
          | inl e ↦
              let k : d.recv l.process.conn (drop sent b) ≡ (c', none) = ap (λ x. (c', x)) e in
              rw (lt→ltb sent (length b) more, k) tt
          | inr (n, e) ↦
              let k : d.recv l.process.conn (drop sent b) ≡ (c', some n) = ap (λ x. (c', x)) e in
              let some_read : 0 < n =
                law.reads l.process.conn c' (drop sent b) n (omega (arith, length-drop sent b)) k in
              rw (lt→ltb sent (length b) more, k)
                (recv_all-Keeps fuel b (sent + n) (set_conn d l c') (omega arith)
                  (record { valid = good.valid; handed_on = good.handed_on }))
        ]
  ]
