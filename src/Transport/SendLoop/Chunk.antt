-- ===== src/Transport/SendLoop/Chunk.antt =====
-- One chunk in the sending branch of `quic_process_loop` of link/src/transport/link.rs, from the
-- bytes that were left over on.
use quote_link_rs.Base.{
  ℕ, suc, ◌≡◌, ◌∙◌, sym, ap, subst, List, [], ◌++◌, Bool-cases, inl, inr, ◌⊎◌, none, some,
  Option-cases, length, ltb, ltb→lt, arith,
}
use quote_link_rs.SimpleBuf
use quote_link_rs.SimpleBuf.{SimpleBuf, BufError}
use quote_link_rs.SimpleBuf.Invariant.{IsValid, reuse-IsValid, reuse_if-IsValid}
use quote_link_rs.SimpleBuf.Refine.{occupied_slice-reuse, occupied_slice-reuse_if}
use quote_link_rs.Transport.SendLoop.{
  Conn, Process, ProcessStep, then_again, flush, send_new, keep_rest, send_after_flush, send_once,
  moved,
}
use quote_link_rs.Transport.SendLoop.Order.{
  IsStream, occupied, in_order, Stuck, Flushed, flush-Flushed,
}
use quote_link_rs.Transport.SendLoop.Once.{IsOutside-IsExit, Ordered, new-Ordered, same-Ordered}

module _ {c : Conn} (l : IsStream c) where
  after_flush-Ordered :
      (p : Process c) (b : List ℕ)
      → IsValid p.stream_send_buffer
      → (occupied l p ≡ []) ⊎ Stuck l p.conn
      → Ordered l p b (send_after_flush c b p)
  unfolding send_after_flush
  after_flush-Ordered p b v flushed =
      elim (Bool-cases (ltb (SimpleBuf.len p₁.stream_send_buffer) (length b))) [
        | inr short ↦
            rw short (same-Ordered l p p₁ b (new p₁) same₁ (new-Ordered l p₁ b v₁ flushed₁))
        | inl long ↦ elim (Bool-cases (ltb (SimpleBuf.max_len p₁.stream_send_buffer) (length b))) [
          | inl full ↦ rw (long, full) (v₁, inr (same₁, ltb→lt _ _ full))
          | inr room ↦
              rw (long, room)
                (same-Ordered l p (moved c p₁) b (new (moved c p₁))
                  (ap (λ ys. p.written ++ ys) (occupied_slice-reuse v₁) ∙ same₁)
                  (new-Ordered l (moved c p₁) b (reuse-IsValid v₁)
                    (still flushed₁ (occupied_slice-reuse v₁))))
        ]
      ]
    where
      new : Process c → ProcessStep c
      new q = keep_rest c b (send_new c (suc (length b)) b 0 q)

      p₁ : Process c
      p₁ = record p { stream_send_buffer = (SimpleBuf.reuse_if p.stream_send_buffer).0 }

      v₁ : IsValid p₁.stream_send_buffer
      v₁ = reuse_if-IsValid v

      same₁ : in_order l p₁ ≡ in_order l p
      same₁ = ap (λ ys. p.written ++ ys) (occupied_slice-reuse_if v)

      still : {xs ys : List ℕ} → (xs ≡ []) ⊎ Stuck l p.conn → ys ≡ xs → (ys ≡ []) ⊎ Stuck l p.conn
      still (inl h) e = inl (e ∙ h)
      still (inr h) e = inr h

      flushed₁ : (occupied l p₁ ≡ []) ⊎ Stuck l p.conn
      flushed₁ = still flushed (occupied_slice-reuse_if v)

  -- A chunk that the sending branch takes, with a valid buffer and a connection whose `stream_send`
  -- behaves as documented: the branch ends within its fuel, `free` never fails, and if no error
  -- ends the loop, the bytes that the connection took followed by those that wait are what they
  -- were, followed by the chunk, so that no byte is lost, repeated or overtaken; or they are what
  -- they were, and the whole chunk is dropped because the buffer is too small for it.
  pub send_once-Ordered :
      (p : Process c) (b : List ℕ) → IsValid p.stream_send_buffer → Ordered l p b (send_once c b p)
  unfolding send_once
  send_once-Ordered p b v =
      let fuel = suc (length (occupied l p)) in
      let flushed = flush-Flushed l fuel p v (omega arith) in
      let p' : Process c = (flush c fuel p).0 in
      elim (Option-cases (flush c fuel p).1) [
        | inl n ↦
            let e : flush c fuel p ≡ (p', none) = ap (λ o. (p', o)) n in
            let (v', same, rest) = subst (Flushed l (in_order l p)) e flushed in
            subst (λ o. Ordered l p b (then_again c (send_after_flush c b) o)) (sym e)
              (same-Ordered l p p' b (send_after_flush c b p') same
                (after_flush-Ordered p' b v' rest))
        | inr (x, n) ↦
            let e : flush c fuel p ≡ (p', some x) = ap (λ o. (p', o)) n in
            subst (λ o. Ordered l p b (then_again c (send_after_flush c b) o)) (sym e)
              (IsOutside-IsExit x (subst (Flushed l (in_order l p)) e flushed))
      ]
