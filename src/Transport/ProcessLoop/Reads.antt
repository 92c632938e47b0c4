-- ===== src/Transport/ProcessLoop/Reads.antt =====
-- What `quic_process_loop` of link/src/transport/link.rs does with a datagram: the reads of the
-- streams keep the order in both directions.
use quote_link_rs.Base.{
  ℕ, zero, suc, ◌-◌, ◌<◌, ◌≡◌, ◌∙◌, inl, inr, refl, ap, List, [], ◌∷◌, ◌++◌, append_assoc, Bool,
  Bool-cases, true, false, none, some, length, ◌==◌, arith,
}
use quote_link_rs.Channel.{send, send_closed, send_open}
use quote_link_rs.Transport.ProcessLoop.{
  StreamRead, read, done, failed, Driver, Looped, LoopStep, then_next, set_conn, send_pending,
  recv_all, on_forward, on_stream_recv, stream_read, read_streams, read_readable, on_udp_data,
}
use quote_link_rs.Transport.ProcessLoop.Order.{
  IsDriver, IsGood, Keeps, same-Keeps, then_next-Keeps, Sent, send_pending-Sent, send_pending-Keeps,
  recv_all-Keeps,
}

module _ {d : Driver} (law : IsDriver d) (before : List (List ℕ)) where
  -- The bytes of a stream were handed on, and the next are read.
  pub then_read-Keeps :
      (fuel : ℕ) (l : Looped d) (again : Looped d → LoopStep d) (r : LoopStep d)
      → d.budget l.process.conn < fuel
      → Sent law before l r
      → ((l' : Looped d)
          → d.budget l'.process.conn < fuel
          → IsGood law before l'
          → Keeps law before l' (again l'))
      → Keeps law before l (then_next d again r)
  unfolding Sent
  then_read-Keeps fuel l again (l', none) h (good, same, less) k =
      same-Keeps law before l l' (again l') same (k l' (omega arith) good)
  then_read-Keeps fuel l again (l', some e) h s k = s

  pub on_forward-Keeps :
      (fuel : ℕ) (l : Looped d) (bs : List ℕ) (fin : Bool) (again : Looped d → LoopStep d)
      → d.budget l.process.conn < fuel
      → IsGood law before l
      → ((l' : Looped d)
          → d.budget l'.process.conn < fuel
          → IsGood law before l'
          → Keeps law before l' (again l'))
      → Keeps law before l (
          on_forward d again fin
            (record l { heard = l.heard ++ (bs ∷ []) })
            (send l.quic_data_recv_tx bs))
  on_forward-Keeps fuel l bs fin again h good k =
      elim (Bool-cases (l.quic_data_recv_tx.room == 0)) [
        | inl gone ↦ rw (send_closed l.quic_data_recv_tx bs (ground (arith, gone))) tt
        | inr there ↦ rw (send_open l.quic_data_recv_tx bs (ground (arith, there))) (on_fin fin)
      ]
    where
      handed : Looped d
      handed = record l {
        heard = l.heard ++ (bs ∷ []);
        quic_data_recv_tx = record {
          room = l.quic_data_recv_tx.room - 1;
          sent = l.quic_data_recv_tx.sent ++ (bs ∷ []);
        };
      }

      handed-IsGood : IsGood law before handed
      handed-IsGood = record {
        valid = good.valid;
        handed_on =
            ap (λ xs. xs ++ (bs ∷ [])) good.handed_on ∙ append_assoc before l.heard (bs ∷ []);
      }

      on_fin :
          (fin' : Bool)
          → Keeps law before l (
              on_forward d again fin'
                (record l { heard = l.heard ++ (bs ∷ []) })
                (some handed.quic_data_recv_tx))
      on_fin true = tt
      on_fin false =
          then_read-Keeps fuel handed again (send_pending d handed) h
            (send_pending-Sent law before handed handed-IsGood) k

  pub on_stream_recv-Keeps :
      (fuel stream_id : ℕ) (l : Looped d) (again : Looped d → LoopStep d)
      (answer : d.conn.State × StreamRead)
      → d.stream_recv l.process.conn stream_id ≡ answer
      → d.budget l.process.conn < suc fuel
      → IsGood law before l
      → ((l' : Looped d)
          → d.budget l'.process.conn < fuel
          → IsGood law before l'
          → Keeps law before l' (again l'))
      → Keeps law before l (on_stream_recv d again l answer)
  on_stream_recv-Keeps fuel stream_id l again (c, done) e h good k =
      (record { valid = good.valid; handed_on = good.handed_on }, refl)
  on_stream_recv-Keeps fuel stream_id l again (c, failed) e h good k = tt
  on_stream_recv-Keeps fuel stream_id l again (c, read bs fin) e h good k =
      let less : d.budget c < d.budget l.process.conn =
        law.drains l.process.conn c stream_id bs fin e in
      on_forward-Keeps fuel (set_conn d l c) bs fin again (omega arith)
        (record { valid = good.valid; handed_on = good.handed_on }) k

  pub stream_read-Keeps :
      (fuel stream_id : ℕ) (l : Looped d)
      → d.budget l.process.conn < fuel
      → IsGood law before l
      → Keeps law before l (stream_read d fuel stream_id l)
  unfolding stream_read
  stream_read-Keeps zero stream_id l h good = absurd (omega arith)
  stream_read-Keeps (suc fuel) stream_id l h good =
      on_stream_recv-Keeps fuel stream_id l (stream_read d fuel stream_id)
        (d.stream_recv l.process.conn stream_id) refl h good
        (λ l' h' good'. stream_read-Keeps fuel stream_id l' h' good')

  pub read_streams-Keeps :
      (stream_ids : List ℕ) (l : Looped d)
      → IsGood law before l
      → Keeps law before l (read_streams d stream_ids l)
  unfolding read_streams
  read_streams-Keeps [] l good = (good, refl)
  read_streams-Keeps (stream_id ∷ stream_ids) l good =
      then_next-Keeps law before l (read_streams d stream_ids)
        (stream_read d (suc (d.budget l.process.conn)) stream_id l)
        (stream_read-Keeps (suc (d.budget l.process.conn)) stream_id l (omega arith) good)
        (read_streams-Keeps stream_ids)

  pub on_udp_data-Keeps :
      (b : List ℕ) (l : Looped d) → IsGood law before l → Keeps law before l (on_udp_data d b l)
  unfolding on_udp_data
  on_udp_data-Keeps b l good =
      then_next-Keeps law before l (read_readable d)
        (then_next d (send_pending d) (recv_all d (suc (length b)) b 0 l))
        (then_next-Keeps law before l (send_pending d) (recv_all d (suc (length b)) b 0 l)
          (recv_all-Keeps law before (suc (length b)) b 0 l (omega arith) good)
          (send_pending-Keeps law before))
        (λ l' good'. read_streams-Keeps (d.readable l'.process.conn) l' good')
