-- ===== src/Transport/ReadLoop/Stop.antt =====
-- `link_read_loop` of link/src/transport/link.rs on any chunks: how a chunk that does not fit ends
-- it, and that what it sent came off the stream.
use quote_link_rs.Base.{
  ℕ, ◌-◌, ◌<◌, ◌≤◌, ◌≡◌, ◌∙◌, ◌++◌, ◌⊎◌, inl, inr, sym, ap, subst, List, [], ◌∷◌, length, concat,
  append_assoc, append-nil, All, Option, Option-cases, none, some, arith, isize_max,
}
use native.Mathlib.Decide.{dec_lt, dec_le}
use quote_link_rs.Channel.{Sender}
use quote_link_rs.Deku.{Deku, IsMsbFirst, IsByte}
use quote_link_rs.Packet.{Packet}
use quote_link_rs.Packet.Front.{encodings}
use quote_link_rs.SimpleBuf
use quote_link_rs.SimpleBuf.{SimpleBuf}
use quote_link_rs.SimpleBuf.Invariant.{IsValid}
use quote_link_rs.Transport.Parse.{
  parsed, header_failed, packet_failed, send_failed, underflow, out_of_fuel,
}
use quote_link_rs.Transport.ReadLoop.{
  ReadState, ReadError, no_room, push_failed, free_failed, recv_closed, parse_failed, Step,
  start_read, read_once, continue, read_loop, link_read_loop,
}
use quote_link_rs.Transport.ReadLoop.Push.{Fits, push_err}
use quote_link_rs.Transport.ReadLoop.Step.{buffered, Delivered, Inv, After, read_once-After}
use quote_link_rs.Transport.ReadLoop.Stream.{start_read-Inv}

Fits-dec : (buf : SimpleBuf) (b : List ℕ) → Dec (Fits buf b)
Fits-dec buf b = elim (dec_lt (SimpleBuf.len buf) (length b)) [
  | yes long ↦ elim (dec_le (length b) (SimpleBuf.max_len buf)) [
    | yes room ↦ yes (inr (long, room))
    | no full ↦ no (λ f. omega arith)
  ]
  | no short ↦ elim (dec_le (length b) (buf.capacity - buf.vacant_idx)) [
    | yes room ↦ yes (inl (omega arith, room))
    | no full ↦ no (λ f. omega arith)
  ]
]

module _ (d : Deku) where
  -- A chunk that does not fit ends the loop, and the state stays as it was.
  read_once-stop :
      (s : ReadState) (b : List ℕ)
      → IsValid s.packet_buffer
      → (¬ Fits s.packet_buffer b)
      → ((read_once d s b ≡ (s, some no_room)) × (SimpleBuf.max_len s.packet_buffer < length b))
        ⊎ ((read_once d s b ≡ (s, some push_failed)) × (length b ≤ SimpleBuf.len s.packet_buffer))
  unfolding read_once
  read_once-stop s b v h = elim (push_err v b h) [
    | inl (e, full) ↦ inl (rw e, full)
    | inr (e₁, e₂, short) ↦ inr (rw (e₁, e₂), short)
  ]

  -- With a valid buffer, a chunk no longer than the bytes at hand, for which there is too little room
  -- behind the last byte, ends the loop by a failed `push_slice`, although the buffer has room for it
  -- in all.
  pub read_once-push_failed :
      (s : ReadState) (b : List ℕ)
      → IsValid s.packet_buffer
      → length b ≤ SimpleBuf.len s.packet_buffer
      → s.packet_buffer.capacity - s.packet_buffer.vacant_idx < length b
      → length b ≤ SimpleBuf.max_len s.packet_buffer
      → read_once d s b ≡ (s, some push_failed)
  read_once-push_failed s b v short full room = elim (read_once-stop s b v (λ f. omega arith)) [
    | inl (e, none_left) ↦ absurd (omega arith)
    | inr (e, _) ↦ e
  ]

Delivered-more :
    (stream more : List ℕ) (s : ReadState) (rest : List ℕ)
    → Delivered stream s rest
    → Delivered (stream ++ more) s (rest ++ more)
Delivered-more stream more s rest (e, w) =
    (ap (λ bs. bs ++ more) e ∙ append_assoc (encodings s.response_tx.sent) rest more, w)

exit-Delivered :
    (room : ℕ) (stream : List ℕ) (s : ReadState) (e : ReadError)
    → After room stream (s, some e)
    → (rest : List ℕ) × Delivered stream s rest
exit-Delivered room stream s (parse_failed header_failed) (rest, del, _) = (rest, del)
exit-Delivered room stream s (parse_failed send_failed) (rest, del, _, _) = (rest, del)
exit-Delivered room stream s (parse_failed (parsed c n)) a = absurd a
exit-Delivered room stream s (parse_failed packet_failed) a = absurd a
exit-Delivered room stream s (parse_failed underflow) a = absurd a
exit-Delivered room stream s (parse_failed out_of_fuel) a = absurd a
exit-Delivered room stream s no_room a = absurd a
exit-Delivered room stream s push_failed a = absurd a
exit-Delivered room stream s free_failed a = absurd a
exit-Delivered room stream s recv_closed a = absurd a

-- The loop ends at once in the state `s`.
ended :
    (stream more : List ℕ) (s : ReadState) (rest : List ℕ) (o : ReadState × ReadError)
    → o.0 ≡ s
    → Delivered stream s rest
    → (rest' : List ℕ) × Delivered (stream ++ more) o.0 rest'
ended stream more s rest o e del = (
  rest ++ more,
  subst (λ s'. Delivered (stream ++ more) s' (rest ++ more)) (sym e)
      (Delivered-more stream more s rest del),
)

module _ {d : Deku} (l : IsMsbFirst d) where
  read_loop-Delivered :
      (chunks : List (List ℕ)) (room : ℕ) (stream : List ℕ) (s : ReadState)
      → Inv room stream s
      → All (All IsByte) chunks
      → (rest : List ℕ) × Delivered (stream ++ concat chunks) (read_loop d chunks s).0 rest
  unfolding read_loop
  read_loop-Delivered [] room stream s i hb =
      (buffered s, subst (λ bs. Delivered bs s (buffered s)) (sym (append-nil stream)) i.delivered)
  read_loop-Delivered (b ∷ bs) room stream s i hb = elim (Fits-dec s.packet_buffer b) [
    | no misfit ↦ elim (read_once-stop d s b i.valid misfit) [
      | inl (e, _) ↦
          ended stream (b ++ concat bs) s (buffered s)
            (continue d (read_loop d bs) (read_once d s b))
            (ap (λ (o : Step). (continue d (read_loop d bs) o).0) e) i.delivered
      | inr (e, _) ↦
          ended stream (b ++ concat bs) s (buffered s)
            (continue d (read_loop d bs) (read_once d s b))
            (ap (λ (o : Step). (continue d (read_loop d bs) o).0) e) i.delivered
    ]
    | yes fits ↦
        let after = read_once-After l room stream s b i hb.0 fits in
        let s₁ : ReadState = (read_once d s b).0 in
        let as_one = append_assoc stream b (concat bs) in
        subst
          (λ all.
            (rest : List ℕ) × Delivered all (continue d (read_loop d bs) (read_once d s b)).0 rest)
          as_one
          (elim (Option-cases (read_once d s b).1) [
            | inl n ↦
                let step : read_once d s b ≡ (s₁, none) =
                  ap (λ (o : Option ReadError). (s₁, o)) n in
                rw step (
                  read_loop-Delivered bs room (stream ++ b) s₁
                    (subst (After room (stream ++ b)) step after) hb.1)
            | inr (x, n) ↦
                let step : read_once d s b ≡ (s₁, some x) =
                  ap (λ (o : Option ReadError). (s₁, o)) n in
                let (rest, del) =
                  exit-Delivered room (stream ++ b) s₁ x
                    (subst (After room (stream ++ b)) step after) in
                ended (stream ++ b) (concat bs) s₁ rest
                  (continue d (read_loop d bs) (read_once d s b))
                  (ap (λ (o : Step). (continue d (read_loop d bs) o).0) step) del
          ])
  ]

  -- Whatever bytes arrive, and however they are cut, with a buffer of at most `isize::MAX` bytes and
  -- a receiver that has got nothing before: the packets that `link_read_loop` sent when it ends are
  -- well formed, and the received bytes begin with their bytes, in the order in which they were
  -- sent. Nothing is sent twice, reordered or made up.
  pub link_read_loop-Delivered :
      (size : ℕ) (tx : Sender Packet) (chunks : List (List ℕ))
      → size ≤ isize_max
      → tx.sent ≡ []
      → All (All IsByte) chunks
      → (rest : List ℕ) × Delivered (concat chunks) (link_read_loop d size tx chunks).0 rest
  unfolding link_read_loop
  link_read_loop-Delivered size tx chunks h e hb =
      read_loop-Delivered chunks tx.room [] (start_read size tx) (start_read-Inv size tx h e) hb
