-- ===== src/Transport/WriteLoop/EndToEnd.antt =====
-- From `link_write_loop` at one peer to `link_read_loop` at the other (link/src/transport/link.rs),
-- over a connection that carries the bytes in order and cuts them as it likes.
use quote_link_rs.Base.{
  ℕ, ◌≤◌, ◌≡◌, ◌∙◌, refl, sym, ap, List, [], ◌∷◌, ◌++◌, concat, map, length, All, isize_max,
}
use quote_link_rs.Channel.{Sender}
use quote_link_rs.Deku.{Deku, IsMsbFirst, IsByte}
use quote_link_rs.Packet.{Packet}
use quote_link_rs.Packet.Layout.{IsWellFormed, encoding}
use quote_link_rs.Packet.Front.{encodings}
use quote_link_rs.Transport.ReadLoop.{ReadState, recv_closed, start_read, link_read_loop}
use quote_link_rs.Transport.ReadLoop.Step.{buffered}
use quote_link_rs.Transport.ReadLoop.Stream.{AllFit, link_read_loop-packets}
use quote_link_rs.Transport.WriteLoop.{WriteError, link_write_loop, link_write_loop-encoding}

pub concat-map-encoding : (ps : List Packet) → concat (map encoding ps) ≡ encodings ps
concat-map-encoding [] = refl
concat-map-encoding (p ∷ ps) = ap (λ bs. encoding p ++ bs) (concat-map-encoding ps)

-- The packets that one peer hands to `link_write_loop` are those that `link_read_loop` of the other
-- sends on, in the same order: if they are well formed, if the channels have room for them and have
-- got nothing before, if the chunks that arrive are of bytes and spell the bytes that were written,
-- if each fits the buffer when it comes, and if the buffer has at most `isize::MAX` bytes. The loop
-- then runs until its channel closes, and its buffer is empty.
pub link_read_loop-link_write_loop :
    {d : Deku} (l : IsMsbFirst d) (ps : List Packet) (out : Sender (List ℕ)) (size : ℕ)
    (tx : Sender Packet) (chunks : List (List ℕ))
    → All IsWellFormed ps
    → out.sent ≡ []
    → length ps ≤ out.room
    → concat chunks ≡ concat (link_write_loop d ps out).0.sent
    → size ≤ isize_max
    → tx.sent ≡ []
    → length ps ≤ tx.room
    → All (All IsByte) chunks
    → AllFit d chunks (start_read size tx)
    → (s' : ReadState) × (link_read_loop d size tx chunks ≡ (s', recv_closed))
      × (s'.response_tx.sent ≡ ps)
      × (buffered s' ≡ [])
link_read_loop-link_write_loop {d} l ps out size tx chunks w e room arrives h e' room' hb f =
    link_read_loop-packets l size tx ps chunks h e' w room' (sym (arrives ∙ written)) hb f
  where
    written : concat (link_write_loop d ps out).0.sent ≡ encodings ps
    written =
        ap (λ (o : Sender (List ℕ) × WriteError). concat o.0.sent)
          (link_write_loop-encoding l ps out w room)
        ∙ ap (λ xss. concat (xss ++ map encoding ps)) e
        ∙ concat-map-encoding ps
