-- ===== src/Transport/ReadLoop/Stream.antt =====
-- `link_read_loop` of link/src/transport/link.rs over all its chunks: which packets it sends.
use quote_link_rs.Base.{
  ℕ, ◌<◌, ◌≤◌, ◌++◌, ◌≡◌, ◌∙◌, refl, sym, ap, ap₂, subst, Option-cases, length-zero,
  All-append_parts, List, [], ◌∷◌, append_assoc, append-nil, length, length-append, concat, All,
  Option, none, some, arith, isize_max, inl, inr,
}
use quote_link_rs.Channel.{Sender}
use quote_link_rs.Deku.{Deku, IsMsbFirst, IsByte}
use quote_link_rs.Packet.{Packet, push}
use quote_link_rs.Packet.Enums.{heartbeat, unknown}
use quote_link_rs.Packet.Layout.{IsWellFormed, encoding, length-encoding}
use quote_link_rs.Packet.Front.{
  encodings, NoPacket, Never, min_packet_header_size-le, encodings_prefix,
}
use quote_link_rs.SimpleBuf
use quote_link_rs.SimpleBuf.{SimpleBuf}
use quote_link_rs.SimpleBuf.Invariant.{new-IsValid, len-new, length-occupied_slice}
use quote_link_rs.Transport.Parse.{
  parsed, header_failed, packet_failed, send_failed, underflow, out_of_fuel,
}
use quote_link_rs.Transport.ReadLoop.{
  ReadState, ReadError, no_room, push_failed, free_failed, recv_closed, parse_failed, start_read,
  read_once, read_loop, link_read_loop,
}
use quote_link_rs.Transport.ReadLoop.Push.{Fits}
use quote_link_rs.Transport.ReadLoop.Step.{buffered, Delivered, Inv, After, read_once-After}

-- Before the first chunk.
pub start_read-Inv :
    (size : ℕ) (tx : Sender Packet)
    → size ≤ isize_max
    → tx.sent ≡ []
    → Inv tx.room [] (start_read size tx)
unfolding start_read
start_read-Inv size tx h e =
    let none_yet : SimpleBuf.occupied_slice (SimpleBuf.new size) ≡ [] =
      length-zero _ (length-occupied_slice (new-IsValid size h) ∙ len-new size) in
    record {
      counted = omega (arith, ap length e);
      valid = new-IsValid size h;
      delivered =
          (sym (ap₂ (λ ps bs. encodings ps ++ bs) e none_yet), subst (All IsWellFormed) (sym e) tt);
      bytes = subst (All IsByte) (sym none_yet) tt;
      no_packet = λ q rest w p. omega (
        arith,
        ap length p,
        ap length none_yet,
        length-append (encoding q) rest,
        length-encoding q w,
        min_packet_header_size-le q,
      );
      bound = λ more q rest w p. min_packet_header_size-le q;
    }

none_left : (rs : List Packet) → All IsWellFormed rs → NoPacket (encodings rs) → rs ≡ []
none_left [] w n = refl
none_left (r ∷ rs) w n = absurd (n r (encodings rs) w.0 refl)

-- Bytes that begin with a packet are not those of no packet.
front-pos :
    (rs : List Packet) (q : Packet) (behind more : List ℕ)
    → IsWellFormed q
    → (encoding q ++ behind) ++ more ≡ encodings rs
    → 0 < length rs
front-pos [] q behind more w e = absurd (
    omega (
      arith,
      ap length e,
      length-append (encoding q ++ behind) more,
      length-append (encoding q) behind,
      length-encoding q w,
      min_packet_header_size-le q,
    ))
front-pos (r ∷ rs) q behind more w e = omega arith

-- A packet that may always follow.
abbrev any_packet : Packet
any_packet =
    push (record { reserved = 0; command = heartbeat; msg_type = unknown; body_len = 0; body = [] })

not-Never :
    (rs : List Packet) (rest more : List ℕ)
    → All IsWellFormed rs
    → rest ++ more ≡ encodings rs
    → Never rest
    → ⊥
not-Never [] [] more w e n = n (encoding any_packet) any_packet [] (omega arith) refl
not-Never [] (x ∷ xs) more w e n = omega (arith, ap length e)
not-Never (r ∷ rs) rest more w e n = n more r (encodings rs) w.0 e

module _ (d : Deku) where
  -- Each chunk fits when it comes.
  abbrev pub AllFit : List (List ℕ) → ReadState → Type 0
  AllFit [] s = Unit {0}
  AllFit (b ∷ bs) s = Fits s.packet_buffer b × AllFit bs (read_once d s b).0

module _ {d : Deku} (l : IsMsbFirst d) where
  -- The packets that were sent are the first of those whose bytes arrive.
  left_over :
      (qs : List Packet) (stream more : List ℕ) (s : ReadState) (rest : List ℕ)
      → All IsWellFormed qs
      → encodings qs ≡ stream ++ more
      → Delivered stream s rest
      → (rs : List Packet) × (qs ≡ s.response_tx.sent ++ rs) × (rest ++ more ≡ encodings rs)
  left_over qs stream more s rest w e (split, ws) =
      encodings_prefix l s.response_tx.sent qs (rest ++ more) ws w
        (e ∙ ap (λ bs. bs ++ more) split ∙ append_assoc (encodings s.response_tx.sent) rest more)

  -- While the bytes of packets arrive, and the receiver has room for them, no chunk that fits ends
  -- the loop.
  no_exit :
      (qs : List Packet) (room : ℕ) (stream more : List ℕ) (s : ReadState) (e : ReadError)
      → All IsWellFormed qs
      → length qs ≤ room
      → encodings qs ≡ stream ++ more
      → After room stream (s, some e)
      → ⊥
  no_exit qs room stream more s (parse_failed header_failed) w fit e (rest, del, never) =
      let (rs, split, left) = left_over qs stream more s rest w e del in
      not-Never rs rest more
        (All-append_parts IsWellFormed _ rs (subst (All IsWellFormed) split w)).1 left never
  no_exit qs room stream more s (parse_failed send_failed) w fit e
        (rest, del, full, (q, bh, wq, fr)) =
      let (rs, split, left) = left_over qs stream more s rest w e del in
      omega (
        arith,
        full,
        ap length split,
        length-append s.response_tx.sent rs,
        front-pos rs q bh more wq (ap (λ bs. bs ++ more) (sym fr) ∙ left),
      )
  no_exit qs room stream more s (parse_failed (parsed c n)) w fit e a = a
  no_exit qs room stream more s (parse_failed packet_failed) w fit e a = a
  no_exit qs room stream more s (parse_failed underflow) w fit e a = a
  no_exit qs room stream more s (parse_failed out_of_fuel) w fit e a = a
  no_exit qs room stream more s no_room w fit e a = a
  no_exit qs room stream more s push_failed w fit e a = a
  no_exit qs room stream more s free_failed w fit e a = a
  no_exit qs room stream more s recv_closed w fit e a = a

  -- The bytes of the packets `qs` arrive in chunks, of which `stream` is behind.
  read_loop-packets :
      (qs : List Packet) (chunks : List (List ℕ)) (room : ℕ) (stream : List ℕ) (s : ReadState)
      → Inv room stream s
      → All IsWellFormed qs
      → length qs ≤ room
      → encodings qs ≡ stream ++ concat chunks
      → All (All IsByte) chunks
      → AllFit d chunks s
      → (s' : ReadState) × (read_loop d chunks s ≡ (s', recv_closed))
        × (s'.response_tx.sent ≡ qs)
        × (buffered s' ≡ [])
  unfolding read_loop
  read_loop-packets qs [] room stream s i w fit e hb f =
      let (rs, split, left) = left_over qs stream [] s (buffered s) w e i.delivered in
      let bytes : buffered s ≡ encodings rs = sym (append-nil (buffered s)) ∙ left in
      let nothing =
        none_left rs (All-append_parts IsWellFormed _ rs (subst (All IsWellFormed) split w)).1
          (subst NoPacket bytes i.no_packet) in
      (
        s,
        refl,
        sym (split ∙ ap (λ ps. s.response_tx.sent ++ ps) nothing ∙ append-nil s.response_tx.sent),
        bytes ∙ ap encodings nothing,
      )
  read_loop-packets qs (b ∷ bs) room stream s i w fit e hb f =
      let after = read_once-After l room stream s b i hb.0 f.0 in
      let s₁ : ReadState = (read_once d s b).0 in
      let e₁ : encodings qs ≡ (stream ++ b) ++ concat bs =
        e ∙ sym (append_assoc stream b (concat bs)) in
      elim (Option-cases (read_once d s b).1) [
        | inl n ↦
            let step : read_once d s b ≡ (s₁, none) = ap (λ (o : Option ReadError). (s₁, o)) n in
            rw step (
              read_loop-packets qs bs room (stream ++ b) s₁
                (subst (After room (stream ++ b)) step after) w fit e₁ hb.1 f.1)
        | inr (x, n) ↦ absurd (
            no_exit qs room (stream ++ b) (concat bs) s₁ x w fit e₁
              (subst (After room (stream ++ b)) (ap (λ (o : Option ReadError). (s₁, o)) n) after))
      ]

  -- Packets whose bytes arrive complete, cut into any chunks that fit the buffer when they come, are
  -- sent on: `link_read_loop` runs until its channel closes, has then sent exactly those packets in
  -- their order, and its buffer is empty. The receiver must take that many packets, and have got
  -- none before; the buffer has at most `isize::MAX` bytes.
  pub link_read_loop-packets :
      (size : ℕ) (tx : Sender Packet) (qs : List Packet) (chunks : List (List ℕ))
      → size ≤ isize_max
      → tx.sent ≡ []
      → All IsWellFormed qs
      → length qs ≤ tx.room
      → encodings qs ≡ concat chunks
      → All (All IsByte) chunks
      → AllFit d chunks (start_read size tx)
      → (s' : ReadState) × (link_read_loop d size tx chunks ≡ (s', recv_closed))
        × (s'.response_tx.sent ≡ qs)
        × (buffered s' ≡ [])
  unfolding link_read_loop
  link_read_loop-packets size tx qs chunks h e w fit arrives hb f =
      read_loop-packets qs chunks tx.room [] (start_read size tx) (start_read-Inv size tx h e) w fit
        arrives hb f
