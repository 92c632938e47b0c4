-- ===== src/Transport/ReadLoop/Step.antt =====
-- One chunk in `link_read_loop` of link/src/transport/link.rs: the invariant of the loop and how a
-- chunk that fits leaves it.
use quote_link_rs.Base.{
  ℕ, ◌+◌, ◌<◌, ◌≡◌, ◌∙◌, sym, ap, subst, List, [], ◌++◌, append_assoc, append-nil, length,
  length-append, drop, drop-append_length, All, All-append, none, some, arith, le→leb, lt→leb,
}
use native.Mathlib.Decide.{dec_le}
use quote_link_rs.Channel.{Sender}
use quote_link_rs.Deku.{Deku, IsMsbFirst, IsByte}
use quote_link_rs.Packet.{Packet}
use quote_link_rs.Packet.Layout.{IsWellFormed, encoding, length-encoding}
use quote_link_rs.Packet.Front.{encodings, encodings-append, NoPacket, AtLeast, Never}
use quote_link_rs.SimpleBuf
use quote_link_rs.SimpleBuf.{SimpleBuf}
use quote_link_rs.SimpleBuf.Invariant.{
  IsValid, len-eq, length-occupied_slice, reuse_if-IsValid, free-IsValid,
}
use quote_link_rs.SimpleBuf.Refine.{free_within, occupied_slice-reuse_if}
use quote_link_rs.Transport.Parse.{
  parsed, header_failed, packet_failed, send_failed, underflow, out_of_fuel, Outcome,
}
use quote_link_rs.Transport.Parse.Sound.{Took, parse_packet_buf-Took}
use quote_link_rs.Transport.ReadLoop.{
  ReadState, parse_failed, Step, finish, on_free, on_parsed, parse_stage, read_once,
}
use quote_link_rs.Transport.ReadLoop.Push.{Fits, push_ok}

abbrev pub buffered : ReadState → List ℕ
buffered s = SimpleBuf.occupied_slice s.packet_buffer

-- The packets that were sent, and `rest`, make up the bytes that were received.
abbrev pub Delivered : List ℕ → ReadState → List ℕ → Type 0
Delivered stream s rest =
    (stream ≡ encodings s.response_tx.sent ++ rest) × All IsWellFormed s.response_tx.sent

-- Of the `room` packets that the receiver takes in all, it has those that were sent.
abbrev pub Counted : ℕ → ReadState → Type 0
Counted room s = s.response_tx.room + length s.response_tx.sent ≡ room

-- Between two chunks, after the bytes `stream`: the buffer holds what no packet was made of.
pub record Inv (room : ℕ) (stream : List ℕ) (s : ReadState) : Type 0 where
  pub counted : Counted room s
  pub valid : IsValid s.packet_buffer
  pub delivered : Delivered stream s (buffered s)
  pub bytes : All IsByte (buffered s)
  pub no_packet : NoPacket (buffered s)
  pub bound : AtLeast s.need_size (buffered s)

-- After a chunk that fits: the invariant, or an end by bytes that no packet starts with, or by a
-- receiver that is gone. No other end happens.
abbrev pub After : ℕ → List ℕ → Step → Type 0
After room stream (s, none) = Inv room stream s
After room stream (s, some (parse_failed header_failed)) =
    (rest : List ℕ) × Delivered stream s rest × Never rest
After room stream (s, some (parse_failed send_failed)) =
    (rest : List ℕ) × Delivered stream s rest
    × (length s.response_tx.sent ≡ room)
    × ((q : Packet) × (behind : List ℕ) × IsWellFormed q × (rest ≡ encoding q ++ behind))
After room stream (s, some e) = ⊥

-- The same, where a packet may stand whole in the buffer.
record Ready (room : ℕ) (stream : List ℕ) (s : ReadState) : Type 0 where
  counted : Counted room s
  valid : IsValid s.packet_buffer
  delivered : Delivered stream s (buffered s)
  bytes : All IsByte (buffered s)
  bound : AtLeast s.need_size (buffered s)

finish-Inv :
    {room : ℕ} {stream : List ℕ} {s : ReadState}
    → Ready room stream s
    → NoPacket (buffered s)
    → After room stream (finish s)
unfolding finish
finish-Inv {stream = stream} {s = s} r n =
    let e = sym (occupied_slice-reuse_if r.valid) in
    record {
      counted = r.counted;
      valid = reuse_if-IsValid r.valid;
      delivered = subst (Delivered stream s) e r.delivered;
      bytes = subst (All IsByte) e r.bytes;
      no_packet = subst NoPacket e n;
      bound = subst (AtLeast s.need_size) e r.bound;
    }

-- The packets taken off the buffer are sent behind those sent before.
Delivered-append :
    (stream : List ℕ) (s : ReadState) (tx : Sender Packet) (ps : List Packet) (rest : List ℕ)
    → Delivered stream s (buffered s)
    → buffered s ≡ encodings ps ++ rest
    → All IsWellFormed ps
    → tx.sent ≡ s.response_tx.sent ++ ps
    → Delivered stream (record s { response_tx = tx }) rest
Delivered-append stream s tx ps rest (split, w) e wps sent = (
  split
      ∙ ap (λ bs. encodings s.response_tx.sent ++ bs) e
      ∙ sym (append_assoc (encodings s.response_tx.sent) (encodings ps) rest)
      ∙ ap (λ bs. bs ++ rest)
          (sym (encodings-append s.response_tx.sent ps) ∙ ap encodings (sym sent)),
  subst (All IsWellFormed) (sym sent) (All-append IsWellFormed s.response_tx.sent ps w wps),
)

-- What `parse_packet_buf` consumed is dropped from the buffer.
on_free-After :
    (room : ℕ) (stream : List ℕ) (s : ReadState) (n : ℕ) (front rest : List ℕ)
    → Counted room s
    → IsValid s.packet_buffer
    → buffered s ≡ front ++ rest
    → Delivered stream s rest
    → All IsByte rest
    → NoPacket rest
    → AtLeast n rest
    → After room stream (on_free s n (SimpleBuf.free s.packet_buffer (length front)))
unfolding on_free
on_free-After room stream s n front rest k v e del hb np b =
    let count : length (buffered s) ≡ length front + length rest =
      ap length e ∙ length-append front rest in
    let (buf, f, occ, _, _, _) = free_within (length front) v (omega (arith, count)) in
    let left : SimpleBuf.occupied_slice buf ≡ rest =
      occ ∙ ap (drop (length front)) e ∙ drop-append_length front rest in
    let s' : ReadState = record s { packet_buffer = buf; need_size = n } in
    subst (λ x. After room stream (on_free s n x)) (sym f)
      (finish-Inv {s = s'}
        (record {
          counted = k;
          valid =
              free-IsValid (length front) v
                (omega (arith, count, length-occupied_slice v, len-eq v)) f;
          delivered = subst (Delivered stream s') (sym left) del;
          bytes = subst (All IsByte) (sym left) hb;
          bound = subst (AtLeast n) (sym left) b;
        })
        (subst NoPacket (sym left) np))

on_parsed-After :
    (room : ℕ) (stream : List ℕ) (s : ReadState) (o : Outcome)
    → Ready room stream s
    → Took 0 (buffered s) s.response_tx o
    → After room stream (on_parsed s o)
unfolding on_parsed
on_parsed-After room stream s (parsed c n, tx) r (ps, rest, e, w, hb, sent, taken, (total, np, b)) =
    subst
      (λ k.
        After room stream
          (on_free (record s { response_tx = tx }) n (SimpleBuf.free s.packet_buffer k)))
      (sym (total ∙ omega arith))
      (on_free-After room stream (record s { response_tx = tx }) n (encodings ps) rest
        (omega (arith, r.counted, ap length sent, length-append s.response_tx.sent ps, taken))
        r.valid e (Delivered-append stream s tx ps rest r.delivered e w sent) hb np b)
on_parsed-After room stream s (header_failed, tx) r (ps, rest, e, w, hb, sent, taken, never) =
    (rest, Delivered-append stream s tx ps rest r.delivered e w sent, never)
on_parsed-After room stream s (send_failed, tx) r (ps, rest, e, w, hb, sent, taken, (z, front)) = (
  rest,
  Delivered-append stream s tx ps rest r.delivered e w sent,
  omega (arith, r.counted, ap length sent, length-append s.response_tx.sent ps, taken, z),
  front,
)
on_parsed-After room stream s (packet_failed, tx) r (ps, rest, e, w, hb, sent, taken, end) = end
on_parsed-After room stream s (underflow, tx) r (ps, rest, e, w, hb, sent, taken, end) = end
on_parsed-After room stream s (out_of_fuel, tx) r (ps, rest, e, w, hb, sent, taken, end) = end

-- Fewer bytes than a packet at their front would have hold no packet.
few-NoPacket : (n : ℕ) (bs : List ℕ) → AtLeast n bs → length bs < n → NoPacket bs
few-NoPacket n bs b h q rest w e = omega (
  arith,
  b [] q rest w (append-nil bs ∙ e),
  length-encoding q w,
  ap length e,
  length-append (encoding q) rest,
)

AtLeast-append : (n : ℕ) (bs more : List ℕ) → AtLeast n bs → AtLeast n (bs ++ more)
AtLeast-append n bs more b more' q rest w e =
    b (more ++ more') q rest w (sym (append_assoc bs more more') ∙ e)

module _ {d : Deku} (l : IsMsbFirst d) where
  parse_stage-After :
      (room : ℕ) (stream : List ℕ) (s : ReadState)
      → Ready room stream s
      → After room stream (parse_stage d s)
  unfolding parse_stage
  parse_stage-After room stream s r =
      let count = length-occupied_slice r.valid in
      elim (dec_le s.need_size (SimpleBuf.len s.packet_buffer)) [
        | yes enough ↦ rw (le→leb _ _ enough) (
            on_parsed-After room stream s _ r (
              parse_packet_buf-Took l s.response_tx (buffered s) r.bytes
                (omega (arith, count, len-eq r.valid))))
        | no few ↦
            rw (lt→leb s.need_size (SimpleBuf.len s.packet_buffer) (omega arith))
              (finish-Inv r (few-NoPacket s.need_size (buffered s) r.bound (omega (arith, count))))
      ]

  -- A chunk of bytes that fits, received by a loop in its invariant, leaves it there, or ends the
  -- loop as `After` says.
  pub read_once-After :
      (room : ℕ) (stream : List ℕ) (s : ReadState) (b : List ℕ)
      → Inv room stream s
      → All IsByte b
      → Fits s.packet_buffer b
      → After room (stream ++ b) (read_once d s b)
  unfolding read_once
  read_once-After room stream s b i hb fits =
      let (buf₁, buf₂, e₁, e₂, p) = push_ok i.valid b fits in
      rw (e₁, e₂)
        (parse_stage-After room (stream ++ b) (record s { packet_buffer = buf₂ })
          (record {
            counted = i.counted;
            valid = p.valid;
            delivered = (
              ap (λ bs. bs ++ b) i.delivered.0
                  ∙ append_assoc (encodings s.response_tx.sent) (buffered s) b
                  ∙ ap (λ bs. encodings s.response_tx.sent ++ bs) (sym p.bytes),
              i.delivered.1,
            );
            bytes = subst (All IsByte) (sym p.bytes) (All-append IsByte (buffered s) b i.bytes hb);
            bound =
                subst (AtLeast s.need_size) (sym p.bytes)
                  (AtLeast-append s.need_size (buffered s) b i.bound);
          }))
