-- ===== src/Transport/Parse/Sound.antt =====
-- `parse_packet_buf` of link/src/transport/link.rs on any bytes: what it sends, what it consumes,
-- and where it stops.
use quote_link_rs.Base.{
  ℕ, zero, suc, ◌+◌, ◌-◌, ◌<◌, ◌≤◌, ◌≡◌, ◌∙◌, ◌≢◌, le→ltb, lt→ltb, refl, sym, ap, subst, List, [],
  ◌∷◌, ◌++◌, append_assoc, append-nil, length, length-append, All, ok, err, Result-cases, inl, inr,
  arith, isize_max,
}
use native.Mathlib.Decide.{dec_lt, ℕ_discrete}
use quote_link_rs.Channel.{Sender, send, send_closed, send_open}
use quote_link_rs.Deku.{Deku, IsMsbFirst, IsByte, incomplete, parse, Input}
use quote_link_rs.Packet.{Packet, PacketHeader, total_bytes, need_bytes, min_packet_header_size}
use quote_link_rs.Packet.Codec.{header_from_bytes}
use quote_link_rs.Packet.Layout.{IsWellFormed, encoding, length-encoding}
use quote_link_rs.Packet.Header.{with_body}
use quote_link_rs.Packet.Whole.{body_of, behind, packet_from_bytes_whole}
use quote_link_rs.Packet.Front.{
  encodings, NoPacket, AtLeast, Never, min_packet_header_size-le, incomplete-NoPacket,
  short-NoPacket, header-AtLeast, parse-Never,
}
use quote_link_rs.Transport.Parse.{
  Parsed, parsed, header_failed, packet_failed, send_failed, underflow, out_of_fuel, ParseState,
  Outcome, on_send, on_packet, on_header, parse_round, parse_loop, parse_packet_buf,
}

-- Where the loop stopped, with `total` bytes consumed and `rest` left: before a packet that is not
-- whole, with a bound on its size; before bytes that no packet starts with; or before a packet
-- that the receiver did not take. It never stops otherwise.
abbrev pub IsEnd : Parsed → ℕ → List ℕ → ℕ → Type 0
IsEnd (parsed c n) total rest room = (c ≡ total) × NoPacket rest × AtLeast n rest
IsEnd header_failed total rest room = Never rest
IsEnd send_failed total rest room =
    (room ≡ 0) × ((q : Packet) × (behind : List ℕ) × IsWellFormed q × (rest ≡ encoding q ++ behind))
IsEnd packet_failed total rest room = ⊥
IsEnd underflow total rest room = ⊥
IsEnd out_of_fuel total rest room = ⊥

-- From `consumed` bytes consumed and `bs` at hand, the loop sent `ps`, whose bytes stand at the
-- front of `bs`, and stopped before `rest`.
abbrev pub Took : ℕ → List ℕ → Sender Packet → Outcome → Type 0
Took consumed bs tx (r, tx') =
    (ps : List Packet) × (rest : List ℕ) × (bs ≡ encodings ps ++ rest)
    × All IsWellFormed ps
    × All IsByte rest
    × (tx'.sent ≡ tx.sent ++ ps)
    × (tx.room ≡ length ps + tx'.room)
    × IsEnd r (consumed + length (encodings ps)) rest tx'.room

abbrev state : Sender Packet → List ℕ → ℕ → ParseState
state tx bs consumed = record {
  response_tx = tx;
  input = (bs, 0);
  consumed_bytes = consumed;
  occupied_bytes = length bs;
  need_size = min_packet_header_size;
}

-- The loop stopped at once.
stopped :
    (r : Parsed) (tx : Sender Packet) (bs : List ℕ) (consumed : ℕ)
    → All IsByte bs
    → IsEnd r (consumed + 0) bs tx.room
    → Took consumed bs tx (r, tx)
stopped r tx bs consumed hb e = ([], bs, refl, tt, hb, sym (append-nil tx.sent), omega arith, e)

-- One packet was sent, and then what the rest of the loop sent.
one_more :
    (p : Packet) (bs rest : List ℕ) (consumed : ℕ) (tx : Sender Packet) (o : Outcome)
    → IsWellFormed p
    → bs ≡ encoding p ++ rest
    → tx.room ≢ 0
    → Took
        (consumed + total_bytes p)
        rest
        (record { room = tx.room - 1; sent = tx.sent ++ (p ∷ []) })
        o
    → Took consumed bs tx o
one_more p bs rest consumed tx (r, tx') hp e hroom (ps, rest', s, w, hb, sent, room, end) = (
  p ∷ ps,
  rest',
  e ∙ ap (λ ys. encoding p ++ ys) s ∙ sym (append_assoc (encoding p) (encodings ps) rest'),
  (hp, w),
  hb,
  sent ∙ append_assoc tx.sent (p ∷ []) ps,
  omega arith,
  subst (λ n. IsEnd r n rest' tx'.room)
      (omega (arith, length-encoding p hp, length-append (encoding p) (encodings ps))) end,
)

module _ {d : Deku} (l : IsMsbFirst d) where
  module _ (again : ParseState → Outcome) (tx : Sender Packet) (bs : List ℕ) (consumed : ℕ) where
    -- The rounds that stop at once.
    round_incomplete :
        header_from_bytes d (bs, 0) ≡ err incomplete
        → parse_round d again (state tx bs consumed) ≡ (parsed consumed min_packet_header_size, tx)
    unfolding parse_round
    round_incomplete e = rw e

    round_parse :
        header_from_bytes d (bs, 0) ≡ err parse
        → parse_round d again (state tx bs consumed) ≡ (header_failed, tx)
    unfolding parse_round
    round_parse e = rw e

    round_short :
        (x : Input × PacketHeader)
        → header_from_bytes d (bs, 0) ≡ ok x
        → length bs < need_bytes x.1
        → parse_round d again (state tx bs consumed) ≡ (parsed consumed (need_bytes x.1), tx)
    unfolding parse_round
    round_short x e h = rw (e, lt→ltb (length bs) (need_bytes x.1) h)

    -- A packet that was read is sent, if the receiver is there.
    closed_send :
        (p : Packet)
        → tx.room ≡ 0
        → on_send d again (state tx bs consumed) (send tx p) ≡ (send_failed, tx)
    unfolding on_send
    closed_send p c = rw (send_closed tx p c)

    open_send :
        (p : Packet)
        → tx.room ≢ 0
        → on_send d again (state tx bs consumed) (send tx p)
          ≡ again (state (record { room = tx.room - 1; sent = tx.sent ++ (p ∷ []) }) bs consumed)
    unfolding on_send
    open_send p c = rw (send_open tx p c)

    -- A round on a header whose packet is whole sends the packet and goes on behind it.
    round_whole :
        (x : Input × PacketHeader)
        → All IsByte bs
        → consumed + length bs ≤ isize_max
        → header_from_bytes d (bs, 0) ≡ ok x
        → need_bytes x.1 ≤ length bs
        → (p : Packet) × (rest : List ℕ) × IsWellFormed p
          × (bs ≡ encoding p ++ rest)
          × All IsByte rest
          × (parse_round d again (state tx bs consumed)
              ≡ on_send d again (state tx rest (consumed + total_bytes p)) (send tx p))
    unfolding parse_round on_header on_packet
    round_whole x hb fits e h =
        let p = with_body x.1 (body_of x) in
        let (q, s, w, hr, t) = packet_from_bytes_whole l bs x hb e h in
        let total : length bs ≡ total_bytes p + length (behind x) =
          omega (arith, ap length s, length-append (encoding p) (behind x), length-encoding p w) in
        (
          p,
          behind x,
          w,
          s,
          hr,
          rw
              (
                e,
                le→ltb (length bs) (need_bytes x.1) h,
                q,
                le→ltb (length bs) (total_bytes p) (omega arith),
              )
              (ap (λ (s' : ParseState). on_send d again s' (send tx p)) (ground arith)),
        )

  -- From any bytes, with one more round than bytes, the loop stops at one of its ends.
  parse_loop-Took :
      (fuel : ℕ) (tx : Sender Packet) (bs : List ℕ) (consumed : ℕ)
      → All IsByte bs
      → consumed + length bs ≤ isize_max
      → length bs < fuel
      → Took consumed bs tx (parse_loop d fuel (state tx bs consumed))
  unfolding parse_loop
  parse_loop-Took zero tx bs consumed hb fits h = absurd (omega arith)
  parse_loop-Took (suc fuel) tx bs consumed hb fits h =
      elim (Result-cases (header_from_bytes d (bs, 0))) [
        | inr (incomplete, e) ↦
            subst (Took consumed bs tx)
              (sym (round_incomplete (parse_loop d fuel) tx bs consumed e))
              (stopped (parsed consumed min_packet_header_size) tx bs consumed hb (
                omega arith,
                incomplete-NoPacket l bs e,
                λ more q rest w s. min_packet_header_size-le q,
              ))
        | inr (parse, e) ↦
            subst (Took consumed bs tx) (sym (round_parse (parse_loop d fuel) tx bs consumed e))
              (stopped header_failed tx bs consumed hb (parse-Never l bs e))
        | inl (x, e) ↦ elim (dec_lt (length bs) (need_bytes x.1)) [
          | yes short ↦
              subst (Took consumed bs tx)
                (sym (round_short (parse_loop d fuel) tx bs consumed x e short))
                (stopped (parsed consumed (need_bytes x.1)) tx bs consumed hb
                  (omega arith, short-NoPacket l bs x.0 x.1 e short, header-AtLeast l bs x.0 x.1 e))
          | no long ↦
              let (p, rest, w, s, hr, round) =
                round_whole (parse_loop d fuel) tx bs consumed x hb fits e (omega arith) in
              let total : length bs ≡ total_bytes p + length rest =
                omega (arith, ap length s, length-append (encoding p) rest, length-encoding p w) in
              elim (ℕ_discrete tx.room 0) [
                | yes closed ↦
                    subst (Took consumed bs tx)
                      (sym (round ∙ closed_send (parse_loop d fuel) tx rest _ p closed))
                      (stopped send_failed tx bs consumed hb (closed, (p, rest, w, s)))
                | no open_room ↦
                    subst (Took consumed bs tx)
                      (sym (round ∙ open_send (parse_loop d fuel) tx rest _ p open_room))
                      (one_more p bs rest consumed tx _ w s open_room (
                        parse_loop-Took fuel
                          (record { room = tx.room - 1; sent = tx.sent ++ (p ∷ []) }) rest
                          (consumed + total_bytes p) hr (omega arith)
                          (omega (arith, total, min_packet_header_size-le p))))
              ]
        ]
      ]

  -- `parse_packet_buf` on any bytes, up to `isize::MAX` of them: it returns or fails, without a
  -- subtraction below 0 and within its fuel; the packets that it sent are well formed, their bytes
  -- stand at the front of the buffer in the order in which they were sent, and the receiver took
  -- each. If it returns `(consumed, need_size)`, then `consumed` counts exactly those bytes, no
  -- whole packet stands behind them, and one that will stand there has `need_size` bytes or more.
  -- If it fails, no packet can ever stand behind them, or one stands there and the receiver is
  -- gone. That a packet with a readable header and all its bytes is refused does not happen.
  pub parse_packet_buf-Took :
      (tx : Sender Packet) (bs : List ℕ)
      → All IsByte bs
      → length bs ≤ isize_max
      → Took 0 bs tx (parse_packet_buf d tx bs)
  unfolding parse_packet_buf
  parse_packet_buf-Took tx bs hb fits =
      parse_loop-Took (suc (length bs)) tx bs 0 hb (omega arith) (omega arith)
