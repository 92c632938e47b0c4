-- ===== src/Packet/Whole.antt =====
-- `from_bytes` of link/src/packets.rs after a header was read: with as many bytes as the header
-- asks for a packet follows, and it is the only one whose bytes stand there.
use quote_link_rs.Base.{
  ℕ, ◌+◌, ◌<◌, ◌≤◌, ◌≡◌, ◌∙◌, refl, ap, List, ◌++◌, length, take, drop, length-append, length-take,
  take-append-drop, All, All-take, All-drop, ok, err, arith, >>=-eq-ok, sym, append_assoc, subst,
  ok-injective, err-ne-ok,
}
use native.Mathlib.Decide.{dec_lt}
use quote_link_rs.Deku.{Deku, IsMsbFirst, IsByte, Input, incomplete}
use quote_link_rs.Deku.Fields.{IsAligned}
use quote_link_rs.Packet.{Packet, PacketHeader, total_bytes, need_bytes}
use quote_link_rs.Packet.Codec.{packet_from_bytes, header_from_bytes, packet_to_bytes}
use quote_link_rs.Packet.Layout.{IsWellFormed, encoding, packet_to_bytes-encoding}
use quote_link_rs.Packet.Decode.{packet_from_bytes-encoding}
use quote_link_rs.Packet.Header.{
  header_encoding, header_body_len, with_body, encoding-with_body, with_body-IsWellFormed,
  need_bytes-eq-length, total_bytes-with_body, packet_from_bytes_split, read_vec-take,
  read_vec_short, read_body,
}
use quote_link_rs.Packet.Canonical.{header_from_bytes-eq_ok}

-- The body that a header asks for, and what stands behind it.
abbrev pub body_of : Input × PacketHeader → List ℕ
body_of (i, h) = take (header_body_len h) i.0

abbrev pub behind : Input × PacketHeader → List ℕ
behind (i, h) = drop (header_body_len h) i.0

module _ {d : Deku} (l : IsMsbFirst d) where
  -- What `to_bytes` wrote, `from_bytes` reads back, whatever follows: for every packet whose
  -- numbers fit their bits and whose `body_len` is the length of its body, `to_bytes` succeeds and
  -- `from_bytes` on the bytes and any more returns the packet and exactly what follows.
  pub packet_from_bytes-packet_to_bytes :
      (p : Packet) (rest : List ℕ)
      → IsWellFormed p
      → (bs : List ℕ) × (packet_to_bytes d p ≡ ok bs)
        × (packet_from_bytes d (bs ++ rest, 0) ≡ ok ((rest, 0), p))
  packet_from_bytes-packet_to_bytes p rest h =
      (encoding p, packet_to_bytes-encoding l p h, packet_from_bytes-encoding l p rest h)

  module _ (bs : List ℕ) (x : Input × PacketHeader) (hb : All IsByte bs)
      (e : header_from_bytes d (bs, 0) ≡ ok x) where
    split : packet_from_bytes d (bs, 0) ≡ read_body d (x.0, x.1)
    split = packet_from_bytes_split d (bs, 0) ∙ rw e

    aligned : IsAligned x.0
    aligned = (header_from_bytes-eq_ok l bs x hb e).1

    input_bytes : length bs ≡ length (header_encoding x.1) + length x.0.0
    input_bytes =
        ap length (header_from_bytes-eq_ok l bs x hb e).0
        ∙ length-append (header_encoding x.1) x.0.0

    at_start : (x.0.0, 0) ≡ x.0
    at_start = ap (λ k. (x.0.0, k)) (sym aligned.0)

    -- Too few bytes for the header's packet.
    pub packet_from_bytes_short :
        length bs < need_bytes x.1 → packet_from_bytes d (bs, 0) ≡ err incomplete
    packet_from_bytes_short h =
        split
        ∙ ap (λ i. read_body d (i, x.1)) (sym at_start)
        ∙ rw (
            read_vec_short l (header_body_len x.1) x.0.0 aligned.1
              (omega (arith, input_bytes, need_bytes-eq-length x.1)))

    -- Enough bytes.
    pub packet_from_bytes_whole :
        need_bytes x.1 ≤ length bs
        → (packet_from_bytes d (bs, 0) ≡ ok ((behind x, 0), with_body x.1 (body_of x)))
          × (bs ≡ encoding (with_body x.1 (body_of x)) ++ behind x)
          × IsWellFormed (with_body x.1 (body_of x))
          × All IsByte (behind x)
          × (total_bytes (with_body x.1 (body_of x)) ≡ need_bytes x.1)
    packet_from_bytes_whole h = (
      split
          ∙ ap (λ i. read_body d (i, x.1)) (sym at_start)
          ∙ rw (read_vec-take l (header_body_len x.1) x.0.0 aligned.1 enough),
      (header_from_bytes-eq_ok l bs x hb e).0
          ∙ ap (λ ys. header_encoding x.1 ++ ys)
              (sym (take-append-drop (header_body_len x.1) x.0.0))
          ∙ sym (append_assoc (header_encoding x.1) (body_of x) (behind x))
          ∙ ap (λ ys. ys ++ behind x) (sym (encoding-with_body x.1 (body_of x))),
      with_body-IsWellFormed x.1 (body_of x) (header_from_bytes-eq_ok l bs x hb e).2
          (omega (arith, length-take (header_body_len x.1) x.0.0, enough))
          (All-take IsByte (header_body_len x.1) x.0.0 aligned.1),
      All-drop IsByte (header_body_len x.1) x.0.0 aligned.1,
      total_bytes-with_body x.1 (body_of x),
    )
      where
        enough : header_body_len x.1 ≤ length x.0.0
        enough = omega (arith, input_bytes, need_bytes-eq-length x.1)

  -- What `from_bytes` accepts is canonical: when it returns a packet and a rest for an input of
  -- bytes, the input is the bytes of the diagram for that packet followed by the rest, the rest
  -- starts at a whole byte, and the packet's numbers fit their bits.
  pub packet_from_bytes-eq_ok :
      (bs : List ℕ) (rest : Input) (p : Packet)
      → All IsByte bs
      → packet_from_bytes d (bs, 0) ≡ ok (rest, p)
      → (bs ≡ encoding p ++ rest.0) × (rest.1 ≡ 0) × IsWellFormed p
  packet_from_bytes-eq_ok bs rest p hb e =
      let (x, hx, k) =
        >>=-eq-ok (header_from_bytes d (bs, 0)) (read_body d)
          (sym (packet_from_bytes_split d (bs, 0)) ∙ e) in
      elim (dec_lt (length bs) (need_bytes x.1)) [
        | yes short ↦ absurd (err-ne-ok (sym (packet_from_bytes_short bs x hb hx short) ∙ e))
        | no whole ↦
            let (q, canonical, fits, _, _) = packet_from_bytes_whole bs x hb hx (omega arith) in
            subst
              (λ (y : Input × Packet).
                (bs ≡ encoding y.1 ++ y.0.0) × (y.0.1 ≡ 0) × IsWellFormed y.1)
              (ok-injective (sym q ∙ e)) (canonical, refl, fits)
      ]
