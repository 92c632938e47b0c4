-- ===== src/Packet/Front.antt =====
-- The packet at the front of some bytes, for link/src/packets.rs: what a header, or the lack of
-- one, says of it.
use quote_link_rs.Base.{
  ℕ, ◌<◌, ◌≤◌, ◌≡◌, ◌∙◌, refl, sym, ap, ap₂, List, [], ◌∷◌, ◌++◌, length, length-append,
  append_assoc, ok, err, arith, All, ok-injective, err-ne-ok,
}
use quote_link_rs.Deku.{Deku, IsMsbFirst, incomplete, parse, Input}
use quote_link_rs.Packet.{Packet, PacketHeader, total_bytes, need_bytes, min_packet_header_size}
use quote_link_rs.Packet.Codec.{header_from_bytes, packet_from_bytes}
use quote_link_rs.Packet.Layout.{IsWellFormed, encoding, length-encoding}
use quote_link_rs.Packet.Decode.{packet_from_bytes-encoding}
use quote_link_rs.Packet.Header.{IsHeader, header_encoding, header_of, header_from_bytes-encoding}
use quote_link_rs.Packet.Extend.{header_from_bytes-append, header_from_bytes-append_parse}

-- The bytes of packets, one after another.
abbrev pub encodings : List Packet → List ℕ
encodings [] = []
encodings (p ∷ ps) = encoding p ++ encodings ps

pub encodings-append : (ps qs : List Packet) → encodings (ps ++ qs) ≡ encodings ps ++ encodings qs
encodings-append [] qs = refl
encodings-append (p ∷ ps) qs =
    ap (λ bs. encoding p ++ bs) (encodings-append ps qs)
    ∙ sym (append_assoc (encoding p) (encodings ps) (encodings qs))

-- No packet stands whole at the front.
abbrev pub NoPacket : List ℕ → Type 0
NoPacket bs = (q : Packet) (rest : List ℕ) → IsWellFormed q → bs ≡ encoding q ++ rest → ⊥

-- A packet that will stand at the front when more bytes have come has at least `n` bytes.
abbrev pub AtLeast : ℕ → List ℕ → Type 0
AtLeast n bs =
    (more : List ℕ) (q : Packet) (rest : List ℕ)
    → IsWellFormed q
    → bs ++ more ≡ encoding q ++ rest
    → n ≤ total_bytes q

-- No packet will ever stand at the front.
abbrev pub Never : List ℕ → Type 0
Never bs =
    (more : List ℕ) (q : Packet) (rest : List ℕ)
    → IsWellFormed q
    → bs ++ more ≡ encoding q ++ rest
    → ⊥

pub min_packet_header_size-le : (q : Packet) → min_packet_header_size ≤ total_bytes q
unfolding total_bytes
min_packet_header_size-le (Packet.request r) = omega arith
min_packet_header_size-le (Packet.response r) = omega arith
min_packet_header_size-le (Packet.push r) = omega arith

abbrev body_bytes : Packet → List ℕ
body_bytes (Packet.request r) = r.body
body_bytes (Packet.response r) = r.body
body_bytes (Packet.push r) = r.body

encoding-header_encoding :
    (q : Packet) (rest : List ℕ)
    → encoding q ++ rest ≡ header_encoding (header_of q) ++ (body_bytes q ++ rest)
encoding-header_encoding (Packet.request r) rest = refl
encoding-header_encoding (Packet.response r) rest = refl
encoding-header_encoding (Packet.push r) rest = refl

header_of-IsHeader : (q : Packet) → IsWellFormed q → IsHeader (header_of q)
header_of-IsHeader (Packet.request r) (a, b, c, e, f, g) = (a, b, c, e)
header_of-IsHeader (Packet.response r) (a, b, c, e, f) = (a, b, c)
header_of-IsHeader (Packet.push r) (a, b, c, e) = (a, b)

need_bytes-header_of : (q : Packet) → need_bytes (header_of q) ≡ total_bytes q
unfolding need_bytes total_bytes
need_bytes-header_of (Packet.request r) = refl
need_bytes-header_of (Packet.response r) = refl
need_bytes-header_of (Packet.push r) = refl

module _ {d : Deku} (l : IsMsbFirst d) where
  -- The header of the bytes of a packet is that of the packet, and asks for its size.
  header_from_bytes-front :
      {bs : List ℕ} (q : Packet) (rest : List ℕ)
      → IsWellFormed q
      → bs ≡ encoding q ++ rest
      → header_from_bytes d (bs, 0) ≡ ok ((body_bytes q ++ rest, 0), header_of q)
  header_from_bytes-front q rest h s =
      rw (s, encoding-header_encoding q rest)
        (header_from_bytes-encoding l (header_of q) (body_bytes q ++ rest) (header_of-IsHeader q h))

  front_need :
      (bs : List ℕ) (i : Input) (h : PacketHeader) (q : Packet) (rest : List ℕ)
      → header_from_bytes d (bs, 0) ≡ ok (i, h)
      → IsWellFormed q
      → bs ≡ encoding q ++ rest
      → need_bytes h ≡ total_bytes q
  front_need bs i h q rest e w s =
      ap (λ (x : Input × PacketHeader). need_bytes x.1)
        (ok-injective (sym e ∙ header_from_bytes-front q rest w s))
      ∙ need_bytes-header_of q

  pub incomplete-NoPacket :
      (bs : List ℕ) → header_from_bytes d (bs, 0) ≡ err incomplete → NoPacket bs
  incomplete-NoPacket bs e q rest w s = err-ne-ok (sym e ∙ header_from_bytes-front q rest w s)

  pub short-NoPacket :
      (bs : List ℕ) (i : Input) (h : PacketHeader)
      → header_from_bytes d (bs, 0) ≡ ok (i, h)
      → length bs < need_bytes h
      → NoPacket bs
  short-NoPacket bs i h e short q rest w s = omega (
    arith,
    front_need bs i h q rest e w s,
    length-encoding q w,
    ap length s,
    length-append (encoding q) rest,
  )

  pub header-AtLeast :
      (bs : List ℕ) (i : Input) (h : PacketHeader)
      → header_from_bytes d (bs, 0) ≡ ok (i, h)
      → AtLeast (need_bytes h) bs
  header-AtLeast bs i h e more q rest w s =
      omega
        (arith, front_need (bs ++ more) _ h q rest (header_from_bytes-append l more bs i h e) w s)

  pub parse-Never : (bs : List ℕ) → header_from_bytes d (bs, 0) ≡ err parse → Never bs
  parse-Never bs e more q rest w s =
      err-ne-ok
        (sym (header_from_bytes-append_parse l more bs e) ∙ header_from_bytes-front q rest w s)

  -- The packet at the front, and what follows it, are determined by the bytes.
  pub front_unique :
      (p q : Packet) (xs ys : List ℕ)
      → IsWellFormed p
      → IsWellFormed q
      → encoding p ++ xs ≡ encoding q ++ ys
      → (p ≡ q) × (xs ≡ ys)
  front_unique p q xs ys hp hq e =
      let s = ok-injective (
        sym (packet_from_bytes-encoding l p xs hp)
        ∙ ap (λ bs. packet_from_bytes d (bs, 0)) e
        ∙ packet_from_bytes-encoding l q ys hq) in
      (ap (λ (x : Input × Packet). x.1) s, ap (λ (x : Input × Packet). x.0.0) s)

  -- If packets stand at the front of the bytes of other packets, then these begin with those.
  pub encodings_prefix :
      (ps qs : List Packet) (rest : List ℕ)
      → All IsWellFormed ps
      → All IsWellFormed qs
      → encodings qs ≡ encodings ps ++ rest
      → (rs : List Packet) × (qs ≡ ps ++ rs) × (rest ≡ encodings rs)
  encodings_prefix [] qs rest hp hq e = (qs, refl, sym e)
  encodings_prefix (p ∷ ps) [] rest hp hq e = absurd (
      omega (
        arith,
        ap length e,
        length-encoding p hp.0,
        min_packet_header_size-le p,
        length-append (encoding p ++ encodings ps) rest,
        length-append (encoding p) (encodings ps),
      ))
  encodings_prefix (p ∷ ps) (q ∷ qs) rest hp hq e =
      let (same, e') =
        front_unique q p (encodings qs) (encodings ps ++ rest) hq.0 hp.0
          (e ∙ append_assoc (encoding p) (encodings ps) rest) in
      let (rs, split, left) = encodings_prefix ps qs rest hp.1 hq.1 e' in
      (rs, ap₂ ◌∷◌ same split, left)
