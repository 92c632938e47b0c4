-- ===== src/Packet/Canonical.antt =====
-- `from_bytes` of link/src/packets.rs on any bytes: what it accepts are the bytes of the packet
-- that it returns, and a header decides whether a packet follows.
use quote_link_rs.Base.{
  ℕ, ◌/◌, ◌%◌, ◌<◌, ◌≡◌, refl, List, [], ◌∷◌, ◌++◌, All, ok, arith, Result, >>=-eq-ok, inl, inr,
  ◌==◌, Bool-cases, err-ne-ok, ok-injective, Option-cases,
}
use quote_link_rs.Deku.{Deku, IsMsbFirst, IsByte, DekuError, Input}
use quote_link_rs.Deku.Fields.{
  read_nothing, IsAligned, Consumed, read_u24-eq_ok, read_u8-eq_ok, read_first_two, read_second_two,
  read_last_four,
}
use quote_link_rs.Packet.Enums.{
  Command, MsgType, ResponseStatus, command_id, msg_type_id, status_id, command_of, msg_type_of,
  status_of, command_id-command_of, msg_type_id-msg_type_of, status_id-status_of,
}
use quote_link_rs.Packet.{PacketHeader, RequestHeader, ResponseHeader, PushHeader}
use quote_link_rs.Packet.Codec.{
  read_command, read_msg_type, read_status, read_request_header, read_response_header,
  read_push_header, header_from_bytes, header_with_id,
}
use quote_link_rs.Packet.Header.{IsHeader, header_encoding}

module _ {d : Deku} (l : IsMsbFirst d) where
  read_command-eq_ok :
      (b : ℕ) (bs : List ℕ) (x : Command × Input)
      → b < 256
      → read_command d (b ∷ bs, 4) ≡ ok x
      → (command_id x.0 ≡ b % 16) × (x.1 ≡ (bs, 0))
  unfolding read_command
  read_command-eq_ok b bs x h e = elim (Option-cases (command_of (b % 16))) [
    | inl p ↦ ground (arith, read_last_four l b bs h)
    | inr (c, p) ↦ ground (arith, read_last_four l b bs h, command_id-command_of (b % 16) p)
  ]

  read_status-eq_ok :
      (i : Input) (x : ResponseStatus × Input)
      → IsAligned i
      → read_status d i ≡ ok x
      → Consumed i.0 (status_id x.0 ∷ []) x.1
  unfolding read_status
  read_status-eq_ok i x hi e =
      let (y, p, k) = >>=-eq-ok (d.read_uint 8 i) _ e in
      elim (Option-cases (status_of y.0)) [
        | inl q ↦ ground arith
        | inr (s, q) ↦ ground (arith, read_u8-eq_ok l i y.0 y.1 hi p, status_id-status_of y.0 q)
      ]

  read_msg_type-eq_ok :
      (i : Input) (x : MsgType × Input)
      → IsAligned i
      → read_msg_type d i ≡ ok x
      → Consumed i.0 (msg_type_id x.0 ∷ []) x.1
  unfolding read_msg_type
  read_msg_type-eq_ok i x hi e =
      let (y, p, k) = >>=-eq-ok (d.read_uint 8 i) _ e in
      elim (Option-cases (msg_type_of y.0)) [
        | inl q ↦ ground arith
        | inr (s, q) ↦ ground (arith, read_u8-eq_ok l i y.0 y.1 hi p, msg_type_id-msg_type_of y.0 q)
      ]

  read_request_header-eq_ok :
      (b : ℕ) (bs : List ℕ) (x : RequestHeader × Input)
      → b < 64
      → All IsByte bs
      → read_request_header d (b ∷ bs, 2) ≡ ok x
      → (b ∷ bs ≡ header_encoding (PacketHeader.request x.0) ++ x.1.0)
        × IsAligned x.1
        × IsHeader (PacketHeader.request x.0)
  unfolding read_request_header
  read_request_header-eq_ok b bs x hb hbs e =
      let (x₁, p₁, k₁) =
        >>=-eq-ok (read_command d (b ∷ bs, 4)) _ (rw (read_second_two l b bs (omega arith)) at e) in
      let (c₁, j₁) = read_command-eq_ok b bs x₁ (omega arith) p₁ in
      let a₁ : IsAligned x₁.1 = rw j₁ (refl, hbs) in
      let (x₂, p₂, k₂) = >>=-eq-ok (d.read_uint 24 x₁.1) _ k₁ in
      let (f₂, b₂) = read_u24-eq_ok l x₁.1 x₂.0 x₂.1 a₁ p₂ in
      let (x₃, p₃, k₃) = >>=-eq-ok (d.read_uint 8 x₂.1) _ k₂ in
      let (f₃, b₃) = read_u8-eq_ok l x₂.1 x₃.0 x₃.1 f₂.1 p₃ in
      let (x₄, p₄, k₄) = >>=-eq-ok (d.read_uint 24 x₃.1) _ k₃ in
      let (f₄, b₄) = read_u24-eq_ok l x₃.1 x₄.0 x₄.1 f₃.1 p₄ in ground arith

  read_response_header-eq_ok :
      (b : ℕ) (bs : List ℕ) (x : ResponseHeader × Input)
      → b / 64 ≡ 1
      → All IsByte bs
      → read_response_header d (b ∷ bs, 2) ≡ ok x
      → (b ∷ bs ≡ header_encoding (PacketHeader.response x.0) ++ x.1.0)
        × IsAligned x.1
        × IsHeader (PacketHeader.response x.0)
  unfolding read_response_header
  read_response_header-eq_ok b bs x hb hbs e =
      let (x₁, p₁, k₁) =
        >>=-eq-ok (read_command d (b ∷ bs, 4)) _ (rw (read_second_two l b bs (omega arith)) at e) in
      let (c₁, j₁) = read_command-eq_ok b bs x₁ (omega arith) p₁ in
      let a₁ : IsAligned x₁.1 = rw j₁ (refl, hbs) in
      let (x₂, p₂, k₂) = >>=-eq-ok (d.read_uint 24 x₁.1) _ k₁ in
      let (f₂, b₂) = read_u24-eq_ok l x₁.1 x₂.0 x₂.1 a₁ p₂ in
      let (x₃, p₃, k₃) = >>=-eq-ok (read_status d x₂.1) _ k₂ in
      let f₃ = read_status-eq_ok x₂.1 x₃ f₂.1 p₃ in
      let (x₄, p₄, k₄) = >>=-eq-ok (d.read_uint 24 x₃.1) _ k₃ in
      let (f₄, b₄) = read_u24-eq_ok l x₃.1 x₄.0 x₄.1 f₃.1 p₄ in ground arith

  read_push_header-eq_ok :
      (b : ℕ) (bs : List ℕ) (x : PushHeader × Input)
      → b / 64 ≡ 2
      → All IsByte bs
      → read_push_header d (b ∷ bs, 2) ≡ ok x
      → (b ∷ bs ≡ header_encoding (PacketHeader.push x.0) ++ x.1.0)
        × IsAligned x.1
        × IsHeader (PacketHeader.push x.0)
  unfolding read_push_header
  read_push_header-eq_ok b bs x hb hbs e =
      let (x₁, p₁, k₁) =
        >>=-eq-ok (read_command d (b ∷ bs, 4)) _ (rw (read_second_two l b bs (omega arith)) at e) in
      let (c₁, j₁) = read_command-eq_ok b bs x₁ (omega arith) p₁ in
      let a₁ : IsAligned x₁.1 = rw j₁ (refl, hbs) in
      let (x₂, p₂, k₂) = >>=-eq-ok (read_msg_type d x₁.1) _ k₁ in
      let f₂ = read_msg_type-eq_ok x₁.1 x₂ a₁ p₂ in
      let (x₃, p₃, k₃) = >>=-eq-ok (d.read_uint 24 x₂.1) _ k₂ in
      let (f₃, b₃) = read_u24-eq_ok l x₂.1 x₃.0 x₃.1 f₂.1 p₃ in ground arith

  header_with_id-eq_ok :
      (b : ℕ) (bs : List ℕ) (x : Input × PacketHeader)
      → b < 256
      → All IsByte bs
      → header_with_id d (b / 64) (b ∷ bs, 2) ≡ ok x
      → (b ∷ bs ≡ header_encoding x.1 ++ x.0.0) × IsAligned x.0 × IsHeader x.1
  unfolding header_with_id
  header_with_id-eq_ok b bs x hb hbs e = elim (Bool-cases (b / 64 == 0)) [
    | inl t ↦
        let (y, p, k) = >>=-eq-ok (read_request_header d (b ∷ bs, 2)) _ (rw t at e) in
        of_ok k (read_request_header-eq_ok b bs y (ground arith) hbs p)
    | inr f ↦ elim (Bool-cases (b / 64 == 1)) [
      | inl t ↦
          let (y, p, k) = >>=-eq-ok (read_response_header d (b ∷ bs, 2)) _ (rw (f, t) at e) in
          of_ok k (read_response_header-eq_ok b bs y (ground arith) hbs p)
      | inr f₁ ↦ elim (Bool-cases (b / 64 == 2)) [
        | inl t ↦
            let (y, p, k) = >>=-eq-ok (read_push_header d (b ∷ bs, 2)) _ (rw (f, f₁, t) at e) in
            of_ok k (read_push_header-eq_ok b bs y (ground arith) hbs p)
        | inr f₂ ↦ absurd (err-ne-ok (rw (f, f₁, f₂) at e))
      ]
    ]
  ]
    where
      of_ok :
          {y : Input × PacketHeader}
          → ◌≡◌ {A = Result DekuError (Input × PacketHeader)} (ok y) (ok x)
          → (b ∷ bs ≡ header_encoding y.1 ++ y.0.0) × IsAligned y.0 × IsHeader y.1
          → (b ∷ bs ≡ header_encoding x.1 ++ x.0.0) × IsAligned x.0 × IsHeader x.1
      of_ok k h = rw (← ok-injective k) h

  -- A header that is read stands at the front of the input, and its numbers fit their bits.
  pub header_from_bytes-eq_ok :
      (bs : List ℕ) (x : Input × PacketHeader)
      → All IsByte bs
      → header_from_bytes d (bs, 0) ≡ ok x
      → (bs ≡ header_encoding x.1 ++ x.0.0) × IsAligned x.0 × IsHeader x.1
  unfolding header_from_bytes
  header_from_bytes-eq_ok [] x h e = ground (arith, read_nothing l 1)
  header_from_bytes-eq_ok (b ∷ bs) x h e =
      header_with_id-eq_ok b bs x h.0 h.1 (rw (read_first_two l b bs h.0) at e)
