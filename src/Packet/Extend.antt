-- ===== src/Packet/Extend.antt =====
-- The readers of link/src/packets.rs on an input that grows: what is read from some bytes, or
-- refused, is so too when more bytes follow. Only `Incomplete` can change.
use quote_link_rs.Base.{
  ℕ, ◌+◌, ◌*◌, ◌/◌, ◌<◌, ◌≡◌, ◌∙◌, refl, subst, sym, ap, List, ◌++◌, length, length-append,
  take-append_le, drop-append_le, Option, none, some, Result, ok, err, ◌>>=◌, ◌==◌, Bool-cases, inl,
  inr, arith,
}
use native.Mathlib.Decide.{dec_lt}
use quote_link_rs.Deku.{Deku, IsMsbFirst, DekuError, incomplete, parse, Input}
use quote_link_rs.Packet.{PacketHeader}
use quote_link_rs.Packet.Enums.{command_of, msg_type_of, status_of}
use quote_link_rs.Packet.Codec.{
  variant, read_command, read_msg_type, read_status, read_request_header, read_response_header,
  read_push_header, header_with_id, header_from_bytes,
}

-- The same input with more bytes at its end.
abbrev pub grow : List ℕ → Input → Input
grow more (bs, off) = (bs ++ more, off)

-- `m'` is what `m` becomes when the input grows: a value becomes `g` of it, and satisfies `Q`.
abbrev pub Extends :
    {A : Type 0} → (A → A) → (A → Type 0) → Result DekuError A → Result DekuError A → Type 0
Extends {A} g Q (ok x) m' = (◌≡◌ {A = Result DekuError A} m' (ok (g x))) × Q x
Extends {A} g Q (err parse) m' = ◌≡◌ {A = Result DekuError A} m' (err parse)
Extends g Q (err incomplete) m' = Unit {0}

Extends->>= :
    {A B : Type 0} (g : A → A) (Q : A → Type 0) (h : B → B) (S : B → Type 0)
    (m m' : Result DekuError A) (f : A → Result DekuError B)
    → Extends g Q m m'
    → ((x : A) → Q x → Extends h S (f x) (f (g x)))
    → Extends h S (m >>= f) (m' >>= f)
Extends->>= g Q h S (ok x) m' f (e, q) k =
    subst (λ m''. Extends h S (f x) (m'' >>= f)) (sym e) (k x q)
Extends->>= g Q h S (err parse) m' f e k = ap (λ m''. m'' >>= f) e
Extends->>= g Q h S (err incomplete) m' f e k = tt

abbrev Value : Type 0 → Type 0
Value A = A × Input

abbrev grow_rest : {A : Type 0} → List ℕ → Value A → Value A
grow_rest more (a, i) = (a, grow more i)

abbrev InByte : {A : Type 0} → Value A → Type 0
InByte (a, i) = i.1 < 8

-- The readers of numbers and enums.
module _ {d : Deku} (l : IsMsbFirst d) (more : List ℕ) where
  read_uint-Extends :
      (n : ℕ) (i : Input)
      → i.1 < 8
      → Extends (grow_rest more) InByte (d.read_uint n i) (d.read_uint n (grow more i))
  read_uint-Extends n i h = elim (dec_lt (8 * length i.0) (i.1 + n)) [
    | yes short ↦ rw (l.read_short n i.1 i.0 short) tt
    | no long ↦ rw (l.read_enough n i.1 i.0 h (omega arith)) (
      l.read_enough n i.1 (i.0 ++ more) h (omega (arith, length-append i.0 more))
          ∙ rw (
            take-append_le ((i.1 + n + 7) / 8) i.0 more (omega arith),
            drop-append_le ((i.1 + n) / 8) i.0 more (omega arith),
          ),
      omega arith,
    )
  ]

  variant-Extends :
      {A : Type 0} (o : Option A) (i : Input)
      → i.1 < 8
      → Extends (grow_rest more) InByte (variant o i) (variant o (grow more i))
  variant-Extends none i h = refl
  variant-Extends (some a) i h = (refl, h)

  read_command-Extends :
      (i : Input)
      → i.1 < 8
      → Extends (grow_rest more) InByte (read_command d i) (read_command d (grow more i))
  unfolding read_command
  read_command-Extends i h =
      Extends->>= (grow_rest more) InByte (grow_rest more) InByte (d.read_uint 4 i) _ _
        (read_uint-Extends 4 i h) (λ x q. variant-Extends (command_of x.0) x.1 q)

  read_msg_type-Extends :
      (i : Input)
      → i.1 < 8
      → Extends (grow_rest more) InByte (read_msg_type d i) (read_msg_type d (grow more i))
  unfolding read_msg_type
  read_msg_type-Extends i h =
      Extends->>= (grow_rest more) InByte (grow_rest more) InByte (d.read_uint 8 i) _ _
        (read_uint-Extends 8 i h) (λ x q. variant-Extends (msg_type_of x.0) x.1 q)

  read_status-Extends :
      (i : Input)
      → i.1 < 8
      → Extends (grow_rest more) InByte (read_status d i) (read_status d (grow more i))
  unfolding read_status
  read_status-Extends i h =
      Extends->>= (grow_rest more) InByte (grow_rest more) InByte (d.read_uint 8 i) _ _
        (read_uint-Extends 8 i h) (λ x q. variant-Extends (status_of x.0) x.1 q)

  -- One more field of a struct.
  field :
      {A B : Type 0} (m m' : Result DekuError (Value A)) (f : Value A → Result DekuError (Value B))
      → Extends (grow_rest more) InByte m m'
      → ((x : Value A) → InByte x → Extends (grow_rest more) InByte (f x) (f (grow_rest more x)))
      → Extends (grow_rest more) InByte (m >>= f) (m' >>= f)
  field = Extends->>= (grow_rest more) InByte (grow_rest more) InByte

  read_request_header-Extends :
      (i : Input)
      → i.1 < 8
      → Extends
          (grow_rest more)
          InByte
          (read_request_header d i)
          (read_request_header d (grow more i))
  unfolding read_request_header
  read_request_header-Extends i h = field (d.read_uint 2 i) _ _ (read_uint-Extends 2 i h) λ x₁ q₁.
      field (read_command d x₁.1) _ _ (read_command-Extends x₁.1 q₁) λ x₂ q₂.
        field (d.read_uint 24 x₂.1) _ _ (read_uint-Extends 24 x₂.1 q₂) λ x₃ q₃.
          field (d.read_uint 8 x₃.1) _ _ (read_uint-Extends 8 x₃.1 q₃) λ x₄ q₄.
            field (d.read_uint 24 x₄.1) _ _ (read_uint-Extends 24 x₄.1 q₄) λ x₅ q₅. (refl, q₅)

  read_response_header-Extends :
      (i : Input)
      → i.1 < 8
      → Extends
          (grow_rest more)
          InByte
          (read_response_header d i)
          (read_response_header d (grow more i))
  unfolding read_response_header
  read_response_header-Extends i h = field (d.read_uint 2 i) _ _ (read_uint-Extends 2 i h) λ x₁ q₁.
      field (read_command d x₁.1) _ _ (read_command-Extends x₁.1 q₁) λ x₂ q₂.
        field (d.read_uint 24 x₂.1) _ _ (read_uint-Extends 24 x₂.1 q₂) λ x₃ q₃.
          field (read_status d x₃.1) _ _ (read_status-Extends x₃.1 q₃) λ x₄ q₄.
            field (d.read_uint 24 x₄.1) _ _ (read_uint-Extends 24 x₄.1 q₄) λ x₅ q₅. (refl, q₅)

  read_push_header-Extends :
      (i : Input)
      → i.1 < 8
      → Extends (grow_rest more) InByte (read_push_header d i) (read_push_header d (grow more i))
  unfolding read_push_header
  read_push_header-Extends i h = field (d.read_uint 2 i) _ _ (read_uint-Extends 2 i h) λ x₁ q₁.
      field (read_command d x₁.1) _ _ (read_command-Extends x₁.1 q₁) λ x₂ q₂.
        field (read_msg_type d x₂.1) _ _ (read_msg_type-Extends x₂.1 q₂) λ x₃ q₃.
          field (d.read_uint 24 x₃.1) _ _ (read_uint-Extends 24 x₃.1 q₃) λ x₄ q₄. (refl, q₄)

  abbrev grow_header : Input × PacketHeader → Input × PacketHeader
  grow_header (i, h) = (grow more i, h)

  -- The struct of a header becomes the header.
  header :
      {A : Type 0} (m m' : Result DekuError (Value A)) (f : A → PacketHeader)
      → Extends (grow_rest more) InByte m m'
      → Extends grow_header
          (λ _. Unit {0})
          (m >>= λ (r, i₁). ok (i₁, f r))
          (m' >>= λ (r, i₁). ok (i₁, f r))
  header m m' f e =
      Extends->>= (grow_rest more) InByte grow_header (λ _. Unit {0}) m m' (λ (r, i₁). ok (i₁, f r))
        e (λ x q. (refl, tt))

  header_with_id-Extends :
      (id : ℕ) (i : Input)
      → i.1 < 8
      → Extends grow_header
          (λ _. Unit {0})
          (header_with_id d id i)
          (header_with_id d id (grow more i))
  unfolding header_with_id
  header_with_id-Extends id i h = elim (Bool-cases (id == 0)) [
    | inl t ↦ rw t (header _ _ PacketHeader.request (read_request_header-Extends i h))
    | inr f ↦ rw f (elim (Bool-cases (id == 1)) [
      | inl t ↦ rw t (header _ _ PacketHeader.response (read_response_header-Extends i h))
      | inr f₁ ↦ rw f₁ (elim (Bool-cases (id == 2)) [
        | inl t ↦ rw t (header _ _ PacketHeader.push (read_push_header-Extends i h))
        | inr f₂ ↦ rw f₂ refl
      ])
    ])
  ]

  header_from_bytes-Extends :
      (bs : List ℕ)
      → Extends grow_header
          (λ _. Unit {0})
          (header_from_bytes d (bs, 0))
          (header_from_bytes d (bs ++ more, 0))
  unfolding header_from_bytes
  header_from_bytes-Extends bs =
      Extends->>= (grow_rest more) InByte grow_header (λ _. Unit {0}) (d.read_uint 2 (bs, 0)) _ _
        (read_uint-Extends 2 (bs, 0) (omega arith)) (λ x q. header_with_id-Extends x.0 x.1 q)

  -- A header that was read stays when more bytes follow.
  pub header_from_bytes-append :
      (bs : List ℕ) (i : Input) (h : PacketHeader)
      → header_from_bytes d (bs, 0) ≡ ok (i, h)
      → header_from_bytes d (bs ++ more, 0) ≡ ok (grow more i, h)
  header_from_bytes-append bs i h e = let x = header_from_bytes-Extends bs in (rw e at x).0

  -- And so does a refusal.
  pub header_from_bytes-append_parse :
      (bs : List ℕ)
      → header_from_bytes d (bs, 0) ≡ err parse
      → header_from_bytes d (bs ++ more, 0) ≡ err parse
  header_from_bytes-append_parse bs e = let x = header_from_bytes-Extends bs in rw e at x
