-- ===== src/Deku/Fields.antt =====
-- The fields that the packets use, read and written by a crate that behaves as documented: the
-- three parts of the first byte, whole bytes and numbers of three bytes.
use quote_link_rs.Base.{
  ℕ, suc, ◌+◌, ◌*◌, ◌/◌, ◌%◌, ◌^◌, ◌<◌, ◌≡◌, sym, ap, ◌∙◌, List, [], ◌∷◌, ◌++◌, All, ok, err, arith,
}
use quote_link_rs.Deku.{
  Deku, IsMsbFirst, Input, Output, IsByte, incomplete, from_be_bytes, to_be_bytes, start,
}

abbrev pub u24_mod : ℕ
u24_mod = 2 ^ 24

-- A number of three bytes is the number that its bytes spell.
pub from-to_be_bytes : (v : ℕ) → v < u24_mod → from_be_bytes (to_be_bytes 3 v) ≡ v
from-to_be_bytes v h = omega arith

pub to_be_bytes-IsByte : (v : ℕ) → All IsByte (to_be_bytes 3 v)
to_be_bytes-IsByte v = omega arith

-- An input at the start of a byte.
abbrev pub IsAligned : Input → Type 0
IsAligned i = (i.1 ≡ 0) × All IsByte i.0

-- The bytes `used` stand at the front of `bs`, and `j` is what is left behind them.
abbrev pub Consumed : List ℕ → List ℕ → Input → Type 0
Consumed bs used j = (bs ≡ used ++ j.0) × IsAligned j

-- An output that ends with a whole byte.
abbrev pub aligned : List ℕ → Output
aligned out = record { done = out; pending = 0; bits = 0 }

-- An output that holds less than a byte.
abbrev pub unaligned : ℕ → ℕ → Output
unaligned v n = record { done = []; pending = v; bits = n }

module _ {d : Deku} (l : IsMsbFirst d) where
  open l use {read_short, read_enough, write_fits}

  pub read_first_two :
      (b : ℕ) (bs : List ℕ) → b < 256 → d.read_uint 2 (b ∷ bs, 0) ≡ ok (b / 64, (b ∷ bs, 2))
  read_first_two b bs h =
      read_enough 2 0 (b ∷ bs) (omega arith) (omega arith)
      ∙ ap (λ (v : ℕ). ok (v, (b ∷ bs, 2))) (omega arith)

  pub read_second_two :
      (b : ℕ) (bs : List ℕ) → b < 256 → d.read_uint 2 (b ∷ bs, 2) ≡ ok (b / 16 % 4, (b ∷ bs, 4))
  read_second_two b bs h =
      read_enough 2 2 (b ∷ bs) (omega arith) (omega arith)
      ∙ ap (λ (v : ℕ). ok (v, (b ∷ bs, 4))) (omega arith)

  pub read_last_four :
      (b : ℕ) (bs : List ℕ) → b < 256 → d.read_uint 4 (b ∷ bs, 4) ≡ ok (b % 16, (bs, 0))
  read_last_four b bs h =
      read_enough 4 4 (b ∷ bs) (omega arith) (omega arith)
      ∙ ap (λ (v : ℕ). ok (v, (bs, 0))) (omega arith)

  pub read_u8 : (b : ℕ) (bs : List ℕ) → b < 256 → d.read_uint 8 (b ∷ bs, 0) ≡ ok (b, (bs, 0))
  read_u8 b bs h =
      read_enough 8 0 (b ∷ bs) (omega arith) (omega arith)
      ∙ ap (λ (v : ℕ). ok (v, (bs, 0))) (omega arith)

  pub read_u24_bytes :
      (a b c : ℕ) (bs : List ℕ)
      → a < 256
      → b < 256
      → c < 256
      → d.read_uint 24 (a ∷ b ∷ c ∷ bs, 0) ≡ ok (from_be_bytes (a ∷ b ∷ c ∷ []), (bs, 0))
  read_u24_bytes a b c bs ha hb hc =
      read_enough 24 0 (a ∷ b ∷ c ∷ bs) (omega arith) (omega arith)
      ∙ ap (λ (v : ℕ). ok (v, (bs, 0))) (omega arith)

  pub read_u24 :
      (v : ℕ) (bs : List ℕ)
      → v < u24_mod
      → d.read_uint 24 (to_be_bytes 3 v ++ bs, 0) ≡ ok (v, (bs, 0))
  read_u24 v bs h =
      read_enough 24 0 (to_be_bytes 3 v ++ bs) (omega arith) (omega arith)
      ∙ ap (λ (v : ℕ). ok (v, (bs, 0))) (omega arith)

  pub read_nothing : (n : ℕ) → d.read_uint (suc n) ([], 0) ≡ err incomplete
  read_nothing n = read_short (suc n) 0 [] (omega arith)

  -- What is read as a number of three bytes are three bytes that spell it.
  read_u24_cases :
      (bs : List ℕ) (v : ℕ) (j : Input)
      → All IsByte bs
      → d.read_uint 24 (bs, 0) ≡ ok (v, j)
      → Consumed bs (to_be_bytes 3 v) j × (v < u24_mod)
  read_u24_cases [] v j hb e = ground (arith, read_short 24 0 [])
  read_u24_cases (a ∷ []) v j hb e = ground (arith, read_short 24 0 (a ∷ []))
  read_u24_cases (a ∷ b ∷ []) v j hb e = ground (arith, read_short 24 0 (a ∷ b ∷ []))
  read_u24_cases (a ∷ b ∷ c ∷ bs) v j hb e = ground (arith, read_u24_bytes a b c bs)

  pub read_u24-eq_ok :
      (i : Input) (v : ℕ) (j : Input)
      → IsAligned i
      → d.read_uint 24 i ≡ ok (v, j)
      → Consumed i.0 (to_be_bytes 3 v) j × (v < u24_mod)
  read_u24-eq_ok i v j hi e =
      read_u24_cases i.0 v j hi.1 (ap (λ k. d.read_uint 24 (i.0, k)) (sym hi.0) ∙ e)

  read_u8_cases :
      (bs : List ℕ) (v : ℕ) (j : Input)
      → All IsByte bs
      → d.read_uint 8 (bs, 0) ≡ ok (v, j)
      → Consumed bs (v ∷ []) j × (v < 256)
  read_u8_cases [] v j hb e = ground (arith, read_short 8 0 [])
  read_u8_cases (a ∷ bs) v j hb e = ground (arith, read_u8 a bs)

  pub read_u8-eq_ok :
      (i : Input) (v : ℕ) (j : Input)
      → IsAligned i
      → d.read_uint 8 i ≡ ok (v, j)
      → Consumed i.0 (v ∷ []) j × (v < 256)
  read_u8-eq_ok i v j hi e =
      read_u8_cases i.0 v j hi.1 (ap (λ k. d.read_uint 8 (i.0, k)) (sym hi.0) ∙ e)

  pub write_u8 :
      (b : ℕ) (out : List ℕ)
      → b < 256
      → d.write_uint 8 b (aligned out) ≡ ok (aligned (out ++ (b ∷ [])))
  write_u8 b out h = write_fits 8 b (aligned out) h ∙ ground arith

  pub write_u24 :
      (v : ℕ) (out : List ℕ)
      → v < u24_mod
      → d.write_uint 24 v (aligned out) ≡ ok (aligned (out ++ to_be_bytes 3 v))
  write_u24 v out h = write_fits 24 v (aligned out) h ∙ ground arith

  -- The first byte takes its three parts in turn.
  pub write_first_two : (t : ℕ) → t < 4 → d.write_uint 2 t start ≡ ok (unaligned t 2)
  write_first_two t h = write_fits 2 t start h ∙ ground arith

  pub write_second_two :
      (t r : ℕ) → t < 4 → r < 4 → d.write_uint 2 r (unaligned t 2) ≡ ok (unaligned (t * 4 + r) 4)
  write_second_two t r ht h = write_fits 2 r (unaligned t 2) h ∙ ground arith

  pub write_last_four :
      (t c : ℕ)
      → t < 16
      → c < 16
      → d.write_uint 4 c (unaligned t 4) ≡ ok (aligned ((t * 16 + c) ∷ []))
  write_last_four t c ht h = write_fits 4 c (unaligned t 4) h ∙ ground arith
