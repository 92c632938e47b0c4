-- ===== src/Deku.antt =====
-- What link/src/packets.rs uses of the crate deku: reading and writing unsigned numbers of a given
-- number of bits, and the bytes that the writer ends with. The crate is not part of the
-- repository, so it is a parameter: its operations, and the documented behaviour (numbers are laid
-- out from the most significant bit on, `endian = "big"`).
pub mod Msb
pub mod Fields
use quote_link_rs.Base.{
  ℕ, zero, suc, ◌+◌, ◌-◌, ◌*◌, ◌/◌, ◌%◌, ◌^◌, ◌≤◌, ◌<◌, ◌≡◌, List, [], ◌∷◌, ◌++◌, length, take,
  drop, Result, ok, err, All,
}

-- `DekuError`, with all variants but `Incomplete` in one. The program reads no payload.
pub data DekuError : Type 0 where
  incomplete parse : DekuError

-- The unread bytes and how many bits of the first are read: the `(&[u8], usize)` of `from_bytes`.
abbrev pub Input : Type 0
Input = List ℕ × ℕ

-- The finished bytes, the bits that do not yet fill a byte as a number, and how many they are.
pub record Output : Type 0 where
  pub done : List ℕ
  pub pending : ℕ
  pub bits : ℕ

abbrev pub IsByte : ℕ → Type 0
IsByte b = b < 256

-- The number that bytes spell, the first being the most significant.
abbrev pub from_be_bytes : List ℕ → ℕ
from_be_bytes [] = 0
from_be_bytes (b ∷ bs) = b * 256 ^ length bs + from_be_bytes bs

-- The last `k` bytes of a number, the most significant first.
abbrev pub to_be_bytes : ℕ → ℕ → List ℕ
to_be_bytes zero x = []
to_be_bytes (suc k) x = (x / 256 ^ k % 256) ∷ to_be_bytes k x

-- The `n` bits behind the first `off` bits.
abbrev pub bit_field : ℕ → ℕ → List ℕ → ℕ
bit_field n off bs =
    let k = (off + n + 7) / 8 in from_be_bytes (take k bs) / 2 ^ (8 * k - off - n) % 2 ^ n

-- The output with `n` more bits, which spell `v`.
abbrev pub emit : ℕ → ℕ → Output → Output
emit n v o =
    let total = o.bits + n in
    let acc = o.pending * 2 ^ n + v in
    record {
      done = o.done ++ to_be_bytes (total / 8) (acc / 2 ^ (total % 8));
      pending = acc % 2 ^ (total % 8);
      bits = total % 8;
    }

abbrev pub start : Output
start = record { done = []; pending = 0; bits = 0 }

-- The operations: a number of so many bits read and written, and `finalize`.
pub record Deku : Type 0 where
  pub read_uint : ℕ → Input → Result DekuError (ℕ × Input)
  pub write_uint : ℕ → ℕ → Output → Result DekuError Output
  pub finalize : Output → List ℕ

-- The documented behaviour. Nothing is said of a number that does not fit its bits, nor of an
-- output that ends inside a byte.
pub record IsMsbFirst (d : Deku) : Type 0 where
  pub read_short :
      (n off : ℕ) (bs : List ℕ) → 8 * length bs < off + n → d.read_uint n (bs, off) ≡ err incomplete
  pub read_enough :
      (n off : ℕ) (bs : List ℕ)
      → off < 8
      → off + n ≤ 8 * length bs
      → d.read_uint n (bs, off) ≡ ok (bit_field n off bs, (drop ((off + n) / 8) bs, (off + n) % 8))
  pub write_fits : (n v : ℕ) (o : Output) → v < 2 ^ n → d.write_uint n v o ≡ ok (emit n v o)
  pub finalize_whole : (o : Output) → o.bits ≡ 0 → d.finalize o ≡ o.done
