-- ===== src/SimpleBuf.antt =====
-- The byte buffer of link/src/simple_buf.rs: `data_vec` holds bytes between `occupied_idx` and
-- `vacant_idx`. A method that changes `self` returns the new buffer; where it fails the buffer
-- stays as it is, and only the error is returned. Slices are cut as lists, and an index
-- out of range cuts at the end.
pub mod Invariant
pub mod Window
pub mod Refine
mod Tests
use quote_link_rs.Base.{
  ℕ, ◌+◌, List, ◌++◌, Bool, true, false, Result, ok, err, length, take, drop, replicate, ltb, ◌==◌,
  if◌then◌else◌, add_usize, sub_usize,
}

pub record SimpleBuf : Type 0 where
  pub data_vec : List ℕ
  pub capacity : ℕ
  pub vacant_idx : ℕ
  pub occupied_idx : ℕ

pub data BufError : Type 0 where
  vacant_too_small occupied_past_vacant : BufError

unfoldable pub new : ℕ → SimpleBuf
new capacity = record {
  data_vec = replicate capacity 0;
  capacity = capacity;
  vacant_idx = 0;
  occupied_idx = 0;
}

unfoldable pub len : SimpleBuf → ℕ
len b = sub_usize b.vacant_idx b.occupied_idx

unfoldable pub is_empty : SimpleBuf → Bool
unfolding len
is_empty b = len b == 0

unfoldable pub max_len : SimpleBuf → ℕ
max_len b = sub_usize b.capacity (sub_usize b.vacant_idx b.occupied_idx)

unfoldable pub vacant_slice : SimpleBuf → List ℕ
vacant_slice b = drop b.vacant_idx b.data_vec

unfoldable pub occupied_slice : SimpleBuf → List ℕ
occupied_slice b = drop b.occupied_idx (take b.vacant_idx b.data_vec)

-- `copy_from_slice` into the bytes from index `i` on.
abbrev pub copy_at : ℕ → List ℕ → List ℕ → List ℕ
copy_at i bs xs = take i xs ++ (bs ++ drop (i + length bs) xs)

unfoldable pub push_slice : SimpleBuf → List ℕ → Result BufError SimpleBuf
unfolding vacant_slice
push_slice b bs =
    let usable = length (vacant_slice b) in
    if ltb usable (length bs)
    then err vacant_too_small
    else ok (record b {
      data_vec = copy_at b.vacant_idx bs b.data_vec;
      vacant_idx = add_usize b.vacant_idx (length bs);
    })

-- `copy_within` moves the occupied bytes to the front.
unfoldable pub reuse : SimpleBuf → SimpleBuf
unfolding occupied_slice
reuse b = record b {
  data_vec = copy_at 0 (occupied_slice b) b.data_vec;
  vacant_idx = sub_usize b.vacant_idx b.occupied_idx;
  occupied_idx = 0;
}

unfoldable pub reuse_if : SimpleBuf → SimpleBuf × Bool
unfolding reuse
reuse_if b = if b.vacant_idx == b.capacity then (reuse b, true) else (b, false)

unfoldable pub free : SimpleBuf → ℕ → Result BufError SimpleBuf
free b consumed =
    let new_occupied_idx = add_usize b.occupied_idx consumed in
    if ltb b.vacant_idx new_occupied_idx
    then err occupied_past_vacant
    else ok (record b { occupied_idx = new_occupied_idx })
