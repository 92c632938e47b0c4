-- ===== src/SimpleBuf/Invariant.antt =====
-- The invariant of the buffer of link/src/simple_buf.rs, and that every method keeps it.
use quote_link_rs.Base.{
  ℕ, ◌+◌, ◌-◌, ◌≤◌, ◌≡◌, refl, List, ◌++◌, length, take, drop, length-append, length-take,
  length-drop, length-replicate, ok, arith, isize_max,
}
use quote_link_rs.SimpleBuf.{
  SimpleBuf, new, len, max_len, vacant_slice, occupied_slice, copy_at, push_slice, reuse, reuse_if,
  free,
}

pub record IsValid (b : SimpleBuf) : Type 0 where
  pub whole : length b.data_vec ≡ b.capacity
  pub small : b.capacity ≤ isize_max
  pub occupied_in : b.occupied_idx ≤ b.vacant_idx
  pub vacant_in : b.vacant_idx ≤ b.capacity

pub new-IsValid : (capacity : ℕ) → capacity ≤ isize_max → IsValid (new capacity)
unfolding new
new-IsValid capacity h = ground (arith, length-replicate {A = ℕ} capacity 0)

pub len-new : (capacity : ℕ) → len (new capacity) ≡ 0
unfolding new len
len-new capacity = refl

-- `usize` subtraction does not wrap.
pub len-eq : {b : SimpleBuf} → IsValid b → len b ≡ b.vacant_idx - b.occupied_idx
unfolding len
len-eq v = omega arith

pub max_len-add-len : {b : SimpleBuf} → IsValid b → max_len b + len b ≡ b.capacity
unfolding max_len len
max_len-add-len v = omega arith

pub length-vacant_slice :
    {b : SimpleBuf} → IsValid b → length (vacant_slice b) ≡ b.capacity - b.vacant_idx
unfolding vacant_slice
length-vacant_slice {b} v = omega (arith, length-drop b.vacant_idx b.data_vec)

pub length-occupied_slice : {b : SimpleBuf} → IsValid b → length (occupied_slice b) ≡ len b
unfolding occupied_slice len
length-occupied_slice {b} v = omega (
  arith,
  length-drop b.occupied_idx (take b.vacant_idx b.data_vec),
  length-take b.vacant_idx b.data_vec,
)

pub length-copy_at :
    (i : ℕ) (bs xs : List ℕ) → i + length bs ≤ length xs → length (copy_at i bs xs) ≡ length xs
length-copy_at i bs xs h = omega (
  arith,
  length-append (take i xs) (bs ++ drop (i + length bs) xs),
  length-append bs (drop (i + length bs) xs),
  length-take i xs,
  length-drop (i + length bs) xs,
)

pub push_slice-IsValid :
    {b b' : SimpleBuf} (bs : List ℕ) → IsValid b → push_slice b bs ≡ ok b' → IsValid b'
unfolding push_slice
push_slice-IsValid {b} bs v e =
    ground (arith, length-vacant_slice v, length-copy_at b.vacant_idx bs b.data_vec)

pub reuse-IsValid : {b : SimpleBuf} → IsValid b → IsValid (reuse b)
unfolding reuse len
reuse-IsValid {b} v =
    ground (arith, length-occupied_slice v, length-copy_at 0 (occupied_slice b) b.data_vec)

pub reuse_if-IsValid : {b : SimpleBuf} → IsValid b → IsValid (reuse_if b).0
unfolding reuse_if
reuse_if-IsValid {b} v = ground (arith, reuse-IsValid v)

pub free-IsValid :
    {b b' : SimpleBuf} (n : ℕ) → IsValid b → n ≤ isize_max → free b n ≡ ok b' → IsValid b'
unfolding free
free-IsValid n v h e = ground arith
