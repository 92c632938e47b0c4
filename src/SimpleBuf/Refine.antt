-- ===== src/SimpleBuf/Refine.antt =====
-- The buffer of link/src/simple_buf.rs behaves as the window of the bytes that it holds.
use quote_link_rs.Base.{
  ℕ, ◌+◌, ◌-◌, ◌≤◌, ◌<◌, ◌≡◌, ◌∙◌, refl, sym, ap, ap₂, List, [], ◌∷◌, ◌++◌, append_assoc, length,
  take, drop, length-append, length-take, take-append_length, drop-append_le, drop-drop, Bool, true,
  false, Result, ok, err, arith, isize_max, add_usize, sub_usize, All, Result-cases, inl, inr,
}
use native.Mathlib.Decide.{dec_le}
use quote_link_rs.SimpleBuf.{
  SimpleBuf, BufError, vacant_too_small, occupied_past_vacant, occupied_slice, copy_at, push_slice,
  reuse, reuse_if, free,
}
use quote_link_rs.SimpleBuf.Invariant.{
  IsValid, len-eq, length-vacant_slice, length-occupied_slice, push_slice-IsValid, reuse-IsValid,
  reuse_if-IsValid, free-IsValid,
}
use quote_link_rs.SimpleBuf.Window
use quote_link_rs.SimpleBuf.Window.{Window, Op}

abbrev pub window : SimpleBuf → Window
window b = record {
  items = occupied_slice b;
  room = b.capacity - b.vacant_idx;
  capacity = b.capacity;
}

-- What is copied to the end of the first `i` bytes stands behind them.
take-copy_at :
    (i : ℕ) (bs xs : List ℕ)
    → i ≤ length xs
    → take (i + length bs) (copy_at i bs xs) ≡ take i xs ++ bs
take-copy_at i bs xs h =
    ap₂ take
      (let e : i + length bs ≡ length (take i xs ++ bs) =
          omega (arith, length-append (take i xs) bs, length-take i xs) in
        e)
      (sym (append_assoc (take i xs) bs (drop (i + length bs) xs)))
    ∙ take-append_length (take i xs ++ bs) (drop (i + length bs) xs)

occupied-push :
    {b : SimpleBuf} (bs : List ℕ)
    → IsValid b
    → length bs ≤ b.capacity - b.vacant_idx
    → drop b.occupied_idx
        (take (add_usize b.vacant_idx (length bs)) (copy_at b.vacant_idx bs b.data_vec))
      ≡ drop b.occupied_idx (take b.vacant_idx b.data_vec) ++ bs
occupied-push {b} bs v h =
    let e : add_usize b.vacant_idx (length bs) ≡ b.vacant_idx + length bs = omega arith in
    rw (e, take-copy_at b.vacant_idx bs b.data_vec (omega arith))
      (drop-append_le b.occupied_idx (take b.vacant_idx b.data_vec) bs
        (omega (arith, length-take b.vacant_idx b.data_vec)))

-- `push_slice` adds the bytes at the end if they fit behind the last byte, and fails if not.
pub push_slice_fits :
    {b : SimpleBuf} (bs : List ℕ)
    → IsValid b
    → length bs ≤ b.capacity - b.vacant_idx
    → (b' : SimpleBuf) × (push_slice b bs ≡ ok b')
      × (occupied_slice b' ≡ occupied_slice b ++ bs)
      × (b'.vacant_idx ≡ b.vacant_idx + length bs)
      × (b'.occupied_idx ≡ b.occupied_idx)
      × (b'.capacity ≡ b.capacity)
unfolding push_slice occupied_slice
push_slice_fits {b} bs v h = (
  record b {
    data_vec = copy_at b.vacant_idx bs b.data_vec;
    vacant_idx = add_usize b.vacant_idx (length bs);
  },
  ground (arith, length-vacant_slice v),
  occupied-push bs v h,
  omega arith,
  refl,
  refl,
)

pub push_slice_full :
    {b : SimpleBuf} (bs : List ℕ)
    → IsValid b
    → b.capacity - b.vacant_idx < length bs
    → push_slice b bs ≡ err vacant_too_small
unfolding push_slice
push_slice_full bs v h = ground (arith, length-vacant_slice v)

-- `free` drops bytes at the front, if there are so many, and fails if not.
pub free_within :
    {b : SimpleBuf} (n : ℕ)
    → IsValid b
    → n ≤ length (occupied_slice b)
    → (b' : SimpleBuf) × (free b n ≡ ok b')
      × (occupied_slice b' ≡ drop n (occupied_slice b))
      × (b'.vacant_idx ≡ b.vacant_idx)
      × (b'.occupied_idx ≡ b.occupied_idx + n)
      × (b'.capacity ≡ b.capacity)
unfolding free occupied_slice
free_within {b} n v h =
    let e : add_usize b.occupied_idx n ≡ b.occupied_idx + n =
      omega (arith, length-occupied_slice v, len-eq v, h) in
    (
      record b { occupied_idx = add_usize b.occupied_idx n },
      ground (arith, length-occupied_slice v, len-eq v),
      ap (λ k. drop k (take b.vacant_idx b.data_vec)) e
          ∙ sym (drop-drop n b.occupied_idx (take b.vacant_idx b.data_vec)),
      refl,
      e,
      refl,
    )

pub free_beyond :
    {b : SimpleBuf} (n : ℕ)
    → IsValid b
    → n ≤ isize_max
    → length (occupied_slice b) < n
    → free b n ≡ err occupied_past_vacant
unfolding free
free_beyond n v hn h = ground (arith, length-occupied_slice v, len-eq v)

-- `reuse` keeps the bytes and moves them to the front.
pub occupied_slice-reuse : {b : SimpleBuf} → IsValid b → occupied_slice (reuse b) ≡ occupied_slice b
unfolding reuse
occupied_slice-reuse {b} v =
    let e : sub_usize b.vacant_idx b.occupied_idx ≡ length (occupied_slice b) =
      omega (arith, length-occupied_slice v, len-eq v) in
    ap (λ k. take k (occupied_slice b ++ drop (0 + length (occupied_slice b)) b.data_vec)) e
    ∙ take-append_length (occupied_slice b) (drop (0 + length (occupied_slice b)) b.data_vec)

pub reuse_room :
    {b : SimpleBuf}
    → IsValid b
    → ((reuse b).vacant_idx ≡ length (occupied_slice b)) × ((reuse b).capacity ≡ b.capacity)
unfolding reuse
reuse_room v = omega (arith, length-occupied_slice v, len-eq v)

pub occupied_slice-reuse_if :
    {b : SimpleBuf} → IsValid b → occupied_slice (reuse_if b).0 ≡ occupied_slice b
unfolding reuse_if
occupied_slice-reuse_if {b} v = ground (arith, occupied_slice-reuse v)

-- A failed call leaves the buffer as it is.
abbrev settle : SimpleBuf → Result BufError SimpleBuf → SimpleBuf × Bool
settle b (ok b') = (b', true)
settle b (err e) = (b, false)

-- One call of a method: the new buffer and whether it succeeded.
step : SimpleBuf → Op → SimpleBuf × Bool
step b (Op.push_op bs) = settle b (push_slice b bs)
step b (Op.free_op n) = settle b (free b n)
step b Op.reuse_op = (reuse b, true)
step b Op.reuse_if_op = reuse_if b

unfoldable pub run : SimpleBuf → List Op → List (Bool × List ℕ)
unfolding step
run b [] = []
run b (op ∷ ops) = let (b', done) = step b op in (done, occupied_slice b') ∷ run b' ops

-- The number of bytes that a call names is one that a `usize` of bytes can have.
abbrev pub IsOp : Op → Type 0
IsOp (Op.push_op bs) = Unit
IsOp (Op.free_op n) = n ≤ isize_max
IsOp Op.reuse_op = Unit
IsOp Op.reuse_if_op = Unit

step-IsValid : {b : SimpleBuf} (op : Op) → IsValid b → IsOp op → IsValid (step b op).0
unfolding step
step-IsValid {b} (Op.push_op bs) v h = elim (Result-cases (push_slice b bs)) [
  | inl (b', e) ↦ rw e (push_slice-IsValid bs v e)
  | inr (x, e) ↦ rw e v
]
step-IsValid {b} (Op.free_op n) v h = elim (Result-cases (free b n)) [
  | inl (b', e) ↦ rw e (free-IsValid n v h e)
  | inr (x, e) ↦ rw e v
]
step-IsValid Op.reuse_op v h = reuse-IsValid v
step-IsValid Op.reuse_if_op v h = reuse_if-IsValid v

reuse_refines : {b : SimpleBuf} → IsValid b → window (reuse b) ≡ Window.reuse (window b)
unfolding Window.reuse
reuse_refines {b} v = ground (arith, occupied_slice-reuse v, reuse_room v)

-- One call of the buffer does what the same call of its window does.
step_refines :
    {b : SimpleBuf} (op : Op)
    → IsValid b
    → IsOp op
    → (window (step b op).0, (step b op).1) ≡ Window.step (window b) op
unfolding step Window.step
step_refines {b} (Op.push_op bs) v h = elim (dec_le (length bs) (b.capacity - b.vacant_idx)) [
  | yes fits ↦ let (b', e, c, x, y, z) = push_slice_fits bs v fits in rw e (ground arith)
  | no full ↦ rw (push_slice_full bs v (omega arith)) (ground arith)
]
step_refines {b} (Op.free_op n) v h = elim (dec_le n (length (occupied_slice b))) [
  | yes within ↦ let (b', e, c, x, y, z) = free_within n v within in rw e (ground arith)
  | no beyond ↦ rw (free_beyond n v h (omega arith)) (ground arith)
]
step_refines Op.reuse_op v h = ap (λ (w : Window). (w, true)) (reuse_refines v)
step_refines {b} Op.reuse_if_op v h = unfold reuse_if in ground (arith, reuse_refines v)

-- No sequence of calls, of which each `free` names at most `isize::MAX` bytes, tells a valid buffer
-- from the window of its bytes: each call succeeds in the one exactly if it does in the other, and
-- leaves the same bytes.
pub run_refines :
    (ops : List Op) {b : SimpleBuf}
    → IsValid b
    → All IsOp ops
    → run b ops ≡ Window.run (window b) ops
unfolding run Window.run
run_refines [] v h = refl
run_refines (op ∷ ops) {b} v h =
    let ih = run_refines ops (step-IsValid op v h.0) h.1 in
    let s = step_refines op v h.0 in ground arith
