-- ===== src/Transport/ReadLoop/Push.antt =====
-- The first half of `link_read_loop` in link/src/transport/link.rs: a chunk goes into the buffer.
use quote_link_rs.Base.{
  ℕ, ◌-◌, ◌<◌, ◌≤◌, ◌≡◌, ◌∙◌, ap, List, ◌++◌, length, ok, err, lt→ltb, le→ltb, arith, inl, inr, ◌⊎◌,
}
use native.Mathlib.Decide.{dec_lt}
use quote_link_rs.SimpleBuf
use quote_link_rs.SimpleBuf.{SimpleBuf, vacant_too_small}
use quote_link_rs.SimpleBuf.Invariant.{
  IsValid, max_len-add-len, length-occupied_slice, push_slice-IsValid, reuse-IsValid,
}
use quote_link_rs.SimpleBuf.Refine.{
  push_slice_fits, push_slice_full, occupied_slice-reuse, reuse_room,
}
use quote_link_rs.Transport.ReadLoop.{no_room, make_room}

-- A chunk fits: behind the last byte, or after the move to the front where the loop makes it.
abbrev pub Fits : SimpleBuf → List ℕ → Type 0
Fits buf b =
    ((length b ≤ SimpleBuf.len buf) × (length b ≤ buf.capacity - buf.vacant_idx))
    ⊎ ((SimpleBuf.len buf < length b) × (length b ≤ SimpleBuf.max_len buf))

-- The buffer after the move and the copy.
pub record Pushed (buf : SimpleBuf) (b : List ℕ) (buf' : SimpleBuf) : Type 0 where
  pub valid : IsValid buf'
  pub bytes : SimpleBuf.occupied_slice buf' ≡ SimpleBuf.occupied_slice buf ++ b
  pub same_capacity : buf'.capacity ≡ buf.capacity

module _ {buf : SimpleBuf} (v : IsValid buf) (b : List ℕ) where
  make_room_short : length b ≤ SimpleBuf.len buf → make_room buf b ≡ ok buf
  unfolding make_room
  make_room_short h = rw (le→ltb (SimpleBuf.len buf) (length b) h)

  make_room_long :
      SimpleBuf.len buf < length b
      → length b ≤ SimpleBuf.max_len buf
      → make_room buf b ≡ ok (SimpleBuf.reuse buf)
  unfolding make_room
  make_room_long h k =
      rw (lt→ltb (SimpleBuf.len buf) (length b) h, le→ltb (SimpleBuf.max_len buf) (length b) k)

  make_room_none :
      SimpleBuf.len buf < length b
      → SimpleBuf.max_len buf < length b
      → make_room buf b ≡ err no_room
  unfolding make_room
  make_room_none h k =
      rw (lt→ltb (SimpleBuf.len buf) (length b) h, lt→ltb (SimpleBuf.max_len buf) (length b) k)

  -- A chunk that fits is added behind the bytes of the buffer.
  pub push_ok :
      Fits buf b
      → (buf₁ : SimpleBuf) × (buf₂ : SimpleBuf) × (make_room buf b ≡ ok buf₁)
        × (SimpleBuf.push_slice buf₁ b ≡ ok buf₂)
        × Pushed buf b buf₂
  push_ok (inl (short, room)) =
      let (buf₂, e, bytes, _, _, c) = push_slice_fits b v room in
      (
        buf,
        buf₂,
        make_room_short short,
        e,
        record { valid = push_slice-IsValid b v e; bytes = bytes; same_capacity = c },
      )
  push_ok (inr (long, room)) =
      let (x, y) = reuse_room v in
      let (buf₂, e, bytes, _, _, c) =
        push_slice_fits b (reuse-IsValid v)
          (omega (arith, x, y, length-occupied_slice v, max_len-add-len v)) in
      (
        SimpleBuf.reuse buf,
        buf₂,
        make_room_long long room,
        e,
        record {
          valid = push_slice-IsValid b (reuse-IsValid v) e;
          bytes = bytes ∙ ap (λ xs. xs ++ b) (occupied_slice-reuse v);
          same_capacity = c ∙ y;
        },
      )

  -- How a chunk that does not fit ends the loop: the buffer has not enough room in all, or it has
  -- not enough behind the last byte and the bytes were not moved.
  pub push_err :
      (¬ Fits buf b)
      → ((make_room buf b ≡ err no_room) × (SimpleBuf.max_len buf < length b))
        ⊎ ((make_room buf b ≡ ok buf)
            × (SimpleBuf.push_slice buf b ≡ err vacant_too_small)
            × (length b ≤ SimpleBuf.len buf))
  push_err h = elim (dec_lt (SimpleBuf.len buf) (length b)) [
    | yes long ↦ elim (dec_lt (SimpleBuf.max_len buf) (length b)) [
      | yes none_left ↦ inl (make_room_none long none_left, none_left)
      | no room ↦ absurd (h (inr (long, omega arith)))
    ]
    | no short ↦ elim (dec_lt (buf.capacity - buf.vacant_idx) (length b)) [
      | yes full ↦ inr (make_room_short (omega arith), push_slice_full b v full, omega arith)
      | no room ↦ absurd (h (inl (omega arith, omega arith)))
    ]
  ]
