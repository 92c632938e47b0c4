-- ===== src/SimpleBuf/Window.antt =====
-- What the buffer of link/src/simple_buf.rs promises: a queue of bytes, and the room that is left
-- at its end. Bytes are added at the end and taken from the front; taking bytes makes no room at
-- the end, `reuse` does.
use quote_link_rs.Base.{
  ℕ, ◌-◌, List, [], ◌∷◌, ◌++◌, Bool, true, false, length, drop, leb, ◌==◌, if◌then◌else◌,
}

pub record Window : Type 0 where
  pub items : List ℕ
  pub room : ℕ
  pub capacity : ℕ

unfoldable pub push_slice : Window → List ℕ → Window × Bool
push_slice w bs =
    if leb (length bs) w.room
    then (record w { items = w.items ++ bs; room = w.room - length bs }, true)
    else (w, false)

unfoldable pub free : Window → ℕ → Window × Bool
free w n =
    if leb n (length w.items) then (record w { items = drop n w.items }, true) else (w, false)

unfoldable pub reuse : Window → Window
reuse w = record w { room = w.capacity - length w.items }

unfoldable pub reuse_if : Window → Window × Bool
unfolding reuse
reuse_if w = if w.room == 0 then (reuse w, true) else (w, false)

-- The calls that a client makes of a buffer, and whether each succeeds (for `reuse_if`, whether it
-- moved the bytes).
pub data Op : Type 0 where
  push_op : List ℕ → Op
  free_op : ℕ → Op
  reuse_op reuse_if_op : Op

unfoldable pub step : Window → Op → Window × Bool
unfolding push_slice free reuse reuse_if
step w (push_op bs) = push_slice w bs
step w (free_op n) = free w n
step w reuse_op = (reuse w, true)
step w reuse_if_op = reuse_if w

unfoldable pub run : Window → List Op → List (Bool × List ℕ)
run w [] = []
run w (op ∷ ops) = let (w', done) = step w op in (done, w'.items) ∷ run w' ops
