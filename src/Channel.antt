-- ===== src/Channel.antt =====
-- The sending end of a `tokio::sync::mpsc` channel, as link/src/ uses it with `send(..).await`.
-- Waiting for a free slot is not visible to the sender. What it can see is that the receiver was
-- dropped: `room` is the number of values that the receiver still lets in before that. The crate is
-- not part of the repository; any moment of the drop is some `room`.
use quote_link_rs.Base.{
  ℕ, ◌-◌, ◌≡◌, ◌≢◌, List, [], ◌∷◌, ◌++◌, Option, none, some, ◌==◌, if◌then◌else◌, arith,
}

pub record Sender {ℓ} (A : Type ℓ) : Type ℓ where
  pub room : ℕ
  pub sent : List A

-- `none` is `SendError`: the receiver is gone.
unfoldable pub send {ℓ} : {A : Type ℓ} → Sender A → A → Option (Sender A)
send tx a =
    if tx.room == 0 then none else some (record { room = tx.room - 1; sent = tx.sent ++ (a ∷ []) })

pub send_closed {ℓ} : {A : Type ℓ} (tx : Sender A) (a : A) → tx.room ≡ 0 → send tx a ≡ none
unfolding send
send_closed tx a h = ground arith

pub send_open {ℓ} :
    {A : Type ℓ} (tx : Sender A) (a : A)
    → tx.room ≢ 0
    → send tx a ≡ some (record { room = tx.room - 1; sent = tx.sent ++ (a ∷ []) })
unfolding send
send_open tx a h = ground arith
