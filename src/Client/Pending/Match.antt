-- ===== src/Client/Pending/Match.antt =====
-- Which response answers which waiter in link/src/client.rs.
use quote_link_rs.Base.{
  ℕ, ◌+◌, ◌≤◌, ◌≡◌, ◌∙◌, refl, sym, ap, subst, append-nil, All-append_parts, List, [], ◌∷◌, ◌++◌,
  length-append, Bool-cases, inl, inr, none, some, Option-cases, length, All, All-append, arith,
  ◌==◌,
}
use quote_link_rs.Packet.{Packet, Response}
use quote_link_rs.Packet.Enums.{Command, auth}
use quote_link_rs.Client.{Queued, is_success}
use quote_link_rs.Client.Pending.{
  Requests, lookup, remove, insert, Call, on_request, on_response, on_push, on_connected, answer,
  Pending, called, save_waiter, unmatched, on_waiter, process_packet, PendingEvent, sent, received,
  pending_run,
}

-- The ids and waiters that were kept.
abbrev pub saved_of : Queued → Requests
saved_of (Packet.request q, some w) = (q.id, w) ∷ []
saved_of q = []

abbrev pub saved : List PendingEvent → Requests
saved [] = []
saved (sent q ∷ es) = saved_of q ++ saved es
saved (received p ∷ es) = saved es

-- The answers among the calls.
abbrev pub answers : List Call → Requests
answers [] = []
answers (answer w r ∷ cs) = (r.id, w) ∷ answers cs
answers (c ∷ cs) = answers cs

answers-append : (xs ys : List Call) → answers (xs ++ ys) ≡ answers xs ++ answers ys
answers-append [] ys = refl
answers-append (answer w r ∷ xs) ys = ap (λ m. (r.id, w) ∷ m) (answers-append xs ys)
answers-append (_ ∷ xs) ys = answers-append xs ys

module _ (P : ℕ × ℕ → Type 0) where
  remove-All : (k : ℕ) (m : Requests) → All P m → All P (remove k m)
  unfolding remove
  remove-All k [] h = tt
  remove-All k ((id, w) ∷ m) (p, h) = elim (Bool-cases (k == id)) [
    | inl same ↦ rw same (remove-All k m h)
    | inr other ↦ rw other (p, remove-All k m h)
  ]

  lookup-All : (k w : ℕ) (m : Requests) → All P m → lookup k m ≡ some w → P (k, w)
  unfolding lookup
  lookup-All k w [] h e = absurd (ground arith)
  lookup-All k w ((id, w') ∷ m) (p, h) e = elim (Bool-cases (k == id)) [
    | inl same ↦
        let key : id ≡ k = ground arith in
        let value : w' ≡ w = ground arith in
        subst P (ap (λ n. (n, w')) key ∙ ap (λ n. (k, n)) value) p
    | inr other ↦ lookup-All k w m h (ground arith)
  ]

length-remove : (k : ℕ) (m : Requests) → length (remove k m) ≤ length m
unfolding remove
length-remove k [] = omega arith
length-remove k ((id, w) ∷ m) = ground (arith, length-remove k m)

length-remove_found :
    (k w : ℕ) (m : Requests) → lookup k m ≡ some w → 1 + length (remove k m) ≤ length m
unfolding lookup remove
length-remove_found k w [] e = absurd (ground arith)
length-remove_found k w ((id, w') ∷ m) e = elim (Bool-cases (k == id)) [
  | inl same ↦ rw same (omega (arith, length-remove k m))
  | inr other ↦ rw other (omega (arith, length-remove_found k w m (ground arith)))
]

-- After `n` waiters were kept, all with `P`.
abbrev Inv : (ℕ × ℕ → Type 0) → ℕ → Pending → Type 0
Inv P n p =
    All P p.requests × All P (answers p.calls) × (length (answers p.calls) + length p.requests ≤ n)

module _ (P : ℕ × ℕ → Type 0) where
  -- A call that answers nobody.
  called-Inv :
      (n : ℕ) (p : Pending) (c : Call) → answers (c ∷ []) ≡ [] → Inv P n p → Inv P n (called p c)
  called-Inv n p c none_answered (a, b, h) =
      (a, subst (All P) (sym same) b, omega (arith, ap length same))
    where
      same : answers (p.calls ++ (c ∷ [])) ≡ answers p.calls
      same =
          answers-append p.calls (c ∷ [])
          ∙ ap (λ m. answers p.calls ++ m) none_answered
          ∙ append-nil (answers p.calls)

  save_waiter-Inv :
      (n : ℕ) (p : Pending) (q : Queued)
      → All P (saved_of q)
      → Inv P n p
      → Inv P (n + length (saved_of q)) (save_waiter q p)
  unfolding save_waiter insert
  save_waiter-Inv n p (Packet.request q, some w) (new, _) (a, b, h) =
      ((new, remove-All P q.id p.requests a), b, omega (arith, length-remove q.id p.requests))
  save_waiter-Inv n p (Packet.request q, none) new (a, b, h) = (a, b, omega arith)
  save_waiter-Inv n p (Packet.response q, w) new (a, b, h) = (a, b, omega arith)
  save_waiter-Inv n p (Packet.push q, w) new (a, b, h) = (a, b, omega arith)

  unmatched-Inv :
      (n : ℕ) (p : Pending) (r : Response) (c : Command) → Inv P n p → Inv P n (unmatched p r c)
  unmatched-Inv n p r auth i = elim (Bool-cases (is_success r.status)) [
    | inl good ↦ rw good (called-Inv n p on_connected refl i)
    | inr bad ↦ rw bad (called-Inv n p (on_response r) refl i)
  ]
  unmatched-Inv n p r c i = called-Inv n p (on_response r) refl i

  process_packet-Inv :
      (n : ℕ) (p : Pending) (packet : Packet) → Inv P n p → Inv P n (process_packet packet p)
  unfolding process_packet on_waiter
  process_packet-Inv n p (Packet.request q) i = called-Inv n p (on_request q) refl i
  process_packet-Inv n p (Packet.push q) i = called-Inv n p (on_push q) refl i
  process_packet-Inv n p (Packet.response r) (a, b, h) =
      elim (Option-cases (lookup r.id p.requests)) [
        | inl e ↦ rw e (unmatched-Inv n p r r.command (a, b, h))
        | inr (w, e) ↦
            let more = answers-append p.calls (answer w r ∷ []) in
            rw e (
              remove-All P r.id p.requests a,
              subst (All P) (sym more) (
                  All-append P (answers p.calls) ((r.id, w) ∷ []) b
                    (lookup-All P r.id w p.requests a e, tt)),
              omega (
                arith,
                ap length more,
                length-append (answers p.calls) ((r.id, w) ∷ []),
                length-remove_found r.id w p.requests e,
              ),
            )
      ]

  run-Inv :
      (es : List PendingEvent) (n : ℕ) (p : Pending)
      → All P (saved es)
      → Inv P n p
      → Inv P (n + length (saved es)) (pending_run es p)
  unfolding pending_run
  run-Inv [] n p s (a, b, h) = (a, b, omega arith)
  run-Inv (sent q ∷ es) n p s i =
      let (s₁, s₂) = All-append_parts P (saved_of q) (saved es) s in
      let (a, b, h) = run-Inv es _ _ s₂ (save_waiter-Inv n p q s₁ i) in
      (a, b, omega (arith, h, length-append (saved_of q) (saved es)))
  run-Inv (received packet ∷ es) n p s i = run-Inv es n _ s (process_packet-Inv n p packet i)

  -- A waiter gets only a response with the id under which it was kept: what holds of each id and
  -- waiter that were kept holds of the id and the waiter of each answer. And the answers, with the
  -- waiters that still wait, are no more than the waiters that were kept.
  pub pending_run-answers :
      (es : List PendingEvent)
      → All P (saved es)
      → All P (answers (pending_run es (record { requests = []; calls = [] })).calls)
        × (length (answers (pending_run es (record { requests = []; calls = [] })).calls)
              + length (pending_run es (record { requests = []; calls = [] })).requests
            ≤ length (saved es))
  pending_run-answers es s =
      let (a, b, h) = run-Inv es 0 (record { requests = []; calls = [] }) s (tt, tt, omega arith) in
      (b, omega (arith, h))
