-- ===== src/Client/Link/Retry.antt =====
-- How often the loop of `link` in link/src/client.rs connects again, and with which ids.
use quote_link_rs.Base.{
  ℕ, suc, ◌+◌, ◌%◌, ◌^◌, ◌<◌, ◌≤◌, ◌≡◌, ◌∙◌, refl, sym, ap, map, length, List, [], ◌∷◌, ◌++◌,
  append-nil, append_assoc, Bool, true, false, ◌&&◌, none, some, ltb, lt→leb, lt→ltb, le→ltb,
  le→leb, replicate, arith,
}
use native.Mathlib.Decide.{dec_lt}
use quote_link_rs.Client.Conn.{ConnEnd, finished, exited}
use quote_link_rs.Client.Link.{
  Attempt, conn_ended, conn_error, disconnected_forever, LinkState, gave_up, notice, connected,
  failed, exceeds, on_end, link_loop, start_link,
}

-- The ends after which the client connects again.
abbrev pub IsFailure : ConnEnd → Type 0
IsFailure finished = ⊥
IsFailure exited = ⊥
IsFailure e = Unit {0}

-- Connections that end: how many ids are taken before and during each.
pub record Ended : Type 0 where
  pub before : ℕ
  pub end : ConnEnd
  pub during : ℕ

abbrev pub attempts : List Ended → List Attempt
attempts = map (λ (x : Ended). conn_ended x.before x.end x.during)

abbrev pub AllFailures : List Ended → Type 0
AllFailures [] = Unit
AllFailures (x ∷ xs) = IsFailure x.end × AllFailures xs

-- The ids of the authentications, if the ids start from 1 for each: only what others took since the
-- reset counts.
abbrev pub ids_from_1 : List Ended → List ℕ
ids_from_1 [] = []
ids_from_1 (x ∷ xs) = ((1 + x.before) % 2 ^ 32) ∷ ids_from_1 xs

and_false : (b : Bool) → b && false ≡ false
and_false true = refl
and_false false = refl

-- The state after an attempt that failed, and does not reach the limit.
abbrev retried : Ended → LinkState → LinkState
retried x s = notice (failed (connected x.before x.during s)) conn_error

abbrev after : List Ended → LinkState → LinkState
after [] s = s
after (x ∷ xs) s = after xs (retried x s)

module _ (max_retry_times : ℕ) where
  fail_step :
      (x : Ended) (as' : List Attempt) (s : LinkState)
      → IsFailure x.end
      → exceeds max_retry_times (failed s).retry_times ≡ false
      → link_loop max_retry_times (conn_ended x.before x.end x.during ∷ as') s
        ≡ link_loop max_retry_times as' (retried x s)
  unfolding link_loop
  fail_step x as' s f h = by_end x.end f
    where
      by_end :
          (e : ConnEnd)
          → IsFailure e
          → on_end max_retry_times (link_loop max_retry_times as') e (connected x.before x.during s)
            ≡ link_loop max_retry_times as' (retried x s)
      by_end finished f = absurd f
      by_end exited f = absurd f
      by_end e f = rw h refl

  not_exceeded :
      (n k : ℕ)
      → (0 < max_retry_times → n + suc k < max_retry_times)
      → n + suc k < 2 ^ 32
      → exceeds max_retry_times ((n + 1) % 2 ^ 32) ≡ false
  not_exceeded n k h small = elim (dec_lt 0 max_retry_times) [
    | yes limited ↦
        rw (lt→leb max_retry_times ((n + 1) % 2 ^ 32) (omega (arith, h limited)))
          (and_false (ltb 0 max_retry_times))
    | no unlimited ↦ rw (le→ltb 0 max_retry_times (omega arith)) refl
  ]

  fail_run :
      (xs : List Ended) (as' : List Attempt) (s : LinkState)
      → AllFailures xs
      → s.retry_times + length xs < 2 ^ 32
      → (0 < max_retry_times → s.retry_times + length xs < max_retry_times)
      → link_loop max_retry_times (attempts xs ++ as') s
        ≡ link_loop max_retry_times as' (after xs s)
  fail_run [] as' s f small h = refl
  fail_run (x ∷ xs) as' s (f, fs) small h =
      fail_step x (attempts xs ++ as') s f (not_exceeded s.retry_times (length xs) h small)
      ∙ fail_run xs as' (retried x s) fs (omega arith) (λ limited. omega (arith, h limited))

  last_step :
      (x : Ended) (as' : List Attempt) (s : LinkState)
      → IsFailure x.end
      → 0 < max_retry_times
      → max_retry_times ≤ (failed s).retry_times
      → link_loop max_retry_times (conn_ended x.before x.end x.during ∷ as') s
        ≡ (notice (failed (connected x.before x.during s)) disconnected_forever, some gave_up)
  unfolding link_loop
  last_step x as' s f limited h = by_end x.end f
    where
      by_end :
          (e : ConnEnd)
          → IsFailure e
          → on_end max_retry_times (link_loop max_retry_times as') e (connected x.before x.during s)
            ≡ (notice (failed (connected x.before x.during s)) disconnected_forever, some gave_up)
      by_end finished f = absurd f
      by_end exited f = absurd f
      by_end e f =
          rw (lt→ltb 0 max_retry_times limited, le→leb max_retry_times (failed s).retry_times h)
            refl

retry_times-after :
    (xs : List Ended) (s : LinkState)
    → s.retry_times + length xs < 2 ^ 32
    → (after xs s).retry_times ≡ s.retry_times + length xs
retry_times-after [] s h = omega arith
retry_times-after (x ∷ xs) s h = omega (arith, retry_times-after xs (retried x s) (omega arith))

notices-after :
    (xs : List Ended) (s : LinkState)
    → (after xs s).notices ≡ s.notices ++ replicate (length xs) conn_error
notices-after [] s = sym (append-nil s.notices)
notices-after (x ∷ xs) s =
    notices-after xs (retried x s)
    ∙ append_assoc s.notices (conn_error ∷ []) (replicate (length xs) conn_error)

-- The generator is at 1 again after each failure.
auth_ids-after :
    (xs : List Ended) (s : LinkState)
    → s.request_id_gen ≡ 1
    → ((after xs s).auth_ids ≡ s.auth_ids ++ ids_from_1 xs) × ((after xs s).request_id_gen ≡ 1)
auth_ids-after [] s h = (sym (append-nil s.auth_ids), h)
auth_ids-after (x ∷ xs) s h =
    let (ids, at_1) = auth_ids-after xs (retried x s) refl in
    (
      ids
          ∙ append_assoc s.auth_ids (((s.request_id_gen + x.before) % 2 ^ 32) ∷ []) (ids_from_1 xs)
          ∙ rw h refl,
      at_1,
    )

-- With a limit on the retries the client gives up at the failure that reaches the limit, whatever
-- would come later: the consumer has then got an error for each failure before it, and one notice
-- that it is for good. The limit is one that a `u32` holds.
pub link_loop-gives_up :
    (xs : List Ended) (x : Ended) (later : List Attempt)
    → AllFailures xs
    → IsFailure x.end
    → 1 + length xs < 2 ^ 32
    → (s : LinkState) × (link_loop
          (1 + length xs)
          (attempts xs ++ (conn_ended x.before x.end x.during ∷ later))
          start_link
        ≡ (s, some gave_up))
      × (s.notices ≡ replicate (length xs) conn_error ++ (disconnected_forever ∷ []))
      × (s.retry_times ≡ 1 + length xs)
link_loop-gives_up xs x later fs f small = (
  notice (failed (connected x.before x.during t)) disconnected_forever,
  fail_run limit xs (conn_ended x.before x.end x.during ∷ later) start_link fs (omega arith)
        (λ h. omega arith)
      ∙ last_step limit x later t f (omega arith) (omega (arith, times)),
  ap (λ ns. ns ++ (disconnected_forever ∷ [])) (notices-after xs start_link),
  omega (arith, times),
)
  where
    limit : ℕ
    limit = 1 + length xs

    t : LinkState
    t = after xs start_link

    times : t.retry_times ≡ 0 + length xs
    times = retry_times-after xs start_link (omega arith)

-- Without a limit (0) no failures make the client give up: after any number of them that a `u32`
-- holds it connects again, and the consumer has got an error for each. Each attempt authenticates
-- with an id that counts from 1, whatever ids the connections before it took: it is 1, and more only
-- by what the user's requests took since the last failure.
pub link_loop-endless :
    (xs : List Ended)
    → AllFailures xs
    → length xs < 2 ^ 32
    → (s : LinkState) × (link_loop 0 (attempts xs) start_link ≡ (s, none))
      × (s.notices ≡ replicate (length xs) conn_error)
      × (s.auth_ids ≡ ids_from_1 xs)
unfolding link_loop
link_loop-endless xs fs small = (
  after xs start_link,
  ap (λ as'. link_loop 0 as' start_link) (sym (append-nil (attempts xs)))
      ∙ fail_run 0 xs [] start_link fs (omega arith) (λ h. absurd (omega arith)),
  notices-after xs start_link,
  (auth_ids-after xs start_link refl).0,
)
