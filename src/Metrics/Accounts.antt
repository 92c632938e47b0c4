-- ===== src/Metrics/Accounts.antt =====
-- The durations that a `StateMetric` of metrics/src/state_metric.rs reports, added up.
use quote_link_rs.Base.{ℕ, ◌+◌, ◌-◌, ◌≤◌, ◌≡◌, List, [], ◌∷◌, ◌++◌, arith}
use quote_link_rs.Protos.{Text}
use quote_link_rs.Metrics.StateMetric
use quote_link_rs.Metrics.StateMetric.{Sample, Method, moves, metered, resets, Metered, step, run}

abbrev pub total : List Sample → ℕ
total [] = 0
total (s ∷ ss) = s.cost + total ss

total-append : (xs ys : List Sample) → total (xs ++ ys) ≡ total xs + total ys
total-append [] ys = omega arith
total-append (x ∷ xs) ys = omega (arith, total-append xs ys)

abbrev first_of : Method → ℕ
first_of (moves now s) = now
first_of (metered at now s) = at
first_of (resets at now) = at

abbrev last_of : Method → ℕ
last_of (moves now s) = now
last_of (metered at now s) = now
last_of (resets at now) = now

-- The clock does not go back.
abbrev IsOrdered : ℕ → List Method → Type 0
IsOrdered now [] = Unit
IsOrdered now (c ∷ cs) = (now ≤ first_of c) × (first_of c ≤ last_of c) × IsOrdered (last_of c) cs

-- No call of `state_to`.
abbrev AllMetered : List Method → Type 0
AllMetered [] = Unit
AllMetered (moves now s ∷ cs) = ⊥
AllMetered (metered at now s ∷ cs) = AllMetered cs
AllMetered (resets at now ∷ cs) = AllMetered cs

-- The time between the two readings of the clock in the calls of `metric_to`, and in those of
-- `state_reset`.
pub record Lost : Type 0 where
  pub changes : ℕ
  pub rounds : ℕ

abbrev lose : Method → Lost → Lost
lose (moves now s) l = l
lose (metered at now s) l = record l { changes = l.changes + (now - at) }
lose (resets at now) l = record l { rounds = l.rounds + (now - at) }

abbrev pub lost : List Method → Lost → Lost
lost [] l = l
lost (c ∷ cs) l = lost cs (lose c l)

-- The times since `start`.
record Accounts (start now : ℕ) (l : Lost) (r : Metered) : Type 0 where
  changed : start + total r.changes + l.changes ≡ r.metric.last_at
  went_round : start + total r.rounds + l.rounds ≡ r.metric.refresh_at
  last_past : r.metric.last_at ≤ now
  refresh_past : r.metric.refresh_at ≤ now

step-Accounts :
    (start now : ℕ) (c : Method) (l : Lost) (r : Metered)
    → IsOrdered now (c ∷ [])
    → AllMetered (c ∷ [])
    → Accounts start now l r
    → Accounts start (last_of c) (lose c l) (step c r)
unfolding step
step-Accounts start now (moves t s) l r h a i = absurd a
step-Accounts start now (metered at t s) l r (h, g, _) a i = record {
  changed = omega (arith, total-append r.changes (_ ∷ []), i.changed, i.last_past);
  went_round = i.went_round;
  last_past = omega arith;
  refresh_past = omega (arith, i.refresh_past);
}
step-Accounts start now (resets at t) l r (h, g, _) a i = record {
  changed = i.changed;
  went_round = omega (arith, total-append r.rounds (_ ∷ []), i.went_round, i.refresh_past);
  last_past = omega (arith, i.last_past);
  refresh_past = omega arith;
}

abbrev last_time : ℕ → List Method → ℕ
last_time now [] = now
last_time now (c ∷ cs) = last_time (last_of c) cs

run-Accounts :
    (start now : ℕ) (cs : List Method) (l : Lost) (r : Metered)
    → IsOrdered now cs
    → AllMetered cs
    → Accounts start now l r
    → Accounts start (last_time now cs) (lost cs l) (run cs r)
unfolding run
run-Accounts start now [] l r h a i = i
run-Accounts start now (moves t s ∷ cs) l r h a i = absurd a
run-Accounts start now (metered at t s ∷ cs) l r (h, g, hs) a i =
    run-Accounts start t cs _ _ hs a (step-Accounts start now (metered at t s) l r (h, g, tt) tt i)
run-Accounts start now (resets at t ∷ cs) l r (h, g, hs) a i =
    run-Accounts start t cs _ _ hs a (step-Accounts start now (resets at t) l r (h, g, tt) tt i)

abbrev pub metered_new : ℕ → Text → Text → Metered
metered_new start name init_state = record {
  metric = StateMetric.new start name init_state;
  changes = [];
  rounds = [];
}

-- For any calls of `metric_to` and `state_reset` on a new `StateMetric`, with a clock that does not
-- go back: the durations that `metric_to` reported and the times it lost between its two readings
-- of the clock add up to the time from `new` to the last `metric_to`, so no time is reported twice;
-- and those of `state_reset` likewise to the time from `new` to the last `state_reset`.
pub run-total :
    (start : ℕ) (name init_state : Text) (cs : List Method)
    → IsOrdered start cs
    → AllMetered cs
    → let r = run cs (metered_new start name init_state) in
      let l = lost cs (record { changes = 0; rounds = 0 }) in
      (start + total r.changes + l.changes ≡ r.metric.last_at)
      × (start + total r.rounds + l.rounds ≡ r.metric.refresh_at)
unfolding StateMetric.new
run-total start name init_state cs h a =
    let i =
      run-Accounts start start cs (record { changes = 0; rounds = 0 })
        (metered_new start name init_state) h a
        (record {
          changed = omega arith;
          went_round = omega arith;
          last_past = omega arith;
          refresh_past = omega arith;
        }) in
    (i.changed, i.went_round)
