-- ===== src/Metrics/Tests.antt =====
-- Runs of the metrics of metrics/src/.
use quote_link_rs.Base.{◌+◌, ◌≡◌, refl, List, [], ◌∷◌, map, arith}
use quote_link_rs.Metrics.{observe, cost_milli_sec}
use quote_link_rs.Metrics.StateMetric
use quote_link_rs.Metrics.StateMetric.{
  call_of, Sample, Method, moves, metered, resets, Metered, step, run,
}
use quote_link_rs.Metrics.Accounts.{total, lost, metered_new, run-total}

-- In milliseconds after 5 milliseconds: to state "b" at 8 (read at 7), a reset at 12 (read at 11),
-- to "c" at 20.
abbrev calls : List Method
calls =
    metered 7000000 8000000 (98 ∷ [])
    ∷ resets 11000000 12000000
    ∷ metered 20000000 20000000 (99 ∷ [])
    ∷ []

abbrev metric : Metered
metric = metered_new 5000000 (109 ∷ []) (97 ∷ [])

-- "a_2_b" after 2 milliseconds. The reset takes the state back to "a" and leaves `last_at`: "a_2_c"
-- is reported with the 12 milliseconds since the change to "b", and the reset was at 12.
changes_lem : map (call_of (109 ∷ [])) (run calls metric).changes ≡ (
    cost_milli_sec (109 ∷ []) (97 ∷ 95 ∷ 50 ∷ 95 ∷ 98 ∷ []) 2000000
    ∷ cost_milli_sec (109 ∷ []) (97 ∷ 95 ∷ 50 ∷ 95 ∷ 99 ∷ []) 12000000
    ∷ [])
unfolding run step StateMetric.new
changes_lem = refl

millis_lem : (cost_milli_sec (109 ∷ []) [] 12900000).update ≡ observe 12
unfolding cost_milli_sec
millis_lem = refl

run-total_example :
    let r = run calls metric in
    let l = lost calls (record { changes = 0; rounds = 0 }) in
    (5000000 + total r.changes + l.changes ≡ r.metric.last_at)
    × (5000000 + total r.rounds + l.rounds ≡ r.metric.refresh_at)
run-total_example =
    run-total 5000000 (109 ∷ []) (97 ∷ []) calls
      (omega arith, omega arith, (omega arith, omega arith, (omega arith, omega arith, tt))) tt
