-- ===== src/Metrics/StateMetric.antt =====
-- `StateMetric` of metrics/src/state_metric.rs: how long something stays in each of its states. The
-- time is what `Instant::now` gives, in nanoseconds.
use quote_link_rs.Base.{ℕ, ◌-◌, List, [], ◌∷◌, ◌++◌}
use quote_link_rs.Protos.{Text}
use quote_link_rs.Metrics.{Call, cost_milli_sec}

pub record StateMetric : Type 0 where
  pub name : Text
  pub last_state : Text
  pub last_at : ℕ
  pub init_state : Text
  pub refresh_at : ℕ

-- A duration with its sample, as it goes to `cost_milli_sec`.
pub record Sample : Type 0 where
  pub sample : Text
  pub cost : ℕ

abbrev pub call_of : Text → Sample → Call
call_of name s = cost_milli_sec name s.sample s.cost

unfoldable pub new : ℕ → Text → Text → StateMetric
new now name init_state = record {
  name = name;
  last_state = init_state;
  last_at = now;
  init_state = init_state;
  refresh_at = now;
}

-- "{}_2_{}"
abbrev pub transition : Text → Text → Text
transition before after = before ++ (95 ∷ 50 ∷ 95 ∷ after)

unfoldable pub state_to : ℕ → Text → StateMetric → StateMetric
state_to now curr_state m = record m { last_state = curr_state; last_at = now }

-- The clock is read twice, by `elapsed` and then by `Instant::now`.
unfoldable pub metric_to : ℕ → ℕ → Text → StateMetric → StateMetric × Sample
metric_to elapsed_at now curr_state m = (
  record m { last_state = curr_state; last_at = now },
  record { sample = transition m.last_state curr_state; cost = elapsed_at - m.last_at },
)

unfoldable pub state_reset : ℕ → ℕ → StateMetric → StateMetric × Sample
state_reset elapsed_at now m = (
  record m { last_state = m.init_state; refresh_at = now },
  record { sample = transition m.init_state m.init_state; cost = elapsed_at - m.refresh_at },
)

-- A method call with its times, and for `state_to` and `metric_to` the state.
pub data Method : Type 0 where
  moves : ℕ → Text → Method
  metered : ℕ → ℕ → Text → Method
  resets : ℕ → ℕ → Method

-- The samples of the calls of `metric_to`, and of those of `state_reset`.
pub record Metered : Type 0 where
  pub metric : StateMetric
  pub changes : List Sample
  pub rounds : List Sample

unfoldable pub step : Method → Metered → Metered
unfolding state_to metric_to state_reset
step (moves now s) r = record r { metric = state_to now s r.metric }
step (metered at now s) r =
    let (m, sample) = metric_to at now s r.metric in
    record r { metric = m; changes = r.changes ++ (sample ∷ []) }
step (resets at now) r =
    let (m, sample) = state_reset at now r.metric in
    record r { metric = m; rounds = r.rounds ++ (sample ∷ []) }

unfoldable pub run : List Method → Metered → Metered
run [] r = r
run (c ∷ cs) r = run cs (step c r)
