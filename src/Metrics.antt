-- ===== src/Metrics.antt =====
-- The metrics of metrics/src/: what each function does to which family. The families are those of
-- the crate prometheus_client, which is not part of the repository: a call is modelled as the update
-- that it asks for. A `Duration` is a number of nanoseconds; a value is given before it is turned
-- into an `f64`, and an `i64` as its bits, a number below 2^64. Strings are lists of bytes.
pub mod StateMetric
pub mod Accounts
mod Tests
use quote_link_rs.Base.{ℕ, ◌/◌, List, []}
use quote_link_rs.Protos.{Text}

-- The statics.
pub data Family : Type 0 where
  operation_counter exception_counter cost_micro_sec_histogram cost_milli_sec_histogram : Family
  receive_counter receive_bytes_counter receive_status_counter : Family
  receive_latency_histogram : Family
  send_counter send_bytes_counter send_status_counter send_latency_histogram : Family
  info_msg_counter warning_msg_counter fatal_msg_counter msg_gauge_family : Family
  dconf_client_config_counter dconf_client_reconnect_counter : Family

pub data Label : Type 0 where
  -- `upstream` or `downstream`, and `sample`.
  stream_label downstream_label : Text → Text → Label
  stream_with_msg_label : Text → Text → Text → Label
  log_label : Text → Label
  -- `app_name`, `namespace`, `env`, `version`, `id`, `msg`.
  dconf_label : Text → Text → Text → Text → Text → Text → Label

pub data Update : Type 0 where
  inc : Update
  inc_by set observe : ℕ → Update

-- `FAMILY.get_or_create(&label)` and the call on what it returns.
pub record Call : Type 0 where
  pub family : Family
  pub label : Label
  pub update : Update

abbrev as_micros : ℕ → ℕ
as_micros d = d / 1000

abbrev as_millis : ℕ → ℕ
as_millis d = d / 1000000

unfoldable pub operation_count : Text → Text → Call
operation_count upstream sample = record {
  family = operation_counter;
  label = stream_label upstream sample;
  update = inc;
}

unfoldable pub exception_count : Text → Text → Text → Call
exception_count upstream sample msg = record {
  family = exception_counter;
  label = stream_with_msg_label upstream sample msg;
  update = inc;
}

unfoldable pub cost_micro_sec : Text → Text → ℕ → Call
cost_micro_sec upstream sample cost = record {
  family = cost_micro_sec_histogram;
  label = stream_label upstream sample;
  update = observe (as_micros cost);
}

unfoldable pub cost_milli_sec : Text → Text → ℕ → Call
cost_milli_sec upstream sample cost = record {
  family = cost_milli_sec_histogram;
  label = stream_label upstream sample;
  update = observe (as_millis cost);
}

unfoldable pub receive_count : Text → Text → Call
receive_count upstream sample = record {
  family = receive_counter;
  label = stream_label upstream sample;
  update = inc;
}

unfoldable pub receive_bytes_count : Text → Text → ℕ → Call
receive_bytes_count upstream sample bytes_size = record {
  family = receive_bytes_counter;
  label = stream_label upstream sample;
  update = inc_by bytes_size;
}

unfoldable pub receive_status_count : Text → Text → Call
receive_status_count upstream sample = record {
  family = receive_status_counter;
  label = stream_label upstream sample;
  update = inc;
}

unfoldable pub receive_at_latency : Text → Text → ℕ → Call
receive_at_latency upstream sample cost = record {
  family = receive_latency_histogram;
  label = stream_label upstream sample;
  update = observe (as_millis cost);
}

unfoldable pub send_count : Text → Text → Call
send_count downstream sample = record {
  family = send_counter;
  label = downstream_label downstream sample;
  update = inc;
}

unfoldable pub send_bytes_count : Text → Text → ℕ → Call
send_bytes_count downstream sample bytes_size = record {
  family = send_bytes_counter;
  label = downstream_label downstream sample;
  update = inc_by bytes_size;
}

unfoldable pub send_status_count : Text → Text → Call
send_status_count downstream sample = record {
  family = send_status_counter;
  label = downstream_label downstream sample;
  update = inc;
}

unfoldable pub send_at_latency : Text → Text → ℕ → Call
send_at_latency downstream sample cost = record {
  family = send_latency_histogram;
  label = downstream_label downstream sample;
  update = observe (as_millis cost);
}

unfoldable pub info_msg_count : Text → Call
info_msg_count msg = record { family = info_msg_counter; label = log_label msg; update = inc }

unfoldable pub warning_msg_count : Text → Call
warning_msg_count msg = record { family = warning_msg_counter; label = log_label msg; update = inc }

unfoldable pub fatal_msg_count : Text → Call
fatal_msg_count msg = record { family = fatal_msg_counter; label = log_label msg; update = inc }

unfoldable pub msg_gauge : Text → ℕ → Call
msg_gauge msg set_to = record {
  family = msg_gauge_family;
  label = log_label msg;
  update = set set_to;
}

unfoldable pub dconf_client_config_count : Text → Text → Text → Text → Text → Call
dconf_client_config_count app_name namespace env version id = record {
  family = dconf_client_config_counter;
  label = dconf_label app_name namespace env version id [];
  update = inc;
}

unfoldable pub dconf_client_reconnect_conut : Text → Text → Text → Text → Text → Text → Call
dconf_client_reconnect_conut app_name namespace env version id msg = record {
  family = dconf_client_reconnect_counter;
  label = dconf_label app_name namespace env version id msg;
  update = inc;
}
