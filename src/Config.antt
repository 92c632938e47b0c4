-- ===== src/Config.antt =====
-- The configuration of link/src/config.rs: its defaults, and how it is handed to quiche. A duration
-- is a number of milliseconds. That serde reads these records from YAML, with the same defaults for
-- what is missing, is left to serde.
pub mod Quiche
mod Tests
use quote_link_rs.Base.{ℕ, ◌+◌, ◌-◌, ◌*◌, ◌^◌, List, [], ◌∷◌, Bool, true, false, Option, none, some}
use quote_link_rs.Protos.{Text}

abbrev pub default_max_packet_size : ℕ
default_max_packet_size = 2 ^ 23 + 8

abbrev pub default_max_stream_window : ℕ
default_max_stream_window = 64 * 2 ^ 20

abbrev pub default_max_connection_window : ℕ
default_max_connection_window = 64 * 2 ^ 20

abbrev pub default_max_idle_timeout : ℕ
default_max_idle_timeout = 10000

abbrev pub default_max_data_buf_size : ℕ
default_max_data_buf_size = 64 * 2 ^ 20

abbrev pub default_max_stream_conn : ℕ
default_max_stream_conn = 100

abbrev pub default_max_udp_packet_size : ℕ
default_max_udp_packet_size = 2 ^ 16 - 1

abbrev pub default_active_connection_id_limit : ℕ
default_active_connection_id_limit = 8

abbrev pub default_max_ack_delay : ℕ
default_max_ack_delay = 25

abbrev pub default_max_send_udp_payload_size : ℕ
default_max_send_udp_payload_size = 1200

pub record HealthyConfig : Type 0 where
  pub heartbeat_interval : ℕ
  pub heartbeat_timeout : ℕ
  pub auth_timeout : ℕ
  pub retry_times : ℕ
  pub retry_interval : ℕ

unfoldable pub default_healthy_config : HealthyConfig
default_healthy_config = record {
  heartbeat_interval = 500;
  heartbeat_timeout = 3000;
  auth_timeout = 10000;
  retry_times = 0;
  retry_interval = 3000;
}

pub record BufferConfig : Type 0 where
  pub max_udp_read_size : ℕ
  pub max_udp_write_size : ℕ
  pub max_stream_read_size : ℕ
  pub max_stream_send_size : ℕ
  pub peer_conn_init_size : ℕ

unfoldable pub default_buffer_config : BufferConfig
default_buffer_config = record {
  max_udp_read_size = default_max_udp_packet_size;
  max_udp_write_size = default_max_udp_packet_size;
  max_stream_read_size = default_max_packet_size;
  max_stream_send_size = default_max_packet_size;
  peer_conn_init_size = 64;
}

pub record ChannelConfig : Type 0 where
  pub recv_chan_size : ℕ
  pub send_chan_size : ℕ
  pub signal_chan_size : ℕ
  pub process_chan_size : ℕ

unfoldable pub default_channel_config : ChannelConfig
default_channel_config = record {
  recv_chan_size = 8192;
  send_chan_size = 8192;
  signal_chan_size = 1024;
  process_chan_size = 8192;
}

pub record TimeoutConfig : Type 0 where
  pub request : ℕ
  pub response : ℕ
  pub idle_interval : ℕ
  pub handshake_timeout : ℕ

unfoldable pub default_timeout_config : TimeoutConfig
default_timeout_config = record {
  request = 3000;
  response = 5000;
  idle_interval = default_max_idle_timeout;
  handshake_timeout = 3000;
}

pub record QuicheConfig : Type 0 where
  pub application_protos : Option (List Text)
  pub enable_pacing : Option Bool
  pub discover_pmtu : Option Bool
  pub enable_early_data : Option Bool
  pub verify_peer : Option Bool
  pub disable_active_migration : Option Bool
  pub max_stream_window : Option ℕ
  pub max_connection_window : Option ℕ
  pub max_idle_timeout : Option ℕ
  pub max_recv_udp_payload_size : Option ℕ
  pub max_send_udp_payload_size : Option ℕ
  pub initial_max_data : Option ℕ
  pub initial_max_stream_data_uni : Option ℕ
  pub initial_max_stream_data_bidi_local : Option ℕ
  pub initial_max_stream_data_bidi_remote : Option ℕ
  pub initial_max_streams_bidi : Option ℕ
  pub initial_max_streams_uni : Option ℕ
  pub active_connection_id_limit : Option ℕ
  pub max_ack_delay : Option ℕ

-- "quic-echo-example"
abbrev pub echo_proto : Text
echo_proto =
    113 ∷ 117 ∷ 105 ∷ 99 ∷ 45 ∷ 101 ∷ 99 ∷ 104 ∷ 111 ∷ 45 ∷ 101 ∷ 120 ∷ 97 ∷ 109 ∷ 112 ∷ 108 ∷ 101
    ∷ []

unfoldable pub default_quiche_config : QuicheConfig
default_quiche_config = record {
  application_protos = some (echo_proto ∷ []);
  enable_pacing = some true;
  discover_pmtu = some false;
  enable_early_data = some false;
  verify_peer = some false;
  disable_active_migration = some true;
  max_stream_window = some default_max_stream_window;
  max_connection_window = some default_max_connection_window;
  max_idle_timeout = some default_max_idle_timeout;
  max_recv_udp_payload_size = some default_max_udp_packet_size;
  max_send_udp_payload_size = some default_max_send_udp_payload_size;
  initial_max_data = some default_max_data_buf_size;
  initial_max_stream_data_uni = some default_max_data_buf_size;
  initial_max_stream_data_bidi_local = some default_max_data_buf_size;
  initial_max_stream_data_bidi_remote = some default_max_data_buf_size;
  initial_max_streams_bidi = some default_max_stream_conn;
  initial_max_streams_uni = some default_max_stream_conn;
  active_connection_id_limit = some default_active_connection_id_limit;
  max_ack_delay = some default_max_ack_delay;
}
