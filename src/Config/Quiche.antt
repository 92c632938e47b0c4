-- ===== src/Config/Quiche.antt =====
-- `From<&QuicheConfig> for quiche::Config` in link/src/config.rs, as the calls that it makes of the
-- configuration of quiche, which is not part of the repository.
use quote_link_rs.Base.{ℕ, ◌≡◌, refl, List, [], ◌∷◌, ◌++◌, Bool, Option, none, some}
use quote_link_rs.Protos.{Text}
use quote_link_rs.Config.{QuicheConfig, default_quiche_config}

pub data Flag : Type 0 where
  enable_pacing verify_peer disable_active_migration : Flag

pub data Limit : Type 0 where
  max_stream_window max_connection_window max_idle_timeout : Limit
  max_recv_udp_payload_size max_send_udp_payload_size : Limit
  initial_max_data initial_max_stream_data_uni : Limit
  initial_max_stream_data_bidi_local initial_max_stream_data_bidi_remote : Limit
  initial_max_streams_bidi initial_max_streams_uni : Limit
  active_connection_id_limit max_ack_delay : Limit

-- A call of `quiche::Config`.
pub data Setter : Type 0 where
  set_application_protos : List Text → Setter
  set_flag : Flag → Bool → Setter
  set_limit : Limit → ℕ → Setter

unfoldable pub set_if_some : {A : Type 0} → (A → Setter) → Option A → List Setter
set_if_some call none = []
set_if_some call (some value) = call value ∷ []

unfoldable pub to_quiche : QuicheConfig → List Setter
unfolding set_if_some
to_quiche config =
    set_if_some set_application_protos config.application_protos
    ++ (set_if_some (set_flag enable_pacing) config.enable_pacing
        ++ (set_if_some (set_flag verify_peer) config.verify_peer
            ++ (set_if_some (set_flag disable_active_migration) config.disable_active_migration
                ++ (set_if_some (set_limit max_stream_window) config.max_stream_window
                    ++ (set_if_some (set_limit max_connection_window) config.max_connection_window
                        ++ (set_if_some (set_limit max_idle_timeout) config.max_idle_timeout
                            ++ (set_if_some (set_limit max_recv_udp_payload_size)
                                  config.max_recv_udp_payload_size
                                ++ (set_if_some (set_limit max_send_udp_payload_size)
                                      config.max_send_udp_payload_size
                                    ++ (set_if_some (set_limit initial_max_data)
                                          config.initial_max_data
                                        ++ (set_if_some (set_limit initial_max_stream_data_uni)
                                              config.initial_max_stream_data_uni
                                            ++ (set_if_some
                                                  (set_limit initial_max_stream_data_bidi_local)
                                                  config.initial_max_stream_data_bidi_local
                                                ++ (set_if_some
                                                      (set_limit
                                                        initial_max_stream_data_bidi_remote)
                                                      config.initial_max_stream_data_bidi_remote
                                                    ++ (set_if_some
                                                          (set_limit initial_max_streams_bidi)
                                                          config.initial_max_streams_bidi
                                                        ++ (set_if_some
                                                            (set_limit initial_max_streams_uni)
                                                            config.initial_max_streams_uni
                                                            ++ (set_if_some
                                                            (set_limit active_connection_id_limit)
                                                            config.active_connection_id_limit
                                                            ++ set_if_some (set_limit max_ack_delay)
                                                            config.max_ack_delay)))))))))))))))

-- `recommend_quiche_config`.
unfoldable pub recommend_quiche_config : List Text → List Setter
unfolding to_quiche
recommend_quiche_config protos =
    to_quiche default_quiche_config ++ (set_application_protos protos ∷ [])

-- Two settings have no effect: whatever `discover_pmtu` and `enable_early_data` are, the calls that
-- configure quiche are the same.
pub to_quiche-ignores :
    (config : QuicheConfig) (a b : Option Bool)
    → to_quiche (record config { discover_pmtu = a; enable_early_data = b }) ≡ to_quiche config
unfolding to_quiche
to_quiche-ignores config a b = refl
