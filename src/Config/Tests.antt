-- ===== src/Config/Tests.antt =====
-- The default configuration with other settings.
use quote_link_rs.Base.{◌≡◌, true, some}
use quote_link_rs.Config.{default_quiche_config}
use quote_link_rs.Config.Quiche.{to_quiche, to_quiche-ignores}

to_quiche-ignores_example :
    to_quiche
      (record default_quiche_config { discover_pmtu = some true; enable_early_data = some true })
    ≡ to_quiche default_quiche_config
to_quiche-ignores_example = to_quiche-ignores default_quiche_config (some true) (some true)
