-- ===== src/Config/Settings.antt =====
-- The values that the services read through the getters of RelaydConfigService, gathered.
use chainlink_eth_secret_net.Base.{ℕ, String, Bool, Option}
use chainlink_eth_secret_net.Config.Service
use chainlink_eth_secret_net.Config.Service.{RelaydConfigService}

pub record Settings : Type 0 where
  pub source_contract_validation_mode : Option String
  pub source_data_last_update_max_days : ℕ
  pub max_recast_network_source_not_matching : ℕ
  pub max_recast_source_handling_fail : ℕ
  pub max_successive_error_to_stop_polling : ℕ
  pub source_issue_max_number : ℕ
  pub source_polling_allow_multiple_by_same_issuer : Bool
  pub source_polling_allow_multiple_type_by_same_issuer : Bool
  pub source_nb_event_listener : ℕ
  pub source_nb_periodic_querier : ℕ

unfoldable pub settings_of : RelaydConfigService → Settings
settings_of c = record {
  source_contract_validation_mode = Service.source_contract_validation_mode c;
  source_data_last_update_max_days = Service.source_data_last_update_max_days c;
  max_recast_network_source_not_matching = Service.max_recast_network_source_not_matching c;
  max_recast_source_handling_fail = Service.max_recast_source_handling_fail c;
  max_successive_error_to_stop_polling = Service.max_successive_error_to_stop_polling c;
  source_issue_max_number = Service.source_issue_max_number c;
  source_polling_allow_multiple_by_same_issuer =
      Service.source_polling_allow_multiple_by_same_issuer c;
  source_polling_allow_multiple_type_by_same_issuer =
      Service.source_polling_allow_multiple_type_by_same_issuer c;
  source_nb_event_listener = Service.source_nb_event_listener c;
  source_nb_periodic_querier = Service.source_nb_periodic_querier c;
}
