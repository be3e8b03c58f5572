-- ===== src/Config/Service.antt =====
-- The class RelaydConfigService of common/src/config/relayd.config.ts: its constructor and getters. The
-- `ConfigService` of the framework is a parameter: `get(key, default)`.
use chainlink_eth_secret_net.Base.{ℕ, String, Bool, Option, some, is, string_eq, if◌then◌else◌}
use chainlink_eth_secret_net.Config.Defaults.{
  NumberKey, BooleanKey, StringKey, ConfigDefaults, prod, dev_local, config_run_mode_value,
  defaults_prod, defaults_dev,
}

pub record ConfigService : Type 0 where
  pub get_number : NumberKey → ℕ → ℕ
  pub get_boolean : BooleanKey → Bool → Bool
  pub get_string : StringKey → Option String → Option String

pub record RelaydConfigService : Type 0 where
  pub config_service : ConfigService
  pub defaults : ConfigDefaults

-- The constructor: the run mode chooses the class of defaults.
unfoldable pub new : ConfigService → RelaydConfigService
new c =
    let config_mode = c.get_string StringKey.app_run_mode (some (config_run_mode_value prod)) in
    record {
      config_service = c;
      defaults =
          if is config_mode (config_run_mode_value dev_local) then defaults_dev else defaults_prod;
    }

unfoldable pub max_recast_network_source_not_matching : RelaydConfigService → ℕ
max_recast_network_source_not_matching c =
    c.config_service.get_number NumberKey.max_recast_network_source_not_matching
      (c.defaults.number NumberKey.max_recast_network_source_not_matching)

unfoldable pub source_data_last_update_max_days : RelaydConfigService → ℕ
source_data_last_update_max_days c =
    c.config_service.get_number NumberKey.source_data_last_update_max_days
      (c.defaults.number NumberKey.source_data_last_update_max_days)

unfoldable pub max_recast_source_handling_fail : RelaydConfigService → ℕ
max_recast_source_handling_fail c =
    c.config_service.get_number NumberKey.max_recast_source_handling_fail
      (c.defaults.number NumberKey.max_recast_source_handling_fail)

unfoldable pub max_successive_error_to_stop_polling : RelaydConfigService → ℕ
max_successive_error_to_stop_polling c =
    c.config_service.get_number NumberKey.max_successive_error_to_stop_polling
      (c.defaults.number NumberKey.max_successive_error_to_stop_polling)

unfoldable pub source_issue_max_number : RelaydConfigService → ℕ
source_issue_max_number c =
    c.config_service.get_number NumberKey.source_issue_max_number
      (c.defaults.number NumberKey.source_issue_max_number)

unfoldable pub source_max_handle : RelaydConfigService → ℕ
source_max_handle c =
    c.config_service.get_number NumberKey.source_max_handle
      (c.defaults.number NumberKey.source_max_handle)

unfoldable pub source_nb_event_listener : RelaydConfigService → ℕ
source_nb_event_listener c =
    c.config_service.get_number NumberKey.source_nb_event_listener
      (c.defaults.number NumberKey.source_nb_event_listener)

unfoldable pub source_nb_periodic_querier : RelaydConfigService → ℕ
source_nb_periodic_querier c =
    c.config_service.get_number NumberKey.source_nb_periodic_querier
      (c.defaults.number NumberKey.source_nb_periodic_querier)

unfoldable pub log_kafka_record_content : RelaydConfigService → Bool
log_kafka_record_content c =
    c.config_service.get_boolean BooleanKey.log_kafka_record_content
      (c.defaults.boolean BooleanKey.log_kafka_record_content)

unfoldable pub source_polling_allow_multiple_by_same_issuer : RelaydConfigService → Bool
source_polling_allow_multiple_by_same_issuer c =
    c.config_service.get_boolean BooleanKey.source_polling_allow_multiple_by_same_handler
      (c.defaults.boolean BooleanKey.source_polling_allow_multiple_by_same_handler)

unfoldable pub source_polling_allow_multiple_type_by_same_issuer : RelaydConfigService → Bool
source_polling_allow_multiple_type_by_same_issuer c =
    c.config_service.get_boolean BooleanKey.source_polling_allow_multiple_type_by_same_handler
      (c.defaults.boolean BooleanKey.source_polling_allow_multiple_type_by_same_handler)

unfoldable pub app_run_mode : RelaydConfigService → Option String
app_run_mode c =
    c.config_service.get_string StringKey.app_run_mode (c.defaults.string StringKey.app_run_mode)

-- `config.appRunMode === EConfigRunMode.PROD`
unfoldable pub in_mode_prod : RelaydConfigService → Bool
unfolding app_run_mode
in_mode_prod c = is (app_run_mode c) (config_run_mode_value prod)

unfoldable pub app_external_communication_mode : RelaydConfigService → Option String
app_external_communication_mode c =
    c.config_service.get_string StringKey.app_external_com_mode
      (c.defaults.string StringKey.app_external_com_mode)

unfoldable pub eth_provider_network_id : RelaydConfigService → Option String
eth_provider_network_id c =
    c.config_service.get_string StringKey.eth_provider_network_id
      (c.defaults.string StringKey.eth_provider_network_id)

unfoldable pub eth_provider_type : RelaydConfigService → Option String
eth_provider_type c =
    c.config_service.get_string StringKey.eth_provider_type
      (c.defaults.string StringKey.eth_provider_type)

unfoldable pub eth_provider_local_url : RelaydConfigService → Option String
eth_provider_local_url c =
    c.config_service.get_string StringKey.eth_provider_local_url
      (c.defaults.string StringKey.eth_provider_local_url)

unfoldable pub eth_etherscan_api_key : RelaydConfigService → Option String
eth_etherscan_api_key c =
    c.config_service.get_string StringKey.eth_etherscan_api_key
      (c.defaults.string StringKey.eth_etherscan_api_key)

unfoldable pub eth_infura_project_id : RelaydConfigService → Option String
eth_infura_project_id c =
    c.config_service.get_string StringKey.eth_infura_project_id
      (c.defaults.string StringKey.eth_infura_project_id)

unfoldable pub eth_infura_project_secret : RelaydConfigService → Option String
eth_infura_project_secret c =
    c.config_service.get_string StringKey.eth_infura_project_secret
      (c.defaults.string StringKey.eth_infura_project_secret)

unfoldable pub eth_alchemy_project_key : RelaydConfigService → Option String
eth_alchemy_project_key c =
    c.config_service.get_string StringKey.eth_alchemy_api_key
      (c.defaults.string StringKey.eth_alchemy_api_key)

unfoldable pub eth_pocket_gateway_id : RelaydConfigService → Option String
eth_pocket_gateway_id c =
    c.config_service.get_string StringKey.eth_pocket_gateway_id
      (c.defaults.string StringKey.eth_pocket_gateway_id)

unfoldable pub eth_pocket_app_address : RelaydConfigService → Option String
eth_pocket_app_address c =
    c.config_service.get_string StringKey.eth_pocket_app_address
      (c.defaults.string StringKey.eth_pocket_app_address)

unfoldable pub eth_pocket_secret_key : RelaydConfigService → Option String
eth_pocket_secret_key c =
    c.config_service.get_string StringKey.eth_pocket_secret_key
      (c.defaults.string StringKey.eth_pocket_secret_key)

unfoldable pub source_contract_validation_mode : RelaydConfigService → Option String
source_contract_validation_mode c =
    c.config_service.get_string StringKey.source_contract_validation_mode
      (c.defaults.string StringKey.source_contract_validation_mode)

unfoldable pub secret_chain_id : RelaydConfigService → Option String
secret_chain_id c =
    c.config_service.get_string StringKey.secret_chain_id
      (c.defaults.string StringKey.secret_chain_id)

unfoldable pub secret_rest_url : RelaydConfigService → Option String
secret_rest_url c =
    c.config_service.get_string StringKey.secret_rest_url
      (c.defaults.string StringKey.secret_rest_url)

unfoldable pub secret_rpc_url : RelaydConfigService → Option String
secret_rpc_url c =
    c.config_service.get_string StringKey.secret_rpc_url
      (c.defaults.string StringKey.secret_rpc_url)

unfoldable pub secret_account_address : RelaydConfigService → Option String
secret_account_address c =
    c.config_service.get_string StringKey.secret_account_address
      (c.defaults.string StringKey.secret_account_address)

unfoldable pub secret_account_mnemonic : RelaydConfigService → Option String
secret_account_mnemonic c =
    c.config_service.get_string StringKey.secret_account_mnemonic
      (c.defaults.string StringKey.secret_account_mnemonic)
