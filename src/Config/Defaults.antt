-- ===== src/Config/Defaults.antt =====
-- The modes of common/src/config/relayd.config.ts, and its classes of default values:
-- RelaydConfigDefaultCore, RelaydConfigDefaultProd and RelaydConfigDefaultDev.
use chainlink_eth_secret_net.Base.{ℕ, String, Bool, true, false, Option, none, some}
use chainlink_eth_secret_net.Data.Channels.{homestead, ethers_network_value}

pub data ExternalCommunicationMode : Type 0 where
  debug standard deny : ExternalCommunicationMode

abbrev pub external_communication_mode_value : ExternalCommunicationMode → String
external_communication_mode_value debug = "debug"
external_communication_mode_value standard = "standard"
external_communication_mode_value deny = "deny"

pub data ConfigRunMode : Type 0 where
  prod dev_local dev_cluster : ConfigRunMode

abbrev pub config_run_mode_value : ConfigRunMode → String
config_run_mode_value prod = "prod"
config_run_mode_value dev_local = "dev.local"
config_run_mode_value dev_cluster = "dev.cluster"

pub data SourceValidMode : Type 0 where
  minimal optimal full : SourceValidMode

abbrev pub source_valid_mode_value : SourceValidMode → String
source_valid_mode_value minimal = "min"
source_valid_mode_value optimal = "optimal"
source_valid_mode_value full = "full"

-- The keys of the environment that the service reads.
pub data NumberKey : Type 0 where
  max_recast_network_source_not_matching : NumberKey
  source_data_last_update_max_days : NumberKey
  max_recast_source_handling_fail : NumberKey
  max_successive_error_to_stop_polling : NumberKey
  source_issue_max_number : NumberKey
  source_max_handle : NumberKey
  source_nb_event_listener : NumberKey
  source_nb_periodic_querier : NumberKey

pub data BooleanKey : Type 0 where
  log_kafka_record_content : BooleanKey
  source_polling_allow_multiple_by_same_handler : BooleanKey
  source_polling_allow_multiple_type_by_same_handler : BooleanKey

pub data StringKey : Type 0 where
  app_run_mode app_external_com_mode source_contract_validation_mode : StringKey
  eth_provider_network_id eth_provider_type eth_provider_local_url : StringKey
  eth_etherscan_api_key eth_infura_project_id eth_infura_project_secret : StringKey
  eth_alchemy_api_key eth_pocket_gateway_id eth_pocket_app_address : StringKey
  eth_pocket_secret_key secret_chain_id secret_rest_url secret_rpc_url : StringKey
  secret_account_address secret_account_mnemonic : StringKey

-- An instance of a class of defaults: the value that it holds under each key, and under the key
-- SOURCE_POLLING_ALLOW_MULTIPLE_BY_SAME_NODE, which only the class for development has.
pub record ConfigDefaults : Type 0 where
  pub number : NumberKey → ℕ
  pub boolean : BooleanKey → Bool
  pub string : StringKey → Option String
  pub source_polling_allow_multiple_by_same_node : Option Bool

abbrev pub core_string : StringKey → Option String
core_string app_run_mode = some (config_run_mode_value prod)
core_string app_external_com_mode = some (external_communication_mode_value standard)
core_string eth_provider_network_id = some (ethers_network_value homestead)
core_string eth_provider_type = some "default"
core_string _ = none

abbrev pub core_boolean : BooleanKey → Bool
core_boolean _ = false

abbrev pub prod_number : NumberKey → ℕ
prod_number max_recast_network_source_not_matching = 4
prod_number source_data_last_update_max_days = 30
prod_number max_recast_source_handling_fail = 2
prod_number max_successive_error_to_stop_polling = 3
prod_number source_issue_max_number = 10
prod_number source_max_handle = 10
prod_number source_nb_event_listener = 3
prod_number source_nb_periodic_querier = 3

abbrev pub prod_string : StringKey → Option String
prod_string source_contract_validation_mode = some (source_valid_mode_value optimal)
prod_string k = core_string k

abbrev pub defaults_prod : ConfigDefaults
defaults_prod = record {
  number = prod_number;
  boolean = core_boolean;
  string = prod_string;
  source_polling_allow_multiple_by_same_node = none;
}

-- `extends RelaydConfigDefaultProd`
abbrev pub dev_number : NumberKey → ℕ
dev_number source_nb_event_listener = 3
dev_number source_nb_periodic_querier = 3
dev_number k = prod_number k

abbrev pub dev_boolean : BooleanKey → Bool
dev_boolean source_polling_allow_multiple_type_by_same_handler = true
dev_boolean k = core_boolean k

abbrev pub defaults_dev : ConfigDefaults
defaults_dev = record {
  number = dev_number;
  boolean = dev_boolean;
  string = prod_string;
  source_polling_allow_multiple_by_same_node = some true;
}

-- The `@Min` and `@Max` of each number.
abbrev pub number_range : NumberKey → ℕ × ℕ
number_range max_recast_network_source_not_matching = (0, 10)
number_range source_data_last_update_max_days = (1, 188)
number_range max_recast_source_handling_fail = (0, 5)
number_range max_successive_error_to_stop_polling = (0, 5)
number_range source_issue_max_number = (0, 20)
number_range source_max_handle = (1, 20)
number_range source_nb_event_listener = (2, 10)
number_range source_nb_periodic_querier = (2, 10)
