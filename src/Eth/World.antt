-- ===== src/Eth/World.antt =====
-- What the Ethereum client asks of libraries and of other systems: the parameters of the model. A
-- function that may answer differently each time takes the number of the call as its first
-- argument; `none` is a rejected promise or a thrown error.
use chainlink_eth_secret_net.Base.{ℕ, String, List, Option, Bool}
use chainlink_eth_secret_net.Base.Int.{ℤ}
use chainlink_eth_secret_net.Config.Settings.{Settings}
use chainlink_eth_secret_net.Data.SourceEnums.{SourceStatus}
use chainlink_eth_secret_net.Data.Channels.{Topic, ErrorType}
use chainlink_eth_secret_net.Data.Records.{
  Text, JsNumber, FeedSourceData, FeedConfigSource, FeedSourceConfigWrap, FeedSourceDataUpdate,
  SourcePollingInfo, ContractEvent,
}

-- Where an error is caught and thrown again with more words.
pub data Step : Type 0 where
  load_network config_cast validate_source_config error_cast : Step
  validate_source_polling polling_cast data_cast source_from_table : Step
  merge_polling review_handling cast_merged validate_fetched_data source_validation : Step
  initiate_polling polling_handling initiate_periodic load_proxy initiate_listener : Step
  fetch_round_data fetch_aggregator fetch_decimals sub_aggregator sub_round_data : Step
  own_round_data periodic_validation event_validation load_events contract_events : Step
  cast_check cast_change poll_data stop_polling cast_network_issue input_validation : Step
  event_cast client_close stream_close : Step
  provider_setup logging_init table_init streams_corrupted : Step

-- The errors that the client throws, and `rejected` for those of the libraries.
pub data Failure : Type 0 where
  rejected : Failure
  within : Step → Failure → Failure
  write_failed invalid_config invalid_polling invalid_table_entry no_source no_source_key : Failure
  polled_by_event polled_by_period mixed_polling not_polled_by_event not_polled_by_period : Failure
  unknown_change unsupported_status already_polled unknown_polling invalid_period : Failure
  second_polling second_listener not_registered unregistered_source unsupported_notif : Failure
  invalid_value invalid_date stale_data invalid_decimals invalid_aggregator : Failure
  invalid_address unsupported_contract no_events number_overflow invalid_input : Failure
  no_network_support handling_failed_note : Failure

-- What a record on a topic carries.
pub data Payload : Type 0 where
  config : FeedConfigSource → Payload
  polling : SourcePollingInfo → Payload
  update : FeedSourceDataUpdate → Payload
  report : ErrorType → Failure → Payload

pub record Cast : Type 0 where
  pub topic : Topic
  pub key : String
  pub value : Payload

-- The texts that the client writes into records; the model keeps what they are made of.
pub data Note : Type 0 where
  of_failure : Failure → Note
  error_info : ErrorType → FeedConfigSource → String → Failure → Note
  handling_updated invalid_data polling_started listening_started listener_failed shutting_down :
      Note
  status_note : Option SourceStatus → Note
  network_note : ℕ → ℕ → Note
  handling_note : ℕ → ℕ → Failure → Note
  too_many_errors : ℕ → Failure → Note

-- The answer of `latestRoundData()`.
pub record RoundData : Type 0 where
  pub answer : ℤ
  pub updated_at : ℕ
  pub round_id : ℕ

-- The arguments of an emitted event.
pub record EventArgs : Type 0 where
  pub current : ℤ
  pub round : ℕ
  pub updated_at : ℕ

-- class-validator.
pub record Validator : Type 0 where
  pub valid_source : FeedConfigSource → Bool
  pub valid_polling : SourcePollingInfo → Bool
  pub valid_data : FeedSourceData → Bool
  pub valid_event : ContractEvent → Bool
  pub is_ethereum_address : String → Bool
  pub is_positive : JsNumber → Bool
  pub is_date_string : String → Bool

-- The runtime: clock, dates, numbers and texts. `plus v` is `+v`, `plus_units v d` is
-- `+formatUnits(v, d)`, and `fits` says that `toNumber` does not overflow. `to_iso` takes
-- milliseconds, and `json_copy` is `JSON.parse(JSON.stringify(source))`.
pub record Runtime : Type 0 where
  pub now : ℕ → ℕ
  pub to_iso : ℕ → Option String
  pub iso_now : ℕ → String
  pub date_value : String → ℕ
  pub plus : ℤ → JsNumber
  pub plus_units : ℤ → ℕ → JsNumber
  pub fits : ℤ → Bool
  pub words : Note → Text
  pub json_copy : FeedConfigSource → FeedConfigSource

-- The Kafka client: whether it takes a record, and what the table of the sources holds for a key.
pub record Broker : Type 0 where
  pub accepts : ℕ → Cast → Bool
  pub source_table : ℕ → String → Option (Option FeedSourceConfigWrap)

-- The Ethereum provider and the contracts behind it, by address. An event has no arguments where the
-- interface of the contract does not declare it.
pub record Chain : Type 0 where
  pub network_name : ℕ → Option String
  pub decimals_of : ℕ → String → Option ℕ
  pub aggregator_of : ℕ → String → Option String
  pub latest_round_data_of : ℕ → String → Option RoundData
  pub block_number : ℕ → Option ℕ
  pub events_of : ℕ → String → String → ℤ → Option (List (Option EventArgs))

pub record World : Type 0 where
  pub settings : Settings
  pub validator : Validator
  pub runtime : Runtime
  pub broker : Broker
  pub chain : Chain
