-- ===== src/Eth/Samples.antt =====
-- Concrete systems, instances and sources to run the client on.
use chainlink_eth_secret_net.Base.{ℕ, [], ◌∷◌, none, some, Bool, true, false, leb}
use chainlink_eth_secret_net.Base.Int.{ℤ, pos, negsuc}
use chainlink_eth_secret_net.Config.Settings.{Settings}
use chainlink_eth_secret_net.Data.SourceEnums.{SourceStatus}
use chainlink_eth_secret_net.Data.FeedEnums.{
  eth_main, FeedSourceNotifOn, cl_aggr, FeedSourcePoll, latest_round_data,
}
use chainlink_eth_secret_net.Data.Records.{JsNumber, nan, float, big_number, FeedConfigSource}
use chainlink_eth_secret_net.Eth.World.{World, Validator, Runtime, Broker, Chain}
use chainlink_eth_secret_net.Eth.Action.{
  Node, Polled, Interval, access_controlled_offchain_aggregator,
}

-- The default numbers.
abbrev pub settings : Settings
settings = record {
  source_contract_validation_mode = some "optimal";
  source_data_last_update_max_days = 30;
  max_recast_network_source_not_matching = 4;
  max_recast_source_handling_fail = 2;
  max_successive_error_to_stop_polling = 3;
  source_issue_max_number = 10;
  source_polling_allow_multiple_by_same_issuer = false;
  source_polling_allow_multiple_type_by_same_issuer = false;
  source_nb_event_listener = 3;
  source_nb_periodic_querier = 3;
}

abbrev number_of : ℤ → JsNumber
number_of (pos n) = float n
number_of (negsuc n) = nan

abbrev is_number : JsNumber → Bool
is_number nan = false
is_number (float n) = leb 1 n
is_number (big_number n) = false

abbrev validator : Validator
validator = record {
  valid_source = λ s. true;
  valid_polling = λ s. true;
  valid_data = λ d. true;
  valid_event = λ e. true;
  is_ethereum_address = λ a. true;
  is_positive = is_number;
  is_date_string = λ d. true;
}

abbrev runtime : Runtime
runtime = record {
  now = λ c. 1000;
  to_iso = λ t. some "2022-01-01T00:00:00.000Z";
  iso_now = λ c. "2022-01-01T00:00:01.000Z";
  date_value = λ t. 1000;
  plus = number_of;
  plus_units = λ v d. number_of v;
  fits = λ v. true;
  words = λ note. 1 ∷ [];
  json_copy = λ source. source;
}

-- Every record is taken, and the table holds nothing.
abbrev broker : Broker
broker = record { accepts = λ c r. true; source_table = λ c k. some none }

abbrev chain : Chain
chain = record {
  network_name = λ c. some "kovan";
  decimals_of = λ c a. some 8;
  aggregator_of = λ c a. some "0xB";
  latest_round_data_of = λ c a. some (record { answer = pos 7; updated_at = 1; round_id = 3 });
  block_number = λ c. some 9;
  events_of = λ c a s from. some [];
}

abbrev pub world : World
world = record {
  settings = settings;
  validator = validator;
  runtime = runtime;
  broker = broker;
  chain = chain;
}

-- A provider that does not answer.
abbrev pub silent : World
silent = record world { chain = record chain { latest_round_data_of = λ c a. none } }

abbrev pub source : FeedConfigSource
source = record {
  status = some SourceStatus.ok;
  issue = none;
  network = some eth_main;
  contract = "0xA";
  type = some cl_aggr;
  poll = some FeedSourcePoll.timeperiod;
  event = none;
  event_signature = none;
  period = some 10;
  function = some latest_round_data;
  notif = some FeedSourceNotifOn.change;
  source_data = none;
  handle = none;
}

abbrev pub interval : ℕ → Interval
interval errors = record {
  id = 5;
  feed_id = "ethusd";
  source = source;
  contract = record {
    address = "0xA";
    abi = access_controlled_offchain_aggregator;
    instance_id = 4;
  };
  decimals = 8;
  polling_error_counter = errors;
}

abbrev pub polled : Polled
polled = record { last = none; timeout = 5 }

-- An instance on the network kovan that polls one source, with a number of errors so far.
abbrev pub node : ℕ → Node
node errors = record {
  service_id = "eth-client-1";
  network = some "kovan";
  source_polling = ("0xA", polled) ∷ [];
  source_listening = [];
  intervals = interval errors ∷ [];
  subscriptions = [];
  sent = [];
  calls = 6;
}
