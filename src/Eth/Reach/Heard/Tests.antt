-- ===== src/Eth/Reach/Heard/Tests.antt =====
-- A run of an instance that starts to listen to two sources.
use chainlink_eth_secret_net.Base.{
  ℕ, String, none, some, true, false, ◌≡◌, ◌≢◌, refl, str_eq_iff, arith,
}
use chainlink_eth_secret_net.Base.Maps
use chainlink_eth_secret_net.Data.FeedEnums.{eth_test_kovan, FeedSourcePoll, answer_updated}
use chainlink_eth_secret_net.Data.Records.{FeedConfigSource}
use chainlink_eth_secret_net.Data.SourceEnums.{remove_listen_event}
use chainlink_eth_secret_net.Eth.Action.{
  Node, Listened, access_controlled_offchain_aggregator, write_to_stream,
}
use chainlink_eth_secret_net.Eth.Samples.{world, source}
use chainlink_eth_secret_net.Eth.Controller.{handle_source_config}
use chainlink_eth_secret_net.Eth.Casting.{cast_source_polling}
use chainlink_eth_secret_net.Eth.Contracts.{init_contract_cl_aggregator, load_contract_decimals}
use chainlink_eth_secret_net.Eth.Handles.{check_if_data_polling_required}
use chainlink_eth_secret_net.Eth.Network.{check_network_match}
use chainlink_eth_secret_net.Eth.Service.{
  deep_copy_json, handle_copy, handle_source_contract, initiate_source_data_polling,
}
use chainlink_eth_secret_net.Eth.Polling.{
  listen_to_contract_event, track_source_event_listener, stop_source_event_listener,
}
use chainlink_eth_secret_net.Eth.Polling.Heard.{hears, IsListening}
use chainlink_eth_secret_net.Eth.Reach.{Reach, start, next, handled, started}
use chainlink_eth_secret_net.Eth.Reach.Heard.{
  Reach-IsListening, stop_source_event_listener-others, second_listener-leak,
}

abbrev first : FeedConfigSource
first = record source {
  network = some eth_test_kovan;
  poll = some FeedSourcePoll.event;
  event = some answer_updated;
}

abbrev second : FeedConfigSource
second = record first { contract = "0xC" }

abbrev listening : Node
listening =
    (handle_source_config world "linkusd" second
      (handle_source_config world "ethusd" first (started "eth-client-1" (some "kovan") 0)).1).1

listening-Reach : Reach world listening
listening-Reach =
    next (next (start "eth-client-1" (some "kovan") 0) (handled "ethusd" first))
      (handled "linkusd" second)

Reach-IsListening_example : IsListening listening
Reach-IsListening_example = Reach-IsListening world listening listening-Reach

abbrev heard_on : String → ℕ → Listened
heard_on address i = record {
  last = none;
  contract = record {
    address = address;
    abi = access_controlled_offchain_aggregator;
    instance_id = i;
  };
}

apart : ◌≢◌ {A = String} "0xA" "0xC"
apart e = cc ((str_eq_iff "0xA" "0xC").1 e)

stop_source_event_listener-others_example :
    let n' = (stop_source_event_listener world "0xA" remove_listen_event none listening).1 in
    (Maps.get "0xC" n'.source_listening ≡ some (heard_on "0xC" 3))
    × (hears 3 n'.subscriptions ≡ true)
    × (hears 0 n'.subscriptions ≡ false)
unfolding handle_source_config check_network_match handle_source_contract handle_copy deep_copy_json
    cast_source_polling check_if_data_polling_required init_contract_cl_aggregator
    load_contract_decimals write_to_stream listen_to_contract_event track_source_event_listener
stop_source_event_listener-others_example =
    stop_source_event_listener-others world listening "0xA" "0xC" remove_listen_event none
      (heard_on "0xA" 0) (heard_on "0xC" 3) listening-Reach refl refl apart

second_listener-leak_example :
    let n' = (initiate_source_data_polling world first "ethusd" listening).1 in
    let stopped = (stop_source_event_listener world "0xA" remove_listen_event none n').1 in
    (hears 0 n'.subscriptions ≡ true) × (hears 0 stopped.subscriptions ≡ true)
unfolding handle_source_config check_network_match handle_source_contract handle_copy deep_copy_json
    cast_source_polling check_if_data_polling_required init_contract_cl_aggregator
    load_contract_decimals write_to_stream listen_to_contract_event track_source_event_listener
second_listener-leak_example =
    second_listener-leak world first "ethusd" "AnswerUpdated(int256,uint256,uint256)" listening 8
      (heard_on "0xA" 0) remove_listen_event none listening-Reach refl refl refl refl refl refl
      (omega arith)
