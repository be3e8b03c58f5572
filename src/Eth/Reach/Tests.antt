-- ===== src/Eth/Reach/Tests.antt =====
-- A run of an instance that starts to poll two sources.
use chainlink_eth_secret_net.Base.{
  ℕ, suc, arith, String, none, some, true, ◌≡◌, ◌≢◌, refl, str_eq_iff,
}
use chainlink_eth_secret_net.Base.Maps
use chainlink_eth_secret_net.Data.FeedEnums.{eth_test_kovan}
use chainlink_eth_secret_net.Data.Records.{FeedConfigSource}
use chainlink_eth_secret_net.Data.SourceEnums.{remove_periodic}
use chainlink_eth_secret_net.Eth.Action.{Node, Polled, err}
use chainlink_eth_secret_net.Eth.World.{within, initiate_periodic, second_polling}
use chainlink_eth_secret_net.Eth.Reach.Leaked.{second_polling-leak}
use chainlink_eth_secret_net.Eth.Samples.{world, source}
use chainlink_eth_secret_net.Eth.Controller.{handle_source_config}
use chainlink_eth_secret_net.Eth.Action.{write_to_stream}
use chainlink_eth_secret_net.Eth.Casting.{cast_source_polling}
use chainlink_eth_secret_net.Eth.Contracts.{init_contract_cl_aggregator, load_contract_decimals}
use chainlink_eth_secret_net.Eth.Handles.{check_if_data_polling_required}
use chainlink_eth_secret_net.Eth.Network.{check_network_match}
use chainlink_eth_secret_net.Eth.Service.{
  deep_copy_json, handle_copy, handle_source_contract, initiate_source_data_polling,
}
use chainlink_eth_secret_net.Eth.Polling.{
  start_polling_data, track_source_polling, stop_source_polling, stop_all_source_polling,
}
use chainlink_eth_secret_net.Eth.Polling.Stops.{runs}
use chainlink_eth_secret_net.Eth.Polling.Tracking.{IsTracking}
use chainlink_eth_secret_net.Eth.Reach.{Reach, start, next, handled, started}
use chainlink_eth_secret_net.Eth.Reach.Polled.{Reach-IsTracking, stop_source_polling-others}

abbrev first : FeedConfigSource
first = record source { network = some eth_test_kovan }

abbrev second : FeedConfigSource
second = record first { contract = "0xC" }

abbrev before : Node
before = started "eth-client-1" (some "kovan") 0

abbrev polling : Node
polling =
    (handle_source_config world "linkusd" second
      (handle_source_config world "ethusd" first before).1).1

polling-Reach : Reach world polling
polling-Reach =
    next (next (start "eth-client-1" (some "kovan") 0) (handled "ethusd" first))
      (handled "linkusd" second)

Reach-IsTracking_example : IsTracking polling
Reach-IsTracking_example = Reach-IsTracking world polling polling-Reach

abbrev polled_with : ℕ → Polled
polled_with t = record { last = none; timeout = t }

apart : ◌≢◌ {A = String} "0xA" "0xC"
apart e = cc ((str_eq_iff "0xA" "0xC").1 e)

stop_source_polling-others_example :
    let n' = (stop_source_polling world "0xA" remove_periodic none polling).1 in
    (Maps.get "0xC" n'.source_polling ≡ some (polled_with 6)) × (runs 6 n'.intervals ≡ true)
unfolding handle_source_config check_network_match handle_source_contract handle_copy deep_copy_json
    cast_source_polling track_source_polling check_if_data_polling_required
    init_contract_cl_aggregator load_contract_decimals start_polling_data write_to_stream
stop_source_polling-others_example =
    stop_source_polling-others world polling "0xA" "0xC" remove_periodic none (polled_with 2)
      (polled_with 6) polling-Reach refl refl apart

second_polling-leak_example :
    let (r, n') = initiate_source_data_polling world first "ethusd" polling in
    (r ≡ err (within initiate_periodic second_polling))
    × (runs (suc (suc polling.calls)) n'.intervals ≡ true)
    × (runs (suc (suc polling.calls)) (stop_all_source_polling world n').1.intervals ≡ true)
unfolding handle_source_config check_network_match handle_source_contract handle_copy deep_copy_json
    cast_source_polling track_source_polling check_if_data_polling_required
    init_contract_cl_aggregator load_contract_decimals start_polling_data write_to_stream
second_polling-leak_example =
    second_polling-leak world first "ethusd" polling (polled_with 2) 8 polling-Reach refl refl refl
      refl refl (omega arith)
