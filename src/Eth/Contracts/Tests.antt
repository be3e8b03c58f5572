-- ===== src/Eth/Contracts/Tests.antt =====
-- A validated reading of round data.
use chainlink_eth_secret_net.Base.{none, some, true, ◌≡◌, ◌≤◌, refl, ◌+◌}
use chainlink_eth_secret_net.Data.Records.{FeedSourceData, float}
use chainlink_eth_secret_net.Eth.Samples.{world, node, interval}
use chainlink_eth_secret_net.Eth.Contracts.{
  days_ms, convert_price, convert_date, load_contract_latest_round_data,
}
use chainlink_eth_secret_net.Eth.Contracts.RoundChecks.{load_contract_latest_round_data-valid}

abbrev data_read : FeedSourceData
data_read = record {
  path = none;
  decimals = none;
  value = float 7;
  time = "2022-01-01T00:00:00.000Z";
  round = some (float 3);
}

load_contract_latest_round_data-valid_example :
    (world.validator.is_positive (float 7) ≡ true)
    × (world.validator.is_date_string "2022-01-01T00:00:00.000Z" ≡ true)
    × (1000 ≤ 1000 + days_ms 30)
unfolding load_contract_latest_round_data convert_price convert_date
load_contract_latest_round_data-valid_example =
    load_contract_latest_round_data-valid world (interval 0).contract 8 (node 0) data_read refl
