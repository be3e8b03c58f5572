-- ===== src/Eth/Validation/Tests.antt =====
-- Runs of the validation of a source contract.
use chainlink_eth_secret_net.Base.{[], ◌∷◌, none, some, true, ◌≡◌, refl, All}
use chainlink_eth_secret_net.Base.Int.{pos}
use chainlink_eth_secret_net.Data.Records.{FeedSourceData, float}
use chainlink_eth_secret_net.Eth.World.{EventArgs}
use chainlink_eth_secret_net.Eth.Action.{ok}
use chainlink_eth_secret_net.Eth.Samples.{world, source, node}
use chainlink_eth_secret_net.Eth.Contracts.{
  convert_price, convert_date, load_contract_latest_round_data, load_contract_decimals,
  init_contract_cl_aggregator,
}
use chainlink_eth_secret_net.Eth.Validation.{
  check_own, proxied_checks, checks_with, pending_checks, checks_of, aggregate, aggregated,
  latest_event, validate_source_contract,
}
use chainlink_eth_secret_net.Eth.Validation.Events.{IsOneOf, NoLater, latest_event_lem}
use chainlink_eth_secret_net.Eth.Validation.Periodic.{IsSound, validate_source_contract-periodic}

abbrev result : FeedSourceData
result = record {
  path = none;
  decimals = some 8;
  value = float 7;
  time = "2022-01-01T00:00:00.000Z";
  round = some (float 3);
}

validate_source_contract-periodic_example :
    IsSound world result × (world.validator.valid_data result ≡ true)
unfolding validate_source_contract checks_of pending_checks checks_with proxied_checks check_own
    aggregated aggregate load_contract_latest_round_data load_contract_decimals
    init_contract_cl_aggregator convert_price convert_date
validate_source_contract-periodic_example =
    validate_source_contract-periodic world source (node 0) result refl refl

abbrev early : EventArgs
early = record { current = pos 5; round = 1; updated_at = 10 }

abbrev late : EventArgs
late = record { current = pos 6; round = 2; updated_at = 20 }

latest_event_lem_example :
    (m : EventArgs) × (latest_event world (early ∷ late ∷ []) ≡ ok (some m))
    × IsOneOf m (early ∷ late ∷ [])
    × All (NoLater m) (early ∷ late ∷ [])
latest_event_lem_example = latest_event_lem world early (late ∷ []) (refl, (refl, tt))
