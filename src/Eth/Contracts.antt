-- ===== src/Eth/Contracts.antt =====
-- Calls of the contracts: initContractClAggregator, loadContractLatestRoundData,
-- loadClProxyContractAggregator, loadContractDecimals and loadContractEvent of
-- eth-client/src/eth-connect.service.ts, with convertValue of common/src/utils/conversion.ts for the
-- options that they pass.
pub mod RoundChecks
mod Tests
use chainlink_eth_secret_net.Base.{
  ℕ, suc, ◌+◌, ◌*◌, String, List, Option, none, some, Bool, true, false, not, ◌&&◌, ltb,
  if◌then◌else◌,
}
use chainlink_eth_secret_net.Base.Int.{ℤ, pos, sub_ℕ}
use chainlink_eth_secret_net.Data.FeedEnums.{FeedSourceType, cl_aggr_prox, cl_aggr}
use chainlink_eth_secret_net.Data.Records.{JsNumber, FeedSourceData}
use chainlink_eth_secret_net.Eth.World.{
  World, EventArgs, RoundData, rejected, invalid_value, invalid_date, stale_data, invalid_decimals,
  invalid_aggregator, fetch_round_data, fetch_aggregator, fetch_decimals, load_events,
}
use chainlink_eth_secret_net.Eth.Action.{
  Action, Node, Contract, Abi, eac_aggregator_proxy, access_controlled_offchain_aggregator, Outcome,
  ok, err, ask, rethrow, guard, pure, throw, ◌>>=◌, ◌>>◌,
}

-- convertValue(value, ValueType.PRICE, { decimals })
unfoldable pub convert_price : World → ℤ → ℕ → JsNumber
convert_price w value decimals =
    if ltb 0 decimals then w.runtime.plus_units value decimals else w.runtime.plus value

-- convertValue(value, ValueType.DATE): Chainlink counts seconds, and the default is the ISO format.
unfoldable pub convert_date : World → ℕ → Action String
convert_date w value = ask (λ _. w.runtime.to_iso (value * 1000))

abbrev pub abi_of : Option FeedSourceType → Abi
abi_of none = eac_aggregator_proxy
abi_of (some cl_aggr_prox) = eac_aggregator_proxy
abi_of (some cl_aggr) = access_controlled_offchain_aggregator

-- `new Contract(…)`: an object of its own.
unfoldable pub init_contract_cl_aggregator : String → Option FeedSourceType → Action Contract
init_contract_cl_aggregator address type n = (
  ok (record { address = address; abi = abi_of type; instance_id = n.calls }),
  record n { calls = suc n.calls },
)

-- `days * 24 * 60 * 60 * 1000`
abbrev pub days_ms : ℕ → ℕ
days_ms days = days * 24 * 60 * 60 * 1000

-- The age is tested without the subtraction: `dateLastUpdate < dateNow - max`.
unfoldable pub load_contract_latest_round_data : World → Contract → ℕ → Bool → Action FeedSourceData
unfolding convert_price convert_date
load_contract_latest_round_data w contract decimals validate = rethrow fetch_round_data (do
  result ← ask (λ c. w.chain.latest_round_data_of c contract.address)
  let last_value = convert_price w result.answer decimals
  last_value_time ← convert_date w result.updated_at
  let last_value_round = w.runtime.plus (pos result.round_id)
  guard (not (validate && not (w.validator.is_positive last_value))) invalid_value
  guard (not (validate && not (w.validator.is_date_string last_value_time))) invalid_date
  date_now ← ask (λ c. some (w.runtime.now c))
  guard
      (not (
        validate
        && ltb
            (w.runtime.date_value last_value_time
              + days_ms w.settings.source_data_last_update_max_days)
            date_now))
      stale_data
  pure (record {
    path = none;
    decimals = none;
    value = last_value;
    time = last_value_time;
    round = some last_value_round;
  }))

unfoldable pub load_cl_proxy_contract_aggregator : World → Contract → Action Contract
unfolding init_contract_cl_aggregator
load_cl_proxy_contract_aggregator w contract = rethrow fetch_aggregator (do
  aggr_addr ← ask (λ c. w.chain.aggregator_of c contract.address)
  guard (w.validator.is_ethereum_address aggr_addr) invalid_aggregator
  init_contract_cl_aggregator aggr_addr (some cl_aggr))

unfoldable pub load_contract_decimals : World → Contract → Action ℕ
load_contract_decimals w contract = rethrow fetch_decimals (do
  decimals ← ask (λ c. w.chain.decimals_of c contract.address)
  guard (ltb 0 decimals) invalid_decimals
  pure decimals)

abbrev pub nb_blocks : ℕ
nb_blocks = 750

-- The events over the last blocks; an undefined signature has no identifier.
unfoldable pub load_contract_event :
    World → Contract → Option String → Action (List (Option EventArgs))
load_contract_event w contract event_signature = do
  block_nb_latest ← ask w.chain.block_number
  signature ← ask (λ _. event_signature)
  rethrow load_events
      (ask (λ c. w.chain.events_of c contract.address signature (sub_ℕ block_nb_latest nb_blocks)))
