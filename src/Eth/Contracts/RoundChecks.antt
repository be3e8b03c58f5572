-- ===== src/Eth/Contracts/RoundChecks.antt =====
-- What the calls of the contracts promise.
use chainlink_eth_secret_net.Base.{ℕ, suc, ◌+◌, ◌≤◌, ◌<◌, Bool, true, ◌≡◌, arith}
use chainlink_eth_secret_net.Data.Records.{FeedSourceData}
use chainlink_eth_secret_net.Eth.World.{World}
use chainlink_eth_secret_net.Eth.Action.{Node, Contract, ok}
use chainlink_eth_secret_net.Eth.Casting.Written.{Keeps}
use chainlink_eth_secret_net.Eth.Contracts.{
  days_ms, load_contract_latest_round_data, convert_price, convert_date, load_contract_decimals,
}

module _ (w : World) (contract : Contract) where
  pub load_contract_latest_round_data-Keeps :
      (decimals : ℕ) (validate : Bool) (n : Node)
      → Keeps n (load_contract_latest_round_data w contract decimals validate n).1
  unfolding load_contract_latest_round_data convert_date
  load_contract_latest_round_data-Keeps decimals validate n = ground arith

  -- Round data that a validated call returns has a positive value and a date, and is no older than
  -- the settings allow at the time of the check.
  pub load_contract_latest_round_data-valid :
      (decimals : ℕ) (n : Node) (d : FeedSourceData)
      → (load_contract_latest_round_data w contract decimals true n).0 ≡ ok d
      → (w.validator.is_positive d.value ≡ true)
        × (w.validator.is_date_string d.time ≡ true)
        × (w.runtime.now (suc (suc n.calls))
            ≤ w.runtime.date_value d.time + days_ms w.settings.source_data_last_update_max_days)
  unfolding load_contract_latest_round_data convert_date convert_price
  load_contract_latest_round_data-valid decimals n d h = ground arith

  pub load_contract_decimals-Keeps : (n : Node) → Keeps n (load_contract_decimals w contract n).1
  unfolding load_contract_decimals
  load_contract_decimals-Keeps n = ground arith

  pub load_contract_decimals-positive :
      (n : Node) (d : ℕ) → (load_contract_decimals w contract n).0 ≡ ok d → 0 < d
  unfolding load_contract_decimals
  load_contract_decimals-positive n d h = ground arith
