-- ===== src/Eth/Ticks/Tests.antt =====
-- Runs of a polling timer.
use chainlink_eth_secret_net.Base.{refl, arith}
use chainlink_eth_secret_net.Eth.Samples.{silent, interval, node}
use chainlink_eth_secret_net.Eth.Contracts.{load_contract_latest_round_data}
use chainlink_eth_secret_net.Eth.Ticks.{poll_data, fire_times}
use chainlink_eth_secret_net.Eth.Ticks.States.{Stopped}
use chainlink_eth_secret_net.Eth.Ticks.Errors.{failures, fire_times-Stopped}

fire_times-Stopped_example : Stopped (fire_times silent 5 1 (node 1)) (interval 1)
unfolding failures poll_data load_contract_latest_round_data
fire_times-Stopped_example =
    fire_times-Stopped silent 1 (interval 1) (node 1) (record { running = refl; tracked = refl })
      (omega arith) (omega arith)
