-- ===== src/Eth/Listening/Tests.antt =====
-- A shutdown.
use chainlink_eth_secret_net.Base.{ℕ, suc, String, some, none, [], ◌≡◌, false}
use chainlink_eth_secret_net.Base.Maps
use chainlink_eth_secret_net.Eth.Action.{Polled}
use chainlink_eth_secret_net.Eth.Polling.Stops.{runs}
use chainlink_eth_secret_net.Eth.Samples.{world, node}
use chainlink_eth_secret_net.Eth.Listening.{Closing, shutdown}
use chainlink_eth_secret_net.Eth.Listening.Shutdown.{closed, shutdown_lem}

abbrev closing : Closing
closing = record { streams = λ c. none; client = λ c. some tt }

shutdown_lem_example :
    let (r, n') = shutdown world closing (node 0) in
    ((k : String) → Maps.get k n'.source_polling ≡ none)
    × ((k : String) (p : Polled)
        → Maps.get k (node 0).source_polling ≡ some p
        → runs p.timeout n'.intervals ≡ false)
    × (n'.subscriptions ≡ [])
    × ((calls : ℕ) × (n'.calls ≡ suc calls) × (r ≡ closed (closing.client calls)))
shutdown_lem_example = shutdown_lem world closing (node 0)
