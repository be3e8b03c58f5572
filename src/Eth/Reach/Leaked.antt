-- ===== src/Eth/Reach/Leaked.antt =====
-- The timers that no stop reaches.
use chainlink_eth_secret_net.Base.{ℕ, suc, ◌<◌, String, some, ◌≡◌, true, false, ap}
use chainlink_eth_secret_net.Base.Maps
use chainlink_eth_secret_net.Data.FeedEnums.{timeperiod}
use chainlink_eth_secret_net.Data.Records.{FeedConfigSource}
use chainlink_eth_secret_net.Eth.World.{World, within, initiate_periodic, second_polling}
use chainlink_eth_secret_net.Eth.Action.{Node, Polled, err}
use chainlink_eth_secret_net.Eth.Polling.{stop_all_source_polling}
use chainlink_eth_secret_net.Eth.Polling.Stops.{runs}
use chainlink_eth_secret_net.Eth.Polling.Timers.{timeout_of}
use chainlink_eth_secret_net.Eth.Service.{is_positive_period, initiate_source_data_polling}
use chainlink_eth_secret_net.Eth.Service.Leaks.{initiate_source_data_polling-leak}
use chainlink_eth_secret_net.Eth.Reach.{Reach}
use chainlink_eth_secret_net.Eth.Reach.Polled.{Reach-IsTracking}

-- In every state that an instance comes to: where it may poll a source once only, and polls it
-- already, a second start of its periodic polling, with a positive period and a contract that answers
-- with positive decimals, is refused; but its new timer has started by then: it runs, and a stop of
-- all polling does not end it.
pub second_polling-leak :
    (w : World) (source : FeedConfigSource) (feed_id : String) (n : Node) (p : Polled)
    (decimals : ℕ)
    → Reach w n
    → source.poll ≡ some timeperiod
    → is_positive_period source.period ≡ true
    → w.settings.source_polling_allow_multiple_by_same_issuer ≡ false
    → Maps.get source.contract n.source_polling ≡ some p
    → w.chain.decimals_of (suc n.calls) source.contract ≡ some decimals
    → 0 < decimals
    → let timer = suc (suc n.calls) in
      let (r, n') = initiate_source_data_polling w source feed_id n in
      (r ≡ err (within initiate_periodic second_polling))
      × (runs timer n'.intervals ≡ true)
      × (runs timer (stop_all_source_polling w n').1.intervals ≡ true)
second_polling-leak w source feed_id n p decimals reached polled positive single tracked decimal
      pos =
    let h = Reach-IsTracking w n reached in
    initiate_source_data_polling-leak w source feed_id n p decimals polled positive single tracked
      decimal pos (λ k q e. h.below q.timeout (h.running k q.timeout (ap timeout_of e)))
