-- ===== src/Eth/Invariants.antt =====
-- Invariants of an instance: what the handlers and callbacks of the Ethereum client ask of a property
-- to keep it.
use chainlink_eth_secret_net.Base.{ℕ, String, Option, some}
use chainlink_eth_secret_net.Data.SourceEnums.{SourcePollingChange}
use chainlink_eth_secret_net.Data.Records.{FeedConfigSource, FeedSourceData}
use chainlink_eth_secret_net.Eth.World.{World, Note}
use chainlink_eth_secret_net.Eth.Action.{Node, Contract, Interval, pure, ◌>>=◌}
use chainlink_eth_secret_net.Eth.Action.Keeping.{Preserves}
use chainlink_eth_secret_net.Eth.Polling.{
  start_polling_data, track_source_polling, stop_source_polling, stop_all_source_polling,
  stop_all_source_event_listener, check_for_source_data_change,
}
use chainlink_eth_secret_net.Eth.Service.{initiate_event_listener}
use chainlink_eth_secret_net.Eth.Ticks.{put_interval}
use chainlink_eth_secret_net.Eth.Frames.{Frames}

-- One field for each change of what the instance tracks. A timer that starts and the tracking of its
-- source are one change, and so is the start of a listener: halfway through, less holds.
pub record IsInvariant (w : World) (P : Node → Type 0) : Type 0 where
  pub frames : Frames P
  pub noticed : (id : String) (d : FeedSourceData) → Preserves P (check_for_source_data_change id d)
  pub polled :
      (feed : String) (s : FeedConfigSource) (c : Contract) (d : ℕ) (id : String)
      → Preserves P (
          start_polling_data feed s c d >>= λ t. track_source_polling w id t >>= λ _. pure (some t))
  pub listened :
      (s : FeedConfigSource) (feed : String) → Preserves P (initiate_event_listener w s feed)
  pub counted :
      (j : Interval) (n : Node) → P n → P (record n { intervals = put_interval j n.intervals })
  pub unpolled :
      (id : String) (reason : SourcePollingChange) (msg : Option Note)
      → Preserves P (stop_source_polling w id reason msg)
  pub all_unpolled : Preserves P (stop_all_source_polling w)
  pub all_unlistened : Preserves P (stop_all_source_event_listener w)
