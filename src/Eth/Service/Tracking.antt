-- ===== src/Eth/Service/Tracking.antt =====
-- The start of a listener starts and ends no timer of the tracked sources.
use chainlink_eth_secret_net.Base.{String, some, inl, inr, string_eq}
use chainlink_eth_secret_net.Data.SourceEnums.{remove_listen_event}
use chainlink_eth_secret_net.Data.Records.{FeedConfigSource}
use chainlink_eth_secret_net.Eth.World.{World, listener_failed}
use chainlink_eth_secret_net.Eth.Action.{Action}
use chainlink_eth_secret_net.Eth.Action.Outcomes.{Outcome-cases}
use chainlink_eth_secret_net.Eth.Action.Keeping.{Preserves}
use chainlink_eth_secret_net.Eth.Polling.Listeners.{
  listen_to_contract_event-Preserves, track_source_event_listener-Preserves,
  stop_source_event_listener-Preserves,
}
use chainlink_eth_secret_net.Eth.Polling.Tracking.{IsTracking, IsTracking-Frames}
use chainlink_eth_secret_net.Eth.Frames.{frame_rules, load_cl_proxy_contract_aggregator-Preserves}
use chainlink_eth_secret_net.Eth.Service.{initiate_event_listener, listener_cleanup, with_cleanup}

with_cleanup-Preserves :
    (w : World) (s : FeedConfigSource) (m : Action (Unit {0}))
    → Preserves IsTracking m
    → Preserves IsTracking (with_cleanup w s m)
unfolding with_cleanup listener_cleanup
with_cleanup-Preserves w s m k = record {
  at = λ n h. elim (Outcome-cases (m n).0) [
    | inl (u, e) ↦ rw (e, with_cleanup, listener_cleanup) (k.at n h)
    | inr (x, e) ↦
        rw (e, with_cleanup, listener_cleanup)
          ((stop_source_event_listener-Preserves w s.contract remove_listen_event
              (some listener_failed)).at
            (m n).1 (k.at n h))
  ];
}

pub initiate_event_listener-Preserves :
    (w : World) (s : FeedConfigSource) (feed : String)
    → Preserves IsTracking (initiate_event_listener w s feed)
unfolding initiate_event_listener
initiate_event_listener-Preserves w s feed =
    search
      (
        frame_rules, IsTracking-Frames, load_cl_proxy_contract_aggregator-Preserves,
        with_cleanup-Preserves, listen_to_contract_event-Preserves,
        track_source_event_listener-Preserves,
      )
      depth 12
