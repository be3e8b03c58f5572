-- ===== src/Eth/Reach/Polled.antt =====
-- The timers of the sources that an instance polls, in every state that it comes to.
use chainlink_eth_secret_net.Base.{
  ℕ, String, Option, some, ◌≡◌, ◌≢◌, true, arith, ap, ◌∙◌, str_eq_iff, string_eq, nat_eq,
}
use chainlink_eth_secret_net.Base.Maps
use chainlink_eth_secret_net.Data.SourceEnums.{SourcePollingChange}
use chainlink_eth_secret_net.Eth.World.{World, Note}
use chainlink_eth_secret_net.Eth.Action.{Node, Polled}
use chainlink_eth_secret_net.Eth.Polling.{stop_source_polling, check_for_source_data_change}
use chainlink_eth_secret_net.Eth.Polling.Stops.{runs, stop_source_polling_lem}
use chainlink_eth_secret_net.Eth.Polling.Timers.{
  timeout_of, check_for_source_data_change-KeepsTimers,
}
use chainlink_eth_secret_net.Eth.Polling.Tracking.{
  IsTracking, still, IsTracking-Frames, start_and_track-Preserves, stop_source_polling-Preserves,
  stop_all_source_polling-Preserves,
}
use chainlink_eth_secret_net.Eth.Polling.Listeners.{stop_all_source_event_listener-Preserves}
use chainlink_eth_secret_net.Eth.Service.Tracking.{initiate_event_listener-Preserves}
use chainlink_eth_secret_net.Eth.Ticks.Tracking.{put-IsTracking}
use chainlink_eth_secret_net.Eth.Invariants.{IsInvariant}
use chainlink_eth_secret_net.Eth.Reach.Invariants.{Reach-invariant}
use chainlink_eth_secret_net.Eth.Reach.{started, Reach}

started-IsTracking :
    (id : String) (network : Option String) (calls : ℕ) → IsTracking (started id network calls)
started-IsTracking id network calls = record {
  below = λ t r. cc;
  running = λ k t e. cc;
  distinct = λ j k t e f. cc;
}

IsTracking-IsInvariant : (w : World) → IsInvariant w IsTracking
IsTracking-IsInvariant w = record {
  frames = IsTracking-Frames;
  noticed = λ id d.
      still (check_for_source_data_change id d) (check_for_source_data_change-KeepsTimers id d);
  polled = start_and_track-Preserves w;
  listened = initiate_event_listener-Preserves w;
  counted = put-IsTracking;
  unpolled = stop_source_polling-Preserves w;
  all_unpolled = stop_all_source_polling-Preserves w;
  all_unlistened = stop_all_source_event_listener-Preserves w;
}

-- In every state that an instance comes to, a timer that runs has a handle below the count of the
-- calls so far, the timer of each tracked source runs, and no two sources have the same timer.
pub Reach-IsTracking : (w : World) (n : Node) → Reach w n → IsTracking n
Reach-IsTracking w n reached =
    Reach-invariant w (IsTracking-IsInvariant w) started-IsTracking reached

-- In every state that an instance comes to, the stop of one tracked source ends the timer of no
-- other: a source that is tracked besides is still tracked with its timer, and that timer runs.
pub stop_source_polling-others :
    (w : World) (n : Node) (id k : String) (reason : SourcePollingChange) (msg : Option Note)
    (p q : Polled)
    → Reach w n
    → Maps.get id n.source_polling ≡ some p
    → Maps.get k n.source_polling ≡ some q
    → id ≢ k
    → let n' = (stop_source_polling w id reason msg n).1 in
      (Maps.get k n'.source_polling ≡ some q) × (runs q.timeout n'.intervals ≡ true)
stop_source_polling-others w n id k reason msg p q r e f other =
    let h = Reach-IsTracking w n r in
    let (gets, timers) = stop_source_polling_lem w id reason msg n p e in
    let apart : p.timeout ≢ q.timeout = λ same.
      other (h.distinct id k q.timeout (ap timeout_of e ∙ ap some same) (ap timeout_of f)) in
    (
      rw (gets k) (ground (arith, f, str_eq_iff id k, other)),
      rw (timers q.timeout) (ground (arith, apart, h.running k q.timeout (ap timeout_of f))),
    )
