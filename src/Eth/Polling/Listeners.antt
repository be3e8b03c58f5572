-- ===== src/Eth/Polling/Listeners.antt =====
-- The listeners of events start and end no timer of the tracked sources.
use chainlink_eth_secret_net.Base.{
  ℕ, String, Option, none, some, not, ◌&&◌, List, [], ◌∷◌, refl, inl, inr, arith, Bool-cases,
}
use chainlink_eth_secret_net.Base.Maps
use chainlink_eth_secret_net.Data.SourceEnums.{
  SourcePollingChange, add_listen_event, remove_listen_event,
}
use chainlink_eth_secret_net.Data.Channels.{Topic}
use chainlink_eth_secret_net.Eth.World.{World, Note, listening_started, shutting_down}
use chainlink_eth_secret_net.Eth.Action.{Node, Contract}
use chainlink_eth_secret_net.Eth.Action.Keeping.{Preserves}
use chainlink_eth_secret_net.Eth.Casting.{cast_source_polling}
use chainlink_eth_secret_net.Eth.Casting.Written.{cast_source_polling-Keeps}
use chainlink_eth_secret_net.Eth.Polling.{
  is_some, remove_all_listeners, listen_to_contract_event, track_source_event_listener,
  stop_source_event_listener, reported, stop_listener_and_report, stop_each_listener,
  stop_all_source_event_listener,
}
use chainlink_eth_secret_net.Eth.Polling.Stops.{reported-Keeps}
use chainlink_eth_secret_net.Eth.Polling.Timers.{
  KeepsTimers, KeepsTimers-refl, KeepsTimers-trans, Keeps-KeepsTimers,
}
use chainlink_eth_secret_net.Eth.Polling.Tracking.{IsTracking, still}

pub listen_to_contract_event-Preserves :
    (feed id : String) (c : Contract) (e : Option String) (d : ℕ)
    → Preserves IsTracking (listen_to_contract_event feed id c e d)
unfolding listen_to_contract_event
listen_to_contract_event-Preserves feed id c none d = record { at = λ n h. h }
listen_to_contract_event-Preserves feed id c (some e) d =
    still (listen_to_contract_event feed id c (some e) d)
      (λ n. record { intervals = refl; timeouts = λ k. refl; calls = omega arith })

cast_source_polling-KeepsTimers :
    (w : World) (id : String) (change : SourcePollingChange) (info : Option Note) (n m : Node)
    → KeepsTimers n m
    → KeepsTimers n (cast_source_polling w Topic.source_polling id change info m).1
cast_source_polling-KeepsTimers w id change info n m k =
    KeepsTimers-trans n m (cast_source_polling w Topic.source_polling id change info m).1 k (
      Keeps-KeepsTimers m (cast_source_polling w Topic.source_polling id change info m).1
        (cast_source_polling-Keeps w Topic.source_polling id change info m))

pub track_source_event_listener-Preserves :
    (w : World) (id : String) (c : Contract)
    → Preserves IsTracking (track_source_event_listener w id c)
unfolding track_source_event_listener
track_source_event_listener-Preserves w id c = still (track_source_event_listener w id c) (λ n.
    elim (Bool-cases (
      is_some (Maps.get id n.source_polling)
      && not w.settings.source_polling_allow_multiple_by_same_issuer)) [
        | inl e ↦ rw (e, track_source_event_listener) (KeepsTimers-refl n)
        | inr e ↦
            rw (e, track_source_event_listener)
              (let m : Node = record n {
                source_listening =
                    Maps.set id (record { last = none; contract = c }) n.source_listening;
              } in
                cast_source_polling-KeepsTimers w id add_listen_event (some listening_started) n m
                  (record { intervals = refl; timeouts = λ k. refl; calls = omega arith }))
      ])

pub stop_source_event_listener-KeepsTimers :
    (w : World) (id : String) (reason : SourcePollingChange) (msg : Option Note) (n : Node)
    → KeepsTimers n (stop_source_event_listener w id reason msg n).1
unfolding stop_source_event_listener
stop_source_event_listener-KeepsTimers w id reason msg n =
    cast_source_polling-KeepsTimers w id reason msg n
      (record n {
        subscriptions = elim (Maps.get id n.source_listening) [
          | none ↦ n.subscriptions
          | some listened ↦ remove_all_listeners listened.contract n.subscriptions
        ];
        source_listening = Maps.delete id n.source_listening;
      })
      (record { intervals = refl; timeouts = λ k. refl; calls = omega arith })

pub stop_source_event_listener-Preserves :
    (w : World) (id : String) (reason : SourcePollingChange) (msg : Option Note)
    → Preserves IsTracking (stop_source_event_listener w id reason msg)
stop_source_event_listener-Preserves w id reason msg =
    still (stop_source_event_listener w id reason msg)
      (stop_source_event_listener-KeepsTimers w id reason msg)

stop_listener_and_report-KeepsTimers :
    (w : World) (id : String) (n : Node) → KeepsTimers n (stop_listener_and_report w id n)
unfolding stop_listener_and_report
stop_listener_and_report-KeepsTimers w id n =
    let stop = stop_source_event_listener w id remove_listen_event (some shutting_down) n in
    KeepsTimers-trans n stop.1 (reported w id stop.0 stop.1)
      (stop_source_event_listener-KeepsTimers w id remove_listen_event (some shutting_down) n)
      (Keeps-KeepsTimers stop.1 (reported w id stop.0 stop.1) (reported-Keeps w id stop.0 stop.1))

stop_each_listener-KeepsTimers :
    (w : World) (ids : List String) (n : Node) → KeepsTimers n (stop_each_listener w ids n)
unfolding stop_each_listener
stop_each_listener-KeepsTimers w [] n = KeepsTimers-refl n
stop_each_listener-KeepsTimers w (id ∷ ids) n =
    KeepsTimers-trans n (stop_listener_and_report w id n)
      (stop_each_listener w ids (stop_listener_and_report w id n))
      (stop_listener_and_report-KeepsTimers w id n)
      (stop_each_listener-KeepsTimers w ids (stop_listener_and_report w id n))

pub stop_all_source_event_listener-KeepsTimers :
    (w : World) (n : Node) → KeepsTimers n (stop_all_source_event_listener w n).1
unfolding stop_all_source_event_listener
stop_all_source_event_listener-KeepsTimers w n =
    let k = stop_each_listener-KeepsTimers w (Maps.keys n.source_listening) n in
    record { intervals = k.intervals; timeouts = k.timeouts; calls = k.calls }

pub stop_all_source_event_listener-Preserves :
    (w : World) → Preserves IsTracking (stop_all_source_event_listener w)
stop_all_source_event_listener-Preserves w =
    still (stop_all_source_event_listener w) (stop_all_source_event_listener-KeepsTimers w)
