-- ===== src/Eth/Polling.antt =====
-- The sources that an instance polls and listens to: startPollingData, trackSourcePolling,
-- stopSourcePolling, stopAllSourcePolling, checkForSourceDataChange, listenToContractEvent,
-- trackSourceEventListener, stopSourceEventListener and stopAllSourceEventListener of
-- eth-client/src/eth-connect.service.ts.
pub mod Stops
pub mod Others
pub mod Timers
pub mod Tracking
pub mod Listeners
pub mod Heard
pub mod Registering
pub mod Silence
use chainlink_eth_secret_net.Base.{
  ℕ, suc, String, List, [], ◌∷◌, Option, none, some, Bool, true, false, not, ◌&&◌, select, ◌==◌,
  nat_eq, string_eq, if◌then◌else◌,
}
use chainlink_eth_secret_net.Base.Maps
use chainlink_eth_secret_net.Base.Maps.{Dict}
use chainlink_eth_secret_net.Data.SourceEnums.{
  SourcePollingChange, add_periodic, add_listen_event, remove_periodic, remove_listen_event,
}
use chainlink_eth_secret_net.Data.Channels.{
  source_polling, error_source, source_polling_handle_fail,
}
use chainlink_eth_secret_net.Data.Records.{FeedSourceData, FeedConfigSource, same_number}
use chainlink_eth_secret_net.Eth.World.{
  World, Note, polling_started, listening_started, shutting_down, second_polling, second_listener,
  not_registered, unregistered_source, rejected,
}
use chainlink_eth_secret_net.Eth.Action.{
  Action, Node, Contract, Polled, Listened, Interval, Subscription, Outcome, ok, err, pure, throw,
  guard, modify, ◌>>=◌, ◌>>◌,
}
use chainlink_eth_secret_net.Eth.Casting.{cast_source_polling, cast_error}

abbrev pub is_some {ℓ} : {A : Type ℓ} → Option A → Bool
is_some none = false
is_some (some _) = true

-- `setInterval`: the new timer runs, and its handle is returned.
unfoldable pub start_polling_data : String → FeedConfigSource → Contract → ℕ → Action ℕ
start_polling_data feed_id source contract decimals n =
    let interval : Interval = record {
      id = n.calls;
      feed_id = feed_id;
      source = source;
      contract = contract;
      decimals = decimals;
      polling_error_counter = 0;
    } in
    (ok n.calls, record n { intervals = interval ∷ n.intervals; calls = suc n.calls })

unfoldable pub track_source_polling : World → String → ℕ → Action (Unit {0})
track_source_polling w source_id timeout n =
    (do
      guard
          (not (
            is_some (Maps.get source_id n.source_polling)
            && not w.settings.source_polling_allow_multiple_by_same_issuer))
          second_polling
      modify (λ m. record m {
        source_polling =
            Maps.set source_id (record { last = none; timeout = timeout }) m.source_polling;
      })
      cast_source_polling w source_polling source_id add_periodic (some polling_started))
      n

-- `clearInterval`
abbrev pub clear_interval : ℕ → List Interval → List Interval
clear_interval timeout = select (λ interval. not (interval.id == timeout))

pub stop_source_polling : World → String → SourcePollingChange → Option Note → Action (Unit {0})
stop_source_polling w source_id reason_code reason_msg n =
    elim (Maps.get source_id n.source_polling) [
      | none ↦ (err not_registered, n)
      | some polled ↦
          cast_source_polling w source_polling source_id reason_code reason_msg (record n {
            intervals = clear_interval polled.timeout n.intervals;
            source_polling = Maps.delete source_id n.source_polling;
          })
    ]

-- `.catch(error => KafkaUtils.castError(…))`
pub reported : World → String → Outcome (Unit {0}) → Node → Node
reported w source_id (ok _) n = n
reported w source_id (err e) n =
    (cast_error w error_source source_polling_handle_fail source_id e n).1

-- The stop of a source at a shutdown: an error is reported.
pub stop_and_report : World → String → Node → Node
stop_and_report w source_id n =
    let (r, n') = stop_source_polling w source_id remove_periodic (some shutting_down) n in
    reported w source_id r n'

-- The stops of several sources. They are started one after the other, and each runs to its end here.
stop_each : World → List String → Node → Node
stop_each w [] n = n
stop_each w (source_id ∷ ids) n = stop_each w ids (stop_and_report w source_id n)

unfoldable pub stop_all_source_polling : World → Action (Unit {0})
unfolding stop_each
stop_all_source_polling w n = (ok tt, stop_each w (Maps.keys n.source_polling) n)

-- Whether the value differs from the last one seen, which it replaces if so. A value is the same
-- only if `===` says so. The warning about a late detection is only logged.
pub check_for_source_data_change : String → FeedSourceData → Action Bool
check_for_source_data_change source_id data_seen n = elim (Maps.get source_id n.source_polling) [
  | none ↦ (err unregistered_source, n)
  | some previous ↦
      if elim previous.last [ none ↦ false | some last ↦ same_number last.value data_seen.value ]
      then (ok false, n)
      else (
        ok true,
        record n {
          source_polling =
              Maps.set source_id (record { last = some data_seen; timeout = previous.timeout })
                n.source_polling;
        },
      )
]

-- `contract.on`: a callback for the events of the contract. An undefined signature has no identifier.
unfoldable pub listen_to_contract_event :
    String → String → Contract → Option String → ℕ → Action Contract
listen_to_contract_event feed_id source_id contract none nb_decimals n = (err rejected, n)
listen_to_contract_event feed_id source_id contract (some event_signature) nb_decimals n =
    let subscription : Subscription = record {
      contract = contract;
      feed_id = feed_id;
      source_id = source_id;
      event_signature = event_signature;
      decimals = nb_decimals;
    } in
    (ok contract, record n { subscriptions = subscription ∷ n.subscriptions })

-- The map that is consulted here is that of the periodic polling.
unfoldable pub track_source_event_listener : World → String → Contract → Action (Unit {0})
track_source_event_listener w source_id contract n =
    (do
      guard
          (not (
            is_some (Maps.get source_id n.source_polling)
            && not w.settings.source_polling_allow_multiple_by_same_issuer))
          second_listener
      modify (λ m. record m {
        source_listening =
            Maps.set source_id (record { last = none; contract = contract }) m.source_listening;
      })
      cast_source_polling w source_polling source_id add_listen_event (some listening_started))
      n

-- `contract.removeAllListeners()`
abbrev pub remove_all_listeners : Contract → List Subscription → List Subscription
remove_all_listeners contract = select (λ s. not (s.contract.instance_id == contract.instance_id))

unfoldable pub stop_source_event_listener :
    World → String → SourcePollingChange → Option Note → Action (Unit {0})
stop_source_event_listener w source_id reason_code reason_msg n =
    cast_source_polling w source_polling source_id reason_code reason_msg (record n {
      subscriptions = elim (Maps.get source_id n.source_listening) [
        | none ↦ n.subscriptions
        | some listened ↦ remove_all_listeners listened.contract n.subscriptions
      ];
      source_listening = Maps.delete source_id n.source_listening;
    })

pub stop_listener_and_report : World → String → Node → Node
stop_listener_and_report w source_id n =
    let (r, n') =
      stop_source_event_listener w source_id remove_listen_event (some shutting_down) n in
    reported w source_id r n'

stop_each_listener : World → List String → Node → Node
stop_each_listener w [] n = n
stop_each_listener w (source_id ∷ ids) n =
    stop_each_listener w ids (stop_listener_and_report w source_id n)

-- At the end the provider drops every callback.
unfoldable pub stop_all_source_event_listener : World → Action (Unit {0})
unfolding stop_each_listener
stop_all_source_event_listener w n =
    (ok tt, record (stop_each_listener w (Maps.keys n.source_listening) n) { subscriptions = [] })
