-- ===== src/Eth/Ticks.antt =====
-- The callback of a polling timer: loadContractData of startPollingData, of
-- eth-client/src/eth-connect.service.ts.
pub mod Errors
pub mod States
pub mod Tracking
pub mod Invariants
mod Tests
use chainlink_eth_secret_net.Base.{
  ℕ, suc, String, List, [], ◌∷◌, Option, none, some, Bool, true, false, zero, leb, ◌==◌, nat_eq,
  if◌then◌else◌,
}
use chainlink_eth_secret_net.Data.SourceEnums.{SourceDataUpdateReason, remove_periodic}
use chainlink_eth_secret_net.Data.FeedEnums.{FeedSourceNotifOn}
use chainlink_eth_secret_net.Data.Channels.{source_polling_handle_fail}
use chainlink_eth_secret_net.Data.Records.{FeedSourceData, FeedConfigSource}
use chainlink_eth_secret_net.Eth.World.{
  World, Failure, within, unsupported_notif, cast_check, cast_change, Step, stop_polling,
  too_many_errors,
}
use chainlink_eth_secret_net.Eth.Action.{
  Action, Node, Interval, Outcome, ok, err, ask, rethrow, rethrown, pure, throw, ◌>>=◌,
}
use chainlink_eth_secret_net.Eth.Casting.{cast_source_data_update, cast_error_source_config}
use chainlink_eth_secret_net.Eth.Contracts.{load_contract_latest_round_data}
use chainlink_eth_secret_net.Eth.Polling.{check_for_source_data_change, stop_source_polling}

-- The timer with a handle, if it is running.
abbrev pub interval_of : ℕ → List Interval → Option Interval
interval_of id [] = none
interval_of id (i ∷ is) = if i.id == id then some i else interval_of id is

-- The variables that the callback of a timer closes over have changed.
abbrev pub put_interval : Interval → List Interval → List Interval
put_interval j [] = []
put_interval j (i ∷ is) = if i.id == j.id then j ∷ put_interval j is else i ∷ put_interval j is

-- The data that was read is cast, always or on a change. `Date.now() / 1000` times 1000 is now.
notify_data : World → Interval → FeedSourceData → Action (Unit {0})
notify_data w i result = elim i.source.notif [
  | none ↦ throw unsupported_notif
  | some notif ↦ elim notif [
    | FeedSourceNotifOn.check ↦ (do
      time ← ask (λ c. some (w.runtime.iso_now c))
      rethrow cast_check (
          cast_source_data_update w i.feed_id i.contract.address (record result { time = time })
            SourceDataUpdateReason.periodic))
    | FeedSourceNotifOn.change ↦ (do
      has_changed ← check_for_source_data_change i.contract.address result
      (if has_changed
          then rethrow cast_change (
              cast_source_data_update w i.feed_id i.contract.address result
                SourceDataUpdateReason.data_change)
          else pure tt))
  ]
]

pub poll_data : World → Interval → Action (Unit {0})
unfolding notify_data
poll_data w i =
    rethrow Step.poll_data
      (load_contract_latest_round_data w i.contract i.decimals true >>= notify_data w i)

-- One error more: the polling stops at the maximum less one. Where the stop fails, the source reports
-- it; a failure of that report is an unhandled rejection, and the source has one issue more.
pub note_polling_error : World → Interval → Failure → Action (Unit {0})
note_polling_error w i e n =
    let j = record i { polling_error_counter = suc i.polling_error_counter } in
    let n1 = record n { intervals = put_interval j n.intervals } in
    let msg = too_many_errors j.polling_error_counter e in
    let (r, n2) = stop_source_polling w i.contract.address remove_periodic (some msg) n1 in
    if leb w.settings.max_successive_error_to_stop_polling (suc j.polling_error_counter)
    then elim r [
      | ok _ ↦ (ok tt, n2)
      | err e' ↦
          let (source', reported, n3) =
            cast_error_source_config w source_polling_handle_fail i.source i.feed_id
              (within stop_polling e') n2 in
          (
            reported,
            record n3 { intervals = put_interval (record j { source = source' }) n3.intervals },
          )
    ]
    else (ok tt, n1)

pub load_contract_data : World → Interval → Action (Unit {0})
unfolding poll_data note_polling_error
load_contract_data w i n =
    let (r, n') = poll_data w i n in
    elim r [ ok _ ↦ (ok tt, n') | err e ↦ note_polling_error w i e n' ]

-- A timer fires: nothing happens if it is no longer running.
pub fire : World → ℕ → Action (Unit {0})
unfolding load_contract_data
fire w id n = elim (interval_of id n.intervals) [
  | none ↦ (ok tt, n)
  | some i ↦ load_contract_data w i n
]

-- A timer fires a number of times.
pub fire_times : World → ℕ → ℕ → Node → Node
unfolding fire
fire_times w id zero n = n
fire_times w id (suc k) n = fire_times w id k (fire w id n).1
