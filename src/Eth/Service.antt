-- ===== src/Eth/Service.antt =====
-- The handling of a source: initiateSourceDataPolling, handleSourceContract, getSourceFromTable and
-- the merging of a polling record of mergeSourcePollingToConfig, of
-- eth-client/src/eth-connect.service.ts.
pub mod Leaks
pub mod Orphans
pub mod Unnamed
pub mod Merges
pub mod Tracking
pub mod Heard
pub mod Invariants
mod Tests
use chainlink_eth_secret_net.Base.{
  ℕ, suc, String, List, Option, none, some, Bool, true, false, not, ◌||◌, ltb, is, ◌==◌, string_eq,
  if◌then◌else◌,
}
use chainlink_eth_secret_net.Data.SourceEnums.{
  SourceStatus, ini, SourceCastReason, handling_validation_partial, handling_success,
  remove_listen_event,
}
use chainlink_eth_secret_net.Data.SourceEnums
use chainlink_eth_secret_net.Data.FeedEnums.{
  FeedSourceType, cl_aggr_prox, cl_aggr, FeedSourcePoll, event, timeperiod, feed_source_type_eq,
}
use chainlink_eth_secret_net.Data.Channels.{
  source_config, error_source, source_polling_handle_fail, source_config_merge_fail,
}
use chainlink_eth_secret_net.Data.Records.{
  FeedSourceData, FeedConfigSource, FeedSourceConfigWrap, FeedSourceHandle, SourcePollingInfo,
}
use chainlink_eth_secret_net.Eth.World.{
  World, Note, Failure, within, invalid_period, unknown_polling, unsupported_status, no_source,
  no_source_key, invalid_table_entry, initiate_periodic, initiate_listener, load_proxy,
  source_validation, polling_handling, initiate_polling, source_from_table, review_handling,
  cast_merged, merge_polling, listener_failed, handling_updated, invalid_data,
}
use chainlink_eth_secret_net.Eth.Action.{
  Action, Node, Contract, Outcome, ok, err, ask, rethrow, attempt, guard, pure, throw, ◌>>=◌, ◌>>◌,
}
use chainlink_eth_secret_net.Eth.Issues.{issue_source_processing_note}
use chainlink_eth_secret_net.Eth.Handles.{review_source_handling, check_if_data_polling_required}
use chainlink_eth_secret_net.Eth.Casting.{
  cast_source_config, cast_error_source_config, cast_error, and_forget,
}
use chainlink_eth_secret_net.Eth.Polling.{
  start_polling_data, track_source_polling, listen_to_contract_event, track_source_event_listener,
  stop_source_event_listener,
}
use chainlink_eth_secret_net.Eth.Contracts.{
  init_contract_cl_aggregator, load_cl_proxy_contract_aggregator, load_contract_decimals,
}
use chainlink_eth_secret_net.Eth.Validation.{event_name, assign, validate_source_contract}

abbrev pub is_positive_period : Option ℕ → Bool
is_positive_period none = false
is_positive_period (some period) = ltb 0 period

-- The timer starts before the source is tracked.
unfoldable pub initiate_periodic_polling : World → FeedConfigSource → String → Action (Option ℕ)
initiate_periodic_polling w source feed_id = do
  guard (is_positive_period source.period) invalid_period
  contract ← init_contract_cl_aggregator source.contract source.type
  rethrow initiate_periodic (do
    contract_decimals ← load_contract_decimals w contract
    polling_timeout ← start_polling_data feed_id source contract contract_decimals
    track_source_polling w source.contract polling_timeout
    pure (some polling_timeout))

-- `.catch(error => { this.stopSourceEventListener(…); throw … })`: the stop is not waited for, and
-- its own error is lost.
unfoldable pub listener_cleanup :
    World → FeedConfigSource → Outcome (Unit {0}) × Node → Outcome (Unit {0}) × Node
listener_cleanup w source (ok u, n) = (ok u, n)
listener_cleanup w source (err e, n) = (
  err (within initiate_listener e),
  (stop_source_event_listener w source.contract remove_listen_event (some listener_failed) n).1,
)

unfoldable pub with_cleanup : World → FeedConfigSource → Action (Unit {0}) → Action (Unit {0})
unfolding listener_cleanup
with_cleanup w source m n = listener_cleanup w source (m n)

unfoldable pub initiate_event_listener : World → FeedConfigSource → String → Action (Option ℕ)
unfolding with_cleanup
initiate_event_listener w source feed_id = do
  tmp_contract ← init_contract_cl_aggregator source.contract source.type
  source_contract ←
      (if is source.type cl_aggr_prox
        then rethrow load_proxy (load_cl_proxy_contract_aggregator w tmp_contract)
        else pure tmp_contract)
  with_cleanup w source (do
    contract_decimals ← load_contract_decimals w source_contract
    listened ←
        listen_to_contract_event feed_id source.contract source_contract (event_name source)
          contract_decimals
    track_source_event_listener w source.contract listened)
  pure none

unfoldable pub initiate_source_data_polling : World → FeedConfigSource → String → Action (Option ℕ)
unfolding initiate_periodic_polling initiate_event_listener
initiate_source_data_polling w source feed_id = elim source.poll [
  | none ↦ throw unknown_polling
  | some poll ↦ elim poll [
    | timeperiod ↦ initiate_periodic_polling w source feed_id
    | event ↦ initiate_event_listener w source feed_id
  ]
]

-- The validated data, put into the source or over what it has.
abbrev pub merged_data : FeedConfigSource → FeedSourceData → FeedSourceData
merged_data source result = elim source.source_data [ none ↦ result | some d ↦ assign d result ]

pub validated_source : World → String → FeedConfigSource → FeedSourceData → FeedConfigSource
validated_source w service_id source result =
    if w.validator.valid_data result
    then record source {
      status = some SourceStatus.ok;
      source_data = some (merged_data source result);
    }
    else (issue_source_processing_note w.settings service_id
        (record source { status = some SourceStatus.partial }) handling_validation_partial
        (some (w.runtime.words invalid_data))).0

handle_new_source : World → FeedConfigSource → Action (Option FeedConfigSource)
unfolding validated_source
handle_new_source w source = rethrow source_validation (do
  result ← validate_source_contract w source
  (λ n. (ok (some (validated_source w n.service_id source result)), n)))

-- A failure to start a polling is reported by the source, and no error for the caller.
start_ready_source : World → FeedConfigSource → String → Action (Option FeedConfigSource)
unfolding initiate_source_data_polling
start_ready_source w source feed_id = do
  result ← attempt initiate_polling (initiate_source_data_polling w source feed_id)
  (elim result [
    | ok _ ↦ pure none
    | err e ↦ (do
      and_forget (
          cast_error_source_config w source_polling_handle_fail source feed_id
            (within polling_handling e))
      pure none)
  ])

handle_ready_source : World → FeedConfigSource → String → Action (Option FeedConfigSource)
unfolding start_ready_source
handle_ready_source w source feed_id n =
    elim (check_if_data_polling_required w.settings n.service_id source) [
      | err e ↦ (err e, n)
      | ok none ↦ (ok none, n)
      | ok (some _) ↦ start_ready_source w source feed_id n
    ]

-- `deepCopyJson`
unfoldable pub deep_copy_json : World → FeedConfigSource → FeedConfigSource
deep_copy_json w source = w.runtime.json_copy source

unfoldable pub handle_copy : World → FeedConfigSource → String → Action (Option FeedConfigSource)
unfolding handle_new_source handle_ready_source
handle_copy w source feed_id = elim source.status [
  | none ↦ throw unsupported_status
  | some status ↦ elim status [
    | SourceStatus.ini ↦ handle_new_source w source
    | SourceStatus.ok ↦ handle_ready_source w source feed_id
    | SourceStatus.partial ↦ throw unsupported_status
    | SourceStatus.fail ↦ throw unsupported_status
  ]
]

-- The source is copied first. `none` is `undefined`: no further handling is required.
unfoldable pub handle_source_contract :
    World → FeedConfigSource → String → Action (Option FeedConfigSource)
unfolding handle_copy deep_copy_json
handle_source_contract w source = handle_copy w (deep_copy_json w source)

-- An entry with no feed or no source is an error.
read_entry : Option FeedSourceConfigWrap → Action (Option (String × FeedConfigSource))
read_entry none = pure none
read_entry (some wrap) =
    if wrap.feed_id == "" then throw invalid_table_entry else elim wrap.source [
      | none ↦ throw invalid_table_entry
      | some source ↦ pure (some (wrap.feed_id, source))
    ]

-- `none` is `undefined`: the table has no such source.
pub get_source_from_table : World → String → Action (Option (String × FeedConfigSource))
unfolding read_entry
get_source_from_table w key_id =
    rethrow source_from_table
      (do entry ← ask (λ c. w.broker.source_table c key_id); read_entry entry)

reviewed : World → String → FeedConfigSource → SourcePollingInfo → Action (List FeedSourceHandle)
reviewed w time source source_polling_info n =
    (review_source_handling w.settings time source.handle source_polling_info, n)

merge_entry : World → SourcePollingInfo → Option (String × FeedConfigSource) → Action (Unit {0})
unfolding reviewed
merge_entry w source_polling_info none = throw no_source
merge_entry w source_polling_info (some (feed_id, source)) = do
  time ← ask (λ c. some (w.runtime.iso_now c))
  handle ← rethrow review_handling (reviewed w time source source_polling_info)
  rethrow cast_merged (
      and_forget (
        cast_source_config w source_config feed_id (record source { handle = some handle })
          handling_success (some handling_updated)))

merge_into_source : World → String → SourcePollingInfo → Action (Unit {0})
unfolding get_source_from_table merge_entry
merge_into_source w source_id source_polling_info = do
  entry ← get_source_from_table w source_id
  merge_entry w source_polling_info entry

report_merge : World → String → Outcome (Unit {0}) → Action (Unit {0})
report_merge w source_id (ok _) = pure tt
report_merge w source_id (err e) = cast_error w error_source source_config_merge_fail source_id e

-- The callback of the stream on polling records; an error is reported on the topic for errors.
pub merge_source_polling_to_config : World → Option String → SourcePollingInfo → Action (Unit {0})
unfolding merge_into_source report_merge
merge_source_polling_to_config w none info = throw no_source_key
merge_source_polling_to_config w (some source_id) info = do
  result ← attempt merge_polling (merge_into_source w source_id info)
  report_merge w source_id result
