-- ===== src/Eth/Controller.antt =====
-- handleSourceConfig of eth-client/src/eth-connect.controller.ts: what an instance does with a record
-- on the topic of the source configs.
pub mod Invalid
pub mod Recasts
pub mod Rounds
pub mod Invariants
mod Tests
use chainlink_eth_secret_net.Base.{
  ℕ, suc, ◌+◌, String, List, Option, none, some, Bool, true, false, not, ltb, is, if◌then◌else◌,
}
use chainlink_eth_secret_net.Data.SourceEnums.{
  SourceStatus, fail, source_status_eq, SourceCastReason, handling_success, handling_failed,
  failure_network_not_matching, handling_validation_fail,
}
use chainlink_eth_secret_net.Data.Channels.{
  source_config, ErrorType, source_config_invalid, source_config_network_nosupport,
  source_config_handling_fail, source_config_general_fail,
}
use chainlink_eth_secret_net.Data.Records.{FeedConfigSource}
use chainlink_eth_secret_net.Eth.World.{
  World, Note, of_failure, network_note, handling_note, status_note, Failure, within, invalid_input,
  no_network_support, handling_failed_note, input_validation, cast_network_issue,
}
use chainlink_eth_secret_net.Eth.Action.{
  Action, Node, Outcome, ok, err, pure, throw, rethrown, ◌>>=◌, ◌>>◌,
}
use chainlink_eth_secret_net.Eth.Issues.{count_issue_in_last_row}
use chainlink_eth_secret_net.Eth.Network.{check_network_match}
use chainlink_eth_secret_net.Eth.Casting.{cast_source_config, cast_error_source_config, and_forget}
use chainlink_eth_secret_net.Eth.Service.{handle_source_contract}

abbrev pub failed : FeedConfigSource → FeedConfigSource
failed source = record source { status = some fail }

-- The input is not valid: the failure is cast, and then the error.
refuse_invalid : World → String → FeedConfigSource → Action (Unit {0})
refuse_invalid w feed_id source n =
    let (source', r, n') =
      cast_source_config w source_config feed_id (failed source) handling_validation_fail
        (some (of_failure invalid_input)) n in
    elim r [
      | ok _ ↦
          and_forget
            (cast_error_source_config w source_config_invalid source' feed_id
              (within input_validation invalid_input))
            n'
      | err e ↦ (err e, n')
    ]

-- `if (!keepTrying) castErrorSourceConfig(…)` on the source as the previous cast left it.
abbrev finally_report :
    World
    → Bool
    → ErrorType
    → String
    → Failure
    → FeedConfigSource
    → Node
    → FeedConfigSource × Outcome (Unit {0}) × Node
finally_report w true error_type feed_id e source n = (source, ok tt, n)
finally_report w false error_type feed_id e source n =
    cast_error_source_config w error_type source feed_id e n

-- No support for the network: the source is cast again for another client, up to a number of times.
-- The error report is not waited for.
recast_for_network : World → String → FeedConfigSource → Action (Unit {0})
recast_for_network w feed_id source n =
    let attempts = suc (count_issue_in_last_row source failure_network_not_matching) in
    let keep_trying = ltb attempts w.settings.max_recast_network_source_not_matching in
    let (source', r, n') =
      cast_source_config w source_config feed_id (if keep_trying then source else failed source)
        failure_network_not_matching
        (some (network_note attempts w.settings.max_recast_network_source_not_matching)) n in
    let (source'', reported, n'') =
      finally_report w keep_trying source_config_network_nosupport feed_id no_network_support
        source' n' in
    (rethrown cast_network_issue r, n'')

-- The handling failed: the source is cast again, up to a number of times. A failure of the cast is a
-- value, which comes with the source as it is then, and a failure of the report is thrown.
recast_for_failure :
    World → String → FeedConfigSource → Failure → Action (FeedConfigSource × Outcome (Unit {0}))
recast_for_failure w feed_id source e n =
    let attempts = suc (count_issue_in_last_row source handling_failed) in
    let keep_trying = ltb attempts w.settings.max_recast_source_handling_fail in
    let (source', r, n') =
      cast_source_config w source_config feed_id (if keep_trying then source else failed source)
        handling_failed (some (handling_note attempts w.settings.max_recast_source_handling_fail e))
        n in
    let (source'', reported, n'') =
      finally_report w keep_trying source_config_handling_fail feed_id handling_failed_note source'
        n' in
    (elim reported [ ok _ ↦ ok (source'', r) | err e' ↦ err e' ], n'')

-- `handleSourceContract(…).then(cast)`
handle_and_cast : World → String → FeedConfigSource → Action (Unit {0})
handle_and_cast w feed_id source = do
  config_upd ← handle_source_contract w source feed_id
  (elim config_upd [
    | none ↦ pure tt
    | some upd ↦ and_forget (
        cast_source_config w source_config feed_id upd handling_success
          (some (status_note upd.status)))
  ])

-- `if (contractSourceUpd instanceof Error) castErrorSourceConfig(…)`
general_failure : World → String → FeedConfigSource × Outcome (Unit {0}) → Action (Unit {0})
general_failure w feed_id (source, ok _) = pure tt
general_failure w feed_id (source, err e) =
    and_forget (cast_error_source_config w source_config_general_fail source feed_id e)

handle_compatible : World → String → FeedConfigSource → Action (Unit {0})
unfolding handle_and_cast recast_for_failure general_failure
handle_compatible w feed_id source n =
    let (r, n') = handle_and_cast w feed_id source n in
    elim r [
      | ok _ ↦ (ok tt, n')
      | err e ↦
          (do recast ← recast_for_failure w feed_id source e; general_failure w feed_id recast) n'
    ]

handle_valid : World → String → FeedConfigSource → Action (Unit {0})
unfolding handle_compatible recast_for_network
handle_valid w feed_id source = do
  is_compatible ← check_network_match w source.network
  (if is_compatible
      then handle_compatible w feed_id source
      else recast_for_network w feed_id source)

unfoldable pub handle_source_config : World → String → FeedConfigSource → Action (Unit {0})
unfolding refuse_invalid handle_valid
handle_source_config w feed_id source =
    if is source.status fail
    then pure tt
    else if w.validator.valid_source source
    then handle_valid w feed_id source
    else refuse_invalid w feed_id source
