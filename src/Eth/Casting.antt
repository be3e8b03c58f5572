-- ===== src/Eth/Casting.antt =====
-- The records that the client writes: castSourceConfig, castErrorSourceConfig, castSourcePolling and
-- castSourceDataUpdate of eth-client/src/eth-connect.service.ts, and castError of
-- common/src/kafka/kafka.utils.ts.
pub mod Written
mod Tests
use chainlink_eth_secret_net.Base.{suc, String, ◌∷◌, Option, none, some, Bool, if◌then◌else◌}
use chainlink_eth_secret_net.Data.SourceEnums.{
  SourceCastReason, handling_failed, SourceDataUpdateReason, SourcePollingChange,
}
use chainlink_eth_secret_net.Data.Channels.{Topic, error_source, source_data, ErrorType}
use chainlink_eth_secret_net.Data.Records.{
  Text, FeedSourceData, FeedConfigSource, SourcePollingInfo, FeedSourceDataUpdate,
}
use chainlink_eth_secret_net.Eth.World.{
  World, Cast, Payload, Note, Failure, within, invalid_config, invalid_polling, error_info,
  config_cast, validate_source_config, error_cast, validate_source_polling, polling_cast, data_cast,
}
use chainlink_eth_secret_net.Eth.World
use chainlink_eth_secret_net.Eth.Action.{
  Action, Node, Outcome, ok, err, rethrow, rethrown, guard, write_to_stream, ◌>>=◌, ◌>>◌,
}
use chainlink_eth_secret_net.Eth.Issues.{issue_source_processing_note}

abbrev pub worded : World → Option Note → Option Text
worded w none = none
worded w (some note) = some (w.runtime.words note)

-- The source is noted on even where the validation or the write fails, so it is returned apart.
pub cast_source_config :
    World
    → Topic
    → String
    → FeedConfigSource
    → SourceCastReason
    → Option Note
    → Node
    → FeedConfigSource × Outcome (Unit {0}) × Node
cast_source_config w topic feed_config_id source reason info n =
    let source' =
      (issue_source_processing_note w.settings n.service_id source reason (worded w info)).0 in
    let (r, n') =
      (do
        rethrow validate_source_config (guard (w.validator.valid_source source') invalid_config)
        rethrow config_cast (
            write_to_stream w
              (record { topic = topic; key = feed_config_id; value = Payload.config source' })))
        n in
    (source', r, n')

-- A cast by a caller that does not look at the source again.
abbrev pub and_forget : (Node → FeedConfigSource × Outcome (Unit {0}) × Node) → Action (Unit {0})
and_forget cast n = let (source', r, n') = cast n in (r, n')

-- An error is reported by the source itself, with one more note, on the topic for errors.
pub cast_error_source_config :
    World
    → ErrorType
    → FeedConfigSource
    → String
    → Failure
    → Node
    → FeedConfigSource × Outcome (Unit {0}) × Node
unfolding cast_source_config
cast_error_source_config w error_type source_config feed_id prev_error n =
    let (source', r, n') =
      cast_source_config w error_source feed_id source_config handling_failed
        (some (error_info error_type source_config feed_id prev_error)) n in
    (source', rethrown error_cast r, n')

unfoldable pub cast_source_polling :
    World → Topic → String → SourcePollingChange → Option Note → Action (Unit {0})
cast_source_polling w topic source_id change_type info n =
    let source_polling_update : SourcePollingInfo = record {
      source = source_id;
      issuer = n.service_id;
      change = some change_type;
      info = worded w info;
    } in
    (do
      rethrow validate_source_polling
          (guard (w.validator.valid_polling source_polling_update) invalid_polling)
      rethrow polling_cast (
          write_to_stream w (record {
            topic = topic;
            key = source_id;
            value = Payload.polling source_polling_update;
          })))
      n

pub cast_source_data_update :
    World → String → String → FeedSourceData → SourceDataUpdateReason → Action (Unit {0})
cast_source_data_update w feed_id source_id data_info reason =
    let source_upd : FeedSourceDataUpdate = record {
      feed_id = feed_id;
      source_id = some source_id;
      source = some data_info;
      reason = some reason;
      info = none;
    } in
    rethrow data_cast (
      write_to_stream w
        (record { topic = source_data; key = source_id; value = Payload.update source_upd }))

-- KafkaUtils.castError: a failure to send is only logged.
pub cast_error : World → Topic → ErrorType → String → Failure → Action (Unit {0})
cast_error w error_topic error_type key prev_error n = (
  ok tt,
  (write_to_stream w
      (record { topic = error_topic; key = key; value = Payload.report error_type prev_error })
      n).1,
)
