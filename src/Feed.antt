-- ===== src/Feed.antt =====
-- The handler of feed requests: loadFeedFromTable, castFeedConfig and createFeed of feed-handler/src/feed-handler.service.ts, and addFeedPrice of
-- feed-handler/src/feed-handler.controller.ts.
pub mod Answers
pub mod Merging
pub mod Table
pub mod Startup
pub mod Statistics
mod Tests
use chainlink_eth_secret_net.Base.{
  ℕ, suc, ◌+◌, ◌*◌, String, List, ◌∷◌, Option, none, some, Bool, true, false, not, ◌&&◌, ◌||◌, ltb,
  is, if◌then◌else◌,
}
use chainlink_eth_secret_net.Data.SourceEnums.{SourceStatus, source_status_eq}
use chainlink_eth_secret_net.Data.Channels.{
  Topic, feed_config, source_config, error_feed, ErrorType, source_config_merge_fail,
}
use chainlink_eth_secret_net.Data.Records.{FeedConfig, FeedConfigSource, FeedConfigTarget}
use chainlink_eth_secret_net.Http.{Failing, HttpException, client_error, server_error}

-- The errors of the handler; `rejected` is one of a library.
pub data FeedFailure : Type 0 where
  rejected write_failed no_feed no_feed_key : FeedFailure
  table_failed cast_failed merge_cast_failed merge_failed creation_failed :
      FeedFailure → FeedFailure

pub data FeedPayload : Type 0 where
  of_feed : FeedConfig → FeedPayload
  of_source : FeedConfigSource → FeedPayload
  of_error : ErrorType → FeedFailure → FeedPayload

pub record FeedCast : Type 0 where
  pub topic : Topic
  pub key : String
  pub value : FeedPayload

-- What the handler asks of others. Times are in milliseconds; `parse_date` is `Date.parse`, where `none`
-- is not-a-number. `wording` gives the error that is thrown.
pub record FeedWorld : Type 0 where
  pub accepts : ℕ → FeedCast → Bool
  pub feed_table : ℕ → String → Option (Option FeedConfig)
  pub now : ℕ → ℕ
  pub iso_now : ℕ → String
  pub parse_date : String → Option ℕ
  pub valid_feed : FeedConfig → Bool
  pub error_ext_mode : Option String
  pub trace : String → String
  pub wording : FeedFailure → Failing
  pub refusal : Failing

-- The records written, newest first, and the number of calls of other systems.
pub record FeedNode : Type 0 where
  pub sent : List FeedCast
  pub calls : ℕ

pub data Settled (E A : Type 0) : Type 0 where
  fulfilled : A → Settled E A
  failed : E → Settled E A

abbrev called : FeedNode → FeedNode
called n = record n { calls = suc n.calls }

-- KafkaUtils.writeToStream
unfoldable pub write_feed_to_stream :
    FeedWorld → FeedCast → FeedNode → Settled FeedFailure (Unit {0}) × FeedNode
write_feed_to_stream w c n =
    if w.accepts n.calls c
    then (fulfilled tt, record (called n) { sent = c ∷ n.sent })
    else (failed write_failed, called n)

-- `none` is `undefined`: no such feed.
unfoldable pub load_feed_from_table :
    FeedWorld → String → FeedNode → Settled FeedFailure (Option FeedConfig) × FeedNode
load_feed_from_table w key_id n = (
  elim (w.feed_table n.calls key_id) [
    | none ↦ failed (table_failed rejected)
    | some found ↦ fulfilled found
  ],
  called n,
)

-- `Promise.all` on two writes that are both under way.
abbrev both :
    Settled FeedFailure (Unit {0}) → Settled FeedFailure (Unit {0}) → Settled FeedFailure (Unit {0})
both (failed e) _ = failed e
both (fulfilled _) r = r

abbrev or_cast_failed : Settled FeedFailure (Unit {0}) → Settled FeedFailure (Unit {0})
or_cast_failed (failed e) = failed (cast_failed e)
or_cast_failed (fulfilled u) = fulfilled u

-- The second write starts whether or not the first one fails.
unfoldable pub cast_feed_config :
    FeedWorld → FeedConfig → Bool → FeedNode → Settled FeedFailure (Unit {0}) × FeedNode
unfolding write_feed_to_stream
cast_feed_config w config cast_source n =
    let (r, n') =
      write_feed_to_stream w
        (record { topic = feed_config; key = config.id; value = FeedPayload.of_feed config }) n in
    let (r', n'') =
      write_feed_to_stream w
        (record {
          topic = source_config;
          key = config.id;
          value = FeedPayload.of_source (config.source);
        })
        n' in
    if cast_source then (or_cast_failed (both r r'), n'') else (or_cast_failed r, n')

-- A record with the status of the answer and, where there is one, the feed.
pub record RelayActionResult : Type 0 where
  pub status : ℕ
  pub data_feed : Option FeedConfig

abbrev http_ok : ℕ
http_ok = 200

abbrev http_not_acceptable : ℕ
http_not_acceptable = 406

abbrev http_bad_request : ℕ
http_bad_request = 400

abbrev http_internal_server_error : ℕ
http_internal_server_error = 500

-- `3 * 60 * 1000`
abbrev pub halt_ms : ℕ
halt_ms = 3 * 60 * 1000

abbrev target_status : Option FeedConfigTarget → Option SourceStatus
target_status none = none
target_status (some t) = t.status

-- `Date.now() - Date.parse(date) > 3 * 60 * 1000`; a comparison with not-a-number is false.
abbrev is_old : ℕ → Option ℕ → Bool
is_old now none = false
is_old now (some t) = ltb (t + halt_ms) now

abbrev parsed : FeedWorld → Option String → Option ℕ
parsed w none = none
parsed w (some date) = w.parse_date date

-- The feed has not been updated for a while, and its source or its target is not ready.
pub is_halted : FeedWorld → ℕ → FeedConfig → Bool
is_halted w now feed =
    is_old now (parsed w feed.date_updated)
    && (not (is feed.source.status SourceStatus.ok)
        || not (is (target_status feed.target) SourceStatus.ok))

cast_and_answer :
    FeedWorld → FeedConfig → FeedNode → Settled FeedFailure RelayActionResult × FeedNode
unfolding cast_feed_config
cast_and_answer w config n =
    let (r, n') = cast_feed_config w config true n in
    (
      elim r [
        | fulfilled _ ↦ fulfilled (record { status = http_ok; data_feed = some config })
        | failed e ↦ failed (creation_failed e)
      ],
      n',
    )

create_or_resume :
    FeedWorld
    → FeedConfig
    → Option FeedConfig
    → FeedNode
    → Settled FeedFailure RelayActionResult × FeedNode
unfolding cast_and_answer is_halted
create_or_resume w config none n =
    let date_now = w.iso_now n.calls in
    cast_and_answer w (record config { date_created = some date_now; date_updated = some date_now })
      (called n)
create_or_resume w config (some known) n =
    if is_halted w (w.now n.calls) known
    then cast_and_answer w (record config { date_updated = some (w.iso_now (suc n.calls)) })
        (called (called n))
    else (fulfilled (record { status = http_not_acceptable; data_feed = none }), called n)

pub create_feed :
    FeedWorld → FeedConfig → FeedNode → Settled FeedFailure RelayActionResult × FeedNode
unfolding load_feed_from_table create_or_resume
create_feed w config n =
    let (r, n') = load_feed_from_table w config.id n in
    elim r [
      | failed e ↦ (failed (creation_failed e), n')
      | fulfilled known ↦ create_or_resume w config known n'
    ]

pub add_feed_price :
    FeedWorld
    → FeedConfig
    → FeedNode
    → Settled (HttpException FeedConfig) RelayActionResult × FeedNode
unfolding create_feed
add_feed_price w config n =
    let (r, n') = create_feed w config n in
    if w.valid_feed config
    then (
      elim r [
        | fulfilled result ↦ fulfilled result
        | failed e ↦ failed (
            server_error w.trace w.error_ext_mode http_internal_server_error (some config)
              (some (w.wording e)))
      ],
      n',
    )
    else (
      failed
          (client_error w.trace w.error_ext_mode http_bad_request (some config) (some w.refusal)),
      n,
    )
