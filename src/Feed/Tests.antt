-- ===== src/Feed/Tests.antt =====
-- Requests for a feed.
use chainlink_eth_secret_net.Base.{[], ◌∷◌, none, some, true, false, ◌≡◌, ◌⊎◌, refl}
use chainlink_eth_secret_net.Data.Channels.{source_config, topic_beq}
use chainlink_eth_secret_net.Data.Records.{FeedConfig}
use chainlink_eth_secret_net.Eth.Samples.{source}
use chainlink_eth_secret_net.Http.{Failing}
use chainlink_eth_secret_net.Feed.{
  FeedCast, FeedWorld, FeedNode, write_feed_to_stream, load_feed_from_table, cast_feed_config,
  cast_and_answer, create_or_resume, create_feed, add_feed_price, http_ok,
}
use chainlink_eth_secret_net.Feed.Answers.{IsAnswered, add_feed_price-IsAnswered}
use chainlink_eth_secret_net.Feed.Merging.{
  merge_source_to_feed_config, merge_source_to_feed_config-sent,
}

abbrev pub feed : FeedConfig
feed = record {
  id = "ethusd";
  version = none;
  name = "ETH/USD";
  description = none;
  creator = "relay";
  date_created = some "2022-01-01T00:00:00.000Z";
  date_updated = some "2022-01-01T00:00:00.000Z";
  config_data = record { type = "price"; quote = some "ETH"; base = some "USD" };
  source = source;
  target = none;
}

abbrev error : Failing
error = record { name = "Error"; message = "failed"; stack = "" }

abbrev pub empty : FeedWorld
empty = record {
  accepts = λ c r. true;
  feed_table = λ c k. some none;
  now = λ c. 1000;
  iso_now = λ c. "2022-01-01T00:00:00.000Z";
  parse_date = λ d. some 1000;
  valid_feed = λ f. true;
  error_ext_mode = some "standard";
  trace = λ m. m;
  wording = λ e. error;
  refusal = error;
}

abbrev stored : FeedWorld
stored = record empty { feed_table = λ c k. some (some feed) }

abbrev pub fresh : FeedNode
fresh = record { sent = []; calls = 0 }

add_feed_price-IsAnswered_example :
    (empty.valid_feed feed ≡ true)
    × IsAnswered empty feed
        (record { status = http_ok; data_feed = some feed })
        fresh
        (add_feed_price empty feed fresh).1
unfolding add_feed_price create_feed load_feed_from_table create_or_resume cast_and_answer
    cast_feed_config write_feed_to_stream
add_feed_price-IsAnswered_example =
    add_feed_price-IsAnswered empty feed fresh (record { status = http_ok; data_feed = some feed })
      refl

merge_source_to_feed_config-sent_example :
    let n' = (merge_source_to_feed_config stored (some "ethusd") source fresh).1 in
    (n'.sent ≡ [])
    ⊎ ((c : FeedCast) × (n'.sent ≡ c ∷ []) × (topic_beq c.topic source_config ≡ false))
merge_source_to_feed_config-sent_example =
    merge_source_to_feed_config-sent stored (some "ethusd") source fresh
