-- ===== src/Feed/Table/Tests.antt =====
-- A table of feeds that keeps its entries in a map.
use chainlink_eth_secret_net.Base.{[], ◌∷◌, none, some, ltb, ◌≡◌, refl, arith, if◌then◌else◌}
use chainlink_eth_secret_net.Base.Maps
use chainlink_eth_secret_net.Base.Maps.{Dict, get-set}
use chainlink_eth_secret_net.Data.FeedEnums.{eth_test_kovan}
use chainlink_eth_secret_net.Data.Records.{FeedConfig, FeedConfigSource}
use chainlink_eth_secret_net.Eth.Samples.{source}
use chainlink_eth_secret_net.Kafka.Streams.{KTable}
use chainlink_eth_secret_net.Feed.{
  FeedWorld, FeedNode, fulfilled, create_feed, load_feed_from_table, create_or_resume,
  cast_and_answer, cast_feed_config, write_feed_to_stream,
}
use chainlink_eth_secret_net.Feed.Answers.{declined, feed_cast}
use chainlink_eth_secret_net.Feed.Merging.{merge_source_to_feed_config}
use chainlink_eth_secret_net.Feed.Tests.{feed, empty, fresh}
use chainlink_eth_secret_net.Feed.Table.{
  feed_table_of, create_feed_twice, merge_source_to_feed_config-tabled,
}

abbrev map_table : KTable FeedConfig
map_table = record {
  Storage = Dict FeedConfig;
  empty = [];
  put = λ k v s. Maps.set k v s;
  get = λ k s. Maps.get k s;
  get-empty = λ k. refl;
  get-put = λ k j v s. get-set j k v s;
}

-- The table has the feed from the second call on.
abbrev filling : FeedWorld
filling = record empty { feed_table = λ c k. some (if ltb c 1 then none else some feed) }

abbrev created : FeedNode
created = (create_feed filling feed fresh).1

create_feed_twice_example :
    ((create_feed filling feed created).0 ≡ fulfilled declined)
    × ((create_feed filling feed created).1.sent ≡ created.sent)
unfolding create_feed load_feed_from_table create_or_resume cast_and_answer cast_feed_config
    write_feed_to_stream feed_table_of
create_feed_twice_example =
    create_feed_twice map_table filling feed feed feed fresh "2022-01-01T00:00:00.000Z" 1000 refl
      refl refl refl refl (omega arith)

-- The table has the feed, whose record is the only one so far.
abbrev announced : FeedNode
announced = record { sent = feed_cast feed ∷ []; calls = 1 }

abbrev moved : FeedConfigSource
moved = record source { network = some eth_test_kovan }

merge_source_to_feed_config-tabled_example :
    Maps.get "ethusd" (
      feed_table_of map_table
        (merge_source_to_feed_config filling (some "ethusd") moved announced).1.sent)
    ≡ some (record feed { source = moved })
unfolding feed_table_of
merge_source_to_feed_config-tabled_example =
    merge_source_to_feed_config-tabled map_table filling "ethusd" moved feed announced refl refl
      (λ c r. refl)
