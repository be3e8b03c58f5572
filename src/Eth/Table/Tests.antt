-- ===== src/Eth/Table/Tests.antt =====
-- A table that keeps its entries in a map, and what two feeds on one contract leave in it.
use chainlink_eth_secret_net.Base.{String, [], ◌∷◌, some, ◌≡◌, refl}
use chainlink_eth_secret_net.Base.Maps
use chainlink_eth_secret_net.Base.Maps.{Dict, get-set}
use chainlink_eth_secret_net.Data.Channels.{source_config}
use chainlink_eth_secret_net.Data.Records.{FeedSourceConfigWrap}
use chainlink_eth_secret_net.Eth.World.{Cast, Payload}
use chainlink_eth_secret_net.Kafka.Streams.{KTable}
use chainlink_eth_secret_net.Eth.Samples.{source}
use chainlink_eth_secret_net.Eth.Table.{tabled, get-tabled}

abbrev pub map_table : KTable FeedSourceConfigWrap
map_table = record {
  Storage = Dict FeedSourceConfigWrap;
  empty = [];
  put = λ k v s. Maps.set k v s;
  get = λ k s. Maps.get k s;
  get-empty = λ k. refl;
  get-put = λ k j v s. get-set j k v s;
}

abbrev pub config_cast : String → Cast
config_cast feed = record { topic = source_config; key = feed; value = Payload.config source }

get-tabled_example :
    Maps.get "0xA" (tabled map_table (config_cast "ethusd_2" ∷ config_cast "ethusd" ∷ []))
    ≡ some (record { feed_id = "ethusd_2"; source = some source })
get-tabled_example = get-tabled map_table (config_cast "ethusd_2" ∷ config_cast "ethusd" ∷ []) "0xA"
