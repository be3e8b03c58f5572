-- ===== src/Eth/Service/Tests.antt =====
-- The merge of a polling record.
use chainlink_eth_secret_net.Base.{
  List, [], ◌∷◌, Option, none, some, ◌≡◌, refl, ◌==◌, string_eq, if◌then◌else◌,
}
use chainlink_eth_secret_net.Base.Maps
use chainlink_eth_secret_net.Data.SourceEnums.{add_periodic}
use chainlink_eth_secret_net.Data.FeedEnums.{timeperiod}
use chainlink_eth_secret_net.Data.Records.{FeedSourceHandle, ProcessingIssue, SourcePollingInfo}
use chainlink_eth_secret_net.Eth.World.{World}
use chainlink_eth_secret_net.Eth.Action.{Node, ok}
use chainlink_eth_secret_net.Eth.Samples.{world, source, node}
use chainlink_eth_secret_net.Eth.Service.{merge_source_polling_to_config}
use chainlink_eth_secret_net.Eth.Service.Merges.{merge_source_polling_to_config-tabled}
use chainlink_eth_secret_net.Eth.Handles.{review_source_handling}
use chainlink_eth_secret_net.Eth.Table.{tabled}
use chainlink_eth_secret_net.Eth.Table.Tests.{map_table, config_cast}

-- The table holds the source.
abbrev with_table : World
with_table = record world {
  broker = record world.broker {
    source_table = λ c k.
        some
          (if k == "0xA" then some (record { feed_id = "ethusd"; source = some source }) else none);
  };
}

-- An instance after the cast of the source.
abbrev after_cast : Node
after_cast = record (node 0) { sent = config_cast "ethusd" ∷ [] }

abbrev started_polling : SourcePollingInfo
started_polling = record {
  source = "0xA";
  issuer = "eth-client-1";
  change = some add_periodic;
  info = none;
}

abbrev handle : List FeedSourceHandle
handle =
    record { handler = "eth-client-1"; type = timeperiod; time = "2022-01-01T00:00:01.000Z" } ∷ []

merge_source_polling_to_config-tabled_example :
    let (r, n') =
      merge_source_polling_to_config with_table (some "0xA") started_polling after_cast in
    (r ≡ ok tt)
    × ((issue : Option (List ProcessingIssue)) × (Maps.get "0xA" (tabled map_table n'.sent)
          ≡ some (record {
            feed_id = "ethusd";
            source = some (record source { handle = some handle; issue = issue });
          })))
unfolding tabled review_source_handling
merge_source_polling_to_config-tabled_example =
    merge_source_polling_to_config-tabled with_table after_cast "0xA" "ethusd" source
      started_polling handle map_table (λ s. refl) (λ c r. refl) refl refl refl refl
