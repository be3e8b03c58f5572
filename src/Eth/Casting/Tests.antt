-- ===== src/Eth/Casting/Tests.antt =====
-- A record that is written.
use chainlink_eth_secret_net.Base.{none}
use chainlink_eth_secret_net.Data.SourceEnums.{handling_success}
use chainlink_eth_secret_net.Data.Channels.{source_config}
use chainlink_eth_secret_net.Eth.World.{Payload}
use chainlink_eth_secret_net.Eth.Samples.{world, source, node}
use chainlink_eth_secret_net.Eth.Casting.{cast_source_config}
use chainlink_eth_secret_net.Eth.Casting.Written.{Wrote, cast_source_config-Wrote}

cast_source_config-Wrote_example :
    let (source', r, n') =
      cast_source_config world source_config "ethusd" source handling_success none (node 0) in
    Wrote r
      (record { topic = source_config; key = "ethusd"; value = Payload.config source' })
      (node 0)
      n'
cast_source_config-Wrote_example =
    cast_source_config-Wrote world source_config "ethusd" source handling_success none (node 0)
