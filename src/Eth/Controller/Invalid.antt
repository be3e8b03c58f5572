-- ===== src/Eth/Controller/Invalid.antt =====
-- A record whose source config is not valid.
use chainlink_eth_secret_net.Data.SourceEnums.{source_status_eq}
use chainlink_eth_secret_net.Eth.World.{World}
