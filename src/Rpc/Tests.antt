-- ===== src/Rpc/Tests.antt =====
-- A filter that catches an error, and its shutdown.
use chainlink_eth_secret_net.Base.{[], ◌∷◌, some, true, ◌≡◌}
use chainlink_eth_secret_net.Rpc.{RpcWorld, blank, for_instance, catch_exception, shutdown}
use chainlink_eth_secret_net.Rpc.Connections.{asked, caught, use_each, shutdown-connected}

abbrev world : RpcWorld
world = record { makes_consumer = true; connects = λ p. true; sends = λ p key. true }

shutdown-connected_example :
    (shutdown world (
      use_each world
        (asked (some "FeedHandler") ∷ caught "ethusd" "no table" ∷ [])
        blank)).connected
    ≡ 1 ∷ []
unfolding use_each for_instance catch_exception
shutdown-connected_example =
    shutdown-connected world (asked (some "FeedHandler") ∷ caught "ethusd" "no table" ∷ [])
