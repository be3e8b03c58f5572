-- ===== src/Eth/Network.antt =====
-- The network of the provider: getNetworkProviderInfo, loadNetworkProviderInfo and
-- checkNetworkMatch of eth-client/src/eth-connect.service.ts.
pub mod Frames
use chainlink_eth_secret_net.Base.{
  String, Option, none, some, Bool, true, false, ◌≡◌, ◌↔◌, ◌==◌, string_eq, str_eq_iff, refl, sym,
  ◌∙◌,
}
use chainlink_eth_secret_net.Data.FeedEnums.{
  FeedSourceNetwork, eth_main, eth_test_rinkeby, eth_test_kovan,
}
use chainlink_eth_secret_net.Data.Channels.{
  EthersNetwork, homestead, kovan, rinkeby, ethers_network_value,
}
use chainlink_eth_secret_net.Eth.World.{World, load_network}
use chainlink_eth_secret_net.Eth.Action.{
  Action, Node, Outcome, ok, err, ask, rethrow, modify, pure, ◌>>=◌, ◌>>◌,
}

-- The name is all that the client reads of the information about the network.
unfoldable pub load_network_provider_info : World → Action String
load_network_provider_info w = rethrow load_network (ask w.chain.network_name)

-- The information is loaded and kept.
abbrev pub refresh_network_provider_info : World → Action String
refresh_network_provider_info w = do
  name ← load_network_provider_info w
  modify (λ m. record m { network = some name })
  pure name

-- The information is loaded at the first call.
unfoldable pub get_network_provider_info : World → Action String
unfolding load_network_provider_info
get_network_provider_info w n = elim n.network [
  | some name ↦ (ok name, n)
  | none ↦ refresh_network_provider_info w n
]

-- The `switch` on the network of the source; `none` is the default case.
unfoldable pub is_compatible : Option FeedSourceNetwork → String → Bool
is_compatible (some eth_main) client_network = client_network == ethers_network_value homestead
is_compatible (some eth_test_kovan) client_network = client_network == ethers_network_value kovan
is_compatible (some eth_test_rinkeby) client_network =
    client_network == ethers_network_value rinkeby
is_compatible none client_network = false

unfoldable pub check_network_match : World → Option FeedSourceNetwork → Action Bool
unfolding get_network_provider_info is_compatible
check_network_match w source_network = do
  client_network ← get_network_provider_info w
  pure (is_compatible source_network client_network)

-- The network of the Ethereum library that each network of a source stands for.
abbrev pub counterpart : FeedSourceNetwork → EthersNetwork
counterpart eth_main = homestead
counterpart eth_test_rinkeby = rinkeby
counterpart eth_test_kovan = kovan

compatible_some :
    (network : FeedSourceNetwork) (c : String)
    → (c == ethers_network_value (counterpart network)) ≡ is_compatible (some network) c
unfolding is_compatible
compatible_some eth_main c = refl
compatible_some eth_test_rinkeby c = refl
compatible_some eth_test_kovan c = refl

-- A source is compatible with a network of the client exactly when the source has a known network
-- and the client's has the name of its counterpart.
pub is_compatible_iff :
    (source_network : Option FeedSourceNetwork) (client_network : String)
    → (is_compatible source_network client_network ≡ true) ↔ (
        (network : FeedSourceNetwork) × (source_network ≡ some network)
        × (client_network ≡ ethers_network_value (counterpart network)))
unfolding is_compatible
is_compatible_iff none c = (λ e. cc, λ h. cc (h.1))
is_compatible_iff (some network) c = (
  λ e. (network, refl, (str_eq_iff _ _).0 (compatible_some network c ∙ e)),
  λ h. sym (compatible_some network c) ∙ (str_eq_iff _ _).1 (cc (h.1, h.2)),
)

-- Once the network is known, the check asks no one.
pub check_network_match_known :
    (w : World) (source_network : Option FeedSourceNetwork) (n : Node) (name : String)
    → n.network ≡ some name
    → check_network_match w source_network n ≡ (ok (is_compatible source_network name), n)
unfolding check_network_match
check_network_match_known w source_network n name e = rw (e, get_network_provider_info) refl
