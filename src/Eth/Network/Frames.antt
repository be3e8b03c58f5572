-- ===== src/Eth/Network/Frames.antt =====
-- The reading of the network changes nothing that an instance tracks.
use chainlink_eth_secret_net.Base.{String, Option, some, inl, inr, Option-cases}
use chainlink_eth_secret_net.Data.FeedEnums.{FeedSourceNetwork}
use chainlink_eth_secret_net.Eth.World.{World}
use chainlink_eth_secret_net.Eth.Action.Keeping.{Preserves, Preserves-bind}
use chainlink_eth_secret_net.Eth.Action.{Node, modify, pure, ◌>>=◌, ◌>>◌}
use chainlink_eth_secret_net.Eth.Frames.{Frames, frame_rules}
use chainlink_eth_secret_net.Eth.Network.{
  load_network_provider_info, get_network_provider_info, check_network_match,
}

load_network_provider_info-Preserves :
    {P : Node → Type 0} (f : Frames P) (w : World) → Preserves P (load_network_provider_info w)
unfolding load_network_provider_info
load_network_provider_info-Preserves f w = search frame_rules

kept-Preserves :
    {P : Node → Type 0} (f : Frames P) (name : String)
    → Preserves P (modify (λ m. record m { network = some name }) >> pure name)
kept-Preserves f name = record { at = λ n. f.connected (some name) n }

load_and_keep-Preserves :
    {P : Node → Type 0} (f : Frames P) (w : World)
    → Preserves P (do
      name ← load_network_provider_info w
      modify (λ m. record m { network = some name })
      pure name)
load_and_keep-Preserves f w =
    search (Preserves-bind, load_network_provider_info-Preserves, kept-Preserves)

get_network_provider_info-Preserves :
    {P : Node → Type 0} (f : Frames P) (w : World) → Preserves P (get_network_provider_info w)
unfolding get_network_provider_info
get_network_provider_info-Preserves f w = record {
  at = λ n h. elim (Option-cases n.network) [
    | inr (name, e) ↦ rw (e, get_network_provider_info) h
    | inl e ↦ rw (e, get_network_provider_info) ((load_and_keep-Preserves f w).at n h)
  ];
}

pub check_network_match-Preserves :
    {P : Node → Type 0} (f : Frames P) (w : World) (network : Option FeedSourceNetwork)
    → Preserves P (check_network_match w network)
unfolding check_network_match
check_network_match-Preserves f w network =
    search (frame_rules, get_network_provider_info-Preserves)
