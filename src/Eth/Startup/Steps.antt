-- ===== src/Eth/Startup/Steps.antt =====
-- The steps of a start, one after the other, and what each leaves.
use chainlink_eth_secret_net.Base.{
  suc, String, List, ◌∷◌, Option, none, some, ◌≡◌, ap, inl, inr, refl, Option-cases, string_eq,
}
use chainlink_eth_secret_net.Config.Service.{RelaydConfigService}
use chainlink_eth_secret_net.Rpc.{RpcNode}
use chainlink_eth_secret_net.Eth.World.{World, Failure, rejected, within, load_network}
use chainlink_eth_secret_net.Eth.Action.{ok, err}
use chainlink_eth_secret_net.Eth.Network.{load_network_provider_info, refresh_network_provider_info}
use chainlink_eth_secret_net.Eth.Startup.{
  EthConnectService, on_node, ◌>>=◌, Starting, blank, provider_call, log_provider_connection,
}

pub bind-ok :
    {A B : Type 0} (m : Starting A) (f : A → Starting B) (s s' : EthConnectService) (a : A)
    → m s ≡ (ok a, s')
    → (m >>= f) s ≡ f a s'
bind-ok {B = B} m f s s' a e = ap (λ r. elim r.0 [ ok a ↦ f a r.1 | err e ↦ (err e, r.1) ]) e

pub bind-err :
    {A B : Type 0} (m : Starting A) (f : A → Starting B) (s s' : EthConnectService) (e : Failure)
    → m s ≡ (err e, s')
    → (m >>= f) s ≡ (err e, s')
bind-err {B = B} m f s s' e failed =
    ap (λ r. elim r.0 [ ok a ↦ f a r.1 | err e ↦ (err e, r.1) ]) failed

pub refreshed :
    (w : World) (name : String) (s : EthConnectService)
    → w.chain.network_name s.node.calls ≡ some name
    → on_node (refresh_network_provider_info w) s ≡ (
      ok name,
      record s { node = record s.node { network = some name; calls = suc s.node.calls } },
    )
unfolding load_network_provider_info
refreshed w name s known = rw known refl

pub unanswered :
    (w : World) (s : EthConnectService)
    → w.chain.network_name s.node.calls ≡ none
    → on_node (refresh_network_provider_info w) s ≡ (
      err (within load_network rejected),
      record s { node = record s.node { calls = suc s.node.calls } },
    )
unfolding load_network_provider_info
unanswered w s unknown = rw unknown refl

abbrev pub provided : RelaydConfigService → RpcNode → EthConnectService
provided c filters = record (blank filters) { provider = some (provider_call c) }

-- The load that only logs leaves a network, or a rejection.
unfoldable pub asked : Option String → List Failure → EthConnectService → EthConnectService
asked network unhandled s = record s {
  node = record s.node { network = network; calls = suc s.node.calls };
  unhandled = unhandled;
}

pub log_provider_connection-asked :
    (w : World) (s : EthConnectService)
    → (network : Option String) × (unhandled : List Failure) × (log_provider_connection w s
        ≡ (ok tt, asked network unhandled s))
unfolding log_provider_connection load_network_provider_info asked
log_provider_connection-asked w s = elim (Option-cases (w.chain.network_name s.node.calls)) [
  | inl e ↦ (s.node.network, within load_network rejected ∷ s.unhandled, rw e refl)
  | inr (name, e) ↦ (some name, s.unhandled, rw e refl)
]
