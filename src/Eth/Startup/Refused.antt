-- ===== src/Eth/Startup/Refused.antt =====
-- A start that ends before the streams.
use chainlink_eth_secret_net.Base.{
  ℕ, suc, String, List, [], Option, none, some, true, false, ◌≡◌, ap, ◌∙◌, refl, string_eq,
}
use chainlink_eth_secret_net.Config.Service.{RelaydConfigService}
use chainlink_eth_secret_net.Rpc
use chainlink_eth_secret_net.Rpc.{RpcNode}
use chainlink_eth_secret_net.Eth.World.{
  World, Failure, rejected, within, provider_setup, load_network,
}
use chainlink_eth_secret_net.Eth.Action.{err}
use chainlink_eth_secret_net.Eth.Polling.{stop_all_source_polling, stop_all_source_event_listener}
use chainlink_eth_secret_net.Eth.Listening.{shutdown}
use chainlink_eth_secret_net.Eth.Reach.{started}
use chainlink_eth_secret_net.Eth.Network.{refresh_network_provider_info}
use chainlink_eth_secret_net.Eth.Startup.{
  EthConnectService, Launch, launch, launch_on, on_node, blank, provider_call, ProviderCall,
  closing_of, init_provider, log_provider_connection, ◌>>◌, init, on_module_init, shut_on_error,
  on_application_shutdown,
}
use chainlink_eth_secret_net.Eth.Startup.Steps.{
  bind-ok, bind-err, unanswered, provided, asked, log_provider_connection-asked,
}

-- The failures that stop a start before its streams.
pub data IsRefused (w : World) (c : RelaydConfigService) (l : Launch) : Type 0 where
  no_provider : l.makes_provider (provider_call c) ≡ false → IsRefused w c l
  no_network :
      l.makes_provider (provider_call c) ≡ true → w.chain.network_name 1 ≡ none → IsRefused w c l

stopped :
    (w : World) (l : Launch) (s : EthConnectService) (network : Option String) (calls : ℕ)
    → s.node ≡ started "" network calls
    → (on_application_shutdown w l s).node ≡ started "" network (suc (suc calls))
unfolding on_application_shutdown shutdown stop_all_source_polling stop_all_source_event_listener
stopped w l s network calls e = ap (λ n. (shutdown w (closing_of l s) n).1) e

launch-unknown :
    (w : World) (c : RelaydConfigService) (l : Launch) (s : EthConnectService)
    → w.chain.network_name s.node.calls ≡ none
    → launch w c l s ≡ (
      err (within load_network rejected),
      record s { node = record s.node { calls = suc s.node.calls } },
    )
unfolding launch
launch-unknown w c l s unknown =
    bind-err (on_node (refresh_network_provider_info w)) (launch_on w c l) s
      (record s { node = record s.node { calls = suc s.node.calls } })
      (within load_network rejected) (unanswered w s unknown)

init-refused :
    (w : World) (c : RelaydConfigService) (l : Launch) (filters : RpcNode)
    → IsRefused w c l
    → (e : Failure) × (provider : Option ProviderCall) × (network : Option String) × (calls : ℕ)
      × (unhandled : List Failure) × (init w c l (blank filters) ≡ (
        err e,
        record (blank filters) {
          provider = provider;
          node = started "" network calls;
          unhandled = unhandled;
        },
      ))
unfolding init init_provider asked
init-refused w c l filters (no_provider missing) = (
  within provider_setup rejected,
  none,
  none,
  0,
  [],
  bind-err (init_provider c l) (λ _. log_provider_connection w >> launch w c l) (blank filters)
      (blank filters) (within provider_setup rejected) (rw missing refl),
)
init-refused w c l filters (no_network provides unknown) =
    let s = provided c filters in
    let (network, unhandled, e) = log_provider_connection-asked w s in
    (
      within load_network rejected,
      some (provider_call c),
      network,
      2,
      unhandled,
      bind-ok (init_provider c l) (λ _. log_provider_connection w >> launch w c l) (blank filters) s
            tt (rw provides refl)
          ∙ bind-ok (log_provider_connection w) (λ _. launch w c l) s (asked network unhandled s) tt
              e
          ∙ launch-unknown w c l (asked network unhandled s) unknown,
    )

on_module_init-shut :
    (w : World) (c : RelaydConfigService) (l : Launch) (s t : EthConnectService) (e : Failure)
    → init w c l s ≡ (err e, t)
    → on_module_init w c l s ≡ on_application_shutdown w l t
unfolding on_module_init
on_module_init-shut w c l s t e ran = ap (shut_on_error w l) ran

-- Where no provider is made, or the network does not answer the second time it is asked, the start ends
-- with a shutdown: the instance has no identifier, tracks nothing and has written no record, it has
-- no streams and no table, and its filters are shut down.
pub on_module_init-refused :
    (w : World) (c : RelaydConfigService) (l : Launch) (filters : RpcNode)
    → IsRefused w c l
    → let s = on_module_init w c l (blank filters) in
      ((network : Option String) × (calls : ℕ) × (s.node ≡ started "" network calls))
      × ((s.stream_factory ≡ false) × (s.source_table ≡ false) × (s.merging ≡ false))
      × (s.filters ≡ Rpc.shutdown l.rpc filters)
unfolding on_application_shutdown
on_module_init-refused w c l filters refused =
    let (e, provider, network, calls, unhandled, ran) = init-refused w c l filters refused in
    let t : EthConnectService = record (blank filters) {
      provider = provider;
      node = started "" network calls;
      unhandled = unhandled;
    } in
    rw (on_module_init-shut w c l (blank filters) t e ran)
      ((network, suc (suc calls), stopped w l t network calls refl), (refl, refl, refl), refl)
