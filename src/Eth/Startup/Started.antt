-- ===== src/Eth/Startup/Started.antt =====
-- A start that comes as far as the streams.
use chainlink_eth_secret_net.Base.{
  ℕ, suc, String, List, ◌∷◌, Option, some, true, false, ◌≡◌, ap, ◌∙◌, ◌⊎◌, inl, inr, refl,
  string_eq,
}
use chainlink_eth_secret_net.Config.Service.{RelaydConfigService}
use chainlink_eth_secret_net.Kafka.{create_topics}
use chainlink_eth_secret_net.Rpc.{RpcNode}
use chainlink_eth_secret_net.Eth.World.{World, Failure, within, streams_corrupted}
use chainlink_eth_secret_net.Eth.Action.{ok}
use chainlink_eth_secret_net.Eth.Reach.{started}
use chainlink_eth_secret_net.Eth.Network.{refresh_network_provider_info}
use chainlink_eth_secret_net.Eth.Startup.{
  EthConnectService, Launch, launch, launch_on, on_node, eth_topics, blank, leave_streams,
  provider_call, service_id_of, init_provider, log_provider_connection, make_streams, ◌>>◌, init,
  on_module_init, shut_on_error,
}
use chainlink_eth_secret_net.Eth.Startup.Steps.{
  bind-ok, refreshed, provided, asked, log_provider_connection-asked,
}
use chainlink_eth_secret_net.Eth.Startup.Streams.{leave_streams-IsLeft}

-- The service when its streams are left to start.
abbrev launched : World → Launch → String → EthConnectService → EthConnectService
launched w l name s = record s {
  node = record s.node {
    service_id = service_id_of l name (w.runtime.now (suc s.node.calls));
    network = some name;
    calls = suc (suc s.node.calls);
  };
  topics = create_topics l.admin eth_topics;
  stream_factory = true;
}

make_streams_lem :
    (l : Launch) (s : EthConnectService)
    → l.makes_streams ≡ true
    → make_streams l s ≡ (ok tt, record s { stream_factory = true })
unfolding make_streams
make_streams_lem l s made = rw made refl

launch-launched :
    (w : World) (c : RelaydConfigService) (l : Launch) (name : String) (s : EthConnectService)
    → l.makes_streams ≡ true
    → w.chain.network_name s.node.calls ≡ some name
    → launch w c l s ≡ leave_streams c l (launched w l name s)
unfolding launch
launch-launched w c l name s made known =
    let t : EthConnectService = record (launched w l name s) {
      stream_factory = s.stream_factory;
    } in
    bind-ok (on_node (refresh_network_provider_info w)) (launch_on w c l) s _ name
      (refreshed w name s known)
    ∙ bind-ok (make_streams l) (λ _. leave_streams c l) t (launched w l name s) tt
        (make_streams_lem l t made)

init-launched :
    (w : World) (c : RelaydConfigService) (l : Launch) (filters : RpcNode) (name : String)
    → l.makes_provider (provider_call c) ≡ true
    → l.makes_streams ≡ true
    → w.chain.network_name 1 ≡ some name
    → (network : Option String) × (unhandled : List Failure) × (init w c l (blank filters)
        ≡ leave_streams c l (launched w l name (asked network unhandled (provided c filters))))
unfolding init init_provider asked
init-launched w c l filters name provides made known =
    let s = provided c filters in
    let (network, unhandled, e) = log_provider_connection-asked w s in
    (
      network,
      unhandled,
      bind-ok (init_provider c l) (λ _. log_provider_connection w >> launch w c l) (blank filters) s
            tt (rw provides refl)
          ∙ bind-ok (log_provider_connection w) (λ _. launch w c l) s (asked network unhandled s) tt
              e
          ∙ launch-launched w c l name (asked network unhandled s) made known,
    )

on_module_init-launched :
    (w : World) (c : RelaydConfigService) (l : Launch) (s t : EthConnectService)
    → init w c l s ≡ leave_streams c l t
    → on_module_init w c l s ≡ (leave_streams c l t).1
unfolding on_module_init
on_module_init-launched w c l s t ran = ap (shut_on_error w l) ran

-- Where a provider is made for the configuration, the network answers the second time it is asked, and
-- the factory of the streams is made, the start leaves an instance that tracks nothing, with an
-- identifier made of the name of the network and the time, and its filters are not shut down; this is so
-- whether or not the stream that merges the polling records starts: if it does not, all that is left of
-- the error is a rejection that no code catches.
pub on_module_init-started :
    (w : World) (c : RelaydConfigService) (l : Launch) (filters : RpcNode) (name : String)
    → l.makes_provider (provider_call c) ≡ true
    → l.makes_streams ≡ true
    → w.chain.network_name 1 ≡ some name
    → let s = on_module_init w c l (blank filters) in
      ((calls : ℕ) × (s.node ≡ started (service_id_of l name (w.runtime.now 2)) (some name) calls))
      × (s.filters ≡ filters)
      × (((s.source_table ≡ true) × (s.merging ≡ true))
          ⊎ ((e : Failure) × (before : List Failure) × (s.merging ≡ false)
              × (s.unhandled ≡ within streams_corrupted e ∷ before)))
unfolding asked
on_module_init-started w c l filters name provides made known =
    let (network, unhandled, ran) = init-launched w c l filters name provides made known in
    let t = launched w l name (asked network unhandled (provided c filters)) in
    let h = leave_streams-IsLeft c l t in
    rw (on_module_init-launched w c l (blank filters) t ran) (
      h.0,
      h.1,
      elim h.2 [ inl up ↦ inl up | inr (e, merging, left) ↦ inr (e, t.unhandled, merging, left) ],
    )
