-- ===== src/Eth/Startup/Tests.antt =====
-- A start in the default configuration, and one without a provider.
use chainlink_eth_secret_net.Base.{
  ℕ, String, List, ◌∷◌, Option, none, some, true, false, ◌≡◌, ◌⊎◌, refl, string_eq,
}
use chainlink_eth_secret_net.Config.Service.{RelaydConfigService, new}
use chainlink_eth_secret_net.Rpc
use chainlink_eth_secret_net.Rpc.{RpcNode}
use chainlink_eth_secret_net.Eth.World.{Failure, within, streams_corrupted}
use chainlink_eth_secret_net.Eth.Samples.{world}
use chainlink_eth_secret_net.Eth.Reach.{started}
use chainlink_eth_secret_net.Eth.Startup.{Launch, blank, service_id_of, on_module_init}
use chainlink_eth_secret_net.Eth.Startup.Started.{on_module_init-started}
use chainlink_eth_secret_net.Eth.Startup.Refused.{no_provider, on_module_init-refused}

-- Nothing is set in the environment.
abbrev config : RelaydConfigService
config = new (record { get_number = λ k d. d; get_boolean = λ k d. d; get_string = λ k d. d })

-- The table does not start.
abbrev launch : Launch
launch = record {
  makes_provider = λ call. true;
  makes_streams = true;
  admin = record { list_topics = none; create = λ topics. none };
  logging = λ k. some tt;
  table = λ k. none;
  merge = λ k. some tt;
  closing = record { streams = λ k. some tt; client = λ k. some tt };
  rpc = record { makes_consumer = false; connects = λ p. true; sends = λ p key. true };
  text_of = λ now. "1000";
}

-- One filter.
abbrev filters : RpcNode
filters = (Rpc.for_instance (some "EthConnectController") Rpc.blank).1

on_module_init-started_example :
    let s = on_module_init world config launch (blank filters) in
    ((calls : ℕ) × (s.node
        ≡ started (service_id_of launch "kovan" (world.runtime.now 2)) (some "kovan") calls))
    × (s.filters ≡ filters)
    × (((s.source_table ≡ true) × (s.merging ≡ true))
        ⊎ ((e : Failure) × (before : List Failure) × (s.merging ≡ false)
            × (s.unhandled ≡ within streams_corrupted e ∷ before)))
on_module_init-started_example =
    on_module_init-started world config launch filters "kovan" refl refl refl

abbrev without_provider : Launch
without_provider = record launch { makes_provider = λ call. false }

on_module_init-refused_example :
    let s = on_module_init world config without_provider (blank filters) in
    ((network : Option String) × (calls : ℕ) × (s.node ≡ started "" network calls))
    × ((s.stream_factory ≡ false) × (s.source_table ≡ false) × (s.merging ≡ false))
    × (s.filters ≡ Rpc.shutdown without_provider.rpc filters)
on_module_init-refused_example =
    on_module_init-refused world config without_provider filters (no_provider refl)
