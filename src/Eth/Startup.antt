-- ===== src/Eth/Startup.antt =====
-- The start of an instance: init, initProvider, logProviderConnection and initStreams of
-- eth-client/src/eth-connect.service.ts, and the hooks onModuleInit and onApplicationShutdown of
-- eth-client/src/eth-connect.controller.ts. Promises that are not awaited are run to their end in the
-- order in which they are started.
pub mod Steps
pub mod Streams
pub mod Started
pub mod Refused
mod Tests
use Prim.Native.String.{◌++◌}
use chainlink_eth_secret_net.Base.{
  ℕ, String, List, [], ◌∷◌, Option, none, some, Bool, true, false, is, string_eq, if◌then◌else◌,
}
use chainlink_eth_secret_net.Config.Service
use chainlink_eth_secret_net.Config.Service.{RelaydConfigService}
use chainlink_eth_secret_net.Data.Channels.{
  Topic, error_source, source_config, source_data, source_polling,
}
use chainlink_eth_secret_net.Kafka.{KafkaAdmin, create_topics}
use chainlink_eth_secret_net.Kafka.Clients.{client_eth, relayd_k_client_value}
use chainlink_eth_secret_net.Rpc
use chainlink_eth_secret_net.Rpc.{RpcNode, RpcWorld}
use chainlink_eth_secret_net.Eth.World.{
  World, Failure, rejected, within, provider_setup, logging_init, table_init, streams_corrupted,
}
use chainlink_eth_secret_net.Eth.Action.{Action, Node, Outcome, ok, err, ask, rethrow, rethrown}
use chainlink_eth_secret_net.Eth.Network.{refresh_network_provider_info}
use chainlink_eth_secret_net.Eth.Listening.{Closing, shutdown}
use chainlink_eth_secret_net.Eth.Reach.{started}

pub record ProviderKeys : Type 0 where
  pub etherscan : Option String
  pub infura_project_id : Option String
  pub infura_project_secret : Option String
  pub alchemy : Option String
  pub pocket_application_id : Option String
  pub pocket_application_secret_key : Option String

-- `new WebSocketProvider(url)` and `getDefaultProvider(networkId, keys)`.
pub data ProviderCall : Type 0 where
  web_socket_provider : (url : Option String) → ProviderCall
  default_provider : (network_id : Option String) (keys : ProviderKeys) → ProviderCall

-- What the start asks of the libraries: whether a provider and the factory of the streams are made, the
-- admin client of the broker, and the starts of a stream that logs, of the table of the sources and of
-- the stream of polling records; `none` is a rejection. `text_of` writes a number.
pub record Launch : Type 0 where
  pub makes_provider : ProviderCall → Bool
  pub makes_streams : Bool
  pub admin : KafkaAdmin
  pub logging : ℕ → Option (Unit {0})
  pub table : ℕ → Option (Unit {0})
  pub merge : ℕ → Option (Unit {0})
  pub closing : Closing
  pub rpc : RpcWorld
  pub text_of : ℕ → String

-- The service and the filters of its controller. `topics` is the answer of createTopics, which is only
-- logged; `unhandled` has the rejections that no code catches, the newest first.
pub record EthConnectService : Type 0 where
  pub node : Node
  pub provider : Option ProviderCall
  pub topics : Option Bool
  pub stream_factory : Bool
  pub source_table : Bool
  pub merging : Bool
  pub unhandled : List Failure
  pub filters : RpcNode

-- Before the start, with the filters that the decorators made; the identifier is not set yet.
abbrev pub blank : RpcNode → EthConnectService
blank filters = record {
  node = started "" none 0;
  provider = none;
  topics = none;
  stream_factory = false;
  source_table = false;
  merging = false;
  unhandled = [];
  filters = filters;
}

abbrev pub Starting : Type 0 → Type 0
Starting A = (s : EthConnectService) → Outcome A × EthConnectService

module _ {A : Type 0} where
  abbrev pub on_node : Action A → Starting A
  on_node m s = let (r, n) = m s.node in (r, record s { node = n })

  -- A promise that is not awaited and has no catch: its rejection is unhandled.
  abbrev pub left_behind : Outcome A → EthConnectService → EthConnectService
  left_behind (ok a) s = s
  left_behind (err e) s = record s { unhandled = e ∷ s.unhandled }

  abbrev pub unawaited : Starting A → Starting (Unit {0})
  unawaited m s = let (r, s') = m s in (ok tt, left_behind r s')

infixl 5 ◌>>=◌ ◌>>◌
abbrev pub ◌>>=◌ : {A B : Type 0} → Starting A → (A → Starting B) → Starting B
◌>>=◌ m f s = let (r, s') = m s in elim r [ ok a ↦ f a s' | err e ↦ (err e, s') ]

abbrev pub ◌>>◌ : {A B : Type 0} → Starting A → Starting B → Starting B
m >> k = m >>= λ _. k

abbrev update : (EthConnectService → EthConnectService) → Starting (Unit {0})
update f s = (ok tt, f s)

pub provider_call : RelaydConfigService → ProviderCall
provider_call c =
    if is (Service.eth_provider_type c) "local"
    then web_socket_provider (Service.eth_provider_local_url c)
    else default_provider (Service.eth_provider_network_id c) (record {
      etherscan = Service.eth_etherscan_api_key c;
      infura_project_id = Service.eth_infura_project_id c;
      infura_project_secret = Service.eth_infura_project_secret c;
      alchemy = Service.eth_alchemy_project_key c;
      pocket_application_id = Service.eth_pocket_app_address c;
      pocket_application_secret_key = Service.eth_pocket_secret_key c;
    })

unfoldable pub init_provider : RelaydConfigService → Launch → Starting (Unit {0})
init_provider c l s =
    if l.makes_provider (provider_call c)
    then (ok tt, record s { provider = some (provider_call c) })
    else (err (within provider_setup rejected), s)

unfoldable pub log_provider_connection : World → Starting (Unit {0})
log_provider_connection w = unawaited (on_node (refresh_network_provider_info w))

-- The stream that logs is not started in the mode for production.
abbrev pub logging_unless : Bool → Launch → Starting (Unit {0})
logging_unless true l s = (ok tt, s)
logging_unless false l s = on_node (rethrow logging_init (ask l.logging)) s

-- The table of the sources, and the stream that merges what is polled into it.
unfoldable pub init_table_and_merge : Launch → Starting (Unit {0})
init_table_and_merge l = do
  on_node (rethrow table_init (ask l.table))
  update (λ s. record s { source_table = true })
  on_node (ask l.merge)
  update (λ s. record s { merging = true })

unfoldable pub init_streams : RelaydConfigService → Launch → Starting (Unit {0})
init_streams c l = logging_unless (Service.in_mode_prod c) l >> init_table_and_merge l

abbrev pub eth_topics : List Topic
eth_topics = error_source ∷ source_config ∷ source_data ∷ source_polling ∷ []

abbrev pub service_id_of : Launch → String → ℕ → String
service_id_of l name now =
    relayd_k_client_value client_eth ++ ("_" ++ (name ++ ("_" ++ l.text_of now)))

abbrev named : String → EthConnectService → EthConnectService
named id s = record s { node = record s.node { service_id = id } }

unfoldable pub make_streams : Launch → Starting (Unit {0})
make_streams l s =
    if l.makes_streams then (ok tt, record s { stream_factory = true }) else (err rejected, s)

abbrev corrupted : Starting (Unit {0}) → Starting (Unit {0})
corrupted m s = let (r, s') = m s in (rethrown streams_corrupted r, s')

abbrev pub leave_streams : RelaydConfigService → Launch → Starting (Unit {0})
leave_streams c l = unawaited (corrupted (init_streams c l))

-- What follows when the name of the network is known. The streams are not awaited.
abbrev pub launch_on : World → RelaydConfigService → Launch → String → Starting (Unit {0})
launch_on w c l name = do
  now ← on_node (ask (λ k. some (w.runtime.now k)))
  update (named (service_id_of l name now))
  update (λ s. record s { topics = create_topics l.admin eth_topics })
  make_streams l
  leave_streams c l

unfoldable pub launch : World → RelaydConfigService → Launch → Starting (Unit {0})
launch w c l = on_node (refresh_network_provider_info w) >>= launch_on w c l

-- Both loads of the network are started before either is answered, so that both ask the provider.
unfoldable pub init : World → RelaydConfigService → Launch → Starting (Unit {0})
unfolding init_provider log_provider_connection
init w c l = do init_provider c l; log_provider_connection w; launch w c l

-- Without a factory there are no streams to close.
abbrev pub closing_of : Launch → EthConnectService → Closing
closing_of l s = record {
  streams = if s.stream_factory then l.closing.streams else λ k. some tt;
  client = l.closing.client;
}

-- What the shutdown of the service comes to is only logged.
unfoldable pub on_application_shutdown : World → Launch → EthConnectService → EthConnectService
on_application_shutdown w l s = record s {
  node = (shutdown w (closing_of l s) s.node).1;
  filters = Rpc.shutdown l.rpc s.filters;
}

abbrev pub shut_on_error :
    World → Launch → Outcome (Unit {0}) × EthConnectService → EthConnectService
shut_on_error w l (ok u, s) = s
shut_on_error w l (err e, s) = on_application_shutdown w l s

-- The promise that the hook leaves behind, run to its end.
unfoldable pub on_module_init :
    World → RelaydConfigService → Launch → EthConnectService → EthConnectService
on_module_init w c l s = shut_on_error w l (init w c l s)
