-- ===== src/Rpc.antt =====
-- RpcExceptionFilterCust of common/src/kafka/rpc.error.ts: errors cast on the topic for feed errors,
-- over clients of the Kafka library, which are parameters.
pub mod Connections
mod Tests
use chainlink_eth_secret_net.Base.{
  ℕ, suc, String, List, [], ◌∷◌, Option, none, some, Bool, true, false, not, select, ◌==◌,
  string_eq, nat_eq, if◌then◌else◌,
}
use chainlink_eth_secret_net.Base.Maps
use chainlink_eth_secret_net.Base.Maps.{Dict}

-- Whether `consumer()`, with no group, makes a consumer or throws; whether a producer connects, and
-- whether a connected one sends a record.
pub record RpcWorld : Type 0 where
  pub makes_consumer : Bool
  pub connects : ℕ → Bool
  pub sends : ℕ → String → Bool

-- The filters by identifier, each with the number of its Kafka client; the objects made so far
-- (clients, producers and consumers), those that are connected, and the keys of the records sent.
pub record RpcNode : Type 0 where
  pub instances : Option (Dict ℕ)
  pub made : ℕ
  pub connected : List ℕ
  pub sent : List String

abbrev pub blank : RpcNode
blank = record { instances = none; made = 0; connected = []; sent = [] }

abbrev inst_id : Option String → String
inst_id none = "*"
inst_id (some id) = if id == "" then "*" else id

abbrev pub instances_of : RpcNode → Dict ℕ
instances_of n = elim n.instances [ none ↦ [] | some m ↦ m ]

unfoldable pub for_instance : Option String → RpcNode → ℕ × RpcNode
for_instance instance_id n = elim (Maps.get (inst_id instance_id) (instances_of n)) [
  | none ↦ (
    n.made,
    record n {
      instances = some (Maps.set (inst_id instance_id) n.made (instances_of n));
      made = suc n.made;
    },
  )
  | some inst ↦
      (inst, record n { instances = some (Maps.set (inst_id instance_id) inst (instances_of n)) })
]

-- `this.kafka.producer()` makes a producer of its own. What is thrown on is the message.
unfoldable pub catch_exception : RpcWorld → String → String → RpcNode → String × RpcNode
catch_exception w key message n = (
  message,
  if w.connects n.made
      then record n {
        made = suc n.made;
        connected = n.made ∷ n.connected;
        sent = if w.sends n.made key then key ∷ n.sent else n.sent;
      }
      else record n { made = suc n.made },
)

abbrev disconnect : ℕ → List ℕ → List ℕ
disconnect client = select (λ c. not (c == client))

-- The shutdown of one filter: a consumer and a producer are made, and disconnected. Where no consumer
-- is made the promise is rejected, for which no one waits.
shutdown_one : RpcWorld → RpcNode → RpcNode
shutdown_one w n =
    if w.makes_consumer
    then record n {
      made = suc (suc n.made);
      connected = disconnect (suc n.made) (disconnect n.made n.connected);
    }
    else n

shutdown_each : RpcWorld → Dict ℕ → RpcNode → RpcNode
unfolding shutdown_one
shutdown_each w [] n = n
shutdown_each w ((id, client) ∷ filters) n = shutdown_each w filters (shutdown_one w n)

pub shutdown : RpcWorld → RpcNode → RpcNode
unfolding shutdown_each
shutdown w n = shutdown_each w (instances_of n) n
