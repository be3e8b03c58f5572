-- ===== src/Eth/Reach.antt =====
-- The states that an instance of the service comes to: the handlers and callbacks of
-- eth-client/src/eth-connect.controller.ts and eth-connect.service.ts, one after the other, in any
-- order.
pub mod Invariants
pub mod Polled
pub mod Leaked
pub mod Heard
mod Tests
use chainlink_eth_secret_net.Base.{ℕ, String, [], Option, Mem}
use chainlink_eth_secret_net.Data.Records.{FeedConfigSource, SourcePollingInfo}
use chainlink_eth_secret_net.Eth.World.{World, EventArgs}
use chainlink_eth_secret_net.Eth.Action.{Node, Subscription}
use chainlink_eth_secret_net.Eth.Controller.{handle_source_config}
use chainlink_eth_secret_net.Eth.Service.{merge_source_polling_to_config}
use chainlink_eth_secret_net.Eth.Ticks.{fire}
use chainlink_eth_secret_net.Eth.Listening.{Closing, on_event, shutdown}

-- A callback of an event runs only while it is registered.
pub data Turn (w : World) (n : Node) : Node → Type 0 where
  handled :
      (feed_id : String) (s : FeedConfigSource) → Turn w n (handle_source_config w feed_id s n).1
  merged :
      (id : Option String) (info : SourcePollingInfo)
      → Turn w n (merge_source_polling_to_config w id info n).1
  fired : (timer : ℕ) → Turn w n (fire w timer n).1
  heard : (s : Subscription) (e : EventArgs) → Mem s n.subscriptions → Turn w n (on_event w s e n).1
  shut : (c : Closing) → Turn w n (shutdown w c n).1

-- An instance that has just started: nothing is tracked.
abbrev pub started : String → Option String → ℕ → Node
started service_id network calls = record {
  service_id = service_id;
  network = network;
  source_polling = [];
  source_listening = [];
  intervals = [];
  subscriptions = [];
  sent = [];
  calls = calls;
}

pub data Reach (w : World) : Node → Type 0 where
  start :
      (service_id : String) (network : Option String) (calls : ℕ)
      → Reach w (started service_id network calls)
  next : {m n : Node} → Reach w m → Turn w m n → Reach w n
