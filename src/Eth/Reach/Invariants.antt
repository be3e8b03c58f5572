-- ===== src/Eth/Reach/Invariants.antt =====
-- An invariant of the handlers and callbacks holds in every state that an instance comes to.
use chainlink_eth_secret_net.Base.{ℕ, String, Option}
use chainlink_eth_secret_net.Eth.World.{World}
use chainlink_eth_secret_net.Eth.Action.{Node}
use chainlink_eth_secret_net.Eth.Invariants.{IsInvariant}
use chainlink_eth_secret_net.Eth.Controller.Invariants.{handle_source_config-Preserves}
use chainlink_eth_secret_net.Eth.Service.Invariants.{merge_source_polling_to_config-Preserves}
use chainlink_eth_secret_net.Eth.Ticks.Invariants.{fire-Preserves}
use chainlink_eth_secret_net.Eth.Listening.Casts.{on_event-Preserves}
use chainlink_eth_secret_net.Eth.Listening.Shutdown.{shutdown-Preserves}
use chainlink_eth_secret_net.Eth.Reach.{
  Turn, handled, merged, fired, heard, shut, started, Reach, start, next,
}

Turn-kept :
    (w : World) {P : Node → Type 0} (i : IsInvariant w P) {m n : Node} → Turn w m n → P m → P n
Turn-kept w i {m} (handled id s) h = (handle_source_config-Preserves w i id s).at m h
Turn-kept w i {m} (merged id info) h = (merge_source_polling_to_config-Preserves w i id info).at m h
Turn-kept w i {m} (fired t) h = (fire-Preserves w i t).at m h
Turn-kept w i {m} (heard s e on) h = (on_event-Preserves i.frames w s e).at m h
Turn-kept w i {m} (shut c) h = (shutdown-Preserves w i c).at m h

pub Reach-invariant :
    (w : World) {P : Node → Type 0}
    → IsInvariant w P
    → ((id : String) (network : Option String) (calls : ℕ) → P (started id network calls))
    → {n : Node} → Reach w n
    → P n
Reach-invariant w i init (start id network calls) = init id network calls
Reach-invariant w i init (next {m} r t) = Turn-kept w i t (Reach-invariant w i init r)
