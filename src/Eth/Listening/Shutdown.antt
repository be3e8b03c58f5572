-- ===== src/Eth/Listening/Shutdown.antt =====
-- What the shutdown of the service leaves of its tracking.
use chainlink_eth_secret_net.Base.{
  ℕ, String, suc, Option, none, some, ◌≡◌, [], refl, ap, ◌∙◌, inl, inr, Option-cases, false,
}
use chainlink_eth_secret_net.Base.Maps
use chainlink_eth_secret_net.Eth.World.{World, rejected, within, client_close, stream_close}
use chainlink_eth_secret_net.Eth.Action.{
  Node, Polled, Outcome, ok, err, ask, attempt, rethrow, ◌>>◌,
}
use chainlink_eth_secret_net.Eth.Action.Keeping.{Preserves, preserves_rules}
use chainlink_eth_secret_net.Eth.Polling.{stop_all_source_polling, stop_all_source_event_listener}
use chainlink_eth_secret_net.Eth.Polling.Stops.{
  runs, stop_all_source_polling-runs, stop_all_source_polling-get,
}
use chainlink_eth_secret_net.Eth.Polling.Timers.{timeout_of}
use chainlink_eth_secret_net.Eth.Invariants.{IsInvariant}
use chainlink_eth_secret_net.Eth.Frames.{Frames, ask-Preserves}
use chainlink_eth_secret_net.Eth.Polling.Listeners.{stop_all_source_event_listener-KeepsTimers}
use chainlink_eth_secret_net.Eth.Listening.{Closing, shutdown}

closing-Preserves :
    (c : Closing) {P : Node → Type 0}
    → Frames P
    → Preserves P (attempt stream_close (ask c.streams) >> rethrow client_close (ask c.client))
closing-Preserves c f = search (preserves_rules, ask-Preserves f)

pub shutdown-Preserves :
    (w : World) {P : Node → Type 0} (i : IsInvariant w P) (c : Closing) → Preserves P (shutdown w c)
unfolding shutdown stop_all_source_polling stop_all_source_event_listener
shutdown-Preserves w i c = record {
  at = λ n h.
      let unpolled = (stop_all_source_polling w n).1 in
      (closing-Preserves c i.frames).at (stop_all_source_event_listener w unpolled).1
        (i.all_unlistened.at unpolled (i.all_unpolled.at n h));
}

timeout_of-none : (o : Option Polled) → timeout_of o ≡ none → o ≡ none
timeout_of-none none e = refl
timeout_of-none (some p) e = cc

-- Whether the Kafka client closes.
abbrev pub closed : Option (Unit {0}) → Outcome (Unit {0})
closed none = err (within client_close rejected)
closed (some u) = ok tt

-- A shutdown leaves no tracked source and no callback of an event, and the timer of each source that
-- was tracked has ended; it returns exactly when the Kafka client closes, whatever the closing of the
-- streams and the reports of the stops come to.
pub shutdown_lem :
    (w : World) (c : Closing) (n : Node)
    → let (r, n') = shutdown w c n in
      ((k : String) → Maps.get k n'.source_polling ≡ none)
      × ((k : String) (p : Polled)
          → Maps.get k n.source_polling ≡ some p
          → runs p.timeout n'.intervals ≡ false)
      × (n'.subscriptions ≡ [])
      × ((calls : ℕ) × (n'.calls ≡ suc calls) × (r ≡ closed (c.client calls)))
unfolding shutdown stop_all_source_polling stop_all_source_event_listener
shutdown_lem w c n =
    let n1 = (stop_all_source_polling w n).1 in
    let n2 = (stop_all_source_event_listener w n1).1 in
    let k = stop_all_source_event_listener-KeepsTimers w n1 in
    (
      λ id.
          timeout_of-none (Maps.get id n2.source_polling)
            (k.timeouts id ∙ ap timeout_of (stop_all_source_polling-get w n id)),
      λ id p e. rw (k.intervals) (stop_all_source_polling-runs w n id p e),
      refl,
      (
        suc n2.calls,
        refl,
        elim (Option-cases (c.client (suc n2.calls))) [
          | inl e ↦ rw e refl
          | inr (u, e) ↦ rw e refl
        ],
      ),
    )
