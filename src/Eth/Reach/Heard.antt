-- ===== src/Eth/Reach/Heard.antt =====
-- The callbacks of the sources that an instance listens to, in every state that it comes to.
mod Tests
use chainlink_eth_secret_net.Base.{
  none, suc, ◌<◌, ℕ, String, Option, some, ◌≡◌, ◌≢◌, true, false, arith, ap, ◌∙◌, sym, str_eq_iff,
  string_eq, nat_eq,
}
use chainlink_eth_secret_net.Base.Maps
use chainlink_eth_secret_net.Data.SourceEnums.{SourcePollingChange}
use chainlink_eth_secret_net.Eth.World.{World, Note}
use chainlink_eth_secret_net.Eth.Action.{Node, Listened}
use chainlink_eth_secret_net.Eth.Polling.{stop_source_event_listener}
use chainlink_eth_secret_net.Eth.Polling.Heard.{
  hears, object_of, IsListening, IsListening-Frames, stop_source_event_listener_lem,
}
use chainlink_eth_secret_net.Eth.Polling.Silence.{
  check_for_source_data_change-IsListening, start_and_track-IsListening,
  stop_source_polling-IsListening, stop_all_source_polling-IsListening,
  stop_all_source_event_listener-IsListening,
}
use chainlink_eth_secret_net.Data.FeedEnums.{event, cl_aggr}
use chainlink_eth_secret_net.Data.Records.{FeedConfigSource}
use chainlink_eth_secret_net.Eth.Validation.{event_name}
use chainlink_eth_secret_net.Eth.Service.{initiate_source_data_polling}
use chainlink_eth_secret_net.Eth.Service.Orphans.{initiate_source_data_polling-orphan}
use chainlink_eth_secret_net.Eth.Service.Heard.{initiate_event_listener-IsListening}
use chainlink_eth_secret_net.Eth.Invariants.{IsInvariant}
use chainlink_eth_secret_net.Eth.Reach.{started, Reach}
use chainlink_eth_secret_net.Eth.Reach.Invariants.{Reach-invariant}

IsListening-IsInvariant : (w : World) → IsInvariant w IsListening
IsListening-IsInvariant w = record {
  frames = IsListening-Frames;
  noticed = check_for_source_data_change-IsListening;
  polled = start_and_track-IsListening w;
  listened = initiate_event_listener-IsListening w;
  counted = λ j n h. record { below = h.below; heard = h.heard; distinct = h.distinct };
  unpolled = stop_source_polling-IsListening w;
  all_unpolled = stop_all_source_polling-IsListening w;
  all_unlistened = stop_all_source_event_listener-IsListening w;
}

started-IsListening :
    (id : String) (network : Option String) (calls : ℕ) → IsListening (started id network calls)
started-IsListening id network calls = record {
  below = λ i r. cc;
  heard = λ k i e. cc;
  distinct = λ j k i e f. cc;
}

-- In every state that an instance comes to, a contract object with a callback was made before, the
-- object of each source that is listened to has a callback, and no two sources are listened to on the
-- same object.
pub Reach-IsListening : (w : World) (n : Node) → Reach w n → IsListening n
Reach-IsListening w n reached =
    Reach-invariant w (IsListening-IsInvariant w) started-IsListening reached

-- In every state that an instance comes to, the stop of the listener of one source removes the
-- callback of no other: a source that is listened to besides still is, on the same object, and that
-- object has a callback; the object of the first has none.
pub stop_source_event_listener-others :
    (w : World) (n : Node) (id k : String) (reason : SourcePollingChange) (msg : Option Note)
    (l m : Listened)
    → Reach w n
    → Maps.get id n.source_listening ≡ some l
    → Maps.get k n.source_listening ≡ some m
    → id ≢ k
    → let n' = (stop_source_event_listener w id reason msg n).1 in
      (Maps.get k n'.source_listening ≡ some m)
      × (hears m.contract.instance_id n'.subscriptions ≡ true)
      × (hears l.contract.instance_id n'.subscriptions ≡ false)
stop_source_event_listener-others w n id k reason msg l m r e f other =
    let h = Reach-IsListening w n r in
    let (gets, callbacks) = stop_source_event_listener_lem w id reason msg n l e in
    let apart : m.contract.instance_id ≢ l.contract.instance_id = λ same. other (
      h.distinct id k m.contract.instance_id (ap object_of e ∙ ap some (sym same))
        (ap object_of f)) in
    (
      rw (gets k) (ground (arith, f, str_eq_iff id k, other)),
      rw (callbacks m.contract.instance_id)
          (ground (arith, apart, h.heard k m.contract.instance_id (ap object_of f))),
      rw (callbacks l.contract.instance_id) (ground arith),
    )

-- In every state that an instance comes to: where it listens to a source, and does not poll it by a
-- timer, a second start of its listener (directly on the aggregator, which answers with positive
-- decimals, for a named event) leaves the earlier callback registered, also after the source is
-- stopped.
pub second_listener-leak :
    (w : World) (source : FeedConfigSource) (feed_id signature : String) (n : Node) (decimals : ℕ)
    (l : Listened) (reason : SourcePollingChange) (msg : Option Note)
    → Reach w n
    → source.poll ≡ some event
    → source.type ≡ some cl_aggr
    → event_name source ≡ some signature
    → Maps.get source.contract n.source_polling ≡ none
    → Maps.get source.contract n.source_listening ≡ some l
    → w.chain.decimals_of (suc n.calls) source.contract ≡ some decimals
    → 0 < decimals
    → let n' = (initiate_source_data_polling w source feed_id n).1 in
      let stopped = (stop_source_event_listener w source.contract reason msg n').1 in
      (hears l.contract.instance_id n'.subscriptions ≡ true)
      × (hears l.contract.instance_id stopped.subscriptions ≡ true)
second_listener-leak w source feed_id signature n decimals l reason msg r by_event direct named
      unpolled e decimal pos =
    let h = Reach-IsListening w n r in
    let on = h.heard source.contract l.contract.instance_id (ap object_of e) in
    initiate_source_data_polling-orphan w source feed_id signature n decimals l.contract.instance_id
      reason msg by_event direct named unpolled decimal pos on (h.below l.contract.instance_id on)
