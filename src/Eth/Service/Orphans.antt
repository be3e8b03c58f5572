-- ===== src/Eth/Service/Orphans.antt =====
-- A second start of a listener on a source that is listened to already.
use chainlink_eth_secret_net.Base.{
  ℕ, suc, ◌<◌, String, List, ◌∷◌, Option, none, some, true, ◌≡◌, ◌≢◌, refl, arith, ltb, nat_eq,
  string_eq, sym, beq_refl,
}
use chainlink_eth_secret_net.Base.Maps
use chainlink_eth_secret_net.Base.Maps.{get-set, get-delete}
use chainlink_eth_secret_net.Data.SourceEnums.{
  add_listen_event, remove_listen_event, SourcePollingChange,
}
use chainlink_eth_secret_net.Data.Channels.{Topic}
use chainlink_eth_secret_net.Data.FeedEnums.{event, cl_aggr}
use chainlink_eth_secret_net.Data.Records.{FeedConfigSource}
use chainlink_eth_secret_net.Eth.World.{World, Note, listening_started, listener_failed}
use chainlink_eth_secret_net.Eth.Action.{
  Node, Contract, Listened, Subscription, Outcome, ok, err, access_controlled_offchain_aggregator,
}
use chainlink_eth_secret_net.Eth.Casting.{cast_source_polling}
use chainlink_eth_secret_net.Eth.Casting.Written.{Keeps, cast_source_polling-Keeps}
use chainlink_eth_secret_net.Eth.Contracts.{init_contract_cl_aggregator, load_contract_decimals}
use chainlink_eth_secret_net.Eth.Polling.{
  remove_all_listeners, listen_to_contract_event, track_source_event_listener,
  stop_source_event_listener,
}
use chainlink_eth_secret_net.Eth.Polling.Heard.{hears, hears-remove_all_listeners}
use chainlink_eth_secret_net.Eth.Validation.{event_name}
use chainlink_eth_secret_net.Eth.Service.{
  listener_cleanup, with_cleanup, initiate_event_listener, initiate_source_data_polling,
}

-- The object that a start makes.
abbrev made : FeedConfigSource → Node → Contract
made source n = record {
  address = source.contract;
  abi = access_controlled_offchain_aggregator;
  instance_id = n.calls;
}

-- The instance once the source is listened to on the new object.
abbrev pub relistened : FeedConfigSource → String → String → ℕ → Node → Node
relistened source feed_id signature decimals n = record n {
  calls = suc (suc n.calls);
  subscriptions =
      record {
        contract = made source n;
        feed_id = feed_id;
        source_id = source.contract;
        event_signature = signature;
        decimals = decimals;
      }
      ∷ n.subscriptions;
  source_listening =
      Maps.set source.contract (record { last = none; contract = made source n })
        n.source_listening;
}

abbrev answered : Outcome (Unit {0}) × Node → Outcome (Option ℕ) × Node
answered (ok u, n) = (ok none, n)
answered (err e, n) = (err e, n)

initiate_source_data_polling-again :
    (w : World) (source : FeedConfigSource) (feed_id signature : String) (n : Node) (decimals : ℕ)
    → source.poll ≡ some event
    → source.type ≡ some cl_aggr
    → event_name source ≡ some signature
    → Maps.get source.contract n.source_polling ≡ none
    → w.chain.decimals_of (suc n.calls) source.contract ≡ some decimals
    → 0 < decimals
    → initiate_source_data_polling w source feed_id n
      ≡ answered (
          listener_cleanup w source (
            cast_source_polling w Topic.source_polling source.contract add_listen_event
              (some listening_started)
              (relistened source feed_id signature decimals n)))
unfolding initiate_source_data_polling initiate_event_listener init_contract_cl_aggregator
    load_contract_decimals listen_to_contract_event track_source_event_listener with_cleanup
initiate_source_data_polling-again w source feed_id signature n decimals by_event direct named
      unpolled decimal pos =
    let some_decimals : ltb 0 decimals ≡ true = ground arith in
    rw (by_event, initiate_source_data_polling) (ground arith)

-- An object has a callback, and is not the one that the source is listened to on.
record IsOrphan (i : ℕ) (id : String) (n : Node) : Type 0 where
  on : hears i n.subscriptions ≡ true
  unknown : (l : Listened) → Maps.get id n.source_listening ≡ some l → l.contract.instance_id ≢ i

Keeps-IsOrphan :
    (i : ℕ) (id : String) (n n' : Node) → Keeps n n' → IsOrphan i id n → IsOrphan i id n'
Keeps-IsOrphan i id n n' k o = record {
  on = rw (k.subscriptions) (o.on);
  unknown = λ l e. o.unknown l (rw (sym k.source_listening) e);
}

removed-on :
    (i : ℕ) (listened : Option Listened) (l : List Subscription)
    → ((x : Listened) → listened ≡ some x → x.contract.instance_id ≢ i)
    → hears i l ≡ true
    → hears i (elim listened [ none ↦ l | some x ↦ remove_all_listeners x.contract l ]) ≡ true
removed-on i none l other on = on
removed-on i (some x) l other on =
    rw (hears-remove_all_listeners i x.contract l) (ground (arith, on, other x refl))

stop_source_event_listener-IsOrphan :
    (w : World) (i : ℕ) (id : String) (reason : SourcePollingChange) (msg : Option Note) (n : Node)
    → IsOrphan i id n
    → IsOrphan i id (stop_source_event_listener w id reason msg n).1
unfolding stop_source_event_listener
stop_source_event_listener-IsOrphan w i id reason msg n o =
    Keeps-IsOrphan i id m (cast_source_polling w Topic.source_polling id reason msg m).1
      (cast_source_polling-Keeps w Topic.source_polling id reason msg m)
      (record {
        on = removed-on i (Maps.get id n.source_listening) n.subscriptions o.unknown o.on;
        unknown = λ l e. ground (arith, get-delete id id n.source_listening, beq_refl id);
      })
  where
    m : Node
    m = record n {
      subscriptions = elim (Maps.get id n.source_listening) [
        | none ↦ n.subscriptions
        | some listened ↦ remove_all_listeners listened.contract n.subscriptions
      ];
      source_listening = Maps.delete id n.source_listening;
    }

relistened-IsOrphan :
    (source : FeedConfigSource) (feed_id signature : String) (decimals i : ℕ) (n : Node)
    → hears i n.subscriptions ≡ true
    → i < n.calls
    → IsOrphan i source.contract (relistened source feed_id signature decimals n)
relistened-IsOrphan source feed_id signature decimals i n on before = record {
  on = ground (arith, on);
  unknown = λ l e.
      let new : Listened = record { last = none; contract = made source n } in
      let same : new ≡ l = ground (
        arith,
        get-set source.contract source.contract new n.source_listening,
        beq_refl source.contract,
      ) in
      rw (← same) (λ old. ground (arith, old));
}

answered-IsOrphan :
    (w : World) (source : FeedConfigSource) (i : ℕ) (settled : Outcome (Unit {0}) × Node)
    → IsOrphan i source.contract settled.1
    → IsOrphan i source.contract (answered (listener_cleanup w source settled)).1
unfolding listener_cleanup
answered-IsOrphan w source i (ok u, n) o = o
answered-IsOrphan w source i (err e, n) o =
    stop_source_event_listener-IsOrphan w i source.contract remove_listen_event
      (some listener_failed) n o

-- Where an instance listens to a source, and does not poll it by a timer, a second start of its
-- listener is not refused for that; and a callback that was registered on an object made before
-- stays registered, also after the stop of the listener of the source.
pub initiate_source_data_polling-orphan :
    (w : World) (source : FeedConfigSource) (feed_id signature : String) (n : Node) (decimals i : ℕ)
    (reason : SourcePollingChange) (msg : Option Note)
    → source.poll ≡ some event
    → source.type ≡ some cl_aggr
    → event_name source ≡ some signature
    → Maps.get source.contract n.source_polling ≡ none
    → w.chain.decimals_of (suc n.calls) source.contract ≡ some decimals
    → 0 < decimals
    → hears i n.subscriptions ≡ true
    → i < n.calls
    → let n' = (initiate_source_data_polling w source feed_id n).1 in
      (hears i n'.subscriptions ≡ true)
      × (hears i (stop_source_event_listener w source.contract reason msg n').1.subscriptions
          ≡ true)
initiate_source_data_polling-orphan w source feed_id signature n decimals i reason msg by_event
      direct named unpolled decimal pos on before =
    let m = relistened source feed_id signature decimals n in
    let orphan =
      answered-IsOrphan w source i
        (cast_source_polling w Topic.source_polling source.contract add_listen_event
          (some listening_started) m)
        (Keeps-IsOrphan i source.contract m _
          (cast_source_polling-Keeps w Topic.source_polling source.contract add_listen_event
            (some listening_started) m)
          (relistened-IsOrphan source feed_id signature decimals i n on before)) in
    rw
      (initiate_source_data_polling-again w source feed_id signature n decimals by_event direct
        named unpolled decimal pos)
      (orphan.on, (stop_source_event_listener-IsOrphan w i source.contract reason msg _ orphan).on)
