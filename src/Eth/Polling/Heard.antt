-- ===== src/Eth/Polling/Heard.antt =====
-- The callbacks of the sources that an instance listens to: each has a registered callback on a
-- contract object of its own, after any of the operations on them in
-- eth-client/src/eth-connect.service.ts.
use chainlink_eth_secret_net.Base.{
  sym, ℕ, ◌<◌, ◌≤◌, String, List, [], ◌∷◌, Option, none, some, Bool, true, false, ◌||◌, ◌≡◌, inl,
  inr, arith, Option-cases, str_eq_iff, ◌==◌, nat_eq, string_eq, if◌then◌else◌,
}
use chainlink_eth_secret_net.Base.Maps
use chainlink_eth_secret_net.Base.Maps.{get-set, get-delete}
use chainlink_eth_secret_net.Data.SourceEnums.{SourcePollingChange}
use chainlink_eth_secret_net.Data.Channels.{Topic}
use chainlink_eth_secret_net.Eth.World.{World, Note}
use chainlink_eth_secret_net.Eth.Action.{Node, Listened, Contract, Subscription}
use chainlink_eth_secret_net.Eth.Action.Keeping.{Preserves}
use chainlink_eth_secret_net.Eth.Casting.Written.{Keeps, cast_source_polling-Keeps}
use chainlink_eth_secret_net.Eth.Casting.{cast_source_polling}
use chainlink_eth_secret_net.Eth.Frames.{Frames, writing}
use chainlink_eth_secret_net.Eth.Polling.{remove_all_listeners, stop_source_event_listener}

-- A callback is registered on the contract object.
abbrev pub hears : ℕ → List Subscription → Bool
hears i [] = false
hears i (s ∷ l) = s.contract.instance_id == i || hears i l

abbrev pub object_of : Option Listened → Option ℕ
object_of none = none
object_of (some l) = some l.contract.instance_id

-- The contract object that a source is listened to on.
abbrev pub contract_of : String → Node → Option ℕ
contract_of k n = object_of (Maps.get k n.source_listening)

pub record IsListening (n : Node) : Type 0 where
  pub below : (i : ℕ) → hears i n.subscriptions ≡ true → i < n.calls
  pub heard : (k : String) (i : ℕ) → contract_of k n ≡ some i → hears i n.subscriptions ≡ true
  pub distinct :
      (j k : String) (i : ℕ) → contract_of j n ≡ some i → contract_of k n ≡ some i → j ≡ k

-- No listener starts or ends.
pub record KeepsListeners (n n' : Node) : Type 0 where
  pub source_listening : n'.source_listening ≡ n.source_listening
  pub subscriptions : n'.subscriptions ≡ n.subscriptions
  pub calls : n.calls ≤ n'.calls

pub KeepsListeners-IsListening :
    (n n' : Node) → KeepsListeners n n' → IsListening n → IsListening n'
KeepsListeners-IsListening n n' k h = record {
  below = λ i r. ground (arith, k.calls, h.below i (rw (sym k.subscriptions) r));
  heard = λ id i e. rw (k.subscriptions) (h.heard id i (rw (sym k.source_listening) e));
  distinct = λ j id i e f.
      h.distinct j id i (rw (sym k.source_listening) e) (rw (sym k.source_listening) f);
}

pub Keeps-KeepsListeners : (n n' : Node) → Keeps n n' → KeepsListeners n n'
Keeps-KeepsListeners n n' k = record {
  source_listening = k.source_listening;
  subscriptions = k.subscriptions;
  calls = k.calls;
}

pub IsListening-Frames : Frames IsListening
IsListening-Frames = record {
  kept = λ n n' k. KeepsListeners-IsListening n n' (Keeps-KeepsListeners n n' k);
  connected = λ network n h. record { below = h.below; heard = h.heard; distinct = h.distinct };
}

pub hears-remove_all_listeners :
    (i : ℕ) (c : Contract) (l : List Subscription)
    → hears i (remove_all_listeners c l) ≡ (if i == c.instance_id then false else hears i l)
hears-remove_all_listeners i c [] = ground arith
hears-remove_all_listeners i c (s ∷ l) = ground (arith, hears-remove_all_listeners i c l)

pub contract_of-set :
    (id k : String) (l : Listened) (n : Node)
    → object_of (Maps.get k (Maps.set id l n.source_listening))
      ≡ (if id == k then some l.contract.instance_id else contract_of k n)
contract_of-set id k l n = ground (arith, get-set id k l n.source_listening, str_eq_iff id k)

contract_of-delete :
    (id k : String) (n : Node)
    → object_of (Maps.get k (Maps.delete id n.source_listening))
      ≡ (if id == k then none else contract_of k n)
contract_of-delete id k n = ground (arith, get-delete id k n.source_listening, str_eq_iff id k)

-- The callbacks once a source is no longer listened to.
abbrev without_listener : Option Listened → List Subscription → List Subscription
without_listener none l = l
without_listener (some listened) l = remove_all_listeners listened.contract l

removed-IsListening :
    (id : String) (l : Listened) (n : Node)
    → Maps.get id n.source_listening ≡ some l
    → IsListening n
    → IsListening (record n {
      subscriptions = remove_all_listeners l.contract n.subscriptions;
      source_listening = Maps.delete id n.source_listening;
    })
removed-IsListening id l n e h = record {
  below = λ i r. ground (arith, hears-remove_all_listeners i l.contract n.subscriptions, h.below i);
  heard = λ k i f. ground (
    arith,
    hears-remove_all_listeners i l.contract n.subscriptions,
    contract_of-delete id k n,
    str_eq_iff id k,
    h.heard k i,
    h.distinct id k i,
  );
  distinct = λ j k i f g.
      ground (arith, contract_of-delete id j n, contract_of-delete id k n, h.distinct j k i);
}

unlistened-IsListening :
    (id : String) (n : Node)
    → Maps.get id n.source_listening ≡ none
    → IsListening n
    → IsListening (record n { source_listening = Maps.delete id n.source_listening })
unlistened-IsListening id n e h = record {
  below = h.below;
  heard = λ k i f. ground (arith, contract_of-delete id k n, str_eq_iff id k, h.heard k i);
  distinct = λ j k i f g.
      ground (arith, contract_of-delete id j n, contract_of-delete id k n, h.distinct j k i);
}

pub stop_source_event_listener-Preserves :
    (w : World) (id : String) (reason : SourcePollingChange) (msg : Option Note)
    → Preserves IsListening (stop_source_event_listener w id reason msg)
unfolding stop_source_event_listener
stop_source_event_listener-Preserves w id reason msg =
    let cast =
      writing IsListening-Frames (cast_source_polling w Topic.source_polling id reason msg)
        (cast_source_polling-Keeps w Topic.source_polling id reason msg) in
    record {
      at = λ n h. elim (Option-cases (Maps.get id n.source_listening)) [
        | inl e ↦ rw (e, stop_source_event_listener) (cast.at _ (unlistened-IsListening id n e h))
        | inr (l, e) ↦
            rw (e, stop_source_event_listener) (cast.at _ (removed-IsListening id l n e h))
      ];
    }

-- A stop of the listener of a source forgets the source, and takes the callbacks off its contract
-- object only.
pub stop_source_event_listener_lem :
    (w : World) (id : String) (reason : SourcePollingChange) (msg : Option Note) (n : Node)
    (l : Listened)
    → Maps.get id n.source_listening ≡ some l
    → let n' = (stop_source_event_listener w id reason msg n).1 in
      ((k : String)
        → Maps.get k n'.source_listening
          ≡ (if id == k then none else Maps.get k n.source_listening))
      × ((i : ℕ)
          → hears i n'.subscriptions
            ≡ (if i == l.contract.instance_id then false else hears i n.subscriptions))
unfolding stop_source_event_listener
stop_source_event_listener_lem w id reason msg n l e =
    let k = cast_source_polling-Keeps w Topic.source_polling id reason msg (record n {
      subscriptions = elim (Maps.get id n.source_listening) [
        | none ↦ n.subscriptions
        | some listened ↦ remove_all_listeners listened.contract n.subscriptions
      ];
      source_listening = Maps.delete id n.source_listening;
    }) in
    (
      λ j. rw (k.source_listening) (get-delete id j n.source_listening),
      λ i. rw (k.subscriptions) (rw e (hears-remove_all_listeners i l.contract n.subscriptions)),
    )
