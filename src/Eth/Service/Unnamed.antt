-- ===== src/Eth/Service/Unnamed.antt =====
-- The start of a listener of an event without a name (initiateSourceDataPolling of
-- eth-client/src/eth-connect.service.ts): it throws, and registers nothing.
use chainlink_eth_secret_net.Base.{
  ℕ, ◌≤◌, String, List, [], ◌∷◌, Option, none, some, Bool, ◌≡◌, ◌≢◌, sym, inl, inr, arith, count,
  select, Option-cases, not, ◌==◌, nat_eq,
}
use chainlink_eth_secret_net.Base.Maps
use chainlink_eth_secret_net.Base.Maps.{get-delete}
use chainlink_eth_secret_net.Data.SourceEnums.{SourcePollingChange, remove_listen_event}
use chainlink_eth_secret_net.Data.Channels.{Topic}
use chainlink_eth_secret_net.Data.Records.{FeedConfigSource}
use chainlink_eth_secret_net.Eth.World.{World, Note, listener_failed}
use chainlink_eth_secret_net.Eth.Action.{
  Action, Node, Contract, Listened, Subscription, Outcome, ok, err, ◌>>=◌,
}
use chainlink_eth_secret_net.Eth.Action.Outcomes.{bind-ok, Outcome-cases}
use chainlink_eth_secret_net.Eth.Action.Keeping.{Preserves}
use chainlink_eth_secret_net.Eth.Casting.{cast_source_polling}
use chainlink_eth_secret_net.Eth.Casting.Written.{cast_source_polling-Keeps}
use chainlink_eth_secret_net.Eth.Frames.{
  Frames, frame_rules, writing, load_cl_proxy_contract_aggregator-Preserves,
}
use chainlink_eth_secret_net.Eth.Polling.{
  remove_all_listeners, listen_to_contract_event, track_source_event_listener,
  stop_source_event_listener,
}
use chainlink_eth_secret_net.Eth.Validation.{event_name}
use chainlink_eth_secret_net.Eth.Service.{with_cleanup, listener_cleanup, initiate_event_listener}

-- The action returns in no state.
pub record Fails {A : Type 0} (m : Action A) : Type 0 where
  pub at : (n : Node) (a : A) → (m n).0 ≢ ok a

module _ {A B : Type 0} (m : Action A) (f : A → Action B) where
  Fails-first : Fails m → Fails (m >>= f)
  Fails-first h = record { at = λ n b done. let (a, e, _) = bind-ok m f n b done in h.at n a e }

  Fails-then : ((a : A) → Fails (f a)) → Fails (m >>= f)
  Fails-then h = record {
    at = λ n b done. let (a, _, e) = bind-ok m f n b done in (h a).at (m n).1 b e;
  }

listen_to_contract_event-Fails :
    (feed_id id : String) (contract : Contract) (decimals : ℕ)
    → Fails (listen_to_contract_event feed_id id contract none decimals)
unfolding listen_to_contract_event
listen_to_contract_event-Fails feed_id id contract decimals = record { at = λ n a done. cc done }

listener_cleanup-ok :
    (w : World) (source : FeedConfigSource) (settled : Outcome (Unit {0}) × Node) (u : Unit {0})
    → (listener_cleanup w source settled).0 ≡ ok u
    → settled.0 ≡ ok u
unfolding listener_cleanup
listener_cleanup-ok w source (ok v, n) u done = done
listener_cleanup-ok w source (err e, n) u done = cc done

with_cleanup-Fails :
    (w : World) (source : FeedConfigSource) (m : Action (Unit {0}))
    → Fails m
    → Fails (with_cleanup w source m)
unfolding with_cleanup
with_cleanup-Fails w source m h = record {
  at = λ n a done. h.at n a (listener_cleanup-ok w source (m n) a done);
}

listen_unnamed-Fails :
    (feed_id id : String) (contract : Contract) (name : Option String) (decimals : ℕ)
    → name ≡ none
    → Fails (listen_to_contract_event feed_id id contract name decimals)
listen_unnamed-Fails feed_id id contract name decimals e =
    rw e (listen_to_contract_event-Fails feed_id id contract decimals)

pub initiate_event_listener-Fails :
    (w : World) (source : FeedConfigSource) (feed_id : String)
    → event_name source ≡ none
    → Fails (initiate_event_listener w source feed_id)
unfolding initiate_event_listener
initiate_event_listener-Fails w source feed_id unnamed =
    search (Fails-then, Fails-first, with_cleanup-Fails, listen_unnamed-Fails, unnamed) depth 12

-- No callback and no entry of the map that were not there before.
pub record IsQuiet (before n : Node) : Type 0 where
  pub subscriptions :
      (q : Subscription → Bool) → count q n.subscriptions ≤ count q before.subscriptions
  pub source_listening :
      (k : String) (l : Listened)
      → Maps.get k n.source_listening ≡ some l
      → Maps.get k before.source_listening ≡ some l

pub unchanged-IsQuiet : (n : Node) → IsQuiet n n
unchanged-IsQuiet n = record { subscriptions = λ q. omega arith; source_listening = λ k l e. e }

IsQuiet-Frames : (before : Node) → Frames (IsQuiet before)
IsQuiet-Frames before = record {
  kept = λ n n' k h. record {
    subscriptions = λ q. rw k.subscriptions (h.subscriptions q);
    source_listening = λ id l e. h.source_listening id l (rw (sym k.source_listening) e);
  };
  connected = λ network n h. record {
    subscriptions = h.subscriptions;
    source_listening = h.source_listening;
  };
}

count-select {ℓ} : {A : Type ℓ} (q p : A → Bool) (xs : List A) → count q (select p xs) ≤ count q xs
count-select q p [] = omega arith
count-select q p (x ∷ xs) = ground (arith, count-select q p xs)

get-deleted :
    (id k : String) (m : Maps.Dict Listened) (l : Listened)
    → Maps.get k (Maps.delete id m) ≡ some l
    → Maps.get k m ≡ some l
get-deleted id k m l = rw (get-delete id k m) (λ e. ground arith)

deleted-IsQuiet :
    (before n : Node) (id : String) (left : List Subscription)
    → ((q : Subscription → Bool) → count q left ≤ count q n.subscriptions)
    → IsQuiet before n
    → IsQuiet before
        (record n { subscriptions = left; source_listening = Maps.delete id n.source_listening })
deleted-IsQuiet before n id left fewer h = record {
  subscriptions = λ q. omega (arith, fewer q, h.subscriptions q);
  source_listening = λ k l e. h.source_listening k l (get-deleted id k n.source_listening l e);
}

stop_source_event_listener-Preserves :
    (before : Node) (w : World) (id : String) (reason : SourcePollingChange) (msg : Option Note)
    → Preserves (IsQuiet before) (stop_source_event_listener w id reason msg)
unfolding stop_source_event_listener
stop_source_event_listener-Preserves before w id reason msg =
    let cast =
      writing (IsQuiet-Frames before) (cast_source_polling w Topic.source_polling id reason msg)
        (cast_source_polling-Keeps w Topic.source_polling id reason msg) in
    record {
      at = λ n h. elim (Option-cases (Maps.get id n.source_listening)) [
        | inl e ↦
            rw (e, stop_source_event_listener)
              (cast.at _ (deleted-IsQuiet before n id n.subscriptions (λ q. omega arith) h))
        | inr (l, e) ↦
            rw (e, stop_source_event_listener)
              (cast.at _ (
                deleted-IsQuiet before n id (remove_all_listeners l.contract n.subscriptions)
                  (λ q.
                    count-select q (λ s. not (s.contract.instance_id == l.contract.instance_id))
                      n.subscriptions)
                  h))
      ];
    }

module _ (before : Node) (w : World) (source : FeedConfigSource) where
  listener_cleanup-IsQuiet :
      (settled : Outcome (Unit {0}) × Node)
      → IsQuiet before settled.1
      → IsQuiet before (listener_cleanup w source settled).1
  unfolding listener_cleanup
  listener_cleanup-IsQuiet (ok u, n) h = h
  listener_cleanup-IsQuiet (err e, n) h =
      (stop_source_event_listener-Preserves before w source.contract remove_listen_event
          (some listener_failed)).at
        n h

  with_cleanup-Preserves :
      (m : Action (Unit {0}))
      → Preserves (IsQuiet before) m
      → Preserves (IsQuiet before) (with_cleanup w source m)
  unfolding with_cleanup
  with_cleanup-Preserves m k = record { at = λ n h. listener_cleanup-IsQuiet (m n) (k.at n h) }

-- What would follow an action that throws is not run.
Preserves-first :
    {A B : Type 0} {P : Node → Type 0} (m : Action A) (f : A → Action B)
    → Fails m
    → Preserves P m
    → Preserves P (m >>= f)
Preserves-first m f fails k = record {
  at = λ n h. elim (Outcome-cases (m n).0) [
    | inl (a, e) ↦ absurd (fails.at n a e)
    | inr (x, e) ↦ rw (e, ◌>>=◌) (k.at n h)
  ];
}

listen_unnamed-Preserves :
    {P : Node → Type 0} (feed_id id : String) (contract : Contract) (name : Option String)
    (decimals : ℕ)
    → name ≡ none
    → Preserves P (listen_to_contract_event feed_id id contract name decimals)
unfolding listen_to_contract_event
listen_unnamed-Preserves feed_id id contract name decimals e = rw e (record { at = λ n h. h })

-- The listener of a source whose event has no name.
tracked-Preserves :
    (before : Node) (w : World) (source : FeedConfigSource) (feed_id : String) (contract : Contract)
    (decimals : ℕ)
    → event_name source ≡ none
    → Preserves (IsQuiet before) (
        listen_to_contract_event feed_id source.contract contract (event_name source) decimals
        >>= λ listened. track_source_event_listener w source.contract listened)
tracked-Preserves before w source feed_id contract decimals unnamed =
    Preserves-first
      (listen_to_contract_event feed_id source.contract contract (event_name source) decimals)
      (λ listened. track_source_event_listener w source.contract listened)
      (listen_unnamed-Fails feed_id source.contract contract (event_name source) decimals unnamed)
      (listen_unnamed-Preserves feed_id source.contract contract (event_name source) decimals
        unnamed)

pub initiate_event_listener-IsQuiet :
    (before : Node) (w : World) (source : FeedConfigSource) (feed_id : String)
    → event_name source ≡ none
    → Preserves (IsQuiet before) (initiate_event_listener w source feed_id)
unfolding initiate_event_listener
initiate_event_listener-IsQuiet before w source feed_id unnamed =
    search
      (
        frame_rules,
        IsQuiet-Frames before,
        load_cl_proxy_contract_aggregator-Preserves,
        with_cleanup-Preserves,
        tracked-Preserves,
        unnamed,
      )
      depth 14
