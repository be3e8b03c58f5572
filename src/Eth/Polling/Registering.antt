-- ===== src/Eth/Polling/Registering.antt =====
-- The start of a listener: a contract object with no callback gets one, and a source that is listened
-- to on it.
use chainlink_eth_secret_net.Base.{
  ℕ, ◌<◌, String, ◌∷◌, Option, none, some, true, false, not, ◌&&◌, ◌≡◌, inl, inr, arith, Bool-cases,
  str_eq_iff, nat_eq, string_eq,
}
use chainlink_eth_secret_net.Base.Maps
use chainlink_eth_secret_net.Base.Maps.{get-set, get-delete}
use chainlink_eth_secret_net.Data.SourceEnums.{add_listen_event}
use chainlink_eth_secret_net.Data.Channels.{Topic}
use chainlink_eth_secret_net.Eth.World.{World, listening_started}
use chainlink_eth_secret_net.Eth.Action.{Node, Contract, Subscription}
use chainlink_eth_secret_net.Eth.Action.Leading.{Leads}
use chainlink_eth_secret_net.Eth.Casting.Written.{Keeps, cast_source_polling-Keeps}
use chainlink_eth_secret_net.Eth.Casting.{cast_source_polling}
use chainlink_eth_secret_net.Eth.Frames.{writing}
use chainlink_eth_secret_net.Eth.Polling.{
  is_some, listen_to_contract_event, track_source_event_listener,
}
use chainlink_eth_secret_net.Eth.Polling.Heard.{
  hears, contract_of, contract_of-set, IsListening, IsListening-Frames,
}

-- A contract object that no callback is registered on.
pub record Unheard (c : Contract) (n : Node) : Type 0 where
  pub listening : IsListening n
  pub made : c.instance_id < n.calls
  pub silent : hears c.instance_id n.subscriptions ≡ false

-- A contract object with a callback, which no source is listened to on.
pub record Untracked (c : Contract) (n : Node) : Type 0 where
  pub listening : IsListening n
  pub registered : hears c.instance_id n.subscriptions ≡ true
  pub free : (k : String) → contract_of k n ≡ some c.instance_id → ⊥

registered-Untracked :
    (s : Subscription) (n : Node)
    → Unheard s.contract n
    → Untracked s.contract (record n { subscriptions = s ∷ n.subscriptions })
registered-Untracked s n u = record {
  listening = record {
    below = λ i r. ground (arith, u.made, u.listening.below i);
    heard = λ k i e. ground (arith, u.listening.heard k i);
    distinct = u.listening.distinct;
  };
  registered = ground arith;
  free = λ k e. ground (arith, u.silent, u.listening.heard k s.contract.instance_id);
}

pub listen_to_contract_event-Leads :
    (feed id : String) (c : Contract) (e : Option String) (d : ℕ)
    → Leads (Unheard c) (listen_to_contract_event feed id c e d) Untracked IsListening
unfolding listen_to_contract_event
listen_to_contract_event-Leads feed id c none d = record {
  returned = λ n a u r. cc r;
  thrown = λ n e u r. u.listening;
}
listen_to_contract_event-Leads feed id c (some e) d = record {
  returned = λ n a u r.
      let same : c ≡ a = cc r in
      rw (← same) (
        registered-Untracked
          (record {
            contract = c;
            feed_id = feed;
            source_id = id;
            event_signature = e;
            decimals = d;
          })
          n u);
  thrown = λ n x u r. cc r;
}

tracked-IsListening :
    (id : String) (c : Contract) (n : Node)
    → Untracked c n
    → IsListening (record n {
      source_listening = Maps.set id (record { last = none; contract = c }) n.source_listening;
    })
tracked-IsListening id c n u = record {
  below = u.listening.below;
  heard = λ k i e. ground (
    arith,
    contract_of-set id k (record { last = none; contract = c }) n,
    u.registered,
    u.listening.heard k i,
  );
  distinct = λ j k i e f. ground (
    arith,
    contract_of-set id j (record { last = none; contract = c }) n,
    contract_of-set id k (record { last = none; contract = c }) n,
    str_eq_iff id j,
    str_eq_iff id k,
    u.free j,
    u.free k,
    u.listening.distinct j k i,
  );
}

track_source_event_listener-IsListening :
    (w : World) (id : String) (c : Contract) (n : Node)
    → Untracked c n
    → IsListening (track_source_event_listener w id c n).1
unfolding track_source_event_listener
track_source_event_listener-IsListening w id c n u =
    elim (Bool-cases (
      is_some (Maps.get id n.source_polling)
      && not w.settings.source_polling_allow_multiple_by_same_issuer)) [
        | inl e ↦ rw e (u.listening)
        | inr e ↦ rw e (
            (writing IsListening-Frames
                (cast_source_polling w Topic.source_polling id add_listen_event
                  (some listening_started))
                (cast_source_polling-Keeps w Topic.source_polling id add_listen_event
                  (some listening_started))).at
              _ (tracked-IsListening id c n u))
      ]

pub track_source_event_listener-Leads :
    (w : World) (id : String) (c : Contract)
    → Leads (Untracked c) (track_source_event_listener w id c) (λ u. IsListening) IsListening
track_source_event_listener-Leads w id c = record {
  returned = λ n a u e. track_source_event_listener-IsListening w id c n u;
  thrown = λ n x u e. track_source_event_listener-IsListening w id c n u;
}

pub Keeps-Unheard : (c : Contract) (n n' : Node) → Keeps n n' → Unheard c n → Unheard c n'
Keeps-Unheard c n n' k u = record {
  listening = IsListening-Frames.kept n n' k u.listening;
  made = omega (arith, k.calls, u.made);
  silent = rw (k.subscriptions) (u.silent);
}
