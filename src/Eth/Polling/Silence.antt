-- ===== src/Eth/Polling/Silence.antt =====
-- The stop of all listeners, and the changes of the timers, under which each source that is listened to
-- keeps a callback of its own.
use chainlink_eth_secret_net.Base.{
  ℕ, String, List, [], ◌∷◌, Option, none, some, false, not, ◌&&◌, ◌≡◌, inl, inr, refl, arith,
  Bool-cases, Option-cases, ◌==◌, string_eq, if◌then◌else◌, includes,
}
use chainlink_eth_secret_net.Base.Maps
use chainlink_eth_secret_net.Base.Maps.{get-delete}
use chainlink_eth_secret_net.Data.SourceEnums.{
  SourcePollingChange, add_periodic, remove_periodic, remove_listen_event,
}
use chainlink_eth_secret_net.Data.Channels.{Topic}
use chainlink_eth_secret_net.Data.Records.{FeedConfigSource, FeedSourceData}
use chainlink_eth_secret_net.Eth.World.{World, Note, polling_started, shutting_down}
use chainlink_eth_secret_net.Eth.Action.{Action, Node, Contract, pure, ◌>>=◌}
use chainlink_eth_secret_net.Eth.Action.Keeping.{Preserves, preserves_rules}
use chainlink_eth_secret_net.Eth.Casting.{cast_source_polling}
use chainlink_eth_secret_net.Eth.Casting.Written.{cast_source_polling-Keeps}
use chainlink_eth_secret_net.Eth.Polling.{
  is_some, clear_interval, start_polling_data, track_source_polling, check_for_source_data_change,
  stop_source_event_listener, stop_listener_and_report, stop_each_listener,
  stop_all_source_event_listener, stop_source_polling, stop_and_report, stop_each,
  stop_all_source_polling,
}
use chainlink_eth_secret_net.Eth.Polling.Stops.{reported-Keeps, get-keys}
use chainlink_eth_secret_net.Eth.Polling.Heard.{
  contract_of, IsListening, KeepsListeners, KeepsListeners-IsListening, Keeps-KeepsListeners,
}

stop_source_event_listener-get :
    (w : World) (id k : String) (reason : SourcePollingChange) (msg : Option Note) (n : Node)
    → Maps.get k (stop_source_event_listener w id reason msg n).1.source_listening
      ≡ (if id == k then none else Maps.get k n.source_listening)
unfolding stop_source_event_listener
stop_source_event_listener-get w id k reason msg n =
    rw ((cast_source_polling-Keeps w Topic.source_polling id reason msg _).source_listening)
      (get-delete id k n.source_listening)

stop_listener_and_report-get :
    (w : World) (id k : String) (n : Node)
    → Maps.get k (stop_listener_and_report w id n).source_listening
      ≡ (if id == k then none else Maps.get k n.source_listening)
unfolding stop_listener_and_report
stop_listener_and_report-get w id k n =
    let stop = stop_source_event_listener w id remove_listen_event (some shutting_down) n in
    rw ((reported-Keeps w id stop.0 stop.1).source_listening)
      (stop_source_event_listener-get w id k remove_listen_event (some shutting_down) n)

stop_each_listener-get :
    (w : World) (ids : List String) (n : Node)
    → ((k : String) → includes ids k ≡ false → Maps.get k n.source_listening ≡ none)
    → (k : String) → Maps.get k (stop_each_listener w ids n).source_listening ≡ none
unfolding stop_each_listener
stop_each_listener-get w [] n h k = h k refl
stop_each_listener-get w (id ∷ ids) n h k =
    stop_each_listener-get w ids (stop_listener_and_report w id n)
      (λ j out. rw (stop_listener_and_report-get w id j n) (ground (arith, h j))) k

-- After a stop of all listeners no source is listened to, whichever of the reports fail.
pub stop_all_source_event_listener-get :
    (w : World) (n : Node) (k : String)
    → Maps.get k (stop_all_source_event_listener w n).1.source_listening ≡ none
unfolding stop_all_source_event_listener
stop_all_source_event_listener-get w n k =
    stop_each_listener-get w (Maps.keys n.source_listening) n (get-keys n.source_listening) k

pub stop_all_source_event_listener-IsListening :
    (w : World) → Preserves IsListening (stop_all_source_event_listener w)
unfolding stop_all_source_event_listener
stop_all_source_event_listener-IsListening w = record {
  at = λ n h.
      let gone : (k : String) → contract_of k (stop_all_source_event_listener w n).1 ≡ none =
        λ k. rw (stop_all_source_event_listener-get w n k) refl in
      record {
        below = λ i r. cc r;
        heard = λ k i e. cc (e, gone k);
        distinct = λ j k i e f. cc (e, gone j);
      };
}

-- An action that changes timers only.
timing :
    {A : Type 0} (m : Action A) → ((n : Node) → KeepsListeners n (m n).1) → Preserves IsListening m
timing m k = record { at = λ n. KeepsListeners-IsListening n (m n).1 (k n) }

KeepsListeners-trans : (l m n : Node) → KeepsListeners l m → KeepsListeners m n → KeepsListeners l n
KeepsListeners-trans l m n a b = record {
  source_listening = rw (b.source_listening) (a.source_listening);
  subscriptions = rw (b.subscriptions) (a.subscriptions);
  calls = omega (arith, a.calls, b.calls);
}

-- A report of the polling, after a change that leaves the listeners alone.
cast_source_polling-KeepsListeners :
    (w : World) (id : String) (change : SourcePollingChange) (info : Option Note) (n m : Node)
    → KeepsListeners n m
    → KeepsListeners n (cast_source_polling w Topic.source_polling id change info m).1
cast_source_polling-KeepsListeners w id change info n m k =
    KeepsListeners-trans n m (cast_source_polling w Topic.source_polling id change info m).1 k (
      Keeps-KeepsListeners m (cast_source_polling w Topic.source_polling id change info m).1
        (cast_source_polling-Keeps w Topic.source_polling id change info m))

pub check_for_source_data_change-IsListening :
    (id : String) (d : FeedSourceData) → Preserves IsListening (check_for_source_data_change id d)
unfolding check_for_source_data_change
check_for_source_data_change-IsListening id d =
    timing (check_for_source_data_change id d) (λ n. ground arith)

start_polling_data-IsListening :
    (feed : String) (s : FeedConfigSource) (c : Contract) (d : ℕ)
    → Preserves IsListening (start_polling_data feed s c d)
unfolding start_polling_data
start_polling_data-IsListening feed s c d =
    timing (start_polling_data feed s c d) (λ n. ground arith)

track_source_polling-IsListening :
    (w : World) (id : String) (t : ℕ) → Preserves IsListening (track_source_polling w id t)
unfolding track_source_polling
track_source_polling-IsListening w id t = timing (track_source_polling w id t) (λ n.
    elim (Bool-cases (
      is_some (Maps.get id n.source_polling)
      && not w.settings.source_polling_allow_multiple_by_same_issuer)) [
        | inl e ↦ rw (e, track_source_polling) (ground arith)
        | inr e ↦
            rw (e, track_source_polling)
              (cast_source_polling-KeepsListeners w id add_periodic (some polling_started) n
                (record n {
                  source_polling =
                      Maps.set id (record { last = none; timeout = t }) n.source_polling;
                })
                (ground arith))
      ])

pub start_and_track-IsListening :
    (w : World) (feed : String) (s : FeedConfigSource) (c : Contract) (d : ℕ) (id : String)
    → Preserves IsListening
        (start_polling_data feed s c d >>= λ t. track_source_polling w id t >>= λ _. pure (some t))
start_and_track-IsListening w feed s c d id =
    search (preserves_rules, start_polling_data-IsListening, track_source_polling-IsListening)

stop_source_polling-KeepsListeners :
    (w : World) (id : String) (reason : SourcePollingChange) (msg : Option Note) (n : Node)
    → KeepsListeners n (stop_source_polling w id reason msg n).1
unfolding stop_source_polling
stop_source_polling-KeepsListeners w id reason msg n =
    elim (Option-cases (Maps.get id n.source_polling)) [
      | inl e ↦ rw (e, stop_source_polling) (ground arith)
      | inr (p, e) ↦
          rw (e, stop_source_polling)
            (cast_source_polling-KeepsListeners w id reason msg n
              (record n {
                intervals = clear_interval p.timeout n.intervals;
                source_polling = Maps.delete id n.source_polling;
              })
              (ground arith))
    ]

pub stop_source_polling-IsListening :
    (w : World) (id : String) (reason : SourcePollingChange) (msg : Option Note)
    → Preserves IsListening (stop_source_polling w id reason msg)
stop_source_polling-IsListening w id reason msg =
    timing (stop_source_polling w id reason msg)
      (stop_source_polling-KeepsListeners w id reason msg)

stop_each-KeepsListeners :
    (w : World) (ids : List String) (n : Node) → KeepsListeners n (stop_each w ids n)
unfolding stop_each stop_and_report
stop_each-KeepsListeners w [] n = ground arith
stop_each-KeepsListeners w (id ∷ ids) n =
    let stop = stop_source_polling w id remove_periodic (some shutting_down) n in
    KeepsListeners-trans n (stop_and_report w id n) (stop_each w ids (stop_and_report w id n))
      (KeepsListeners-trans n stop.1 (stop_and_report w id n)
        (stop_source_polling-KeepsListeners w id remove_periodic (some shutting_down) n)
        (Keeps-KeepsListeners stop.1 (stop_and_report w id n) (reported-Keeps w id stop.0 stop.1)))
      (stop_each-KeepsListeners w ids (stop_and_report w id n))

pub stop_all_source_polling-IsListening :
    (w : World) → Preserves IsListening (stop_all_source_polling w)
unfolding stop_all_source_polling
stop_all_source_polling-IsListening w =
    timing (stop_all_source_polling w)
      (λ n. stop_each-KeepsListeners w (Maps.keys n.source_polling) n)
