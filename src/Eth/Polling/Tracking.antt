-- ===== src/Eth/Polling/Tracking.antt =====
-- The timers of the tracked sources: each tracked source has a running timer of its own, after any
-- of the operations on them in eth-client/src/eth-connect.service.ts.
use chainlink_eth_secret_net.Base.{
  sym, ◌∙◌, ℕ, ◌<◌, String, List, [], ◌∷◌, Option, none, some, true, not, ◌&&◌, ◌≡◌, inl, inr,
  arith, Bool-cases, Option-cases, str_eq_iff, ◌==◌, nat_eq, string_eq, if◌then◌else◌,
}
use chainlink_eth_secret_net.Base.Maps
use chainlink_eth_secret_net.Base.Maps.{get-set, get-delete}
use chainlink_eth_secret_net.Data.SourceEnums.{SourcePollingChange, add_periodic, remove_periodic}
use chainlink_eth_secret_net.Data.Channels.{Topic, error_source, source_polling_handle_fail}
use chainlink_eth_secret_net.Data.Records.{FeedConfigSource}
use chainlink_eth_secret_net.Eth.World.{World, Note, polling_started, shutting_down}
use chainlink_eth_secret_net.Eth.Action.{Action, Node, Polled, Contract, pure, ◌>>=◌}
use chainlink_eth_secret_net.Eth.Action.Outcomes.{Outcome-cases}
use chainlink_eth_secret_net.Eth.Action.Keeping.{Preserves}
use chainlink_eth_secret_net.Eth.Casting.Written.{cast_source_polling-Keeps, cast_error-Keeps}
use chainlink_eth_secret_net.Eth.Casting.{cast_source_polling, cast_error}
use chainlink_eth_secret_net.Eth.Frames.{Frames, writing}
use chainlink_eth_secret_net.Eth.Polling.{
  clear_interval, start_polling_data, track_source_polling, stop_source_polling, is_some, reported,
  stop_and_report, stop_each, stop_all_source_polling,
}
use chainlink_eth_secret_net.Eth.Polling.Stops.{runs, runs-clear_interval}
use chainlink_eth_secret_net.Eth.Polling.Timers.{KeepsTimers, timeout_of, Keeps-KeepsTimers}

-- The timer that a source is tracked with.
abbrev pub timer_of : String → Node → Option ℕ
timer_of k n = timeout_of (Maps.get k n.source_polling)

pub record IsTracking (n : Node) : Type 0 where
  pub below : (t : ℕ) → runs t n.intervals ≡ true → t < n.calls
  pub running : (k : String) (t : ℕ) → timer_of k n ≡ some t → runs t n.intervals ≡ true
  pub distinct : (j k : String) (t : ℕ) → timer_of j n ≡ some t → timer_of k n ≡ some t → j ≡ k

pub KeepsTimers-IsTracking : (n n' : Node) → KeepsTimers n n' → IsTracking n → IsTracking n'
KeepsTimers-IsTracking n n' k h = record {
  below = λ t r. ground (arith, k.calls, h.below t (rw (sym k.intervals) r));
  running = λ id t e. rw (k.intervals) (h.running id t (sym (k.timeouts id) ∙ e));
  distinct = λ i j t e f. h.distinct i j t (sym (k.timeouts i) ∙ e) (sym (k.timeouts j) ∙ f);
}

-- A timer that runs and that no source is tracked with.
record Spare (t : ℕ) (n : Node) : Type 0 where
  tracking : IsTracking n
  started : runs t n.intervals ≡ true
  untracked : (k : String) → timer_of k n ≡ some t → ⊥

start_polling_data-Spare :
    (feed : String) (s : FeedConfigSource) (c : Contract) (d : ℕ) (n : Node)
    → IsTracking n
    → Spare n.calls (start_polling_data feed s c d n).1
unfolding start_polling_data
start_polling_data-Spare feed s c d n h = record {
  tracking = record {
    below = λ t r. ground (arith, h.below t);
    running = λ k t e. ground (arith, h.running k t e);
    distinct = h.distinct;
  };
  started = ground arith;
  untracked = λ k e. omega (arith, h.below n.calls (h.running k n.calls e));
}

timer_of-set :
    (id k : String) (p : Polled) (n : Node)
    → timeout_of (Maps.get k (Maps.set id p n.source_polling))
      ≡ (if id == k then some p.timeout else timer_of k n)
timer_of-set id k p n = ground (arith, get-set id k p n.source_polling, str_eq_iff id k)

tracked-IsTracking :
    (id : String) (t : ℕ) (n : Node)
    → Spare t n
    → IsTracking (record n {
      source_polling = Maps.set id (record { last = none; timeout = t }) n.source_polling;
    })
tracked-IsTracking id t n s = record {
  below = s.tracking.below;
  running = λ k u e. ground (
    arith,
    timer_of-set id k (record { last = none; timeout = t }) n,
    s.started,
    s.tracking.running k u,
  );
  distinct = λ j k u e f. ground (
    arith,
    timer_of-set id j (record { last = none; timeout = t }) n,
    timer_of-set id k (record { last = none; timeout = t }) n,
    str_eq_iff id j,
    str_eq_iff id k,
    s.untracked j,
    s.untracked k,
    s.tracking.distinct j k u,
  );
}

track_source_polling-IsTracking :
    (w : World) (id : String) (t : ℕ) (n : Node)
    → Spare t n
    → IsTracking (track_source_polling w id t n).1
unfolding track_source_polling
track_source_polling-IsTracking w id t n s =
    elim (Bool-cases (
      is_some (Maps.get id n.source_polling)
      && not w.settings.source_polling_allow_multiple_by_same_issuer)) [
        | inl e ↦ rw e (s.tracking)
        | inr e ↦ rw e (
            let m : Node = record n {
              source_polling = Maps.set id (record { last = none; timeout = t }) n.source_polling;
            } in
            KeepsTimers-IsTracking m
              (cast_source_polling w Topic.source_polling id add_periodic (some polling_started)
                m).1
              (Keeps-KeepsTimers m
                (cast_source_polling w Topic.source_polling id add_periodic (some polling_started)
                  m).1
                (cast_source_polling-Keeps w Topic.source_polling id add_periodic
                  (some polling_started) m))
              (tracked-IsTracking id t n s))
      ]

timer_of-delete :
    (id k : String) (n : Node)
    → timeout_of (Maps.get k (Maps.delete id n.source_polling))
      ≡ (if id == k then none else timer_of k n)
timer_of-delete id k n = ground (arith, get-delete id k n.source_polling, str_eq_iff id k)

cleared-IsTracking :
    (id : String) (p : Polled) (n : Node)
    → Maps.get id n.source_polling ≡ some p
    → IsTracking n
    → IsTracking (record n {
      intervals = clear_interval p.timeout n.intervals;
      source_polling = Maps.delete id n.source_polling;
    })
cleared-IsTracking id p n e h = record {
  below = λ t r. ground (arith, runs-clear_interval t p.timeout n.intervals, h.below t);
  running = λ k t f. ground (
    arith,
    runs-clear_interval t p.timeout n.intervals,
    timer_of-delete id k n,
    str_eq_iff id k,
    h.running k t,
    h.distinct id k t,
  );
  distinct =
      λ j k t f g. ground (arith, timer_of-delete id j n, timer_of-delete id k n, h.distinct j k t);
}

-- An action that neither starts nor ends a timer.
pub still :
    {A : Type 0} (m : Action A) → ((n : Node) → KeepsTimers n (m n).1) → Preserves IsTracking m
still m k = record { at = λ n. KeepsTimers-IsTracking n (m n).1 (k n) }

-- Calls of other systems and records leave the timers alone.
pub IsTracking-Frames : Frames IsTracking
IsTracking-Frames = record {
  kept = λ n n' k. KeepsTimers-IsTracking n n' (Keeps-KeepsTimers n n' k);
  connected = λ network n h. record { below = h.below; running = h.running; distinct = h.distinct };
}

pub stop_source_polling-Preserves :
    (w : World) (id : String) (reason : SourcePollingChange) (msg : Option Note)
    → Preserves IsTracking (stop_source_polling w id reason msg)
unfolding stop_source_polling
stop_source_polling-Preserves w id reason msg = record {
  at = λ n h. elim (Option-cases (Maps.get id n.source_polling)) [
    | inl e ↦ rw (e, stop_source_polling) h
    | inr (p, e) ↦
        rw (e, stop_source_polling)
          (let m : Node = record n {
            intervals = clear_interval p.timeout n.intervals;
            source_polling = Maps.delete id n.source_polling;
          } in
            (writing IsTracking-Frames (cast_source_polling w Topic.source_polling id reason msg)
                (cast_source_polling-Keeps w Topic.source_polling id reason msg)).at
              m (cleared-IsTracking id p n e h))
  ];
}

stop_and_report-IsTracking :
    (w : World) (id : String) (n : Node) → IsTracking n → IsTracking (stop_and_report w id n)
unfolding stop_and_report reported
stop_and_report-IsTracking w id n h =
    let stop = stop_source_polling w id remove_periodic (some shutting_down) n in
    let kept = (stop_source_polling-Preserves w id remove_periodic (some shutting_down)).at n h in
    elim (Outcome-cases stop.0) [
      | inl (u, e) ↦ rw e kept
      | inr (x, e) ↦ rw e (
          (writing IsTracking-Frames (cast_error w error_source source_polling_handle_fail id x)
              (cast_error-Keeps w error_source source_polling_handle_fail id x)).at
            stop.1 kept)
    ]

stop_each-IsTracking :
    (w : World) (ids : List String) (n : Node) → IsTracking n → IsTracking (stop_each w ids n)
unfolding stop_each
stop_each-IsTracking w [] n h = h
stop_each-IsTracking w (id ∷ ids) n h =
    stop_each-IsTracking w ids (stop_and_report w id n) (stop_and_report-IsTracking w id n h)

pub stop_all_source_polling-Preserves :
    (w : World) → Preserves IsTracking (stop_all_source_polling w)
unfolding stop_all_source_polling
stop_all_source_polling-Preserves w = record {
  at = λ n. stop_each-IsTracking w (Maps.keys n.source_polling) n;
}

-- A timer that starts, and a source that is then tracked with it: one without the other would not do.
pub start_and_track-Preserves :
    (w : World) (feed : String) (s : FeedConfigSource) (c : Contract) (d : ℕ) (id : String)
    → Preserves IsTracking
        (start_polling_data feed s c d >>= λ t. track_source_polling w id t >>= λ _. pure (some t))
unfolding start_polling_data track_source_polling
start_and_track-Preserves w feed s c d id = record {
  at = λ n h.
      let started = (start_polling_data feed s c d n).1 in
      let tracked =
        track_source_polling-IsTracking w id n.calls started
          (start_polling_data-Spare feed s c d n h) in
      elim (Outcome-cases (track_source_polling w id n.calls started).0) [
        | inl (u, e) ↦ rw e tracked
        | inr (x, e) ↦ rw e tracked
      ];
}
