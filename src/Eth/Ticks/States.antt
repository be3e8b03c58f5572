-- ===== src/Eth/Ticks/States.antt =====
-- How many errors end the polling of a source.
use chainlink_eth_secret_net.Base.{
  ℕ, suc, ◌≤◌, ◌<◌, String, List, [], ◌∷◌, Option, none, some, true, false, leb, ◌≡◌, refl, ◌∙◌,
  inl, inr, arith, Bool-cases, Option-cases, str_eq_iff, ◌==◌, nat_eq, string_eq, if◌then◌else◌,
}
use chainlink_eth_secret_net.Base.Maps
use chainlink_eth_secret_net.Base.Maps.{get-set, get-delete}
use chainlink_eth_secret_net.Data.SourceEnums.{SourceDataUpdateReason, remove_periodic}
use chainlink_eth_secret_net.Data.Records.{FeedSourceData}
use chainlink_eth_secret_net.Eth.World.{
  World, Failure, Note, too_many_errors, Step, within, stop_polling, cast_check, cast_change,
}
use chainlink_eth_secret_net.Eth.Action.{Node, Polled, Interval, ask, pure, rethrow}
use chainlink_eth_secret_net.Data.FeedEnums.{FeedSourceNotifOn}
use chainlink_eth_secret_net.Eth.Casting.{cast_source_data_update, cast_error_source_config}
use chainlink_eth_secret_net.Data.Channels.{source_polling_handle_fail}
use chainlink_eth_secret_net.Eth.Contracts.{load_contract_latest_round_data}
use chainlink_eth_secret_net.Eth.Casting.Written.{
  Keeps, cast_source_data_update-Keeps, cast_error_source_config-Keeps,
}
use chainlink_eth_secret_net.Eth.Contracts.RoundChecks.{load_contract_latest_round_data-Keeps}
use chainlink_eth_secret_net.Eth.Polling.{
  clear_interval, check_for_source_data_change, stop_source_polling,
}
use chainlink_eth_secret_net.Eth.Polling.Stops.{stop_tracked}
use chainlink_eth_secret_net.Eth.Polling.Timers.{
  KeepsTimers, KeepsTimers-refl, Keeps-KeepsTimers, timeout_of,
  check_for_source_data_change-KeepsTimers, bind-KeepsTimers,
}
use chainlink_eth_secret_net.Eth.Action.Outcomes.{Outcome-cases}
use chainlink_eth_secret_net.Eth.Ticks.{
  interval_of, put_interval, notify_data, poll_data, note_polling_error,
}

interval_of-id : (t : ℕ) (l : List Interval) (i : Interval) → interval_of t l ≡ some i → i.id ≡ t
interval_of-id t [] i h = cc
interval_of-id t (j ∷ l) i h = ground (arith, interval_of-id t l i)

interval_of-put_interval :
    (t : ℕ) (j : Interval) (l : List Interval)
    → interval_of t (put_interval j l) ≡ (
        if j.id == t
        then elim (interval_of t l) [ none ↦ none | some _ ↦ some j ]
        else interval_of t l)
interval_of-put_interval t j [] = ground arith
interval_of-put_interval t j (i ∷ l) = ground (arith, interval_of-put_interval t j l)

interval_of-clear_interval :
    (t u : ℕ) (l : List Interval)
    → interval_of t (clear_interval u l) ≡ (if t == u then none else interval_of t l)
interval_of-clear_interval t u [] = ground arith
interval_of-clear_interval t u (i ∷ l) = ground (arith, interval_of-clear_interval t u l)

cast-KeepsTimers :
    (w : World) (s : Step) (feed id : String) (d : FeedSourceData) (reason : SourceDataUpdateReason)
    (n : Node)
    → KeepsTimers n (rethrow s (cast_source_data_update w feed id d reason) n).1
cast-KeepsTimers w s feed id d reason n =
    Keeps-KeepsTimers n (cast_source_data_update w feed id d reason n).1
      (cast_source_data_update-Keeps w feed id d reason n)

notify_data-KeepsTimers :
    (w : World) (i : Interval) (d : FeedSourceData) (n : Node)
    → KeepsTimers n (notify_data w i d n).1
unfolding notify_data
notify_data-KeepsTimers w i d n = elim (Option-cases i.source.notif) [
  | inl e ↦ rw (e, notify_data) (KeepsTimers-refl n)
  | inr (FeedSourceNotifOn.check, e) ↦
      rw (e, notify_data)
        (bind-KeepsTimers (ask (λ c. some (w.runtime.iso_now c)))
          (λ time. rethrow cast_check (
            cast_source_data_update w i.feed_id i.contract.address (record d { time = time })
              SourceDataUpdateReason.periodic))
          n (record { intervals = refl; timeouts = λ k. refl; calls = omega arith })
          (λ time m.
            cast-KeepsTimers w cast_check i.feed_id i.contract.address (record d { time = time })
              SourceDataUpdateReason.periodic m))
  | inr (FeedSourceNotifOn.change, e) ↦
      rw (e, notify_data)
        (bind-KeepsTimers (check_for_source_data_change i.contract.address d)
          (λ has_changed.
            if has_changed
            then rethrow cast_change (
                cast_source_data_update w i.feed_id i.contract.address d
                  SourceDataUpdateReason.data_change)
            else pure tt)
          n (check_for_source_data_change-KeepsTimers i.contract.address d n)
          (λ has_changed m. elim (Bool-cases has_changed) [
            | inl c ↦ rw c (
                cast-KeepsTimers w cast_change i.feed_id i.contract.address d
                  SourceDataUpdateReason.data_change m)
            | inr c ↦ rw c (KeepsTimers-refl m)
          ]))
]

-- A poll ends no timer, and no source is tracked with another one.
pub poll_data-KeepsTimers :
    (w : World) (i : Interval) (n : Node) → KeepsTimers n (poll_data w i n).1
unfolding poll_data
poll_data-KeepsTimers w i n =
    bind-KeepsTimers (load_contract_latest_round_data w i.contract i.decimals true)
      (notify_data w i) n
      (Keeps-KeepsTimers n (load_contract_latest_round_data w i.contract i.decimals true n).1
        (load_contract_latest_round_data-Keeps w i.contract i.decimals true n))
      (notify_data-KeepsTimers w i)

-- The timer runs with the variables of the callback, and its source is tracked with it.
pub record Polls (n : Node) (i : Interval) : Type 0 where
  pub running : interval_of i.id n.intervals ≡ some i
  pub tracked : timeout_of (Maps.get i.contract.address n.source_polling) ≡ some i.id

-- The timer has ended, and its source is no longer tracked.
pub record Stopped (n : Node) (i : Interval) : Type 0 where
  pub ended : interval_of i.id n.intervals ≡ none
  pub forgotten : Maps.get i.contract.address n.source_polling ≡ none

abbrev pub with_errors : ℕ → Interval → Interval
with_errors k i = record i { polling_error_counter = k }

pub note_polling_error-more :
    (w : World) (i : Interval) (e : Failure) (n : Node)
    → Polls n i
    → suc (suc i.polling_error_counter) < w.settings.max_successive_error_to_stop_polling
    → Polls (note_polling_error w i e n).1 (with_errors (suc i.polling_error_counter) i)
unfolding note_polling_error
note_polling_error-more w i e n p h =
    let few : leb w.settings.max_successive_error_to_stop_polling
          (suc (suc i.polling_error_counter))
        ≡ false =
      ground arith in
    rw few (record {
      running =
          rw
            (interval_of-put_interval i.id (with_errors (suc i.polling_error_counter) i)
              n.intervals)
            (ground (arith, p.running));
      tracked = p.tracked;
    })

tracked-get :
    (i : Interval) (n : Node)
    → Polls n i
    → (q : Polled) × (Maps.get i.contract.address n.source_polling ≡ some q) × (q.timeout ≡ i.id)
tracked-get i n p = elim (Option-cases (Maps.get i.contract.address n.source_polling)) [
  | inl e ↦ ground (arith, p.tracked)
  | inr (q, e) ↦ (q, e, ground (arith, p.tracked))
]

-- The stop of a source that is polled.
stop_source_polling-Stopped :
    (w : World) (i : Interval) (msg : Option Note) (n : Node)
    → Polls n i
    → Stopped (stop_source_polling w i.contract.address remove_periodic msg n).1 i
stop_source_polling-Stopped w i msg n p =
    let (q, e, t) = tracked-get i n p in
    let (forgotten, ended) = stop_tracked w i.contract.address remove_periodic msg n q e in
    record {
      ended = rw ended (rw (interval_of-clear_interval i.id q.timeout n.intervals) (ground arith));
      forgotten = rw forgotten (
          rw (get-delete i.contract.address i.contract.address n.source_polling)
            (ground (arith, str_eq_iff i.contract.address i.contract.address)));
    }

Stopped-put :
    (i j : Interval) (n n' : Node)
    → Keeps n n'
    → Stopped n i
    → Stopped (record n' { intervals = put_interval j n'.intervals }) i
Stopped-put i j n n' k s = record {
  ended =
      rw (interval_of-put_interval i.id j n'.intervals)
        (rw (k.intervals) (rw (s.ended) (ground arith)));
  forgotten = rw (k.source_polling) (s.forgotten);
}

pub note_polling_error-last :
    (w : World) (i : Interval) (e : Failure) (n : Node)
    → Polls n i
    → w.settings.max_successive_error_to_stop_polling ≤ suc (suc i.polling_error_counter)
    → Stopped (note_polling_error w i e n).1 i
unfolding note_polling_error
note_polling_error-last w i e n p h =
    let few : leb w.settings.max_successive_error_to_stop_polling
          (suc (suc i.polling_error_counter))
        ≡ true =
      ground arith in
    let j = with_errors (suc i.polling_error_counter) i in
    let n1 = record n { intervals = put_interval j n.intervals } in
    let stop =
      stop_source_polling w i.contract.address remove_periodic
        (some (too_many_errors (suc i.polling_error_counter) e)) n1 in
    let stopped =
      stop_source_polling-Stopped w j (some (too_many_errors (suc i.polling_error_counter) e)) n1
        (record {
          running = rw (interval_of-put_interval i.id j n.intervals) (ground (arith, p.running));
          tracked = p.tracked;
        }) in
    rw few (elim (Outcome-cases stop.0) [
      | inl (u, done) ↦ rw done (record { ended = stopped.ended; forgotten = stopped.forgotten })
      | inr (x, failed) ↦
          let cast =
            cast_error_source_config w source_polling_handle_fail i.source i.feed_id
              (within stop_polling x) stop.1 in
          rw failed (
            Stopped-put i (record j { source = cast.0 }) stop.1 cast.2
              (cast_error_source_config-Keeps w source_polling_handle_fail i.source i.feed_id
                (within stop_polling x) stop.1)
              (record { ended = stopped.ended; forgotten = stopped.forgotten }))
    ])

pub Polls-KeepsTimers : (i : Interval) (n n' : Node) → KeepsTimers n n' → Polls n i → Polls n' i
Polls-KeepsTimers i n n' k p = record {
  running = rw (k.intervals) (p.running);
  tracked = k.timeouts i.contract.address ∙ p.tracked;
}
