-- ===== src/Eth/Polling/Stops.antt =====
-- The tracking of polled sources: what a stop, a stop of all and a check of a value leave behind.
use chainlink_eth_secret_net.Base.{
  ℕ, String, List, [], ◌∷◌, Option, none, some, Bool, true, false, not, ◌≡◌, refl, inl, inr, arith,
  includes, Bool-cases, Option-cases, str_eq_iff, ◌==◌, nat_eq, string_eq, if◌then◌else◌,
}
use chainlink_eth_secret_net.Base.Maps
use chainlink_eth_secret_net.Base.Maps.{get-set, get-delete}
use chainlink_eth_secret_net.Data.SourceEnums.{SourcePollingChange, remove_periodic}
use chainlink_eth_secret_net.Data.Channels.{Topic, error_source, source_polling_handle_fail}
use chainlink_eth_secret_net.Data.Records.{FeedSourceData, same_number}
use chainlink_eth_secret_net.Eth.World.{World, Note, not_registered, shutting_down}
use chainlink_eth_secret_net.Eth.Action.{Node, Polled, Interval, Outcome, ok, err}
use chainlink_eth_secret_net.Eth.Casting.Written.{
  Keeps, cast_source_polling-Keeps, cast_error-Keeps,
}
use chainlink_eth_secret_net.Eth.Polling.{
  clear_interval, stop_source_polling, reported, stop_and_report, stop_each,
  stop_all_source_polling, check_for_source_data_change,
}

-- Whether the timer with this handle is running.
abbrev pub runs : ℕ → List Interval → Bool
runs timeout [] = false
runs timeout (i ∷ is) = if i.id == timeout then true else runs timeout is

pub runs-clear_interval :
    (t u : ℕ) (l : List Interval)
    → runs t (clear_interval u l) ≡ (if t == u then false else runs t l)
runs-clear_interval t u [] = ground arith
runs-clear_interval t u (i ∷ l) = ground (arith, runs-clear_interval t u l)

module _ (w : World) (id : String) (reason : SourcePollingChange) (msg : Option Note)
    (n : Node) where
  pub stop_tracked :
      (p : Polled)
      → Maps.get id n.source_polling ≡ some p
      → let n' = (stop_source_polling w id reason msg n).1 in
        (n'.source_polling ≡ Maps.delete id n.source_polling)
        × (n'.intervals ≡ clear_interval p.timeout n.intervals)
  unfolding stop_source_polling
  stop_tracked p e = ground (
    arith,
    cast_source_polling-Keeps w Topic.source_polling id reason msg (record n {
      intervals = clear_interval p.timeout n.intervals;
      source_polling = Maps.delete id n.source_polling;
    }),
  )

  -- Stopping a tracked source ends its timer and forgets it, whether the report of the stop succeeds
  -- or not; other sources and other timers are as before.
  pub stop_source_polling_lem :
      (p : Polled)
      → Maps.get id n.source_polling ≡ some p
      → let n' = (stop_source_polling w id reason msg n).1 in
        ((k : String)
          → Maps.get k n'.source_polling ≡ (if id == k then none else Maps.get k n.source_polling))
        × ((t : ℕ) → runs t n'.intervals ≡ (if t == p.timeout then false else runs t n.intervals))
  stop_source_polling_lem p e = (
    λ k. rw ((stop_tracked p e).0) (get-delete id k n.source_polling),
    λ t. rw ((stop_tracked p e).1) (runs-clear_interval t p.timeout n.intervals),
  )

  -- A stop of a source that is not tracked is refused, and changes nothing.
  pub stop_source_polling-unregistered :
      Maps.get id n.source_polling ≡ none
      → stop_source_polling w id reason msg n ≡ (err not_registered, n)
  unfolding stop_source_polling
  stop_source_polling-unregistered e = rw (e, stop_source_polling)

pub reported-Keeps :
    (w : World) (id : String) (r : Outcome (Unit {0})) (n : Node) → Keeps n (reported w id r n)
unfolding reported
reported-Keeps w id (ok _) n = ground arith
reported-Keeps w id (err e) n = cast_error-Keeps w error_source source_polling_handle_fail id e n

-- The stop of one source at a shutdown: it is forgotten, and no timer starts.
module _ (w : World) (id : String) (n : Node) where
  unfoldable pub stopped : Outcome (Unit {0}) × Node
  stopped = stop_source_polling w id remove_periodic (some shutting_down) n

  pub stop_and_report_kept :
      ((stop_and_report w id n).source_polling ≡ (stopped).1.source_polling)
      × ((stop_and_report w id n).intervals ≡ (stopped).1.intervals)
  unfolding stop_and_report stopped
  stop_and_report_kept =
      let k = reported-Keeps w id (stopped).0 (stopped).1 in (k.source_polling, k.intervals)

  pub stop_and_report-get :
      (k : String)
      → Maps.get k (stop_and_report w id n).source_polling
        ≡ (if id == k then none else Maps.get k n.source_polling)
  unfolding stopped
  stop_and_report-get k =
      rw (stop_and_report_kept.0) (elim (Option-cases (Maps.get id n.source_polling)) [
        | inl e ↦
            rw (stop_source_polling-unregistered w id remove_periodic (some shutting_down) n e)
              (ground (arith, str_eq_iff id k))
        | inr (p, e) ↦ (stop_source_polling_lem w id remove_periodic (some shutting_down) n p e).0 k
      ])

  stop_and_report-runs :
      (t : ℕ) → runs t n.intervals ≡ false → runs t (stop_and_report w id n).intervals ≡ false
  unfolding stopped
  stop_and_report-runs t h =
      rw (stop_and_report_kept.1) (elim (Option-cases (Maps.get id n.source_polling)) [
        | inl e ↦
            rw (stop_source_polling-unregistered w id remove_periodic (some shutting_down) n e) h
        | inr (p, e) ↦
            rw ((stop_source_polling_lem w id remove_periodic (some shutting_down) n p e).1 t)
              (ground arith)
      ])

  stop_and_report-timeout :
      (p : Polled)
      → Maps.get id n.source_polling ≡ some p
      → runs p.timeout (stop_and_report w id n).intervals ≡ false
  unfolding stopped
  stop_and_report-timeout p e = rw (stop_and_report_kept.1) (
      rw ((stop_source_polling_lem w id remove_periodic (some shutting_down) n p e).1 p.timeout)
        (ground arith))

stop_each-runs :
    (w : World) (ids : List String) (n : Node) (t : ℕ)
    → runs t n.intervals ≡ false
    → runs t (stop_each w ids n).intervals ≡ false
unfolding stop_each
stop_each-runs w [] n t h = h
stop_each-runs w (id ∷ ids) n t h =
    stop_each-runs w ids (stop_and_report w id n) t (stop_and_report-runs w id n t h)

-- Stops of all the keys of a map that covers the tracked sources leave none.
stop_each-get :
    (w : World) (ids : List String) (n : Node)
    → ((k : String) → includes ids k ≡ false → Maps.get k n.source_polling ≡ none)
    → (k : String) → Maps.get k (stop_each w ids n).source_polling ≡ none
unfolding stop_each
stop_each-get w [] n h k = h k refl
stop_each-get w (id ∷ ids) n h k =
    stop_each-get w ids (stop_and_report w id n)
      (λ j out. rw (stop_and_report-get w id n j) (ground (arith, h j))) k

stop_each-timeout :
    (w : World) (ids : List String) (n : Node) (k : String) (p : Polled)
    → includes ids k ≡ true
    → Maps.get k n.source_polling ≡ some p
    → runs p.timeout (stop_each w ids n).intervals ≡ false
unfolding stop_each
stop_each-timeout w [] n k p h e = cc
stop_each-timeout w (id ∷ ids) n k p h e = elim (Bool-cases (id == k)) [
  | inl own ↦
      stop_each-runs w ids (stop_and_report w id n) p.timeout
        (stop_and_report-timeout w id n p (rw ((str_eq_iff id k).0 own) e))
  | inr other ↦
      stop_each-timeout w ids (stop_and_report w id n) k p (ground arith)
        (rw (stop_and_report-get w id n k) (rw other e))
]

pub get-keys :
    {V : Type 0} (m : Maps.Dict V) (k : String)
    → includes (Maps.keys m) k ≡ false
    → Maps.get k m ≡ none
get-keys [] k h = refl
get-keys ((j, v) ∷ m) k h = ground (arith, get-keys m k)

keys-get :
    {V : Type 0} (m : Maps.Dict V) (k : String) {v : V}
    → Maps.get k m ≡ some v
    → includes (Maps.keys m) k ≡ true
keys-get [] k e = cc
keys-get ((j, u) ∷ m) k {v} e = ground (arith, keys-get m k {v = v})

-- After a stop of all polling no source is tracked, whichever of the reports fail.
pub stop_all_source_polling-get :
    (w : World) (n : Node) (k : String)
    → Maps.get k (stop_all_source_polling w n).1.source_polling ≡ none
unfolding stop_all_source_polling
stop_all_source_polling-get w n k =
    stop_each-get w (Maps.keys n.source_polling) n (get-keys n.source_polling) k

-- A stop of all polling ends the timer of every source that was tracked, whichever of the reports
-- fail.
pub stop_all_source_polling-runs :
    (w : World) (n : Node) (k : String) (p : Polled)
    → Maps.get k n.source_polling ≡ some p
    → runs p.timeout (stop_all_source_polling w n).1.intervals ≡ false
unfolding stop_all_source_polling
stop_all_source_polling-runs w n k p e =
    stop_each-timeout w (Maps.keys n.source_polling) n k p (keys-get n.source_polling k e) e

-- For a tracked source, a value is reported as changed when it is the first or not the same as the
-- last one; a second check of the same data reports no change, except for not-a-number; and no
-- timer starts or ends.
pub check_for_source_data_change_twice :
    (id : String) (d : FeedSourceData) (n : Node) (p : Polled)
    → Maps.get id n.source_polling ≡ some p
    → let (r, n') = check_for_source_data_change id d n in
      (r ≡ ok (elim p.last [ none ↦ true | some last ↦ not (same_number last.value d.value) ]))
      × ((check_for_source_data_change id d n').0 ≡ ok (not (same_number d.value d.value)))
      × (n'.intervals ≡ n.intervals)
unfolding check_for_source_data_change
check_for_source_data_change_twice id d n p e = ground (
  arith,
  str_eq_iff id id,
  get-set id id (record { last = some d; timeout = p.timeout }) n.source_polling,
)
