-- ===== src/Eth/Ticks/Invariants.antt =====
-- A polling timer that fires keeps the invariants of an instance.
use chainlink_eth_secret_net.Base.{
  ℕ, suc, some, leb, if◌then◌else◌, inl, inr, Bool-cases, Option-cases,
}
use chainlink_eth_secret_net.Data.SourceEnums.{remove_periodic, SourceDataUpdateReason}
use chainlink_eth_secret_net.Data.FeedEnums.{FeedSourceNotifOn}
use chainlink_eth_secret_net.Data.Records.{FeedSourceData}
use chainlink_eth_secret_net.Data.Channels.{source_polling_handle_fail}
use chainlink_eth_secret_net.Eth.World.{
  World, Failure, within, too_many_errors, stop_polling, cast_check, cast_change,
}
use chainlink_eth_secret_net.Eth.Action.{Node, Interval, ask, rethrow, pure, ◌>>=◌}
use chainlink_eth_secret_net.Eth.Action.Outcomes.{Outcome-cases}
use chainlink_eth_secret_net.Eth.Action.Keeping.{Preserves}
use chainlink_eth_secret_net.Eth.Casting.{cast_error_source_config, cast_source_data_update}
use chainlink_eth_secret_net.Eth.Polling.{stop_source_polling, check_for_source_data_change}
use chainlink_eth_secret_net.Eth.Frames.{frame_rules, cast_error_source_config-Preserves}
use chainlink_eth_secret_net.Eth.Invariants.{IsInvariant}
use chainlink_eth_secret_net.Eth.Ticks.{
  interval_of, put_interval, notify_data, poll_data, note_polling_error, load_contract_data, fire,
}

module _ (w : World) {P : Node → Type 0} (v : IsInvariant w P) where
  checked-Preserves :
      (i : Interval) (d : FeedSourceData)
      → Preserves P (do
        time ← ask (λ c. some (w.runtime.iso_now c))
        rethrow cast_check (
            cast_source_data_update w i.feed_id i.contract.address
              (record d { time = time })
              SourceDataUpdateReason.periodic))
  checked-Preserves i d = search (frame_rules, v.frames)

  changed-Preserves :
      (i : Interval) (d : FeedSourceData)
      → Preserves P (do
        has_changed ← check_for_source_data_change i.contract.address d
        (if has_changed
            then rethrow cast_change (
                cast_source_data_update w i.feed_id i.contract.address d
                  SourceDataUpdateReason.data_change)
            else pure tt))
  changed-Preserves i d = search (frame_rules, v.frames, v.noticed)

  notify_data-Preserves : (i : Interval) (d : FeedSourceData) → Preserves P (notify_data w i d)
  unfolding notify_data
  notify_data-Preserves i d = record {
    at = λ n h. elim (Option-cases i.source.notif) [
      | inl e ↦ rw (e, notify_data) h
      | inr (FeedSourceNotifOn.check, e) ↦ rw (e, notify_data) ((checked-Preserves i d).at n h)
      | inr (FeedSourceNotifOn.change, e) ↦ rw (e, notify_data) ((changed-Preserves i d).at n h)
    ];
  }

  poll_data-Preserves : (i : Interval) → Preserves P (poll_data w i)
  unfolding poll_data
  poll_data-Preserves i = search (frame_rules, v.frames, notify_data-Preserves)

  note_polling_error-Preserves :
      (i : Interval) (e : Failure) → Preserves P (note_polling_error w i e)
  unfolding note_polling_error
  note_polling_error-Preserves i e = record {
    at = λ n h.
        let j = record i { polling_error_counter = suc i.polling_error_counter } in
        let msg = some (too_many_errors j.polling_error_counter e) in
        let n1 = record n { intervals = put_interval j n.intervals } in
        let kept = v.counted j n h in
        let stop = stop_source_polling w i.contract.address remove_periodic msg n1 in
        let stopped = (v.unpolled i.contract.address remove_periodic msg).at n1 kept in
        elim (Bool-cases
          (leb w.settings.max_successive_error_to_stop_polling (suc j.polling_error_counter))) [
            | inl few ↦ rw few (elim (Outcome-cases stop.0) [
              | inl (u, done) ↦ rw done stopped
              | inr (x, refused) ↦
                  let cast =
                    cast_error_source_config w source_polling_handle_fail i.source i.feed_id
                      (within stop_polling x) stop.1 in
                  rw refused (
                    v.counted (record j { source = cast.0 }) cast.2
                      ((cast_error_source_config-Preserves v.frames w source_polling_handle_fail
                          i.source i.feed_id (within stop_polling x)).at
                        stop.1 stopped))
            ])
            | inr few ↦ rw few kept
          ];
  }

  load_contract_data-Preserves : (i : Interval) → Preserves P (load_contract_data w i)
  unfolding load_contract_data
  load_contract_data-Preserves i = record {
    at = λ n h.
        let polled = (poll_data-Preserves i).at n h in
        elim (Outcome-cases (poll_data w i n).0) [
          | inl (u, e) ↦ rw (e, load_contract_data) polled
          | inr (x, e) ↦
              rw (e, load_contract_data)
                ((note_polling_error-Preserves i x).at (poll_data w i n).1 polled)
        ];
  }

  pub fire-Preserves : (id : ℕ) → Preserves P (fire w id)
  unfolding fire
  fire-Preserves id = record {
    at = λ n h. elim (Option-cases (interval_of id n.intervals)) [
      | inl e ↦ rw (e, fire) h
      | inr (i, e) ↦ rw (e, fire) ((load_contract_data-Preserves i).at n h)
    ];
  }
