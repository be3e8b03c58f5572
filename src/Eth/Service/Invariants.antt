-- ===== src/Eth/Service/Invariants.antt =====
-- The handling of a source keeps the invariants of an instance.
use chainlink_eth_secret_net.Base.{
  ℕ, String, Option, none, some, inl, inr, arith, Option-cases, string_eq,
}
use chainlink_eth_secret_net.Data.SourceEnums.{SourceStatus}
use chainlink_eth_secret_net.Data.FeedEnums.{timeperiod, event}
use chainlink_eth_secret_net.Data.Channels.{source_polling_handle_fail}
use chainlink_eth_secret_net.Data.Records.{
  FeedConfigSource, SourcePollingInfo, FeedSourceConfigWrap,
}
use chainlink_eth_secret_net.Eth.World.{World, within, polling_handling}
use chainlink_eth_secret_net.Eth.Action.{Node, Outcome, ok, err, pure, ◌>>◌}
use chainlink_eth_secret_net.Eth.Action.Outcomes.{Outcome-cases}
use chainlink_eth_secret_net.Eth.Action.Keeping.{Preserves}
use chainlink_eth_secret_net.Eth.Casting.{and_forget, cast_error_source_config}
use chainlink_eth_secret_net.Eth.Handles.{check_if_data_polling_required}
use chainlink_eth_secret_net.Eth.Invariants.{IsInvariant}
use chainlink_eth_secret_net.Eth.Frames.{frame_rules}
use chainlink_eth_secret_net.Eth.Validation.Frames.{validate_source_contract-Preserves}
use chainlink_eth_secret_net.Eth.Service.{
  read_entry, get_source_from_table, reviewed, merge_entry, merge_into_source,
  merge_source_polling_to_config, report_merge, initiate_periodic_polling,
  initiate_source_data_polling, start_ready_source, handle_new_source, handle_ready_source,
  handle_source_contract, handle_copy, deep_copy_json,
}

initiate_periodic_polling-Preserves :
    (w : World) {P : Node → Type 0} (i : IsInvariant w P) (s : FeedConfigSource) (feed : String)
    → Preserves P (initiate_periodic_polling w s feed)
unfolding initiate_periodic_polling
initiate_periodic_polling-Preserves w i s feed = search (frame_rules, i.frames, i.polled)

initiate_source_data_polling-Preserves :
    (w : World) {P : Node → Type 0} (i : IsInvariant w P) (s : FeedConfigSource) (feed : String)
    → Preserves P (initiate_source_data_polling w s feed)
unfolding initiate_source_data_polling
initiate_source_data_polling-Preserves w i s feed = record {
  at = λ n h. elim (Option-cases s.poll) [
    | inl e ↦ rw (e, initiate_source_data_polling) h
    | inr (timeperiod, e) ↦
        rw (e, initiate_source_data_polling)
          ((initiate_periodic_polling-Preserves w i s feed).at n h)
    | inr (event, e) ↦ rw (e, initiate_source_data_polling) ((i.listened s feed).at n h)
  ];
}

handle_new_source-Preserves :
    (w : World) {P : Node → Type 0} (i : IsInvariant w P) (s : FeedConfigSource)
    → Preserves P (handle_new_source w s)
unfolding handle_new_source
handle_new_source-Preserves w i s =
    search (frame_rules, i.frames, validate_source_contract-Preserves)

start_reported-Preserves :
    (w : World) {P : Node → Type 0} (i : IsInvariant w P) (s : FeedConfigSource) (feed : String)
    (r : Outcome (Option ℕ))
    → Preserves {A = Option FeedConfigSource} P (elim r [
      | ok _ ↦ pure none
      | err e ↦ (do
        and_forget (
            cast_error_source_config w source_polling_handle_fail s feed
              (within polling_handling e))
        pure none)
    ])
start_reported-Preserves w i s feed (ok t) = search frame_rules
start_reported-Preserves w i s feed (err e) = search (frame_rules, i.frames)

start_ready_source-Preserves :
    (w : World) {P : Node → Type 0} (i : IsInvariant w P) (s : FeedConfigSource) (feed : String)
    → Preserves P (start_ready_source w s feed)
unfolding start_ready_source
start_ready_source-Preserves w i s feed =
    search (frame_rules, initiate_source_data_polling-Preserves w i, start_reported-Preserves w i)

handle_ready_source-Preserves :
    (w : World) {P : Node → Type 0} (i : IsInvariant w P) (s : FeedConfigSource) (feed : String)
    → Preserves P (handle_ready_source w s feed)
unfolding handle_ready_source
handle_ready_source-Preserves w i s feed = record {
  at = λ n h. elim (Outcome-cases (check_if_data_polling_required w.settings n.service_id s)) [
    | inl (none, e) ↦ rw (e, handle_ready_source) h
    | inl (some p, e) ↦
        rw (e, handle_ready_source) ((start_ready_source-Preserves w i s feed).at n h)
    | inr (x, e) ↦ rw (e, handle_ready_source) h
  ];
}

handle_copy-Preserves :
    (w : World) {P : Node → Type 0} (i : IsInvariant w P) (s : FeedConfigSource) (feed : String)
    → Preserves P (handle_copy w s feed)
unfolding handle_copy
handle_copy-Preserves w i s feed = record {
  at = λ n h. elim (Option-cases s.status) [
    | inl e ↦ rw (e, handle_copy) h
    | inr (SourceStatus.ini, e) ↦ rw (e, handle_copy) ((handle_new_source-Preserves w i s).at n h)
    | inr (SourceStatus.ok, e) ↦
        rw (e, handle_copy) ((handle_ready_source-Preserves w i s feed).at n h)
    | inr (SourceStatus.partial, e) ↦ rw (e, handle_copy) h
    | inr (SourceStatus.fail, e) ↦ rw (e, handle_copy) h
  ];
}

pub handle_source_contract-Preserves :
    (w : World) {P : Node → Type 0} (i : IsInvariant w P) (s : FeedConfigSource) (feed : String)
    → Preserves P (handle_source_contract w s feed)
unfolding handle_source_contract
handle_source_contract-Preserves w i s feed = handle_copy-Preserves w i (deep_copy_json w s) feed

read_entry-Preserves :
    {P : Node → Type 0} (entry : Option FeedSourceConfigWrap) → Preserves P (read_entry entry)
unfolding read_entry
read_entry-Preserves none = search frame_rules
read_entry-Preserves (some wrap) = record { at = λ n h. ground (arith, h) }

get_source_from_table-Preserves :
    (w : World) {P : Node → Type 0} (i : IsInvariant w P) (key_id : String)
    → Preserves P (get_source_from_table w key_id)
unfolding get_source_from_table
get_source_from_table-Preserves w i key_id = search (frame_rules, i.frames, read_entry-Preserves)

reviewed-Preserves :
    (w : World) {P : Node → Type 0} (i : IsInvariant w P) (time : String) (s : FeedConfigSource)
    (info : SourcePollingInfo)
    → Preserves P (reviewed w time s info)
unfolding reviewed
reviewed-Preserves w i time s info = record { at = λ n h. h }

merge_entry-Preserves :
    (w : World) {P : Node → Type 0} (i : IsInvariant w P) (info : SourcePollingInfo)
    (entry : Option (String × FeedConfigSource))
    → Preserves P (merge_entry w info entry)
unfolding merge_entry
merge_entry-Preserves w i info none = search frame_rules
merge_entry-Preserves w i info (some (feed, s)) =
    search (frame_rules, i.frames, reviewed-Preserves) depth 12

report_merge-Preserves :
    (w : World) {P : Node → Type 0} (i : IsInvariant w P) (id : String) (r : Outcome (Unit {0}))
    → Preserves P (report_merge w id r)
unfolding report_merge
report_merge-Preserves w i id (ok u) = search frame_rules
report_merge-Preserves w i id (err e) = search (frame_rules, i.frames)

pub merge_source_polling_to_config-Preserves :
    (w : World) {P : Node → Type 0} (i : IsInvariant w P) (id : Option String)
    (info : SourcePollingInfo)
    → Preserves P (merge_source_polling_to_config w id info)
unfolding merge_source_polling_to_config merge_into_source
merge_source_polling_to_config-Preserves w i none info = search frame_rules
merge_source_polling_to_config-Preserves w i (some id) info =
    search
      (frame_rules, get_source_from_table-Preserves, merge_entry-Preserves, report_merge-Preserves)
      depth 12
