-- ===== src/Eth/Controller/Invariants.antt =====
-- What an instance does with a record on the topic of the source configs keeps the invariants of an
-- instance.
use chainlink_eth_secret_net.Base.{
  suc, String, Option, none, some, Bool, true, false, ltb, inl, inr, if◌then◌else◌,
}
use chainlink_eth_secret_net.Data.SourceEnums.{
  SourceCastReason, handling_success, handling_failed, failure_network_not_matching,
  handling_validation_fail,
}
use chainlink_eth_secret_net.Data.Channels.{
  source_config, ErrorType, source_config_invalid, source_config_network_nosupport,
  source_config_handling_fail,
}
use chainlink_eth_secret_net.Data.Records.{FeedConfigSource}
use chainlink_eth_secret_net.Eth.World.{
  World, Failure, Note, of_failure, network_note, handling_note, status_note, within, invalid_input,
  input_validation, no_network_support, handling_failed_note,
}
use chainlink_eth_secret_net.Eth.Action.{Node, Outcome, ok, err, pure, ◌>>=◌}
use chainlink_eth_secret_net.Eth.Action.Outcomes.{Outcome-cases}
use chainlink_eth_secret_net.Eth.Action.Keeping.{Preserves}
use chainlink_eth_secret_net.Eth.Casting.{and_forget, cast_source_config}
use chainlink_eth_secret_net.Eth.Issues.{count_issue_in_last_row}
use chainlink_eth_secret_net.Eth.Network.Frames.{check_network_match-Preserves}
use chainlink_eth_secret_net.Eth.Invariants.{IsInvariant}
use chainlink_eth_secret_net.Eth.Frames.{
  frame_rules, cast_source_config-Preserves, cast_error_source_config-Preserves,
}
use chainlink_eth_secret_net.Eth.Service.Invariants.{handle_source_contract-Preserves}
use chainlink_eth_secret_net.Eth.Controller.{
  failed, refuse_invalid, finally_report, recast_for_network, recast_for_failure, handle_and_cast,
  general_failure, handle_compatible, handle_valid, handle_source_config,
}

-- A cast, and a second one on what the first left.
cast_twice-kept :
    (w : World) {P : Node → Type 0} (i : IsInvariant w P) (id : String) (s : FeedConfigSource)
    (reason : SourceCastReason) (info : Option Note) (keep : Bool) (t : ErrorType) (e : Failure)
    (n : Node)
    → P n
    → let (s', r, n') = cast_source_config w source_config id s reason info n in
      P (finally_report w keep t id e s' n').2
cast_twice-kept w i id s reason info true t e n h =
    (cast_source_config-Preserves i.frames w source_config id s reason info).at n h
cast_twice-kept w i id s reason info false t e n h =
    let first = cast_source_config w source_config id s reason info n in
    (cast_error_source_config-Preserves i.frames w t first.0 id e).at first.2
      ((cast_source_config-Preserves i.frames w source_config id s reason info).at n h)

refuse_invalid-Preserves :
    (w : World) {P : Node → Type 0} (i : IsInvariant w P) (id : String) (s : FeedConfigSource)
    → Preserves P (refuse_invalid w id s)
unfolding refuse_invalid
refuse_invalid-Preserves w i id s = record {
  at = λ n h.
      let cast =
        cast_source_config w source_config id (failed s) handling_validation_fail
          (some (of_failure invalid_input)) n in
      let kept =
        (cast_source_config-Preserves i.frames w source_config id (failed s)
            handling_validation_fail (some (of_failure invalid_input))).at
          n h in
      elim (Outcome-cases cast.1) [
        | inl (u, e) ↦
            rw (e, refuse_invalid)
              ((cast_error_source_config-Preserves i.frames w source_config_invalid cast.0 id
                  (within input_validation invalid_input)).at
                cast.2 kept)
        | inr (x, e) ↦ rw (e, refuse_invalid) kept
      ];
}

recast_for_network-Preserves :
    (w : World) {P : Node → Type 0} (i : IsInvariant w P) (id : String) (s : FeedConfigSource)
    → Preserves P (recast_for_network w id s)
unfolding recast_for_network
recast_for_network-Preserves w i id s = record {
  at = λ n h.
      let attempts = suc (count_issue_in_last_row s failure_network_not_matching) in
      let keep = ltb attempts w.settings.max_recast_network_source_not_matching in
      cast_twice-kept w i id (if keep then s else failed s) failure_network_not_matching
        (some (network_note attempts w.settings.max_recast_network_source_not_matching)) keep
        source_config_network_nosupport no_network_support n h;
}

recast_for_failure-Preserves :
    (w : World) {P : Node → Type 0} (i : IsInvariant w P) (id : String) (s : FeedConfigSource)
    (e : Failure)
    → Preserves P (recast_for_failure w id s e)
unfolding recast_for_failure
recast_for_failure-Preserves w i id s e = record {
  at = λ n h.
      let attempts = suc (count_issue_in_last_row s handling_failed) in
      let keep = ltb attempts w.settings.max_recast_source_handling_fail in
      cast_twice-kept w i id (if keep then s else failed s) handling_failed
        (some (handling_note attempts w.settings.max_recast_source_handling_fail e)) keep
        source_config_handling_fail handling_failed_note n h;
}

general_failure-Preserves :
    (w : World) {P : Node → Type 0} (i : IsInvariant w P) (id : String)
    (recast : FeedConfigSource × Outcome (Unit {0}))
    → Preserves P (general_failure w id recast)
unfolding general_failure
general_failure-Preserves w i id (s, ok u) = search frame_rules
general_failure-Preserves w i id (s, err e) = search (frame_rules, i.frames)

cast_handled-Preserves :
    (w : World) {P : Node → Type 0} (i : IsInvariant w P) (id : String)
    (upd : Option FeedConfigSource)
    → Preserves {A = Unit {0}} P (elim upd [
      | none ↦ pure tt
      | some upd' ↦ and_forget (
          cast_source_config w source_config id upd' handling_success
            (some (status_note upd'.status)))
    ])
cast_handled-Preserves w i id none = search frame_rules
cast_handled-Preserves w i id (some upd) = search (frame_rules, i.frames)

handle_and_cast-Preserves :
    (w : World) {P : Node → Type 0} (i : IsInvariant w P) (id : String) (s : FeedConfigSource)
    → Preserves P (handle_and_cast w id s)
unfolding handle_and_cast
handle_and_cast-Preserves w i id s =
    search (frame_rules, handle_source_contract-Preserves w i, cast_handled-Preserves w i)

recast_and_report-Preserves :
    (w : World) {P : Node → Type 0} (i : IsInvariant w P) (id : String) (s : FeedConfigSource)
    (e : Failure)
    → Preserves P (do recast ← recast_for_failure w id s e; general_failure w id recast)
recast_and_report-Preserves w i id s e =
    search (frame_rules, recast_for_failure-Preserves, general_failure-Preserves)

handle_compatible-Preserves :
    (w : World) {P : Node → Type 0} (i : IsInvariant w P) (id : String) (s : FeedConfigSource)
    → Preserves P (handle_compatible w id s)
unfolding handle_compatible
handle_compatible-Preserves w i id s = record {
  at = λ n h. elim (Outcome-cases (handle_and_cast w id s n).0) [
    | inl (u, e) ↦ rw (e, handle_compatible) ((handle_and_cast-Preserves w i id s).at n h)
    | inr (x, e) ↦
        rw (e, handle_compatible)
          ((recast_and_report-Preserves w i id s x).at (handle_and_cast w id s n).1
            ((handle_and_cast-Preserves w i id s).at n h))
  ];
}

handle_valid-Preserves :
    (w : World) {P : Node → Type 0} (i : IsInvariant w P) (id : String) (s : FeedConfigSource)
    → Preserves P (handle_valid w id s)
unfolding handle_valid
handle_valid-Preserves w i id s = search (
  frame_rules, i.frames, check_network_match-Preserves, handle_compatible-Preserves,
  recast_for_network-Preserves,
)

pub handle_source_config-Preserves :
    (w : World) {P : Node → Type 0} (i : IsInvariant w P) (id : String) (s : FeedConfigSource)
    → Preserves P (handle_source_config w id s)
unfolding handle_source_config
handle_source_config-Preserves w i id s =
    search (frame_rules, handle_valid-Preserves, refuse_invalid-Preserves)
