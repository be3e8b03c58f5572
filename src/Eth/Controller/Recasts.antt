-- ===== src/Eth/Controller/Recasts.antt =====
-- A source whose network no client supports: how often its config is cast again. Each round is the
-- handling of the last cast by some instance; the maximum of attempts and that of issues are
-- settings of their own.
use chainlink_eth_secret_net.Base.{
  ℕ, ◌==◌, suc, ◌≤◌, ◌<◌, min, max, String, List, [], ◌∷◌, Option, none, some, Bool, true, false,
  ◌≡◌, refl, ap, ltb, length, is, arith, if◌then◌else◌, Bool-cases, inl, inr,
}
use chainlink_eth_secret_net.Data.SourceEnums.{
  fail, source_status_eq, failure_network_not_matching, source_cast_reason_eq,
}
use chainlink_eth_secret_net.Data.FeedEnums.{FeedSourceNetwork}
use chainlink_eth_secret_net.Data.Channels.{
  source_config, topic_eq, source_config_network_nosupport,
}
use chainlink_eth_secret_net.Data.Records.{FeedConfigSource}
use chainlink_eth_secret_net.Eth.World.{World, Cast, Payload, network_note, no_network_support}
use chainlink_eth_secret_net.Eth.Action.{Node}
use chainlink_eth_secret_net.Eth.Issues.{count_issue_in_last_row, issue_source_processing_note}
use chainlink_eth_secret_net.Eth.Issues.Rows.{
  issues, last_row, last_row-note, issue_source_processing_note_bounds,
  issue_source_processing_note_rest, count_issue_in_last_row_lem, count_issue_in_last_row-le,
}
use chainlink_eth_secret_net.Eth.Network.{is_compatible, check_network_match_known}
use chainlink_eth_secret_net.Eth.Casting.{cast_source_config, worded}
use chainlink_eth_secret_net.Eth.Casting.Written.{
  cast_source_config-note, cast_source_config-accepted, cast_error_source_config-accepted,
}
use chainlink_eth_secret_net.Eth.Controller.{failed, recast_for_network, handle_source_config}

abbrev config_of : Cast → Option FeedConfigSource
config_of c = elim c.value [
  | Payload.config s ↦ if c.topic == source_config then some s else none
  | _ ↦ none
]

-- The newest source config among records.
abbrev pub newest_config : List Cast → Option FeedConfigSource
newest_config [] = none
newest_config (c ∷ cs) = elim (config_of c) [ some s ↦ some s | none ↦ newest_config cs ]

-- The source config that an instance casts when it handles one.
unfoldable pub recast : World → String → Node → FeedConfigSource → Option FeedConfigSource
recast w feed_id n source =
    newest_config (handle_source_config w feed_id source (record n { sent = [] })).1.sent

-- The configs that are cast when each instance of a list handles the last one.
unfoldable pub circulate : World → String → List Node → FeedConfigSource → List FeedConfigSource
circulate w feed_id [] source = []
circulate w feed_id (n ∷ ns) source =
    let next = λ (s : FeedConfigSource). s ∷ circulate w feed_id ns s in
    elim (recast w feed_id n source) [ none ↦ [] | some s ↦ next s ]

-- The instance knows its network, and the source is of another.
abbrev pub IsForeign : Option FeedSourceNetwork → Node → Type 0
IsForeign network n =
    (name : String) × (n.network ≡ some name) × (is_compatible network name ≡ false)

module _ (w : World) where
  pub keeps_trying : FeedConfigSource → Bool
  keeps_trying source =
      ltb (suc (count_issue_in_last_row source failure_network_not_matching))
        w.settings.max_recast_network_source_not_matching

  -- What a foreign instance casts.
  pub noted : Node → Bool → FeedConfigSource → FeedConfigSource
  noted n keep source =
      (issue_source_processing_note w.settings n.service_id (if keep then source else failed source)
        failure_network_not_matching
        (worded w (
          some (
            network_note (suc (count_issue_in_last_row source failure_network_not_matching))
              w.settings.max_recast_network_source_not_matching)))).0

  handle_foreign :
      (feed_id : String) (n : Node) (source : FeedConfigSource)
      → w.validator.valid_source source ≡ true
      → IsForeign source.network n
      → is source.status fail ≡ false
      → handle_source_config w feed_id source n ≡ recast_for_network w feed_id source n
  unfolding handle_source_config
  handle_foreign feed_id n source valid (name, known, foreign) live =
      rw live (rw valid (ground (arith, check_network_match_known w source.network n name known)))

module _ (w : World) (feed_id : String)
    (valid : (s : FeedConfigSource) → w.validator.valid_source s ≡ true)
    (accepts : (c : ℕ) (r : Cast) → w.broker.accepts c r ≡ true) where
  recast_for_network_newest :
      (n : Node) (source : FeedConfigSource)
      → n.sent ≡ []
      → newest_config (recast_for_network w feed_id source n).1.sent
        ≡ some (noted w n (keeps_trying w source) source)
  unfolding recast_for_network noted keeps_trying
  recast_for_network_newest n source fresh =
      let attempts = suc (count_issue_in_last_row source failure_network_not_matching) in
      let limit = w.settings.max_recast_network_source_not_matching in
      let info = some (network_note attempts limit) in
      elim (Bool-cases (ltb attempts limit)) [
        | inl more ↦
            let c =
              cast_source_config-accepted w source_config feed_id source
                failure_network_not_matching info n valid accepts in
            rw more (
              rw (c.1) (
                ap some (
                  cast_source_config-note w source_config feed_id source
                    failure_network_not_matching info n)))
        | inr last ↦
            let cast =
              cast_source_config w source_config feed_id (failed source)
                failure_network_not_matching info n in
            let c =
              cast_source_config-accepted w source_config feed_id (failed source)
                failure_network_not_matching info n valid accepts in
            let e =
              cast_error_source_config-accepted w source_config_network_nosupport cast.0 feed_id
                no_network_support cast.2 valid accepts in
            rw last (
              rw (e.1) (
                rw (c.1) (
                  ap some (
                    cast_source_config-note w source_config feed_id (failed source)
                      failure_network_not_matching info n))))
      ]

  pub recast_foreign :
      (n : Node) (source : FeedConfigSource)
      → IsForeign source.network n
      → is source.status fail ≡ false
      → recast w feed_id n source ≡ some (noted w n (keeps_trying w source) source)
  unfolding recast noted
  recast_foreign n source foreign live =
      rw (handle_foreign w feed_id (record n { sent = [] }) source (valid source) foreign live)
        (recast_for_network_newest (record n { sent = [] }) source refl)

-- The number of issues that a source keeps.
abbrev pub kept : World → ℕ
kept w = max 1 w.settings.source_issue_max_number

abbrev pub row : FeedConfigSource → ℕ
row source = last_row failure_network_not_matching (issues source)

module _ (w : World) (n : Node) (keep : Bool) (source : FeedConfigSource) where
  pub noted-network : (noted w n keep source).network ≡ source.network
  unfolding noted
  noted-network =
      rw
        (issue_source_processing_note_rest w.settings n.service_id
          (if keep then source else failed source) failure_network_not_matching _)
        (ground arith)

  pub noted-status : (noted w n keep source).status ≡ (if keep then source.status else some fail)
  unfolding noted
  noted-status =
      rw
        (issue_source_processing_note_rest w.settings n.service_id
          (if keep then source else failed source) failure_network_not_matching _)
        (ground arith)

  issues_kept : issues (if keep then source else failed source) ≡ issues source
  issues_kept = ground arith

  pub noted-row : min (suc (row source)) (kept w) ≤ row (noted w n keep source)
  unfolding noted
  noted-row = rw (← issues_kept) (
      last_row-note w.settings n.service_id (if keep then source else failed source)
        failure_network_not_matching _)

  pub length-noted :
      length (issues source) ≤ kept w → length (issues (noted w n keep source)) ≤ kept w
  unfolding noted
  length-noted h =
      (issue_source_processing_note_bounds w.settings n.service_id
        (if keep then source else failed source) failure_network_not_matching _
        (rw issues_kept h)).0

pub keeps_trying-row :
    (w : World) (source : FeedConfigSource)
    → keeps_trying w source ≡ true
    → suc (row source) < w.settings.max_recast_network_source_not_matching
unfolding keeps_trying
keeps_trying-row w source h =
    ground (arith, count_issue_in_last_row_lem source failure_network_not_matching)

pub keeps_trying_always :
    (w : World) (source : FeedConfigSource)
    → suc (kept w) < w.settings.max_recast_network_source_not_matching
    → length (issues source) ≤ kept w
    → keeps_trying w source ≡ true
unfolding keeps_trying
keeps_trying_always w source h b =
    ground (arith, count_issue_in_last_row-le source failure_network_not_matching)
