-- ===== src/Eth/Service/Merges.antt =====
-- What the merge of a polling record leaves in the table of the sources.
use chainlink_eth_secret_net.Base.{
  ℕ, suc, String, List, [], ◌∷◌, Option, none, some, true, false, ◌≡◌, refl, sym, ◌∙◌, ap,
  str_eq_iff, ◌==◌, string_eq, inl, inr, Option-cases, Bool-cases,
}
use chainlink_eth_secret_net.Data.SourceEnums.{handling_success}
use chainlink_eth_secret_net.Data.Channels.{source_config, topic_eq}
use chainlink_eth_secret_net.Data.Records.{
  FeedConfigSource, FeedSourceConfigWrap, FeedSourceHandle, SourcePollingInfo, ProcessingIssue,
}
use chainlink_eth_secret_net.Eth.World.{
  World, Cast, handling_updated, cast_merged, merge_polling, review_handling,
}
use chainlink_eth_secret_net.Eth.Action.{Node, Outcome, ok, rethrown, rethrow, attempt}
use chainlink_eth_secret_net.Eth.Action.Outcomes.{bind-step}
use chainlink_eth_secret_net.Eth.Casting.{cast_source_config, and_forget}
use chainlink_eth_secret_net.Eth.Casting.Written.{
  cast_source_config-accepted, cast_source_config-rest,
}
use chainlink_eth_secret_net.Eth.Handles.{review_source_handling}
use chainlink_eth_secret_net.Kafka.Streams.{KTable}
use chainlink_eth_secret_net.Eth.Table.{config_of, tabled, get-tabled, last_config}
use chainlink_eth_secret_net.Eth.Service.{
  read_entry, get_source_from_table, reviewed, merge_entry, merge_into_source, report_merge,
  merge_source_polling_to_config,
}

abbrev contract_of : String → Option FeedSourceConfigWrap → String
contract_of id none = id
contract_of id (some wrap) = elim wrap.source [ none ↦ id | some source ↦ source.contract ]

last_config-contract :
    (id feed : String) (s : FeedConfigSource) (casts : List Cast)
    → last_config id casts ≡ some (record { feed_id = feed; source = some s })
    → s.contract ≡ id
last_config-contract id feed s [] = λ e. cc
last_config-contract id feed s (c ∷ casts) = elim (Option-cases (config_of c)) [
  | inl none_here ↦ rw none_here (last_config-contract id feed s casts)
  | inr (s', here) ↦ rw here (elim (Bool-cases (s'.contract == id)) [
    | inl own ↦ rw own (λ e.
        (ap (λ (o : Option FeedSourceConfigWrap). contract_of id o) (sym e))
        ∙ (str_eq_iff s'.contract id).0 own)
    | inr other ↦ rw other (last_config-contract id feed s casts)
  ])
]

module _ (w : World) (n : Node) (id feed : String) (s : FeedConfigSource) (info : SourcePollingInfo)
    (handle : List FeedSourceHandle) where
  abbrev asked : Node
  asked = record n { calls = suc n.calls }

  abbrev timed : Node
  timed = record n { calls = suc (suc n.calls) }

  get_source_from_table-found :
      w.broker.source_table n.calls id ≡ some (some (record { feed_id = feed; source = some s }))
      → (feed == "") ≡ false
      → get_source_from_table w id n ≡ (ok (some (feed, s)), asked)
  unfolding get_source_from_table read_entry
  get_source_from_table-found found named = rw found (rw named refl)

  -- The cast of the source with its new handles.
  abbrev recast : FeedConfigSource × Outcome (Unit {0}) × Node
  recast =
      cast_source_config w source_config feed (record s { handle = some handle }) handling_success
        (some handling_updated) timed

  merge_entry-granted :
      review_source_handling w.settings (w.runtime.iso_now (suc n.calls)) s.handle info ≡ ok handle
      → merge_entry w info (some (feed, s)) asked ≡ (rethrown cast_merged recast.1, recast.2)
  unfolding merge_entry reviewed
  merge_entry-granted granted =
      bind-step (rethrow review_handling (reviewed w (w.runtime.iso_now (suc n.calls)) s info))
        (λ h. rethrow cast_merged (
          and_forget (
            cast_source_config w source_config feed (record s { handle = some h }) handling_success
              (some handling_updated))))
        timed timed handle (rw granted refl)

  recast_last :
      ((s' : FeedConfigSource) → w.validator.valid_source s' ≡ true)
      → ((c : ℕ) (r : Cast) → w.broker.accepts c r ≡ true)
      → last_config id n.sent ≡ some (record { feed_id = feed; source = some s })
      → last_config id recast.2.sent
        ≡ some (record {
          feed_id = feed;
          source = some (record s { handle = some handle; issue = recast.0.issue });
        })
  recast_last valid accepts last =
      let cast =
        cast_source_config-accepted w source_config feed (record s { handle = some handle })
          handling_success (some handling_updated) timed valid accepts in
      let rest =
        cast_source_config-rest w source_config feed (record s { handle = some handle })
          handling_success (some handling_updated) timed in
      let own : (recast.0.contract == id) ≡ true = (str_eq_iff recast.0.contract id).1 (
        ap (λ (s' : FeedConfigSource). s'.contract) rest
        ∙ last_config-contract id feed s n.sent last) in
      rw (cast.1) (
        rw own
          (ap (λ (s' : FeedConfigSource). some (record { feed_id = feed; source = some s' })) rest))

  merge_source_polling_to_config-granted :
      ((s' : FeedConfigSource) → w.validator.valid_source s' ≡ true)
      → ((c : ℕ) (r : Cast) → w.broker.accepts c r ≡ true)
      → w.broker.source_table n.calls id ≡ some (some (record { feed_id = feed; source = some s }))
      → (feed == "") ≡ false
      → review_source_handling w.settings (w.runtime.iso_now (suc n.calls)) s.handle info
        ≡ ok handle
      → merge_source_polling_to_config w (some id) info n ≡ (ok tt, recast.2)
  unfolding merge_source_polling_to_config merge_into_source
  merge_source_polling_to_config-granted valid accepts found named granted =
      let cast =
        cast_source_config-accepted w source_config feed (record s { handle = some handle })
          handling_success (some handling_updated) timed valid accepts in
      bind-step (attempt merge_polling (merge_into_source w id info)) (report_merge w id) n recast.2
        (ok tt)
        (rw
          (bind-step (get_source_from_table w id) (merge_entry w info) n asked (some (feed, s))
              (get_source_from_table-found found named)
            ∙ merge_entry-granted granted)
          (rw (cast.0) refl))

  -- A polling record that is granted comes back through the table: where the broker takes every
  -- record, every source is valid, and the table holds all configs that were cast when the source is
  -- read, the merge leaves in the table the same source of the same feed, with the new handles.
  pub merge_source_polling_to_config-tabled :
      (T : KTable FeedSourceConfigWrap)
      → ((s' : FeedConfigSource) → w.validator.valid_source s' ≡ true)
      → ((c : ℕ) (r : Cast) → w.broker.accepts c r ≡ true)
      → w.broker.source_table n.calls id ≡ some (T.get id (tabled T n.sent))
      → last_config id n.sent ≡ some (record { feed_id = feed; source = some s })
      → (feed == "") ≡ false
      → review_source_handling w.settings (w.runtime.iso_now (suc n.calls)) s.handle info
        ≡ ok handle
      → let (r, n') = merge_source_polling_to_config w (some id) info n in
        (r ≡ ok tt)
        × ((issue : Option (List ProcessingIssue)) × (T.get id (tabled T n'.sent)
              ≡ some (record {
                feed_id = feed;
                source = some (record s { handle = some handle; issue = issue });
              })))
  merge_source_polling_to_config-tabled T valid accepts fresh last named granted =
      rw
        (merge_source_polling_to_config-granted valid accepts
          (fresh ∙ ap some (get-tabled T n.sent id ∙ last)) named granted)
        (refl, (recast.0.issue, get-tabled T recast.2.sent id ∙ recast_last valid accepts last))
