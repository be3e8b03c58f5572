-- ===== src/Eth/Controller/Rounds.antt =====
-- How many rounds the config of a source makes among instances that do not support its network.
use chainlink_eth_secret_net.Base.{
  ℕ, suc, ◌-◌, ◌≤◌, ◌<◌, max, String, List, [], ◌∷◌, none, Bool, true, false, ◌≡◌, refl, length, is,
  arith, All, Bool-cases, ap, inl, inr,
}
use chainlink_eth_secret_net.Data.SourceEnums.{fail, source_status_eq}
use chainlink_eth_secret_net.Data.Records.{FeedConfigSource}
use chainlink_eth_secret_net.Eth.World.{World, Cast}
use chainlink_eth_secret_net.Eth.Action.{Node}
use chainlink_eth_secret_net.Eth.Issues.Rows.{issues}
use chainlink_eth_secret_net.Eth.Controller.{handle_source_config}
use chainlink_eth_secret_net.Eth.Controller.Recasts.{
  recast, circulate, IsForeign, kept, row, noted, keeps_trying, recast_foreign, noted-network,
  noted-status, noted-row, length-noted, keeps_trying-row, keeps_trying_always,
}

-- The last config of a row of casts that begins with a source.
abbrev pub last_config : FeedConfigSource → List FeedConfigSource → FeedConfigSource
last_config source [] = source
last_config source (s ∷ ss) = last_config s ss

recast-failed :
    (w : World) (feed_id : String) (n : Node) (source : FeedConfigSource)
    → is source.status fail ≡ true
    → recast w feed_id n source ≡ none
unfolding recast handle_source_config
recast-failed w feed_id n source h = rw h refl

-- A source with the status of a failure is cast no more.
circulate-failed :
    (w : World) (feed_id : String) (ns : List Node) (source : FeedConfigSource)
    → is source.status fail ≡ true
    → circulate w feed_id ns source ≡ []
unfolding circulate
circulate-failed w feed_id [] source h = refl
circulate-failed w feed_id (n ∷ ns) source h =
    rw (recast-failed w feed_id n source h, circulate) refl

noted-IsForeign :
    (w : World) (n : Node) (keep : Bool) (source : FeedConfigSource) (ns : List Node)
    → All (IsForeign source.network) ns
    → All (IsForeign (noted w n keep source).network) ns
noted-IsForeign w n keep source ns h = rw (noted-network w n keep source) h

module _ (w : World) (feed_id : String)
    (valid : (s : FeedConfigSource) → w.validator.valid_source s ≡ true)
    (accepts : (c : ℕ) (r : Cast) → w.broker.accepts c r ≡ true) where
  circulate-live :
      (n : Node) (ns : List Node) (source : FeedConfigSource)
      → IsForeign source.network n
      → is source.status fail ≡ false
      → circulate w feed_id (n ∷ ns) source
        ≡ noted w n (keeps_trying w source) source
          ∷ circulate w feed_id ns (noted w n (keeps_trying w source) source)
  unfolding circulate
  circulate-live n ns source foreign live =
      rw (recast_foreign w feed_id valid accepts n source foreign live, circulate) refl

  -- The casts that are left once the latest row of issues of a source has a length.
  rounds :
      (ns : List Node) (source : FeedConfigSource)
      → w.settings.max_recast_network_source_not_matching ≤ suc (kept w)
      → All (IsForeign source.network) ns
      → length (circulate w feed_id ns source)
        ≤ max 1 (w.settings.max_recast_network_source_not_matching - row source)
  unfolding circulate
  rounds [] source few foreign = omega arith
  rounds (n ∷ ns) source few foreign = elim (Bool-cases (is source.status fail)) [
    | inl dead ↦ rw (circulate-failed w feed_id (n ∷ ns) source dead) (omega arith)
    | inr live ↦
        rw (circulate-live n ns source foreign.0 live) (elim (Bool-cases (keeps_trying w source)) [
          | inl keep ↦ rw keep (
              omega (
                arith,
                rounds ns (noted w n true source) few
                    (noted-IsForeign w n true source ns foreign.1),
                noted-row w n true source,
                keeps_trying-row w source keep,
              ))
          | inr last ↦ rw last (
              rw
                (circulate-failed w feed_id ns (noted w n false source)
                  (rw (noted-status w n false source) refl))
                (omega arith))
        ])
  ]

  -- The recasts end: where every source config is valid and every record is taken, and the maximum
  -- of attempts is at most one above the number of issues that a source keeps, instances of other
  -- networks that handle the config of a source in turn cast it at most that maximum of times in
  -- all (once, where it is 0), however many they are.
  pub circulate-bounded :
      (ns : List Node) (source : FeedConfigSource)
      → w.settings.max_recast_network_source_not_matching ≤ suc (kept w)
      → All (IsForeign source.network) ns
      → length (circulate w feed_id ns source)
        ≤ max 1 w.settings.max_recast_network_source_not_matching
  circulate-bounded ns source few foreign = omega (arith, rounds ns source few foreign)

  -- Once there are instances for the attempts that are left, the last config has failed.
  ends :
      (ns : List Node) (source : FeedConfigSource)
      → w.settings.max_recast_network_source_not_matching ≤ suc (kept w)
      → All (IsForeign source.network) ns
      → max 1 (w.settings.max_recast_network_source_not_matching - row source) ≤ length ns
      → is (last_config source (circulate w feed_id ns source)).status fail ≡ true
  ends [] source few foreign enough = absurd (omega arith)
  ends (n ∷ ns) source few foreign enough = elim (Bool-cases (is source.status fail)) [
    | inl dead ↦ rw (circulate-failed w feed_id (n ∷ ns) source dead) dead
    | inr live ↦
        rw (circulate-live n ns source foreign.0 live) (elim (Bool-cases (keeps_trying w source)) [
          | inl keep ↦ rw keep (
              ends ns (noted w n true source) few (noted-IsForeign w n true source ns foreign.1)
                (omega (arith, noted-row w n true source, keeps_trying-row w source keep)))
          | inr last ↦
              let dead : is (noted w n false source).status fail ≡ true =
                rw (noted-status w n false source) refl in
              rw last (rw (circulate-failed w feed_id ns (noted w n false source) dead) dead)
        ])
  ]

  -- The recasts end in a failure: where every source config is valid and every record is taken, and the
  -- maximum of attempts is at most one above the number of issues that a source keeps, once at least as
  -- many instances of other networks as that maximum (one, where it is 0) have handled the config of a
  -- source in turn, the last config cast (the first one, where none is cast) has the status of a
  -- failure.
  pub circulate-end :
      (ns : List Node) (source : FeedConfigSource)
      → w.settings.max_recast_network_source_not_matching ≤ suc (kept w)
      → All (IsForeign source.network) ns
      → max 1 w.settings.max_recast_network_source_not_matching ≤ length ns
      → is (last_config source (circulate w feed_id ns source)).status fail ≡ true
  circulate-end ns source few foreign enough = ends ns source few foreign (omega arith)

  -- The recasts do not end: where every source config is valid and every record is taken, and the
  -- maximum of attempts is more than one above the number of issues that a source keeps, a source
  -- with no more issues than are kept, and not marked as failed, is cast by every instance of
  -- another network that handles it, and never marked as failed.
  pub circulate-endless :
      (ns : List Node) (source : FeedConfigSource)
      → suc (kept w) < w.settings.max_recast_network_source_not_matching
      → length (issues source) ≤ kept w
      → is source.status fail ≡ false
      → All (IsForeign source.network) ns
      → (length (circulate w feed_id ns source) ≡ length ns)
        × (is (last_config source (circulate w feed_id ns source)).status fail ≡ false)
  unfolding circulate
  circulate-endless [] source many few live foreign = (refl, live)
  circulate-endless (n ∷ ns) source many few live foreign =
      let keep = keeps_trying_always w source many few in
      let next =
        circulate-endless ns (noted w n true source) many (length-noted w n true source few)
          (rw (noted-status w n true source) live) (noted-IsForeign w n true source ns foreign.1) in
      rw (circulate-live n ns source foreign.0 live) (rw keep (ap suc next.0, next.1))
