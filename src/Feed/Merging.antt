-- ===== src/Feed/Merging.antt =====
-- The callback of mergeSourceToFeedConfig, of feed-handler/src/feed-handler.service.ts, and what a merge
-- writes.
use chainlink_eth_secret_net.Base.{
  suc, String, ◌∷◌, Option, none, some, false, ◌≡◌, refl, ◌∙◌, ◌⊎◌, inl, inr, Bool-cases,
  Option-cases,
}
use chainlink_eth_secret_net.Data.Channels.{
  source_config, error_feed, source_config_merge_fail, topic_beq,
}
use chainlink_eth_secret_net.Data.Records.{FeedConfig, FeedConfigSource}
use chainlink_eth_secret_net.Feed.{
  FeedFailure, no_feed, no_feed_key, merge_cast_failed, merge_failed, FeedPayload, FeedCast,
  FeedWorld, FeedNode, Settled, fulfilled, failed, write_feed_to_stream, load_feed_from_table,
  cast_feed_config,
}
use chainlink_eth_secret_net.Feed.Answers.{feed_cast}

unfoldable pub merge_into_feed :
    FeedWorld → String → FeedConfigSource → FeedNode → Settled FeedFailure (Unit {0}) × FeedNode
unfolding load_feed_from_table cast_feed_config
merge_into_feed w feed_id source n =
    let (r, n') = load_feed_from_table w feed_id n in
    elim r [
      | failed e ↦ (failed e, n')
      | fulfilled known ↦ elim known [
        | none ↦ (failed no_feed, n')
        | some config ↦
            let (r', n'') = cast_feed_config w (record config { source = source }) false n' in
            (elim r' [ fulfilled u ↦ fulfilled u | failed e ↦ failed (merge_cast_failed e) ], n'')
      ]
    ]

-- KafkaUtils.castError: a failure to send is only logged.
cast_feed_error : FeedWorld → String → FeedFailure → FeedNode → FeedNode
unfolding write_feed_to_stream
cast_feed_error w key e n =
    (write_feed_to_stream w
      (record {
        topic = error_feed;
        key = key;
        value = FeedPayload.of_error source_config_merge_fail e;
      })
      n).1

-- The callback of the stream on source configs.
unfoldable pub merge_source_to_feed_config :
    FeedWorld
    → Option String
    → FeedConfigSource
    → FeedNode
    → Settled FeedFailure (Unit {0}) × FeedNode
unfolding merge_into_feed cast_feed_error
merge_source_to_feed_config w none source n = (failed no_feed_key, n)
merge_source_to_feed_config w (some feed_id) source n =
    let (r, n') = merge_into_feed w feed_id source n in
    elim r [
      | fulfilled _ ↦ (fulfilled tt, n')
      | failed e ↦ (fulfilled tt, cast_feed_error w feed_id (merge_failed e) n')
    ]

abbrev OneElsewhere : FeedNode → FeedNode → Type 0
OneElsewhere n n' =
    (c : FeedCast) × (n'.sent ≡ c ∷ n.sent) × (topic_beq c.topic source_config ≡ false)

cast_feed_error-sent :
    (w : FeedWorld) (key : String) (e : FeedFailure) (n : FeedNode)
    → ((cast_feed_error w key e n).sent ≡ n.sent) ⊎ OneElsewhere n (cast_feed_error w key e n)
unfolding cast_feed_error write_feed_to_stream
cast_feed_error-sent w key e n =
    let c : FeedCast = record {
      topic = error_feed;
      key = key;
      value = FeedPayload.of_error source_config_merge_fail e;
    } in
    elim (Bool-cases (w.accepts n.calls c)) [
      | inl taken ↦ rw (taken, cast_feed_error) (inr (c, refl, refl))
      | inr refused ↦ rw (refused, cast_feed_error) (inl refl)
    ]

merged_cast-sent :
    (w : FeedWorld) (config : FeedConfig) (n : FeedNode)
    → let (r, n') = cast_feed_config w config false n in
      ((r ≡ fulfilled tt) × OneElsewhere n n')
      ⊎ ((e : FeedFailure) × (r ≡ failed e) × (n'.sent ≡ n.sent))
unfolding cast_feed_config write_feed_to_stream
merged_cast-sent w config n = elim (Bool-cases (w.accepts n.calls (feed_cast config))) [
  | inl taken ↦ rw taken (inl (refl, (_, refl, refl)))
  | inr refused ↦ rw refused (inr (_, refl, refl))
]

merge_into_feed-sent :
    (w : FeedWorld) (feed_id : String) (source : FeedConfigSource) (n : FeedNode)
    → let (r, n') = merge_into_feed w feed_id source n in
      ((r ≡ fulfilled tt) × OneElsewhere n n')
      ⊎ ((e : FeedFailure) × (r ≡ failed e) × (n'.sent ≡ n.sent))
unfolding merge_into_feed load_feed_from_table
merge_into_feed-sent w feed_id source n = elim (Option-cases (w.feed_table n.calls feed_id)) [
  | inl e ↦ rw (e, merge_into_feed) (inr (_, refl, refl))
  | inr (none, e) ↦ rw (e, merge_into_feed) (inr (_, refl, refl))
  | inr (some config, e) ↦
      rw (e, merge_into_feed)
        (elim (merged_cast-sent w (record config { source = source })
          (record n { calls = suc n.calls })) [
            | inl (r, one) ↦ rw r (inl (refl, one))
            | inr (x, r, same) ↦ rw r (inr (_, refl, same))
          ])
]

-- The merge of a source writes one record at most, and never one on the topic that it reads: no
-- merge causes another.
pub merge_source_to_feed_config-sent :
    (w : FeedWorld) (key : Option String) (source : FeedConfigSource) (n : FeedNode)
    → let n' = (merge_source_to_feed_config w key source n).1 in
      (n'.sent ≡ n.sent)
      ⊎ ((c : FeedCast) × (n'.sent ≡ c ∷ n.sent) × (topic_beq c.topic source_config ≡ false))
unfolding merge_source_to_feed_config
merge_source_to_feed_config-sent w none source n = inl refl
merge_source_to_feed_config-sent w (some feed_id) source n =
    elim (merge_into_feed-sent w feed_id source n) [
      | inl (r, one) ↦ rw (r, merge_source_to_feed_config) (inr one)
      | inr (e, r, same) ↦
          rw (r, merge_source_to_feed_config)
            (elim (cast_feed_error-sent w feed_id (merge_failed e)
              (merge_into_feed w feed_id source n).1) [
                | inl none_sent ↦ inl (none_sent ∙ same)
                | inr (c, sent, t) ↦ inr (c, rw sent (rw same refl), t)
              ])
    ]
