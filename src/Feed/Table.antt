-- ===== src/Feed/Table.antt =====
-- The table of the feeds: the key mapper of initKTableFeed in feed-handler/src/feed-handler.service.ts,
-- over a table of the Kafka Streams library, and what the handler finds in it later.
mod Tests
use chainlink_eth_secret_net.Base.{
  ℕ, suc, ◌+◌, ◌≤◌, String, List, [], ◌∷◌, Option, none, some, Bool, true, false, ◌≡◌, refl, sym,
  ap, ◌∙◌, Option-cases, if◌then◌else◌, arith, str_eq_iff, ◌==◌, string_eq, beq_refl, Bool-cases,
  inl, inr,
}
use chainlink_eth_secret_net.Data.Channels.{Topic, feed_config, topic_eq}
use chainlink_eth_secret_net.Data.Records.{FeedConfig, FeedConfigSource}
use chainlink_eth_secret_net.Kafka.Streams.{KTable}
use chainlink_eth_secret_net.Feed.{
  FeedCast, FeedPayload, of_feed, of_source, of_error, FeedWorld, FeedNode, fulfilled,
  RelayActionResult, http_ok, halt_ms, create_feed, load_feed_from_table, cast_feed_config,
  write_feed_to_stream,
}
use chainlink_eth_secret_net.Feed.Answers.{
  feed_cast, source_cast, declined, IsAnnounced, create_feed-IsAnswered, create_feed-declined,
}
use chainlink_eth_secret_net.Feed.Merging.{merge_into_feed, merge_source_to_feed_config}

-- The entry of a record: the identifier within the config, whatever the key of the record.
pub feed_key_mapper_etl : FeedConfig → String × FeedConfig
feed_key_mapper_etl config = (config.id, config)

-- The config that a record of the topic carries.
abbrev pub feed_of : FeedCast → Option FeedConfig
feed_of c =
    if c.topic == feed_config
    then elim c.value [ of_feed f ↦ some f | of_source s ↦ none | of_error t e ↦ none ]
    else none

module _ (T : KTable FeedConfig) where
  abbrev kept : Option FeedConfig → T.Storage → T.Storage
  kept none s = s
  kept (some config) s = let (k, v) = feed_key_mapper_etl config in T.put k v s

  -- The table after some records, the newest first.
  unfoldable pub feed_table_of : List FeedCast → T.Storage
  unfolding feed_key_mapper_etl
  feed_table_of [] = T.empty
  feed_table_of (c ∷ casts) = kept (feed_of c) (feed_table_of casts)

abbrev newer : String → Option FeedConfig → Option FeedConfig → Option FeedConfig
newer id none before = before
newer id (some config) before = if config.id == id then some config else before

-- The last config that was cast with an identifier.
abbrev pub last_feed : String → List FeedCast → Option FeedConfig
last_feed id [] = none
last_feed id (c ∷ casts) = newer id (feed_of c) (last_feed id casts)

pub get-feed_table_of :
    (T : KTable FeedConfig) (casts : List FeedCast) (id : String)
    → T.get id (feed_table_of T casts) ≡ last_feed id casts
unfolding feed_table_of
get-feed_table_of T [] id = T.get-empty id
get-feed_table_of T (c ∷ casts) id = elim (Option-cases (feed_of c)) [
  | inl e ↦ rw e (get-feed_table_of T casts id)
  | inr (config, e) ↦ rw e (
      rw (T.get-put id config.id config (feed_table_of T casts))
        (rw (get-feed_table_of T casts id) refl))
]

last_feed-id :
    (id : String) (casts : List FeedCast) (config : FeedConfig)
    → last_feed id casts ≡ some config
    → config.id ≡ id
last_feed-id id [] config = λ e. cc e
last_feed-id id (c ∷ casts) config = elim (Option-cases (feed_of c)) [
  | inl none_here ↦ rw none_here (last_feed-id id casts config)
  | inr (f, here) ↦ rw here (λ e. ground (arith, str_eq_iff f.id id, last_feed-id id casts config))
]

last_feed-announced :
    (f : FeedConfig) (casts : List FeedCast)
    → last_feed f.id (source_cast f ∷ feed_cast f ∷ casts) ≡ some f
last_feed-announced f casts = rw (beq_refl f.id) refl

-- A feed is created once: where a request is answered with a new feed, and the table has taken in all
-- records of the handler when a second request with the same identifier reads it, within three
-- minutes of the date in the feed, the second request is declined and writes nothing.
pub create_feed_twice :
    (T : KTable FeedConfig) (w : FeedWorld) (config again f : FeedConfig) (n : FeedNode)
    (date : String) (t : ℕ)
    → (create_feed w config n).0 ≡ fulfilled (record { status = http_ok; data_feed = some f })
    → again.id ≡ config.id
    → w.feed_table (create_feed w config n).1.calls again.id
      ≡ some (T.get again.id (feed_table_of T (create_feed w config n).1.sent))
    → f.date_updated ≡ some date
    → w.parse_date date ≡ some t
    → w.now (suc (create_feed w config n).1.calls) ≤ t + halt_ms
    → let n' = (create_feed w config n).1 in
      ((create_feed w again n').0 ≡ fulfilled declined)
      × ((create_feed w again n').1.sent ≡ n'.sent)
create_feed_twice T w config again f n date t created same caught_up dated parsed recent =
    let n' = (create_feed w config n).1 in
    let (_, _, settled) =
      create_feed-IsAnswered w config n (record { status = http_ok; data_feed = some f }) created in
    elim settled [
      | inl (_, _, other, _) ↦ absurd (ground arith)
      | inr (g, _, same_feed, told, sent) ↦
          let id : g.id ≡ config.id = ap (λ (x : FeedConfig). x.id) same_feed in
          let is_f : g ≡ f = ground arith in
          let found : T.get again.id (feed_table_of T n'.sent) ≡ some g =
            get-feed_table_of T n'.sent again.id
            ∙ ap (last_feed again.id) sent
            ∙ ap (λ k. last_feed k (source_cast g ∷ feed_cast g ∷ n.sent)) (same ∙ sym id)
            ∙ last_feed-announced g n.sent in
          create_feed-declined w again g n' date t (caught_up ∙ ap some found) (rw is_f dated)
            parsed recent
    ]

merge_into_feed-taken :
    (w : FeedWorld) (id : String) (source : FeedConfigSource) (config : FeedConfig) (n : FeedNode)
    → w.feed_table n.calls id ≡ some (some config)
    → ((calls : ℕ) (c : FeedCast) → w.accepts calls c ≡ true)
    → merge_into_feed w id source n ≡ (
      fulfilled tt,
      record n {
        sent = feed_cast (record config { source = source }) ∷ n.sent;
        calls = suc (suc n.calls);
      },
    )
unfolding merge_into_feed load_feed_from_table cast_feed_config write_feed_to_stream
merge_into_feed-taken w id source config n known taken =
    rw (known, merge_into_feed)
      (rw (taken (suc n.calls) (feed_cast (record config { source = source }))) refl)

-- A merged source comes back: where the table has taken in all records of the handler, holds a feed
-- under an identifier when the merge reads it, and the broker takes the record, the table then holds
-- under that identifier the same feed with the new source, all else unchanged.
pub merge_source_to_feed_config-tabled :
    (T : KTable FeedConfig) (w : FeedWorld) (id : String) (source : FeedConfigSource)
    (config : FeedConfig) (n : FeedNode)
    → w.feed_table n.calls id ≡ some (T.get id (feed_table_of T n.sent))
    → T.get id (feed_table_of T n.sent) ≡ some config
    → ((calls : ℕ) (c : FeedCast) → w.accepts calls c ≡ true)
    → T.get id (feed_table_of T (merge_source_to_feed_config w (some id) source n).1.sent)
      ≡ some (record config { source = source })
unfolding merge_source_to_feed_config
merge_source_to_feed_config-tabled T w id source config n caught_up held taken =
    let merged : FeedConfig = record config { source = source } in
    let known : config.id ≡ id =
      last_feed-id id n.sent config (sym (get-feed_table_of T n.sent id) ∙ held) in
    let taken_in = merge_into_feed-taken w id source config n (caught_up ∙ ap some held) taken in
    rw (ap (λ p. p.0) taken_in, merge_source_to_feed_config)
      (rw (ap (λ p. p.1) taken_in) (
        get-feed_table_of T (feed_cast merged ∷ n.sent) id
        ∙ ground (arith, str_eq_iff config.id id)))
