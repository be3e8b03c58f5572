-- ===== src/Eth/Table.antt =====
-- The table of the sources: the key mapper of initKTableSourceConfig in
-- eth-client/src/eth-connect.service.ts, over a table of the Kafka Streams library.
pub mod Tests
use chainlink_eth_secret_net.Base.{
  String, List, [], ◌∷◌, Option, none, some, Bool, true, false, ◌≡◌, refl, ◌∙◌, Option-cases,
  if◌then◌else◌, arith, str_eq_iff, ◌==◌, string_eq, Bool-cases, inl, inr,
}
use chainlink_eth_secret_net.Data.Channels.{Topic, source_config, topic_eq}
use chainlink_eth_secret_net.Data.Records.{FeedConfigSource, FeedSourceConfigWrap}
use chainlink_eth_secret_net.Kafka.Streams.{KTable}
use chainlink_eth_secret_net.Eth.World.{Cast, Payload, config, polling, update, report}

-- The entry of a record: the feed is the key of the record, and the contract that of the entry.
pub key_mapper_etl : String → FeedConfigSource → String × FeedSourceConfigWrap
key_mapper_etl key source = (source.contract, record { feed_id = key; source = some source })

-- The config that a record of the topic carries.
abbrev pub config_of : Cast → Option FeedConfigSource
config_of c =
    if c.topic == source_config
    then elim c.value [ config s ↦ some s | polling p ↦ none | update u ↦ none | report t e ↦ none ]
    else none

module _ (T : KTable FeedSourceConfigWrap) where
  abbrev stored : Option FeedConfigSource → String → T.Storage → T.Storage
  stored none key s = s
  stored (some source) key s = let (k, v) = key_mapper_etl key source in T.put k v s

  -- The table after some records, the newest first.
  unfoldable pub tabled : List Cast → T.Storage
  unfolding key_mapper_etl
  tabled [] = T.empty
  tabled (c ∷ casts) = stored (config_of c) c.key (tabled casts)

abbrev pub last_of :
    String
    → String
    → Option FeedConfigSource
    → Option FeedSourceConfigWrap
    → Option FeedSourceConfigWrap
last_of id key none before = before
last_of id key (some source) before =
    if source.contract == id then some (record { feed_id = key; source = some source }) else before

-- The last config that was cast for a contract, with the feed that it was cast for.
abbrev pub last_config : String → List Cast → Option FeedSourceConfigWrap
last_config id [] = none
last_config id (c ∷ casts) = last_of id c.key (config_of c) (last_config id casts)

-- The table has for each contract the last config that was cast for it, whatever feed it was cast
-- for: the config of another feed on the same contract is not kept.
pub get-tabled :
    (T : KTable FeedSourceConfigWrap) (casts : List Cast) (id : String)
    → T.get id (tabled T casts) ≡ last_config id casts
unfolding tabled
get-tabled T [] id = T.get-empty id
get-tabled T (c ∷ casts) id = elim (Option-cases (config_of c)) [
  | inl e ↦ rw e (get-tabled T casts id)
  | inr (source, e) ↦ rw e (
      rw
        (T.get-put id source.contract (record { feed_id = c.key; source = some source })
          (tabled T casts))
        (rw (get-tabled T casts id) refl))
]
