-- ===== src/Kafka.antt =====
-- The topics of the broker: configKafkaTopics of common/src/config/kafka.config.ts and
-- KafkaUtils.createTopics of common/src/kafka/kafka.utils.ts. The admin client is a parameter.
pub mod Clients
pub mod Streams
use chainlink_eth_secret_net.Base.{
  ℕ, suc, ◌%◌, String, List, [], ◌∷◌, ◌++◌, Option, none, some, Bool, true, false, not, ◌&&◌, ◌||◌,
  ◌≡◌, refl, ap, ◌∙◌, arith, includes, All, map, ◌==◌, nat_eq, string_eq, if◌then◌else◌, Bool-cases,
  inl, inr, ltb, length,
}
use chainlink_eth_secret_net.Data.Channels.{Topic, topic_value, topic_eq, topic_beq_iff}

pub record TopicConfig : Type 0 where
  pub name : Topic
  pub num_partitions : ℕ
  pub replication_factor : ℕ

-- Every topic has the same numbers.
unfoldable pub config_kafka_topics : Topic → TopicConfig
config_kafka_topics topic = record { name = topic; num_partitions = 30; replication_factor = 1 }

-- What the admin client of the broker answers; `none` is a rejection.
pub record KafkaAdmin : Type 0 where
  pub list_topics : Option (List String)
  pub create : List TopicConfig → Option Bool

-- `n | 1`
abbrev pub or_one : ℕ → ℕ
or_one n = if n % 2 == 0 then suc n else n

pub app_topic : Topic → TopicConfig
unfolding config_kafka_topics
app_topic topic = record {
  name = topic;
  num_partitions = or_one ((config_kafka_topics topic).num_partitions);
  replication_factor = or_one ((config_kafka_topics topic).replication_factor);
}

-- The topics that are to be created: those that do not exist.
pub app_topics : List String → List Topic → List TopicConfig
unfolding app_topic
app_topics existing [] = []
app_topics existing (topic ∷ topics) =
    if includes existing (topic_value topic)
    then app_topics existing topics
    else app_topic topic ∷ app_topics existing topics

-- The answer of `createTopics` only says whether issues were met, and is logged.
abbrev created : Option Bool → Option Bool
created none = none
created (some _) = some true

-- `none` is an error. Where nothing is missing, nothing is asked for.
pub create_topics : KafkaAdmin → List Topic → Option Bool
unfolding app_topics
create_topics admin topics = elim admin.list_topics [
  | none ↦ none
  | some existing ↦
      if ltb 0 (length (app_topics existing topics))
      then created (admin.create (app_topics existing topics))
      else some true
]

abbrev pub name_of : TopicConfig → Topic
name_of c = c.name

-- The first topic, by what is known of it: `own`, whether it is the one asked about, `known`, whether it
-- exists, `out`, whether the one asked about does, and the answers for the topics behind.
first_topic :
    (own known out asked made : Bool)
    → (own ≡ true → known ≡ out)
    → made ≡ (asked && not out)
    → (if known then made else own || made) ≡ ((own || asked) && not out)
first_topic true true out asked made same behind = ground arith
first_topic true false out asked made same behind = ground arith
first_topic false true out asked made same behind = behind
first_topic false false out asked made same behind = behind

includes-if :
    (b : Bool) (x : TopicConfig) (xs : List TopicConfig) (topic : Topic)
    → includes (map name_of (if b then xs else x ∷ xs)) topic ≡ (
        if b
        then includes (map name_of xs) topic
        else x.name == topic || includes (map name_of xs) topic)
includes-if true x xs topic = refl
includes-if false x xs topic = refl

-- A topic is created exactly if it is asked for and does not exist.
pub app_topics-includes :
    (existing : List String) (topics : List Topic) (topic : Topic)
    → includes (map name_of (app_topics existing topics)) topic
      ≡ (includes topics topic && not (includes existing (topic_value topic)))
unfolding app_topics app_topic
app_topics-includes existing [] topic = refl
app_topics-includes existing (t ∷ topics) topic =
    includes-if (includes existing (topic_value t)) (app_topic t) (app_topics existing topics) topic
    ∙ first_topic (t == topic) (includes existing (topic_value t))
        (includes existing (topic_value topic)) (includes topics topic)
        (includes (map name_of (app_topics existing topics)) topic)
        (λ own.
          ap (λ (x : Topic). includes existing (topic_value x)) ((topic_beq_iff t topic).0 own))
        (app_topics-includes existing topics topic)

-- Each topic that is created has 31 partitions, where 30 are configured, and one replica.
pub app_topics-partitions :
    (existing : List String) (topics : List Topic)
    → All (λ c. (c.num_partitions ≡ 31) × (c.replication_factor ≡ 1)) (app_topics existing topics)
unfolding app_topics app_topic
app_topics-partitions existing [] = tt
app_topics-partitions existing (t ∷ topics) =
    elim (Bool-cases (includes existing (topic_value t))) [
      | inl known ↦ rw known (app_topics-partitions existing topics)
      | inr missing ↦ rw missing ((refl, refl), app_topics-partitions existing topics)
    ]

app_topics_none :
    (existing : List String) (topics : List Topic)
    → All (λ topic. includes existing (topic_value topic) ≡ true) topics
    → app_topics existing topics ≡ []
unfolding app_topics
app_topics_none existing [] known = refl
app_topics_none existing (t ∷ topics) known = rw (known.0) (app_topics_none existing topics known.1)

-- Where the topics that exist are listed and include all that are asked for, the creation
-- succeeds, whatever the broker would answer to a request for topics.
pub create_topics-existing :
    (admin : KafkaAdmin) (existing : List String) (topics : List Topic)
    → admin.list_topics ≡ some existing
    → All (λ topic. includes existing (topic_value topic) ≡ true) topics
    → create_topics admin topics ≡ some true
unfolding create_topics
create_topics-existing admin existing topics listed known =
    rw (listed, create_topics) (rw (app_topics_none existing topics known) refl)
