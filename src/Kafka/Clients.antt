-- ===== src/Kafka/Clients.antt =====
-- The configurations of the Kafka clients: getConfigKafka, getConfigKafkaClient and
-- getConfigKafkaNative of common/src/kafka/kafka.utils.ts, over common/src/config/kafka.config.ts. The
-- texts are appended by the runtime. Options that all clients share are left out.
use Prim.Native.String.{◌++◌}
use chainlink_eth_secret_net.Base.{
  String, List, [], ◌∷◌, Option, none, some, ◌≡◌, ◌↔◌, refl, sym, ap, ◌∙◌, ◌==◌, string_eq,
  if◌then◌else◌,
}

-- The services that connect, and their groups.
pub data RelaydKClient : Type 0 where
  client_aio client_eth client_eth_stream client_scrt client_feed client_feed_stream client_err :
      RelaydKClient

abbrev pub relayd_k_client_value : RelaydKClient → String
relayd_k_client_value client_aio = "relayd.aio"
relayd_k_client_value client_eth = "relayd.eth"
relayd_k_client_value client_eth_stream = "relayd.eth.stream"
relayd_k_client_value client_scrt = "relayd.scrt"
relayd_k_client_value client_feed = "relayd.feed"
relayd_k_client_value client_feed_stream = "relayd.feed.stream"
relayd_k_client_value client_err = "relayd.error"

pub data RelaydKGroup : Type 0 where
  group_aio group_eth group_scrt group_feed group_err : RelaydKGroup

abbrev pub relayd_k_group_value : RelaydKGroup → String
relayd_k_group_value group_aio = "relayd.gaio"
relayd_k_group_value group_eth = "relayd.geth"
relayd_k_group_value group_scrt = "relayd.gscrt"
relayd_k_group_value group_feed = "relayd.gfeed"
relayd_k_group_value group_err = "relayd.gerror"

-- `configKafkaClient`
pub record KafkaConfig : Type 0 where
  pub client_id : String
  pub brokers : List String

abbrev kafka_host_port : String
kafka_host_port = "127.0.0.1:9092"

abbrev config_kafka_client : KafkaConfig
config_kafka_client = record { client_id = "kClient_"; brokers = kafka_host_port ∷ [] }

-- `configKafka`
pub record KafkaOptions : Type 0 where
  pub client : KafkaConfig
  pub group_id : String

abbrev config_kafka : KafkaOptions
config_kafka = record { client = config_kafka_client; group_id = "kGroupRelayd" }

-- `configKafkaNative.noptions`
pub record KafkaStreamsConfig : Type 0 where
  pub metadata_broker_list : String
  pub group_id : String
  pub client_id : String

abbrev config_kafka_native : KafkaStreamsConfig
config_kafka_native = record {
  metadata_broker_list = kafka_host_port;
  group_id = "kGroupRelayd";
  client_id = "kClient_";
}

-- `if (group) groupId += '_' + group`: no group and an empty one are the same.
abbrev with_group : String → Option String → String
with_group group_id none = group_id
with_group group_id (some group) = if group == "" then group_id else group_id ++ ("_" ++ group)

pub get_config_kafka_client : String → Option (List String) → KafkaConfig
get_config_kafka_client client none = record config_kafka_client {
  client_id = "kClient_" ++ client;
}
get_config_kafka_client client (some brokers) = record {
  client_id = "kClient_" ++ client;
  brokers = brokers;
}

pub get_config_kafka : String → Option String → Option (List String) → KafkaOptions
unfolding get_config_kafka_client
get_config_kafka client group brokers = record {
  client = get_config_kafka_client client brokers;
  group_id = with_group config_kafka.group_id group;
}

pub get_config_kafka_native : RelaydKClient → Option String → Option String → KafkaStreamsConfig
get_config_kafka_native client group broker_list = record {
  metadata_broker_list = elim broker_list [
    | none ↦ config_kafka_native.metadata_broker_list
    | some list ↦ if list == "" then config_kafka_native.metadata_broker_list else list
  ];
  group_id = with_group config_kafka_native.group_id group;
  client_id = config_kafka_native.client_id ++ relayd_k_client_value client;
}

-- The group that an identifier belongs to.
abbrev group_of : String → RelaydKGroup
group_of id =
    if id == "kGroupRelayd_relayd.gaio"
    then group_aio
    else if id == "kGroupRelayd_relayd.geth"
    then group_eth
    else if id == "kGroupRelayd_relayd.gscrt"
    then group_scrt
    else if id == "kGroupRelayd_relayd.gfeed"
    then group_feed
    else group_err

group_of-with_group :
    (g : RelaydKGroup) → group_of (with_group "kGroupRelayd" (some (relayd_k_group_value g))) ≡ g
group_of-with_group group_aio = refl
group_of-with_group group_eth = refl
group_of-with_group group_scrt = refl
group_of-with_group group_feed = refl
group_of-with_group group_err = refl

-- Two clients of the services have one identifier of their consumer group exactly when they are of
-- one group, whether they are plain clients or clients for streams.
pub get_config_kafka-groups :
    (client : String) (client' : RelaydKClient) (brokers : Option (List String))
    (broker_list : Option String) (g g' : RelaydKGroup)
    → ((get_config_kafka client (some (relayd_k_group_value g)) brokers).group_id
        ≡ (get_config_kafka_native client' (some (relayd_k_group_value g')) broker_list).group_id)
      ↔ (g ≡ g')
unfolding get_config_kafka get_config_kafka_native
get_config_kafka-groups client client' brokers broker_list g g' = (
  λ e. sym (group_of-with_group g) ∙ ap group_of e ∙ group_of-with_group g',
  λ same. ap (λ h. with_group "kGroupRelayd" (some (relayd_k_group_value h))) same,
)
