-- ===== src/Data/FeedEnums.antt =====
-- The enumerations of common/src/data/feed.data.ts, each with the value it has on the wire and the
-- test `===`.
use chainlink_eth_secret_net.Base.{String, Bool, true, false, ◌≡◌, ◌↔◌, Eq, arith}

-- Networks of a feed's source contract.
pub data FeedSourceNetwork : Type 0 where
  eth_main eth_test_rinkeby eth_test_kovan : FeedSourceNetwork

abbrev pub feed_source_network_value : FeedSourceNetwork → String
feed_source_network_value eth_main = "eth-mainnet"
feed_source_network_value eth_test_rinkeby = "eth-testnet-rinkeby"
feed_source_network_value eth_test_kovan = "eth-testnet-kovan"

abbrev pub feed_source_network_beq : FeedSourceNetwork → FeedSourceNetwork → Bool
feed_source_network_beq eth_main eth_main = true
feed_source_network_beq eth_test_rinkeby eth_test_rinkeby = true
feed_source_network_beq eth_test_kovan eth_test_kovan = true
feed_source_network_beq _ _ = false

pub feed_source_network_beq_iff :
    (a b : FeedSourceNetwork) → (feed_source_network_beq a b ≡ true) ↔ (a ≡ b)
feed_source_network_beq_iff a b = ground arith

instance abbrev pub feed_source_network_eq : Eq FeedSourceNetwork
feed_source_network_eq = record {
  same = feed_source_network_beq;
  same_iff = feed_source_network_beq_iff;
}

-- Types of source contract.
pub data FeedSourceType : Type 0 where
  cl_aggr_prox cl_aggr : FeedSourceType

abbrev pub feed_source_type_value : FeedSourceType → String
feed_source_type_value cl_aggr_prox = "cl-aggregator-proxy"
feed_source_type_value cl_aggr = "cl-aggregator"

abbrev pub feed_source_type_beq : FeedSourceType → FeedSourceType → Bool
feed_source_type_beq cl_aggr_prox cl_aggr_prox = true
feed_source_type_beq cl_aggr cl_aggr = true
feed_source_type_beq _ _ = false

pub feed_source_type_beq_iff : (a b : FeedSourceType) → (feed_source_type_beq a b ≡ true) ↔ (a ≡ b)
feed_source_type_beq_iff a b = ground arith

instance abbrev pub feed_source_type_eq : Eq FeedSourceType
feed_source_type_eq = record { same = feed_source_type_beq; same_iff = feed_source_type_beq_iff }

-- Event signatures for data source updates.
pub data FeedSourceEvent : Type 0 where
  answer_updated custom : FeedSourceEvent

abbrev pub feed_source_event_value : FeedSourceEvent → String
feed_source_event_value answer_updated = "AnswerUpdated(int256,uint256,uint256)"
feed_source_event_value custom = "custom"

abbrev pub feed_source_event_beq : FeedSourceEvent → FeedSourceEvent → Bool
feed_source_event_beq answer_updated answer_updated = true
feed_source_event_beq custom custom = true
feed_source_event_beq _ _ = false

pub feed_source_event_beq_iff :
    (a b : FeedSourceEvent) → (feed_source_event_beq a b ≡ true) ↔ (a ≡ b)
feed_source_event_beq_iff a b = ground arith

instance abbrev pub feed_source_event_eq : Eq FeedSourceEvent
feed_source_event_eq = record { same = feed_source_event_beq; same_iff = feed_source_event_beq_iff }

-- Modes to watch for source contract updates.
pub data FeedSourcePoll : Type 0 where
  event timeperiod : FeedSourcePoll

abbrev pub feed_source_poll_value : FeedSourcePoll → String
feed_source_poll_value event = "event"
feed_source_poll_value timeperiod = "period"

abbrev pub feed_source_poll_beq : FeedSourcePoll → FeedSourcePoll → Bool
feed_source_poll_beq event event = true
feed_source_poll_beq timeperiod timeperiod = true
feed_source_poll_beq _ _ = false

pub feed_source_poll_beq_iff : (a b : FeedSourcePoll) → (feed_source_poll_beq a b ≡ true) ↔ (a ≡ b)
feed_source_poll_beq_iff a b = ground arith

instance abbrev pub feed_source_poll_eq : Eq FeedSourcePoll
feed_source_poll_eq = record { same = feed_source_poll_beq; same_iff = feed_source_poll_beq_iff }

-- Notification mode of data updates.
pub data FeedSourceNotifOn : Type 0 where
  change check : FeedSourceNotifOn

abbrev pub feed_source_notif_on_value : FeedSourceNotifOn → String
feed_source_notif_on_value change = "change"
feed_source_notif_on_value check = "check"

abbrev pub feed_source_notif_on_beq : FeedSourceNotifOn → FeedSourceNotifOn → Bool
feed_source_notif_on_beq change change = true
feed_source_notif_on_beq check check = true
feed_source_notif_on_beq _ _ = false

pub feed_source_notif_on_beq_iff :
    (a b : FeedSourceNotifOn) → (feed_source_notif_on_beq a b ≡ true) ↔ (a ≡ b)
feed_source_notif_on_beq_iff a b = ground arith

instance abbrev pub feed_source_notif_on_eq : Eq FeedSourceNotifOn
feed_source_notif_on_eq = record {
  same = feed_source_notif_on_beq;
  same_iff = feed_source_notif_on_beq_iff;
}

-- The source contract's function to pull data with.
pub data FeedSourceFunction : Type 0 where
  latest_round_data last_updated : FeedSourceFunction

abbrev pub feed_source_function_value : FeedSourceFunction → String
feed_source_function_value latest_round_data = "latestRoundData"
feed_source_function_value last_updated = "lastUpdated"

abbrev pub feed_source_function_beq : FeedSourceFunction → FeedSourceFunction → Bool
feed_source_function_beq latest_round_data latest_round_data = true
feed_source_function_beq last_updated last_updated = true
feed_source_function_beq _ _ = false

pub feed_source_function_beq_iff :
    (a b : FeedSourceFunction) → (feed_source_function_beq a b ≡ true) ↔ (a ≡ b)
feed_source_function_beq_iff a b = ground arith

instance abbrev pub feed_source_function_eq : Eq FeedSourceFunction
feed_source_function_eq = record {
  same = feed_source_function_beq;
  same_iff = feed_source_function_beq_iff;
}
