-- ===== src/Data/Channels.antt =====
-- The topics of common/src/config/kafka.config.ts, the error types of common/src/kafka/rpc.error.ts and
-- the networks of common/src/config/ethers.config.ts.
use chainlink_eth_secret_net.Base.{String, Bool, true, false, ◌≡◌, ◌↔◌, Eq, arith}

-- Channels for emitting or listening to messages.
pub data Topic : Type 0 where
  error_feed error_source feed_config source_config source_data source_polling : Topic

abbrev pub topic_value : Topic → String
topic_value error_feed = "relayd.error.feed"
topic_value error_source = "relayd.error.source"
topic_value feed_config = "relayd.feed"
topic_value source_config = "relayd.source"
topic_value source_data = "relayd.source.data"
topic_value source_polling = "relayd.source.polling"

abbrev pub topic_beq : Topic → Topic → Bool
topic_beq error_feed error_feed = true
topic_beq error_source error_source = true
topic_beq feed_config feed_config = true
topic_beq source_config source_config = true
topic_beq source_data source_data = true
topic_beq source_polling source_polling = true
topic_beq _ _ = false

pub topic_beq_iff : (a b : Topic) → (topic_beq a b ≡ true) ↔ (a ≡ b)
topic_beq_iff a b = ground arith

instance abbrev pub topic_eq : Eq Topic
topic_eq = record { same = topic_beq; same_iff = topic_beq_iff }

-- Types of the errors that are cast.
pub data ErrorType : Type 0 where
  source_config_network_nosupport source_config_invalid source_config_handling_fail
        source_config_merge_fail source_config_general_fail source_polling_cast_fail
        source_polling_handle_fail :
      ErrorType

abbrev pub error_type_value : ErrorType → String
error_type_value source_config_network_nosupport = "source.config.handling.network.nosupport"
error_type_value source_config_invalid = "source.config.invalid"
error_type_value source_config_handling_fail = "source.config.handling.fail"
error_type_value source_config_merge_fail = "source.config.merge.fail"
error_type_value source_config_general_fail = "source.config.general.fail"
error_type_value source_polling_cast_fail = "source.polling.cast.fail"
error_type_value source_polling_handle_fail = "source.polling.handle.fail"

abbrev pub error_type_beq : ErrorType → ErrorType → Bool
error_type_beq source_config_network_nosupport source_config_network_nosupport = true
error_type_beq source_config_invalid source_config_invalid = true
error_type_beq source_config_handling_fail source_config_handling_fail = true
error_type_beq source_config_merge_fail source_config_merge_fail = true
error_type_beq source_config_general_fail source_config_general_fail = true
error_type_beq source_polling_cast_fail source_polling_cast_fail = true
error_type_beq source_polling_handle_fail source_polling_handle_fail = true
error_type_beq _ _ = false

pub error_type_beq_iff : (a b : ErrorType) → (error_type_beq a b ≡ true) ↔ (a ≡ b)
error_type_beq_iff a b = ground arith

instance abbrev pub error_type_eq : Eq ErrorType
error_type_eq = record { same = error_type_beq; same_iff = error_type_beq_iff }

-- Networks of the Ethereum client library.
pub data EthersNetwork : Type 0 where
  homestead kovan rinkeby : EthersNetwork

abbrev pub ethers_network_value : EthersNetwork → String
ethers_network_value homestead = "homestead"
ethers_network_value kovan = "kovan"
ethers_network_value rinkeby = "rinkeby"

abbrev pub ethers_network_beq : EthersNetwork → EthersNetwork → Bool
ethers_network_beq homestead homestead = true
ethers_network_beq kovan kovan = true
ethers_network_beq rinkeby rinkeby = true
ethers_network_beq _ _ = false

pub ethers_network_beq_iff : (a b : EthersNetwork) → (ethers_network_beq a b ≡ true) ↔ (a ≡ b)
ethers_network_beq_iff a b = ground arith

instance abbrev pub ethers_network_eq : Eq EthersNetwork
ethers_network_eq = record { same = ethers_network_beq; same_iff = ethers_network_beq_iff }
