-- ===== src/Data/Records.antt =====
-- The records of common/src/data/feed.data.ts and source.data.ts that the services exchange. A field
-- that may be undefined, or hold a value outside its enumeration, is an `Option`.
use chainlink_eth_secret_net.Base.{ℕ, String, List, Option, Bool, false, nat_beq}
use chainlink_eth_secret_net.Data.SourceEnums.{
  SourceCastReason, SourceStatus, SourceDataUpdateReason, SourcePollingChange,
}
use chainlink_eth_secret_net.Data.FeedEnums.{
  FeedSourceNetwork, FeedSourceType, FeedSourceEvent, FeedSourcePoll, FeedSourceNotifOn,
  FeedSourceFunction,
}

-- A free text, as its UTF-16 code units: what `substr` counts.
abbrev pub Text : Type 0
Text = List ℕ

-- A JavaScript number that the program only compares and passes on: not-a-number, a value by its
-- code (+0 and -0 have one code), or an object of class BigNumber that stands where a number is
-- declared.
pub data JsNumber : Type 0 where
  nan : JsNumber
  float : ℕ → JsNumber
  big_number : ℕ → JsNumber

-- `a === b` on numbers: not-a-number equals nothing, nor does an object that was made apart.
abbrev pub same_number : JsNumber → JsNumber → Bool
same_number (float a) (float b) = nat_beq a b
same_number _ _ = false

pub record FeedSourceData : Type 0 where
  pub path : Option String
  pub decimals : Option ℕ
  pub value : JsNumber
  pub time : String
  pub round : Option JsNumber

pub record ProcessingIssue : Type 0 where
  pub issuer : String
  pub type : SourceCastReason
  pub info : Option Text

pub record FeedSourceHandle : Type 0 where
  pub handler : String
  pub type : FeedSourcePoll
  pub time : String

pub record FeedConfigSource : Type 0 where
  pub status : Option SourceStatus
  pub issue : Option (List ProcessingIssue)
  pub network : Option FeedSourceNetwork
  pub contract : String
  pub type : Option FeedSourceType
  pub poll : Option FeedSourcePoll
  pub event : Option FeedSourceEvent
  pub event_signature : Option String
  pub period : Option ℕ
  pub function : Option FeedSourceFunction
  pub notif : Option FeedSourceNotifOn
  pub source_data : Option FeedSourceData
  pub handle : Option (List FeedSourceHandle)

pub record FeedTargetData : Type 0 where
  pub decimals : Option ℕ
  pub value : Option Text
  pub time : Option ℕ

pub record FeedConfigTarget : Type 0 where
  pub status : Option SourceStatus
  pub contract : Option String
  pub owner : Option String
  pub network : Option String
  pub type : Option String
  pub type_custom : Option String
  pub target_data : Option FeedTargetData

pub record FeedConfigData : Type 0 where
  pub type : String
  pub quote : Option String
  pub base : Option String

pub record FeedConfig : Type 0 where
  pub id : String
  pub version : Option ℕ
  pub name : String
  pub description : Option String
  pub creator : String
  pub date_created : Option String
  pub date_updated : Option String
  pub config_data : FeedConfigData
  pub source : FeedConfigSource
  pub target : Option FeedConfigTarget

-- A source with the feed it belongs to, as the source table stores it.
pub record FeedSourceConfigWrap : Type 0 where
  pub feed_id : String
  pub source : Option FeedConfigSource

pub record FeedSourceDataUpdate : Type 0 where
  pub feed_id : String
  pub source_id : Option String
  pub source : Option FeedSourceData
  pub reason : Option SourceDataUpdateReason
  pub info : Option Text

pub record SourcePollingInfo : Type 0 where
  pub source : String
  pub issuer : String
  pub change : Option SourcePollingChange
  pub info : Option Text

pub record ContractEvent : Type 0 where
  pub current : JsNumber
  pub round : ℕ
  pub updated_at : String

pub record ProviderNetwork : Type 0 where
  pub name : String
  pub chain_id : ℕ
  pub type : Option String

-- An update of a relayed feed, by its source or by its target.
pub record RelaydDataUpdate : Type 0 where
  pub feed : String
  pub version : ℕ
  pub issuer : String
  pub source : Option String
  pub target : Option String
  pub value : Option Text
  pub time : String
