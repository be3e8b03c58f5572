-- ===== src/Eth/Frames.antt =====
-- The rules by which an action of the Ethereum client keeps a property that calls of other systems and
-- writes of records leave alone: one for each such call and each record.
use chainlink_eth_secret_net.Base.{ℕ, String, Option, Bool, arith}
use chainlink_eth_secret_net.Data.SourceEnums.{SourceCastReason, SourceDataUpdateReason}
use chainlink_eth_secret_net.Data.FeedEnums.{FeedSourceType}
use chainlink_eth_secret_net.Data.Channels.{Topic, ErrorType}
use chainlink_eth_secret_net.Data.Records.{FeedSourceData, FeedConfigSource}
use chainlink_eth_secret_net.Eth.World.{World, Failure, Note}
use chainlink_eth_secret_net.Eth.Action.{Action, Node, Contract, ask}
use chainlink_eth_secret_net.Eth.Action.Keeping.{Preserves, preserves_rules}
use chainlink_eth_secret_net.Eth.Casting.{
  and_forget, cast_source_config, cast_error_source_config, cast_source_data_update, cast_error,
}
use chainlink_eth_secret_net.Eth.Casting.Written.{
  Keeps, cast_source_config-Keeps, cast_error_source_config-Keeps, cast_source_data_update-Keeps,
  cast_error-Keeps,
}
use chainlink_eth_secret_net.Eth.Contracts.{
  convert_date, init_contract_cl_aggregator, load_contract_latest_round_data,
  load_contract_decimals, load_cl_proxy_contract_aggregator, load_contract_event,
}
use chainlink_eth_secret_net.Eth.Contracts.RoundChecks.{
  load_contract_latest_round_data-Keeps, load_contract_decimals-Keeps,
}

-- What an instance tracks is all that the property is about; its network is not.
pub record Frames (P : Node → Type 0) : Type 0 where
  pub kept : (n n' : Node) → Keeps n n' → P n → P n'
  pub connected : (network : Option String) (n : Node) → P n → P (record n { network = network })

module _ {P : Node → Type 0} (f : Frames P) where
  pub writing : {A : Type 0} (m : Action A) → ((n : Node) → Keeps n (m n).1) → Preserves P m
  writing m k = record { at = λ n. f.kept n (m n).1 (k n) }

  pub ask-Preserves : {A : Type 0} (answer : ℕ → Option A) → Preserves P (ask answer)
  ask-Preserves answer = writing (ask answer) (λ n. ground arith)

  pub init_contract_cl_aggregator-Preserves :
      (address : String) (type : Option FeedSourceType)
      → Preserves P (init_contract_cl_aggregator address type)
  unfolding init_contract_cl_aggregator
  init_contract_cl_aggregator-Preserves address type =
      writing (init_contract_cl_aggregator address type) (λ n. ground arith)

module _ {P : Node → Type 0} (f : Frames P) (w : World) where
  pub cast_source_config-Preserves :
      (topic : Topic) (id : String) (s : FeedConfigSource) (reason : SourceCastReason)
      (info : Option Note)
      → Preserves P (and_forget (cast_source_config w topic id s reason info))
  cast_source_config-Preserves topic id s reason info =
      writing f (and_forget (cast_source_config w topic id s reason info))
        (cast_source_config-Keeps w topic id s reason info)

  pub cast_error_source_config-Preserves :
      (t : ErrorType) (s : FeedConfigSource) (id : String) (e : Failure)
      → Preserves P (and_forget (cast_error_source_config w t s id e))
  cast_error_source_config-Preserves t s id e =
      writing f (and_forget (cast_error_source_config w t s id e))
        (cast_error_source_config-Keeps w t s id e)

  pub cast_source_data_update-Preserves :
      (feed id : String) (d : FeedSourceData) (reason : SourceDataUpdateReason)
      → Preserves P (cast_source_data_update w feed id d reason)
  cast_source_data_update-Preserves feed id d reason =
      writing f (cast_source_data_update w feed id d reason)
        (cast_source_data_update-Keeps w feed id d reason)

  pub cast_error-Preserves :
      (topic : Topic) (t : ErrorType) (key : String) (e : Failure)
      → Preserves P (cast_error w topic t key e)
  cast_error-Preserves topic t key e =
      writing f (cast_error w topic t key e) (cast_error-Keeps w topic t key e)

  pub load_contract_latest_round_data-Preserves :
      (c : Contract) (d : ℕ) (v : Bool) → Preserves P (load_contract_latest_round_data w c d v)
  load_contract_latest_round_data-Preserves c d v =
      writing f (load_contract_latest_round_data w c d v)
        (load_contract_latest_round_data-Keeps w c d v)

  pub load_contract_decimals-Preserves : (c : Contract) → Preserves P (load_contract_decimals w c)
  load_contract_decimals-Preserves c =
      writing f (load_contract_decimals w c) (load_contract_decimals-Keeps w c)

pub ruleset frame_rules = (
  preserves_rules, ask-Preserves, init_contract_cl_aggregator-Preserves,
  cast_source_config-Preserves, cast_error_source_config-Preserves,
  cast_source_data_update-Preserves, cast_error-Preserves,
  load_contract_latest_round_data-Preserves, load_contract_decimals-Preserves,
)

module _ {P : Node → Type 0} (f : Frames P) (w : World) where
  pub load_cl_proxy_contract_aggregator-Preserves :
      (c : Contract) → Preserves P (load_cl_proxy_contract_aggregator w c)
  unfolding load_cl_proxy_contract_aggregator
  load_cl_proxy_contract_aggregator-Preserves c = search frame_rules

  pub load_contract_event-Preserves :
      (c : Contract) (e : Option String) → Preserves P (load_contract_event w c e)
  unfolding load_contract_event
  load_contract_event-Preserves c e = search frame_rules

  pub convert_date-Preserves : (t : ℕ) → Preserves P (convert_date w t)
  unfolding convert_date
  convert_date-Preserves t = search frame_rules
