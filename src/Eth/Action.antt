-- ===== src/Eth/Action.antt =====
-- The state of one instance of EthConnectService, and actions on it: a state that survives a throw,
-- and a result that may be an error. The handlers run one at a time.
pub mod Keeping
pub mod Leading
pub mod Outcomes
use chainlink_eth_secret_net.Base.{
  ℕ, suc, String, List, ◌∷◌, Option, none, some, Bool, if◌then◌else◌,
}
use chainlink_eth_secret_net.Base.Maps.{Dict}
use chainlink_eth_secret_net.Data.Records.{FeedSourceData, FeedConfigSource}
use chainlink_eth_secret_net.Eth.World.{World, Cast, Failure, rejected, within, Step, write_failed}

pub data Abi : Type 0 where
  eac_aggregator_proxy access_controlled_offchain_aggregator : Abi

-- A `Contract` object: an address, an interface, and the identity of the object.
pub record Contract : Type 0 where
  pub address : String
  pub abi : Abi
  pub instance_id : ℕ

-- An entry of `sourcePolling`.
pub record Polled : Type 0 where
  pub last : Option FeedSourceData
  pub timeout : ℕ

-- An entry of `sourceListening`.
pub record Listened : Type 0 where
  pub last : Option FeedSourceData
  pub contract : Contract

-- A timer that `setInterval` started, with the variables that its callback closes over.
pub record Interval : Type 0 where
  pub id : ℕ
  pub feed_id : String
  pub source : FeedConfigSource
  pub contract : Contract
  pub decimals : ℕ
  pub polling_error_counter : ℕ

-- A callback that `contract.on` registered.
pub record Subscription : Type 0 where
  pub contract : Contract
  pub feed_id : String
  pub source_id : String
  pub event_signature : String
  pub decimals : ℕ

pub record Node : Type 0 where
  pub service_id : String
  pub network : Option String
  pub source_polling : Dict Polled
  pub source_listening : Dict Listened
  pub intervals : List Interval
  pub subscriptions : List Subscription
  pub sent : List Cast  -- newest first
  pub calls : ℕ  -- of other systems, so far

-- What a promise settles to.
pub data Outcome (A : Type 0) : Type 0 where
  ok : (value : A) → Outcome A
  err : (error : Failure) → Outcome A

-- Asynchronous code of the service, run to its end.
abbrev pub Action : Type 0 → Type 0
Action A = (n : Node) → Outcome A × Node

module _ {A : Type 0} where
  -- `throw e`
  abbrev pub throw : Failure → Action A
  throw e n = (err e, n)

  -- `return a`
  abbrev pub pure : A → Action A
  pure a n = (ok a, n)

  -- A call of another system, numbered; `none` is its rejection.
  abbrev pub ask : (ℕ → Option A) → Action A
  ask f n =
      (elim (f n.calls) [ none ↦ err rejected | some a ↦ ok a ], record n { calls = suc n.calls })

  abbrev pub rethrown : Step → Outcome A → Outcome A
  rethrown s (ok a) = ok a
  rethrown s (err e) = err (within s e)

  -- `.catch(error => { throw new Error('…' + error) })`
  abbrev pub rethrow : Step → Action A → Action A
  rethrow s m n = let (r, n') = m n in (rethrown s r, n')

  -- `.catch(error => { return new Error('…' + error) })`
  abbrev pub attempt : Step → Action A → Action (Outcome A)
  attempt s m n = let (r, n') = m n in (ok (rethrown s r), n')

infixl 5 ◌>>=◌ ◌>>◌
abbrev pub ◌>>=◌ : {A B : Type 0} → Action A → (A → Action B) → Action B
◌>>=◌ m f n = let (r, n') = m n in elim r [ ok a ↦ f a n' | err e ↦ (err e, n') ]

abbrev pub ◌>>◌ : {A B : Type 0} → Action A → Action B → Action B
m >> k = m >>= λ _. k

abbrev pub guard : Bool → Failure → Action (Unit {0})
guard c e n = (if c then ok tt else err e, n)

abbrev pub modify : (Node → Node) → Action (Unit {0})
modify f n = (ok tt, f n)

abbrev pub gets : {A : Type 0} → (Node → A) → Action A
gets f n = (ok (f n), n)

-- KafkaUtils.writeToStream (common/src/kafka/kafka.utils.ts): the record is written, or the error of
-- the stream is replaced by one about the topic and the key.
unfoldable pub write_to_stream : World → Cast → Action (Unit {0})
write_to_stream w c n =
    let n' = record n { calls = suc n.calls } in
    if w.broker.accepts n.calls c
    then (ok tt, record n' { sent = c ∷ n.sent })
    else (err write_failed, n')
