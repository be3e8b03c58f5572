-- ===== src/EthTest.antt =====
-- The service for manual tests of the Ethereum client
-- (eth-client/src/eth-connect-test/eth-connect-test.service.ts): its contracts and their data.
pub mod Loading
pub mod Logs
pub mod Routes
mod Tests
use chainlink_eth_secret_net.Base.{
  ℕ, suc, String, List, [], ◌∷◌, Option, none, some, Bool, true, false, ltb, if◌then◌else◌, ◌==◌,
  string_eq, not, select, nat_eq,
}
use chainlink_eth_secret_net.Base.Int.{ℤ, sub_ℕ}
use chainlink_eth_secret_net.Base.Maps
use chainlink_eth_secret_net.Base.Maps.{Dict}
use chainlink_eth_secret_net.Eth.World.{RoundData, EventArgs}

-- What the service asks of the provider and of ethers; a call takes its number, and `none` is a
-- rejection. `decodes` says whether `decodeEventLog` takes the data of a log.
pub record TestWorld : Type 0 where
  pub latest_round_data_of : ℕ → String → Option RoundData
  pub block_number : ℕ → Option ℕ
  pub query_filter : ℕ → String → String → ℤ → Option (List EventArgs)
  pub get_logs : ℕ → String → ℤ → ℤ → Option (List String)
  pub decodes : String → Bool
  pub event_id : String → String

-- A `Contract` object; all have the interface of the aggregator.
pub record TestContract : Type 0 where
  pub address : String
  pub instance_id : ℕ

-- The fields contractAddr, oracleContracts and oracleContractData, and the contracts that have
-- callbacks.
pub record TestNode : Type 0 where
  pub contract_addr : Option (Dict String)
  pub oracle_contracts : Option (Dict TestContract)
  pub oracle_contract_data : Dict RoundData
  pub listened : List ℕ
  pub calls : ℕ

-- What a promise or a call settles to; the errors are texts.
pub data Settled (A : Type 0) : Type 0 where
  returned : (value : A) → Settled A
  thrown : Settled A

abbrev btcusd : String
btcusd = "btcusd"

abbrev ethusd : String
ethusd = "ethusd"

-- The contracts of a network; `none` is no network given.
abbrev pub addresses_of : Option String → Dict String
addresses_of none = (btcusd, "btc-usd.data.eth") ∷ (ethusd, "eth-usd.data.eth") ∷ []
addresses_of (some network) =
    if network == "rinkeby"
    then (btcusd, "0xECe365B379E1dD183B20fc5f022230C044d51404")
      ∷ (ethusd, "0x8A753747A1Fa494EC906cE90E9f37563A8AF630e")
      ∷ []
    else if network == "kovan"
    then (btcusd, "0x6135b13325bfC4B00278B4abC5e20bbce2D6580e")
      ∷ (ethusd, "0x9326BFA02ADD2366b30bacB125260Af641031331")
      ∷ []
    else (btcusd, "btc-usd.data.eth") ∷ (ethusd, "eth-usd.data.eth") ∷ []

pub init_oracle_contract_list : Option String → Option (Dict String) → TestNode → TestNode
init_oracle_contract_list network (some given) n = record n { contract_addr = some given }
init_oracle_contract_list network none n = record n { contract_addr = some (addresses_of network) }

-- `forEach(… this.oracleContracts.set(key, new Contract(…)))`
instantiate : Dict String → Dict TestContract → ℕ → Dict TestContract × ℕ
instantiate [] contracts calls = (contracts, calls)
instantiate ((key, value) ∷ list) contracts calls =
    instantiate list (Maps.set key (record { address = value; instance_id = calls }) contracts)
      (suc calls)

-- `if (!this.getContractAddrList()) this.initOracleContractList()`
abbrev pub listed : Option (Dict String) → Dict String
listed none = addresses_of none
listed (some given) = given

pub init_oracle_contracts : TestNode → Dict TestContract × TestNode
unfolding instantiate
init_oracle_contracts n =
    let list = listed n.contract_addr in
    let (contracts, calls) = instantiate list [] n.calls in
    (
      contracts,
      record n { contract_addr = some list; oracle_contracts = some contracts; calls = calls },
    )

-- One request per contract; the data of each that succeeds is stored. The flag says that all did.
load_each : TestWorld → Dict TestContract → TestNode → Bool × TestNode
load_each w [] n = (true, n)
load_each w ((key, contract) ∷ contracts) n =
    elim (w.latest_round_data_of n.calls contract.address) [
      | none ↦
          let (loaded, n') = load_each w contracts (record n { calls = suc n.calls }) in (false, n')
      | some result ↦ load_each w contracts (record n {
        oracle_contract_data = Maps.set key result n.oracle_contract_data;
        calls = suc n.calls;
      })
    ]

abbrev pub considered : Option (Dict TestContract) → TestNode → Option (Dict TestContract)
considered none n = n.oracle_contracts
considered (some contracts) n = some contracts

-- The contracts that are given, or those of the service, which may not be there yet.
pub load_all_contract_data :
    TestWorld → Option (Dict TestContract) → TestNode → Settled (Dict RoundData) × TestNode
unfolding load_each
load_all_contract_data w given n = elim (considered given n) [
  | none ↦ (thrown, n)
  | some contracts ↦
      let (loaded, n') = load_each w contracts n in
      (if loaded then returned n'.oracle_contract_data else thrown, n')
]

-- The events since a number of blocks before the latest; 1000 if none is given.
pub load_contract_event :
    TestWorld → TestContract → String → Option ℕ → TestNode → Settled (List EventArgs) × TestNode
load_contract_event w contract event_id over_max_past_block n = elim (w.block_number n.calls) [
  | none ↦ (thrown, record n { calls = suc n.calls })
  | some latest ↦ (
    elim (w.query_filter (suc n.calls) contract.address event_id (
        sub_ℕ latest (elim over_max_past_block [
          | none ↦ 1000
          | some blocks ↦ if ltb 0 blocks then blocks else 1000
        ]))) [ none ↦ thrown | some events ↦ returned events ],
    record n { calls = suc (suc n.calls) },
  )
]

pub load_event_answer_updated :
    TestWorld → TestContract → Option ℕ → TestNode → Settled (List EventArgs) × TestNode
unfolding load_contract_event
load_event_answer_updated w contract =
    load_contract_event w contract (w.event_id "AnswerUpdated(int256,uint256,uint256)")

-- `contract.on(…)`, twice: the callbacks only log.
pub listen_event_oracle_answer_updated : TestContract → TestNode → TestNode
listen_event_oracle_answer_updated contract n = record n {
  listened = contract.instance_id ∷ contract.instance_id ∷ n.listened;
}

remove_each : Dict TestContract → List ℕ → List ℕ
remove_each [] listened = listened
remove_each ((key, contract) ∷ contracts) listened =
    remove_each contracts (select (λ i. not (i == contract.instance_id)) listened)

-- The map of contracts is cleared whether it is there or not.
pub shutdown : TestNode → Settled (Unit {0}) × TestNode
unfolding remove_each
shutdown n = elim n.oracle_contracts [
  | none ↦ (thrown, n)
  | some contracts ↦ (
    returned tt,
    record n {
      oracle_contracts = some [];
      oracle_contract_data = [];
      listened = remove_each contracts n.listened;
    },
  )
]
