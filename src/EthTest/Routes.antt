-- ===== src/EthTest/Routes.antt =====
-- The routes of the controller for manual tests
-- (eth-client/src/eth-connect-test/eth-connect-test.controller.ts) that start something: its answer
-- does not wait for what it starts.
use chainlink_eth_secret_net.Base.{ℕ, String, none, some}
use chainlink_eth_secret_net.Base.Maps
use chainlink_eth_secret_net.EthTest.{
  TestWorld, TestContract, TestNode, Settled, returned, thrown, load_all_contract_data,
  load_event_answer_updated, listen_event_oracle_answer_updated,
}

abbrev ok : ℕ
ok = 200

abbrev not_found : ℕ
not_found = 404

-- `getOracleContracts().get(pair)`: an error before the contracts are there.
abbrev with_contract :
    String → (TestContract → TestNode → TestNode) → TestNode → Settled ℕ × TestNode
with_contract pair start n = elim n.oracle_contracts [
  | none ↦ (thrown, n)
  | some contracts ↦ elim (Maps.get pair contracts) [
    | none ↦ (returned not_found, n)
    | some contract ↦ (returned ok, start contract n)
  ]
]

pub poll_contract_oracle_price : TestWorld → TestNode → Settled ℕ × TestNode
poll_contract_oracle_price w n = (returned ok, (load_all_contract_data w none n).1)

pub load_event_answer_updated_route : TestWorld → String → TestNode → Settled ℕ × TestNode
load_event_answer_updated_route w pair =
    with_contract pair (λ contract n. (load_event_answer_updated w contract (some 200) n).1)

pub listen_event_answer_updated : String → TestNode → Settled ℕ × TestNode
listen_event_answer_updated pair = with_contract pair listen_event_oracle_answer_updated
