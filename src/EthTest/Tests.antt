-- ===== src/EthTest/Tests.antt =====
-- Runs of the service for manual tests.
use chainlink_eth_secret_net.Base.{string_eq, ℕ, [], ◌∷◌, none, some, true, ◌≡◌, refl}
use chainlink_eth_secret_net.Base.Int.{pos}
use chainlink_eth_secret_net.Base.Maps.{Dict}
use chainlink_eth_secret_net.Eth.World.{RoundData}
use chainlink_eth_secret_net.EthTest.{TestWorld, TestContract, TestNode, init_oracle_contracts}
use chainlink_eth_secret_net.EthTest.Logs.{target_of, load_log_event_answer_updated}
use chainlink_eth_secret_net.EthTest.Logs.Scans.{Ends, load_log_event_answer_updated_lem}

abbrev answer : RoundData
answer = record { answer = pos 7; updated_at = 1; round_id = 3 }

-- One log in each lot.
abbrev world : TestWorld
world = record {
  latest_round_data_of = λ c a. some answer;
  block_number = λ c. some 20;
  query_filter = λ c a e from. some [];
  get_logs = λ c a from to. some ("0x7" ∷ []);
  decodes = λ log. true;
  event_id = λ signature. "0x0559";
}

abbrev blank : TestNode
blank = record {
  contract_addr = none;
  oracle_contracts = none;
  oracle_contract_data = [];
  listened = [];
  calls = 0;
}

abbrev pub contract : ℕ → TestContract
contract id = record { address = "btc-usd.data.eth"; instance_id = id }

-- The contracts are those of the list for no network.
init_oracle_contracts_run :
    (init_oracle_contracts blank).0
    ≡ ("btcusd", contract 0)
      ∷ ("ethusd", record { address = "eth-usd.data.eth"; instance_id = 1 })
      ∷ []
unfolding init_oracle_contracts
init_oracle_contracts_run = refl

load_log_event_answer_updated_lem_example :
    Ends
      (target_of (contract 0) 20 3 (some 30) none)
      (load_log_event_answer_updated world (contract 0) 3 (some 30) none blank)
load_log_event_answer_updated_lem_example =
    load_log_event_answer_updated_lem world (contract 0) 3 20 (some 30) none blank refl

abbrev contracts : Dict TestContract
contracts = ("btcusd", contract 0) ∷ []

abbrev answers : Dict RoundData
answers = ("btcusd", answer) ∷ []
