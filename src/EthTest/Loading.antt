-- ===== src/EthTest/Loading.antt =====
-- The loading of the data of all contracts.
use chainlink_eth_secret_net.Base.{
  suc, ◌+◌, String, [], ◌∷◌, Option, some, Bool, true, false, ◌≡◌, refl, inl, inr, arith, length,
  includes, Option-cases, Bool-cases, str_eq_iff, ◌==◌, string_eq, if◌then◌else◌, ◌∙◌,
}
use chainlink_eth_secret_net.Base.Maps
use chainlink_eth_secret_net.Base.Maps.{Dict, get-set}
use chainlink_eth_secret_net.Eth.World.{RoundData}
use chainlink_eth_secret_net.Eth.Polling.{is_some}
use chainlink_eth_secret_net.EthTest.{
  TestWorld, TestContract, TestNode, returned, thrown, considered, load_each,
  load_all_contract_data,
}

abbrev pub has : String → Dict RoundData → Bool
has k m = is_some (Maps.get k m)

has-set :
    (k j : String) (r : RoundData) (m : Dict RoundData)
    → has j (Maps.set k r m) ≡ (if k == j then true else has j m)
has-set k j r m = ground (arith, get-set k j r m, str_eq_iff k j)

load_each-has :
    (w : TestWorld) (contracts : Dict TestContract) (n : TestNode) (k : String)
    → has k n.oracle_contract_data ≡ true
    → has k (load_each w contracts n).1.oracle_contract_data ≡ true
unfolding load_each
load_each-has w [] n k h = h
load_each-has w ((key, contract) ∷ contracts) n k h =
    elim (Option-cases (w.latest_round_data_of n.calls contract.address)) [
      | inl e ↦ rw (e, load_each) (load_each-has w contracts (record n { calls = suc n.calls }) k h)
      | inr (r, e) ↦
          rw (e, load_each)
            (load_each-has w contracts
              (record n {
                oracle_contract_data = Maps.set key r n.oracle_contract_data;
                calls = suc n.calls;
              })
              k (ground (arith, has-set key k r n.oracle_contract_data, h)))
    ]

load_each-loaded :
    (w : TestWorld) (contracts : Dict TestContract) (n : TestNode) (k : String)
    → (load_each w contracts n).0 ≡ true
    → includes (Maps.keys contracts) k ≡ true
    → has k (load_each w contracts n).1.oracle_contract_data ≡ true
unfolding load_each
load_each-loaded w [] n k = λ all i. cc
load_each-loaded w ((key, contract) ∷ contracts) n k =
    elim (Option-cases (w.latest_round_data_of n.calls contract.address)) [
      | inl e ↦ rw (e, load_each) (λ all i. cc)
      | inr (r, e) ↦
          let m = record n {
            oracle_contract_data = Maps.set key r n.oracle_contract_data;
            calls = suc n.calls;
          } in
          rw (e, load_each)
            (λ all i. elim (Bool-cases (key == k)) [
              | inl own ↦
                  load_each-has w contracts m k
                    (ground (arith, has-set key k r n.oracle_contract_data, own))
              | inr other ↦ load_each-loaded w contracts m k all (ground (arith, i, other))
            ])
    ]

from_returned :
    (loaded : Bool) (d m : Dict RoundData)
    → (if loaded then returned d else thrown) ≡ returned m
    → (loaded ≡ true) × (d ≡ m)
from_returned true d m e = (refl, cc)
from_returned false d m e = cc

load_each-calls :
    (w : TestWorld) (contracts : Dict TestContract) (n : TestNode)
    → (load_each w contracts n).1.calls ≡ n.calls + length contracts
unfolding load_each
load_each-calls w [] n = omega arith
load_each-calls w ((key, contract) ∷ contracts) n =
    elim (Option-cases (w.latest_round_data_of n.calls contract.address)) [
      | inl e ↦
          rw (e, load_each)
            (load_each-calls w contracts (record n { calls = suc n.calls }) ∙ omega arith)
      | inr (r, e) ↦
          rw (e, load_each)
            (load_each-calls w contracts (record n {
              oracle_contract_data = Maps.set key r n.oracle_contract_data;
              calls = suc n.calls;
            })
              ∙ omega arith)
    ]

-- A load of the data of contracts makes one request for each of them, forgets no data, and where it
-- returns, it returns all the data that the service has, with data for each of the contracts.
pub load_all_contract_data_lem :
    (w : TestWorld) (given : Option (Dict TestContract)) (contracts : Dict TestContract)
    (n : TestNode) (m : Dict RoundData)
    → considered given n ≡ some contracts
    → (load_all_contract_data w given n).0 ≡ returned m
    → let n' = (load_all_contract_data w given n).1 in
      (n'.calls ≡ n.calls + length contracts)
      × ((k : String) → has k n.oracle_contract_data ≡ true → has k m ≡ true)
      × ((k : String) → includes (Maps.keys contracts) k ≡ true → has k m ≡ true)
      × (n'.oracle_contract_data ≡ m)
unfolding load_all_contract_data
load_all_contract_data_lem w given contracts n m c =
    rw (c, load_all_contract_data)
      (λ r.
        let (all, same) =
          from_returned (load_each w contracts n).0 (load_each w contracts n).1.oracle_contract_data
            m r in
        (
          load_each-calls w contracts n,
          λ k h. rw⁻¹ same (load_each-has w contracts n k h),
          λ k i. rw⁻¹ same (load_each-loaded w contracts n k all i),
          same,
        ))
