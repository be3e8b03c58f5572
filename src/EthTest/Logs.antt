-- ===== src/EthTest/Logs.antt =====
-- loadLogEventAnswerUpdated of eth-client/src/eth-connect-test/eth-connect-test.service.ts: the logs
-- of a contract, lot by lot from the latest block back.
pub mod Scans
use chainlink_eth_secret_net.Base.{
  ℕ, zero, suc, ◌+◌, ◌-◌, String, List, [], ◌∷◌, ◌++◌, Option, none, some, Bool, true, false, ◌&&◌,
  ltb, length, map, if◌then◌else◌,
}
use chainlink_eth_secret_net.Base.Int.{ℤ, sub_ℕ}
use chainlink_eth_secret_net.EthTest.{TestWorld, TestContract, TestNode, Settled, returned, thrown}

-- What a callback without a `return` gives.
pub data Undefined : Type 0 where
  undefined : Undefined

-- The constants of a scan.
pub record Target : Type 0 where
  pub address : String
  pub latest : ℕ
  pub max_nb_results : ℕ
  pub max_nb_blocks : ℕ
  pub block_lot_size : ℕ

-- Its variables. `scanned` is how far `blockNumberIndex` is below the latest block, and `asked` has
-- the ranges of blocks that were asked for, the latest request first.
pub record Scan : Type 0 where
  pub scanned : ℕ
  pub logs : List String
  pub extracted_event_data : List (List (List Undefined))
  pub asked : List (ℤ × ℤ)
  pub calls : ℕ

abbrev all_decode : TestWorld → List String → Bool
all_decode w [] = true
all_decode w (log ∷ logs) = w.decodes log && all_decode w logs

-- The range of blocks of a request.
abbrev pub lot : Target → ℕ → ℤ × ℤ
lot t scanned = (sub_ℕ t.latest (scanned + (t.block_lot_size - 1)), sub_ℕ t.latest scanned)

-- `logs && logs.length > 0 ? [...logs, ...tempLogs] : [...tempLogs]`
abbrev joined : List String → List String → List String
joined logs temp_logs = if ltb 0 (length logs) then logs ++ temp_logs else temp_logs

-- The callback on the logs of one request. All logs so far are decoded, for their errors only: what
-- is decoded is not returned.
read_logs : TestWorld → List String → List String → Option (List String × List (List Undefined))
read_logs w logs [] = some (logs, [])
read_logs w logs (log ∷ temp_logs) =
    let logs' = joined logs (log ∷ temp_logs) in
    if all_decode w logs' then some (logs', map (λ _. undefined) logs' ∷ []) else none

abbrev pub after_lot : Target → Scan → List String → List (List Undefined) → Scan
after_lot t s logs entry = record {
  scanned = s.scanned + t.block_lot_size;
  logs = logs;
  extracted_event_data = s.extracted_event_data ++ entry ∷ [];
  asked = lot t s.scanned ∷ s.asked;
  calls = suc s.calls;
}

-- One pass of the loop.
pub scan_lot : TestWorld → Target → Scan → Option Scan
unfolding read_logs
scan_lot w t s =
    let (from_block, to_block) = lot t s.scanned in
    elim (w.get_logs s.calls t.address from_block to_block) [
      | none ↦ none
      | some temp_logs ↦ elim (read_logs w s.logs temp_logs) [
        | none ↦ none
        | some (logs, entry) ↦ some (after_lot t s logs entry)
      ]
    ]

-- `logs.length < maxNbResults && blockNumberIndex > olderBlockNb`
abbrev pub goes_on : Target → Scan → Bool
goes_on t s = ltb (length s.logs) t.max_nb_results && ltb s.scanned (suc t.max_nb_blocks)

-- How a loop on fuel ends.
pub data Loop : Type 0 where
  ended : (scan : Scan) → Loop
  failed unfinished : Loop

pub scan : TestWorld → Target → ℕ → Scan → Loop
unfolding scan_lot
scan w t zero s = unfinished
scan w t (suc fuel) s = elim (goes_on t s) [
  | false ↦ ended s
  | true ↦ elim (scan_lot w t s) [ none ↦ failed | some s' ↦ scan w t fuel s' ]
]

-- `x > 0 ? x : default`
abbrev pub or_default : ℕ → Option ℕ → ℕ
or_default default none = default
or_default default (some x) = if ltb 0 x then x else default

abbrev pub target_of : TestContract → ℕ → ℕ → Option ℕ → Option ℕ → Target
target_of contract latest max_nb_results over_max_nb_blocks nb_block_per_log_req = record {
  address = contract.address;
  latest = latest;
  max_nb_results = max_nb_results;
  max_nb_blocks = or_default 1000 over_max_nb_blocks;
  block_lot_size = or_default 5 nb_block_per_log_req;
}

abbrev pub scan_from : ℕ → Scan
scan_from calls = record {
  scanned = 0;
  logs = [];
  extracted_event_data = [];
  asked = [];
  calls = calls;
}

-- Each pass scans a block at least, so that the blocks and two are fuel enough.
pub load_log_event_answer_updated :
    TestWorld → TestContract → ℕ → Option ℕ → Option ℕ → TestNode → Loop
unfolding scan
load_log_event_answer_updated w contract max_nb_results over_max_nb_blocks nb_block_per_log_req n =
    elim (w.block_number n.calls) [
      | none ↦ failed
      | some latest ↦
          let t =
            target_of contract latest max_nb_results over_max_nb_blocks nb_block_per_log_req in
          scan w t (suc (suc t.max_nb_blocks)) (scan_from (suc n.calls))
    ]
