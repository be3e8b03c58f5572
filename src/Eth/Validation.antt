-- ===== src/Eth/Validation.antt =====
-- The validation of a source contract: checkForContractEvent and validateSourceContract of
-- eth-client/src/eth-connect.service.ts, with convertEventAnswerUpdated of
-- common/src/utils/conversion.ts.
pub mod Events
pub mod Periodic
pub mod Frames
mod Tests
use chainlink_eth_secret_net.Base.{
  ℕ, suc, String, List, [], ◌∷◌, ◌++◌, Option, none, some, Bool, true, false, not, ◌&&◌, ◌||◌, ltb,
  is, string_eq, if◌then◌else◌,
}
use chainlink_eth_secret_net.Base.Int.{ℤ, pos, negsuc}
use chainlink_eth_secret_net.Config.Defaults.{full, source_valid_mode_value}
use chainlink_eth_secret_net.Data.FeedEnums.{
  FeedSourceType, cl_aggr_prox, cl_aggr, FeedSourceEvent, answer_updated, custom,
  feed_source_event_value, FeedSourcePoll, event, timeperiod, feed_source_poll_eq,
  feed_source_type_beq,
}
use chainlink_eth_secret_net.Data.Records.{
  JsNumber, FeedSourceData, FeedConfigSource, ContractEvent,
}
use chainlink_eth_secret_net.Eth.World.{
  World, EventArgs, Failure, rejected, within, no_events, number_overflow, invalid_input,
  invalid_address, unsupported_contract, contract_events, sub_round_data, own_round_data,
  sub_aggregator, periodic_validation, event_validation,
}
use chainlink_eth_secret_net.Eth.Action.{
  Action, Node, Contract, Outcome, ok, err, rethrow, attempt, guard, pure, throw, ◌>>=◌, ◌>>◌,
}
use chainlink_eth_secret_net.Eth.Contracts.{
  convert_price, convert_date, init_contract_cl_aggregator, load_contract_latest_round_data,
  load_cl_proxy_contract_aggregator, load_contract_decimals, load_contract_event,
}

-- `event === CUSTOM ? eventSignature : event`
abbrev pub event_name : FeedConfigSource → Option String
event_name source = elim source.event [
  | none ↦ none
  | some e ↦ elim e [
    | answer_updated ↦ some (feed_source_event_value answer_updated)
    | custom ↦ source.event_signature
  ]
]

-- The event of the latest round, the first of them in the list; a round that does not fit in a
-- number is an error.
latest_from : World → Option EventArgs → List EventArgs → Outcome (Option EventArgs)
latest_from w latest [] = ok latest
latest_from w latest (e ∷ es) =
    let later = latest_from w (some e) es in
    let same = latest_from w latest es in
    if not (w.runtime.fits (pos e.round))
    then err number_overflow
    else elim latest [ none ↦ later | some l ↦ if ltb l.round e.round then later else same ]

pub latest_event : World → List EventArgs → Outcome (Option EventArgs)
unfolding latest_from
latest_event w = latest_from w none

pub convert_event_answer_updated : World → EventArgs → ℕ → Action ContractEvent
convert_event_answer_updated w e decimals = do
  guard
      (w.runtime.fits e.current
        && w.runtime.fits (pos e.round)
        && w.runtime.fits (pos e.updated_at))
      number_overflow
  updated_at ← convert_date w e.updated_at
  pure (record {
    current = convert_price w e.current decimals;
    round = e.round;
    updated_at = updated_at;
  })

-- The events, as a value that may be an error.
load_some_events : World → Contract → Option String → Action (Outcome (List (Option EventArgs)))
load_some_events w contract name = attempt contract_events (do
  result ← load_contract_event w contract name
  (elim result [ [] ↦ throw no_events | e ∷ es ↦ pure (e ∷ es) ]))

read_latest : World → ℕ → EventArgs → Action (Outcome FeedSourceData)
unfolding convert_event_answer_updated
read_latest w decimals latest = do
  answer ← convert_event_answer_updated w latest decimals
  guard (w.validator.valid_event answer) invalid_input
  pure (
      ok (record {
        path = none;
        decimals = none;
        value = answer.current;
        time = answer.updated_at;
        round = some (w.runtime.plus (pos answer.round));
      }))

-- The arguments of the events before the first that has none, and whether all have some.
abbrev pub args_of : List (Option EventArgs) → List EventArgs × Bool
args_of [] = ([], true)
args_of (none ∷ events) = ([], false)
args_of (some e ∷ events) = (e ∷ (args_of events).0, (args_of events).1)

-- `event.args[1]` throws where there are no arguments, once the loop comes there.
abbrev latest_read : World → ℕ → Bool → Option EventArgs → Action (Outcome FeedSourceData)
latest_read w decimals false latest = throw rejected
latest_read w decimals true none = pure (err no_events)
latest_read w decimals true (some latest) = read_latest w decimals latest

read_events : World → ℕ → List (Option EventArgs) → Action (Outcome FeedSourceData)
unfolding latest_event
read_events w decimals events n = elim (latest_event w (args_of events).0) [
  | err e ↦ (err e, n)
  | ok latest ↦ latest_read w decimals (args_of events).1 latest n
]

-- An error of the loading is returned, and one of the conversion thrown.
pub check_for_contract_event :
    World → FeedConfigSource → Contract → ℕ → Action (Outcome FeedSourceData)
unfolding load_some_events read_events
check_for_contract_event w source contract decimals = do
  event_load_res ← load_some_events w contract (event_name source)
  (elim event_load_res [ err e ↦ pure (err e) | ok events ↦ read_events w decimals events ])

-- What a contract's calls gave: its round data and its last event, each absent, an error or data.
pub record Check : Type 0 where
  pub round_data : Option (Outcome FeedSourceData)
  pub event_data : Option (Outcome FeedSourceData)

-- `Object.assign(target, source)`; value, time and round are present in what is assigned.
abbrev pub assign : FeedSourceData → FeedSourceData → FeedSourceData
assign target source = record target {
  decimals = elim source.decimals [ none ↦ target.decimals | some d ↦ some d ];
  value = source.value;
  time = source.time;
  round = elim source.round [ none ↦ target.round | some r ↦ some r ];
}

abbrev kept : Action (Outcome FeedSourceData) → Action (Option (Outcome FeedSourceData))
kept m = do r ← m; pure (some r)

-- The aggregator behind a proxy: its data in the full mode, and its events.
check_sub_aggregator : World → FeedConfigSource → Contract → ℕ → Action Check
unfolding check_for_contract_event
check_sub_aggregator w source contract decimals = rethrow sub_aggregator (do
  aggregator ← load_cl_proxy_contract_aggregator w contract
  data_read ←
      (if is w.settings.source_contract_validation_mode (source_valid_mode_value full)
        then kept
            (attempt sub_round_data (load_contract_latest_round_data w aggregator decimals true))
        else pure none)
  event_read ← check_for_contract_event w source aggregator decimals
  pure (record { round_data = data_read; event_data = some event_read }))

abbrev with_decimals : ℕ → FeedSourceData → Action FeedSourceData
with_decimals decimals d = pure (record d { decimals = some decimals })

-- The contract itself: its data if it is polled regularly or in the full mode, and its events if it
-- is listened to or in the full mode, unless it is a proxy.
check_own : World → FeedConfigSource → FeedSourceType → Contract → ℕ → Action Check
unfolding check_for_contract_event
check_own w source contract_type contract decimals = do
  let is_full = is w.settings.source_contract_validation_mode (source_valid_mode_value full)
  data_read ←
      (if is source.poll timeperiod || is_full
        then kept (
            attempt own_round_data
              (load_contract_latest_round_data w contract decimals true >>= with_decimals decimals))
        else pure none)
  event_read ←
      (if (is source.poll event || is_full) && not (feed_source_type_beq contract_type cl_aggr_prox)
        then kept (check_for_contract_event w source contract decimals)
        else pure none)
  pure (record { round_data = data_read; event_data = event_read })

-- `if (result instanceof Error) throw …; if (result !== undefined) Object.assign(…)`, for the way in
-- which the source is polled.
abbrev pub step_of : Option FeedSourcePoll → FeedSourceData → Check → Outcome FeedSourceData
step_of (some timeperiod) acc check = elim check.round_data [
  | none ↦ ok acc
  | some r ↦ elim r [ err e ↦ err (within periodic_validation e) | ok d ↦ ok (assign acc d) ]
]
step_of (some event) acc check = elim check.event_data [
  | none ↦ ok acc
  | some r ↦ elim r [ err e ↦ err (within event_validation e) | ok d ↦ ok (assign acc d) ]
]
step_of none acc check = ok acc

-- `pendingCheck.forEach(…)`
pub aggregate : Option FeedSourcePoll → FeedSourceData → List Check → Outcome FeedSourceData
aggregate poll acc [] = ok acc
aggregate poll acc (check ∷ checks) =
    let next = λ (acc' : FeedSourceData). aggregate poll acc' checks in
    elim (step_of poll acc check) [ err e ↦ err e | ok acc' ↦ next acc' ]

-- `{ value: -1, time: '' }`
abbrev pub blank : World → FeedSourceData
blank w = record {
  path = none;
  decimals = none;
  value = w.runtime.plus (negsuc 0);
  time = "";
  round = none;
}

proxied_checks : World → FeedConfigSource → FeedSourceType → Contract → ℕ → Action (List Check)
unfolding check_sub_aggregator
proxied_checks w source cl_aggr_prox contract decimals = do
  c ← check_sub_aggregator w source contract decimals
  pure (c ∷ [])
proxied_checks w source cl_aggr contract decimals = pure []

checks_with : World → FeedConfigSource → FeedSourceType → Contract → ℕ → Action (List Check)
unfolding proxied_checks check_own
checks_with w source contract_type contract decimals = do
  proxied ← proxied_checks w source contract_type contract decimals
  own ← check_own w source contract_type contract decimals
  pure (proxied ++ own ∷ [])

-- What `Promise.all(pendingCheck)` gives.
pending_checks : World → FeedConfigSource → FeedSourceType → Action (List Check)
unfolding checks_with
pending_checks w source contract_type = do
  contract ← init_contract_cl_aggregator source.contract none
  contract_decimals ← load_contract_decimals w contract
  checks_with w source contract_type contract contract_decimals

-- The checks for the type of the source; there are none for another type.
checks_of : World → FeedConfigSource → Option FeedSourceType → Action (List Check)
unfolding pending_checks
checks_of w source none = throw unsupported_contract
checks_of w source (some contract_type) = pending_checks w source contract_type

-- The checks put together, and the result validated.
aggregated : World → FeedConfigSource → List Check → Action FeedSourceData
unfolding aggregate
aggregated w source checks = do
  aggr_res ← (λ n. (aggregate source.poll (blank w) checks, n))
  guard (w.validator.valid_data aggr_res) invalid_input
  pure aggr_res

pub validate_source_contract : World → FeedConfigSource → Action FeedSourceData
unfolding checks_of aggregated
validate_source_contract w source = do
  guard (w.validator.is_ethereum_address source.contract) invalid_address
  checks ← checks_of w source source.type
  aggregated w source checks
