-- ===== src/Eth/Service/Leaks.antt =====
-- A second start of the polling of a source that is polled already.
use chainlink_eth_secret_net.Base.{
  ℕ, suc, ◌<◌, String, ◌∷◌, ◌∙◌, some, true, false, ◌≡◌, refl, arith, ltb, nat_eq,
}
use chainlink_eth_secret_net.Base.Maps
use chainlink_eth_secret_net.Data.FeedEnums.{timeperiod}
use chainlink_eth_secret_net.Data.Records.{FeedConfigSource}
use chainlink_eth_secret_net.Eth.World.{World, within, initiate_periodic, second_polling}
use chainlink_eth_secret_net.Eth.Action.{Node, Polled, err}
use chainlink_eth_secret_net.Eth.Contracts.{
  abi_of, init_contract_cl_aggregator, load_contract_decimals,
}
use chainlink_eth_secret_net.Eth.Polling.{
  start_polling_data, track_source_polling, stop_all_source_polling,
}
use chainlink_eth_secret_net.Eth.Polling.Stops.{runs}
use chainlink_eth_secret_net.Eth.Polling.Others.{stop_all_source_polling-IsUntracked}
use chainlink_eth_secret_net.Eth.Service.{
  is_positive_period, initiate_periodic_polling, initiate_source_data_polling,
}

-- The instance after a start that the tracking refused.
abbrev refused : FeedConfigSource → String → ℕ → Node → Node
refused source feed_id decimals n = record n {
  calls = suc (suc (suc n.calls));
  intervals =
      record {
        id = suc (suc n.calls);
        feed_id = feed_id;
        source = source;
        contract = record {
          address = source.contract;
          abi = abi_of source.type;
          instance_id = n.calls;
        };
        decimals = decimals;
        polling_error_counter = 0;
      }
      ∷ n.intervals;
}

initiate_source_data_polling-refused :
    (w : World) (source : FeedConfigSource) (feed_id : String) (n : Node) (p : Polled)
    (decimals : ℕ)
    → source.poll ≡ some timeperiod
    → is_positive_period source.period ≡ true
    → w.settings.source_polling_allow_multiple_by_same_issuer ≡ false
    → Maps.get source.contract n.source_polling ≡ some p
    → w.chain.decimals_of (suc n.calls) source.contract ≡ some decimals
    → 0 < decimals
    → initiate_source_data_polling w source feed_id n
      ≡ (err (within initiate_periodic second_polling), refused source feed_id decimals n)
unfolding initiate_source_data_polling initiate_periodic_polling init_contract_cl_aggregator
    load_contract_decimals start_polling_data track_source_polling
initiate_source_data_polling-refused w source feed_id n p decimals polled positive single tracked
      decimal pos =
    let some_decimals : ltb 0 decimals ≡ true = ground arith in
    rw (polled, initiate_source_data_polling) (ground arith)

-- Where an instance may poll a source once only, and polls it already, a second start of its
-- periodic polling, with a positive period and a contract that answers with positive decimals, is
-- refused by the tracking; but its new timer has started by then: it runs, and a stop of all
-- polling does not end it. The timers of tracked sources are taken to have started earlier.
pub initiate_source_data_polling-leak :
    (w : World) (source : FeedConfigSource) (feed_id : String) (n : Node) (p : Polled)
    (decimals : ℕ)
    → source.poll ≡ some timeperiod
    → is_positive_period source.period ≡ true
    → w.settings.source_polling_allow_multiple_by_same_issuer ≡ false
    → Maps.get source.contract n.source_polling ≡ some p
    → w.chain.decimals_of (suc n.calls) source.contract ≡ some decimals
    → 0 < decimals
    → ((k : String) (q : Polled) → Maps.get k n.source_polling ≡ some q → q.timeout < n.calls)
    → let timer = suc (suc n.calls) in
      let (r, n') = initiate_source_data_polling w source feed_id n in
      (r ≡ err (within initiate_periodic second_polling))
      × (runs timer n'.intervals ≡ true)
      × (runs timer (stop_all_source_polling w n').1.intervals ≡ true)
initiate_source_data_polling-leak w source feed_id n p decimals polled positive single tracked
      decimal pos fresh =
    rw
      (initiate_source_data_polling-refused w source feed_id n p decimals polled positive single
        tracked decimal pos)
      (
        refl,
        ground arith,
        stop_all_source_polling-IsUntracked w (suc (suc n.calls))
              (refused source feed_id decimals n) (λ k q e. ground (arith, fresh k q e))
            ∙ ground arith,
      )
