-- ===== src/Eth/Service/Heard.antt =====
-- The start of a listener: a callback on a new contract object, and the source that is then listened
-- to on it.
use chainlink_eth_secret_net.Base.{
  String, Option, none, some, ◌≡◌, inl, inr, arith, is, if◌then◌else◌, Bool-cases,
}
use chainlink_eth_secret_net.Data.SourceEnums.{remove_listen_event}
use chainlink_eth_secret_net.Data.FeedEnums.{
  FeedSourceType, cl_aggr, cl_aggr_prox, feed_source_type_eq,
}
use chainlink_eth_secret_net.Data.Records.{FeedConfigSource}
use chainlink_eth_secret_net.Eth.World.{
  World, listener_failed, load_proxy, invalid_aggregator, fetch_aggregator,
}
use chainlink_eth_secret_net.Eth.Action.{Action, Node, Contract, ask, guard, pure, rethrow, ◌>>=◌}
use chainlink_eth_secret_net.Eth.Action.Outcomes.{Outcome-cases}
use chainlink_eth_secret_net.Eth.Action.Keeping.{Preserves, Preserves-guard, Preserves-pure}
use chainlink_eth_secret_net.Eth.Action.Leading.{
  Leads, Leads-pure, Leads-rethrow, Leads-if, Leads-bind, Preserves-Leads, Leads-from,
  Leads-Preserves,
}
use chainlink_eth_secret_net.Eth.Contracts.{
  init_contract_cl_aggregator, load_contract_decimals, load_cl_proxy_contract_aggregator,
}
use chainlink_eth_secret_net.Eth.Contracts.RoundChecks.{load_contract_decimals-Keeps}
use chainlink_eth_secret_net.Eth.Frames.{ask-Preserves}
use chainlink_eth_secret_net.Eth.Polling.{listen_to_contract_event, track_source_event_listener}
use chainlink_eth_secret_net.Eth.Polling.Heard.{
  IsListening, hears, IsListening-Frames, stop_source_event_listener-Preserves,
}
use chainlink_eth_secret_net.Eth.Polling.Registering.{
  Unheard, Keeps-Unheard, listen_to_contract_event-Leads, track_source_event_listener-Leads,
}
use chainlink_eth_secret_net.Eth.Validation.{event_name}
use chainlink_eth_secret_net.Eth.Service.{listener_cleanup, with_cleanup, initiate_event_listener}

init_contract_cl_aggregator-Leads :
    (address : String) (type : Option FeedSourceType)
    → Leads IsListening (init_contract_cl_aggregator address type) Unheard IsListening
unfolding init_contract_cl_aggregator
init_contract_cl_aggregator-Leads address type = record {
  returned = λ n c h e.
      let made : c.instance_id ≡ n.calls = ground arith in
      record {
        listening = IsListening-Frames.kept n _ (ground arith) h;
        made = omega (arith, made);
        silent = elim (Bool-cases (hears c.instance_id n.subscriptions)) [
          | inl on ↦ absurd (omega (arith, made, h.below c.instance_id on))
          | inr off ↦ off
        ];
      };
  thrown = λ n x h e. cc e;
}

load_cl_proxy_contract_aggregator-Leads :
    (w : World) (c : Contract)
    → Leads IsListening (load_cl_proxy_contract_aggregator w c) Unheard IsListening
unfolding load_cl_proxy_contract_aggregator
load_cl_proxy_contract_aggregator-Leads w c =
    let asked = ask (λ calls. w.chain.aggregator_of calls c.address) in
    Leads-rethrow fetch_aggregator _ (
      Leads-bind asked _ (Preserves-Leads asked (ask-Preserves IsListening-Frames _) (λ n h. h))
        (λ address.
          Leads-bind (guard (w.validator.is_ethereum_address address) invalid_aggregator) _
            (Preserves-Leads _ (Preserves-guard _ _) (λ n h. h))
            (λ _. init_contract_cl_aggregator-Leads address (some cl_aggr))))

load_contract_decimals-Unheard :
    (w : World) (c on : Contract) → Preserves (Unheard c) (load_contract_decimals w on)
load_contract_decimals-Unheard w c on = record {
  at = λ n.
      Keeps-Unheard c n (load_contract_decimals w on n).1 (load_contract_decimals-Keeps w on n);
}

with_cleanup-Leads :
    (w : World) (s : FeedConfigSource) (c : Contract) (m : Action (Unit {0}))
    → Leads (Unheard c) m (λ u. IsListening) IsListening
    → Leads (Unheard c) (with_cleanup w s m) (λ u. IsListening) IsListening
unfolding with_cleanup listener_cleanup
with_cleanup-Leads w s c m h =
    let stop =
      stop_source_event_listener-Preserves w s.contract remove_listen_event
        (some listener_failed) in
    let kept : (n : Node) → Unheard c n → IsListening (with_cleanup w s m n).1 = λ n u.
      elim (Outcome-cases (m n).0) [
        | inl (a, e) ↦ rw (e, with_cleanup, listener_cleanup) (h.returned n a u e)
        | inr (x, e) ↦ rw (e, with_cleanup, listener_cleanup) (stop.at (m n).1 (h.thrown n x u e))
      ] in
    record { returned = λ n a u e. kept n u; thrown = λ n x u e. kept n u }

listen_and_track-Leads :
    (w : World) (s : FeedConfigSource) (feed : String) (c : Contract)
    → Leads
        (Unheard c)
        (with_cleanup w s (do
          contract_decimals ← load_contract_decimals w c
          listened ← listen_to_contract_event feed s.contract c (event_name s) contract_decimals
          track_source_event_listener w s.contract listened))
        (λ u. IsListening)
        IsListening
listen_and_track-Leads w s feed c = with_cleanup-Leads w s c _ (
    Leads-bind (load_contract_decimals w c) _
      (Preserves-Leads _ (load_contract_decimals-Unheard w c c) (λ n u. u.listening))
      (λ decimals.
        Leads-bind (listen_to_contract_event feed s.contract c (event_name s) decimals) _
          (listen_to_contract_event-Leads feed s.contract c (event_name s) decimals)
          (λ listened. track_source_event_listener-Leads w s.contract listened)))

source_contract-Leads :
    (w : World) (s : FeedConfigSource) (tmp : Contract)
    → Leads
        (Unheard tmp)
        (if is s.type cl_aggr_prox
          then rethrow load_proxy (load_cl_proxy_contract_aggregator w tmp)
          else pure tmp)
        Unheard
        IsListening
source_contract-Leads w s tmp =
    Leads-if (is s.type cl_aggr_prox) _ _
      (Leads-rethrow load_proxy _
        (Leads-from _ (load_cl_proxy_contract_aggregator-Leads w tmp) (λ n u. u.listening)))
      (Leads-pure tmp (λ n u. u))

pub initiate_event_listener-IsListening :
    (w : World) (s : FeedConfigSource) (feed : String)
    → Preserves IsListening (initiate_event_listener w s feed)
unfolding initiate_event_listener
initiate_event_listener-IsListening w s feed = Leads-Preserves _ (
    Leads-bind (init_contract_cl_aggregator s.contract s.type) _
      (init_contract_cl_aggregator-Leads s.contract s.type)
      (λ tmp. Leads-bind _ _ (source_contract-Leads w s tmp) (λ c.
        Leads-bind _ _ (listen_and_track-Leads w s feed c)
          (λ _. Preserves-Leads _ (Preserves-pure none) (λ n h. h)))))
