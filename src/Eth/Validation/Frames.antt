-- ===== src/Eth/Validation/Frames.antt =====
-- The validation of a source contract changes nothing that an instance tracks.
use chainlink_eth_secret_net.Base.{
  ℕ, String, Option, none, some, List, [], ◌∷◌, inl, inr, Bool, true, false,
}
use chainlink_eth_secret_net.Data.FeedEnums.{FeedSourceType, cl_aggr_prox, cl_aggr}
use chainlink_eth_secret_net.Data.Records.{FeedConfigSource, FeedSourceData}
use chainlink_eth_secret_net.Eth.World.{World, EventArgs, no_events}
use chainlink_eth_secret_net.Eth.Action.{Contract, Outcome, ok, err, pure, throw}
use chainlink_eth_secret_net.Eth.Action.Outcomes.{Outcome-cases}
use chainlink_eth_secret_net.Eth.Action.Keeping.{Preserves}
use chainlink_eth_secret_net.Eth.Action.{Node}
use chainlink_eth_secret_net.Eth.Frames.{
  Frames, frame_rules, load_cl_proxy_contract_aggregator-Preserves, load_contract_event-Preserves,
  convert_date-Preserves,
}
use chainlink_eth_secret_net.Eth.Validation.{
  convert_event_answer_updated, load_some_events, read_latest, read_events, latest_event,
  latest_read, args_of, check_for_contract_event, check_sub_aggregator, check_own, proxied_checks,
  checks_with, pending_checks, checks_of, aggregated, validate_source_contract,
}

convert_event_answer_updated-Preserves :
    {P : Node → Type 0} (f : Frames P) (w : World) (e : EventArgs) (d : ℕ)
    → Preserves P (convert_event_answer_updated w e d)
unfolding convert_event_answer_updated
convert_event_answer_updated-Preserves f w e d = search (frame_rules, convert_date-Preserves)

some_events-Preserves :
    {P : Node → Type 0} (f : Frames P) (l : List (Option EventArgs))
    → Preserves {A = List (Option EventArgs)} P
        (elim l [ [] ↦ throw no_events | e ∷ es ↦ pure (e ∷ es) ])
some_events-Preserves f [] = search frame_rules
some_events-Preserves f (e ∷ es) = search frame_rules

load_some_events-Preserves :
    {P : Node → Type 0} (f : Frames P) (w : World) (c : Contract) (name : Option String)
    → Preserves P (load_some_events w c name)
unfolding load_some_events
load_some_events-Preserves f w c name =
    search (frame_rules, load_contract_event-Preserves, some_events-Preserves)

read_latest-Preserves :
    {P : Node → Type 0} (f : Frames P) (w : World) (d : ℕ) (e : EventArgs)
    → Preserves P (read_latest w d e)
unfolding read_latest
read_latest-Preserves f w d e = search (frame_rules, convert_event_answer_updated-Preserves)

latest_read-Preserves :
    {P : Node → Type 0} (f : Frames P) (w : World) (d : ℕ) (complete : Bool)
    (latest : Option EventArgs)
    → Preserves P (latest_read w d complete latest)
latest_read-Preserves f w d false latest = search frame_rules
latest_read-Preserves f w d true none = search frame_rules
latest_read-Preserves f w d true (some latest) = read_latest-Preserves f w d latest

read_events-Preserves :
    {P : Node → Type 0} (f : Frames P) (w : World) (d : ℕ) (l : List (Option EventArgs))
    → Preserves P (read_events w d l)
unfolding read_events
read_events-Preserves f w d l = record {
  at = λ n h. elim (Outcome-cases (latest_event w (args_of l).0)) [
    | inl (latest, e) ↦
        rw (e, read_events) ((latest_read-Preserves f w d (args_of l).1 latest).at n h)
    | inr (x, e) ↦ rw (e, read_events) h
  ];
}

loaded_events-Preserves :
    {P : Node → Type 0} (f : Frames P) (w : World) (d : ℕ) (r : Outcome (List (Option EventArgs)))
    → Preserves {A = Outcome FeedSourceData} P
        (elim r [ err e ↦ pure (err e) | ok events ↦ read_events w d events ])
loaded_events-Preserves f w d (err e) = search frame_rules
loaded_events-Preserves f w d (ok l) = read_events-Preserves f w d l

check_for_contract_event-Preserves :
    {P : Node → Type 0} (f : Frames P) (w : World) (s : FeedConfigSource) (c : Contract) (d : ℕ)
    → Preserves P (check_for_contract_event w s c d)
unfolding check_for_contract_event
check_for_contract_event-Preserves f w s c d =
    search (frame_rules, load_some_events-Preserves f, loaded_events-Preserves f)

check_sub_aggregator-Preserves :
    {P : Node → Type 0} (f : Frames P) (w : World) (s : FeedConfigSource) (c : Contract) (d : ℕ)
    → Preserves P (check_sub_aggregator w s c d)
unfolding check_sub_aggregator
check_sub_aggregator-Preserves f w s c d =
    search
      (frame_rules, load_cl_proxy_contract_aggregator-Preserves, check_for_contract_event-Preserves)
      depth 14

check_own-Preserves :
    {P : Node → Type 0} (f : Frames P) (w : World) (s : FeedConfigSource) (t : FeedSourceType)
    (c : Contract) (d : ℕ)
    → Preserves P (check_own w s t c d)
unfolding check_own
check_own-Preserves f w s t c d = search (frame_rules, check_for_contract_event-Preserves) depth 14

proxied_checks-Preserves :
    {P : Node → Type 0} (f : Frames P) (w : World) (s : FeedConfigSource) (t : FeedSourceType)
    (c : Contract) (d : ℕ)
    → Preserves P (proxied_checks w s t c d)
unfolding proxied_checks
proxied_checks-Preserves f w s cl_aggr_prox c d =
    search (frame_rules, check_sub_aggregator-Preserves)
proxied_checks-Preserves f w s cl_aggr c d = search frame_rules

checks_of-Preserves :
    {P : Node → Type 0} (f : Frames P) (w : World) (s : FeedConfigSource)
    (t : Option FeedSourceType)
    → Preserves P (checks_of w s t)
unfolding checks_of pending_checks checks_with
checks_of-Preserves f w s none = search frame_rules
checks_of-Preserves f w s (some t) =
    search (frame_rules, proxied_checks-Preserves, check_own-Preserves)

pub validate_source_contract-Preserves :
    {P : Node → Type 0} (f : Frames P) (w : World) (s : FeedConfigSource)
    → Preserves P (validate_source_contract w s)
unfolding validate_source_contract aggregated
validate_source_contract-Preserves f w s = search (frame_rules, checks_of-Preserves)
