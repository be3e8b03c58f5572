-- ===== src/Eth/Handles/Required.antt =====
-- When an instance starts to poll a source, and how many instances do.
use chainlink_eth_secret_net.Base.{
  ℕ, ◌+◌, ◌≤◌, ◌<◌, String, List, [], ◌∷◌, some, false, ◌≡◌, ◌↔◌, length, count, string_eq, arith,
}
use chainlink_eth_secret_net.Config.Settings.{Settings}
use chainlink_eth_secret_net.Data.FeedEnums.{FeedSourcePoll, event, timeperiod, feed_source_poll_eq}
use chainlink_eth_secret_net.Data.Records.{FeedConfigSource, FeedSourceHandle, SourcePollingInfo}
use chainlink_eth_secret_net.Eth.World.{already_polled}
use chainlink_eth_secret_net.Eth.Action.{ok, err}
use chainlink_eth_secret_net.Eth.Handles.{
  is_of, handles, polled_by, review_source_handling, extract_contract_polling_status,
  check_if_data_polling_required,
}
use chainlink_eth_secret_net.Eth.Handles.Registrations.{
  addition, registrations, review_source_handling-addition,
}

-- How many instances are expected to poll a source in a way.
abbrev pub expected : Settings → FeedSourcePoll → ℕ
expected s event = s.source_nb_event_listener
expected s timeperiod = s.source_nb_periodic_querier

length-counts :
    (l : List FeedSourceHandle) → count (is_of event) l + count (is_of timeperiod) l ≡ length l
length-counts [] = omega arith
length-counts (h ∷ l) = ground (arith, length-counts l)

length-polled_by :
    (actor : String) (l : List FeedSourceHandle)
    → length (polled_by actor l) ≡ registrations actor event l + registrations actor timeperiod l
length-polled_by actor [] = omega arith
length-polled_by actor (h ∷ l) = ground (arith, length-polled_by actor l)

-- The two counts of a status share out the registered handles between them, and its `handling` are
-- the registrations of the instance itself.
pub extract_contract_polling_status_counts :
    (actor : String) (source : FeedConfigSource)
    → let status = extract_contract_polling_status actor source in
      (status.listener + status.querier ≡ length (handles source.handle))
      × (length status.handling
          ≡ registrations actor event (handles source.handle)
            + registrations actor timeperiod (handles source.handle))
unfolding extract_contract_polling_status
extract_contract_polling_status_counts actor source =
    (length-counts (handles source.handle), length-polled_by actor (handles source.handle))

-- A polling is required only in the way of the source, and while fewer instances than expected poll.
required_below :
    (s : Settings) (actor : String) (source : FeedConfigSource) (poll : FeedSourcePoll)
    → check_if_data_polling_required s actor source ≡ ok (some poll)
    → (source.poll ≡ some poll) × (count (is_of poll) (handles source.handle) < expected s poll)
unfolding check_if_data_polling_required
required_below s actor source event h = ground arith
required_below s actor source timeperiod h = ground arith

-- When the check asks an instance for a polling, and a registration of that kind is accepted next,
-- then it is the way in which the source is polled, and the source has at most the expected number
-- of pollers of the kind.
pub check_if_data_polling_required_bounds :
    (s : Settings) (actor time : String) (source : FeedConfigSource) (info : SourcePollingInfo)
    (poll : FeedSourcePoll) {l : List FeedSourceHandle}
    → check_if_data_polling_required s actor source ≡ ok (some poll)
    → info.change ≡ some (addition poll)
    → review_source_handling s time source.handle info ≡ ok l
    → (source.poll ≡ some poll) × (count (is_of poll) l ≤ expected s poll)
check_if_data_polling_required_bounds s actor time source info event h e r =
    rw (review_source_handling-addition s time source.handle info event e r)
      (ground (arith, required_below s actor source event h))
check_if_data_polling_required_bounds s actor time source info timeperiod h e r =
    rw (review_source_handling-addition s time source.handle info timeperiod e r)
      (ground (arith, required_below s actor source timeperiod h))

-- Where several pollings by one handler are denied, an instance that is registered for a source in
-- any way is refused a further polling of it, and one that is not is never refused on that ground.
pub check_if_data_polling_required-already :
    (s : Settings) (actor : String) (source : FeedConfigSource)
    → s.source_polling_allow_multiple_by_same_issuer ≡ false
    → (check_if_data_polling_required s actor source ≡ err already_polled) ↔ (
        1
        ≤ registrations actor event (handles source.handle)
          + registrations actor timeperiod (handles source.handle))
unfolding check_if_data_polling_required
check_if_data_polling_required-already s actor source denied =
    ground (arith, length-polled_by actor (handles source.handle))
