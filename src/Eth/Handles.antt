-- ===== src/Eth/Handles.antt =====
-- Who polls a source: reviewSourceHandling, extractContractPollingStatus and
-- checkIfDataPollingRequired of eth-client/src/eth-connect.service.ts.
pub mod Registrations
pub mod Registry
pub mod Required
mod Tests
use chainlink_eth_secret_net.Base.{
  ℕ, suc, String, List, [], ◌∷◌, Option, none, some, Bool, true, false, not, ◌&&◌, ◌||◌, ltb,
  length, select, count, includes, is, map, ◌==◌, string_eq, if◌then◌else◌,
}
use chainlink_eth_secret_net.Config.Settings.{Settings}
use chainlink_eth_secret_net.Data.SourceEnums.{
  SourcePollingChange, add_periodic, add_listen_event, remove_periodic, remove_listen_event,
}
use chainlink_eth_secret_net.Data.FeedEnums.{FeedSourcePoll, event, timeperiod, feed_source_poll_eq}
use chainlink_eth_secret_net.Data.Records.{FeedConfigSource, FeedSourceHandle, SourcePollingInfo}
use chainlink_eth_secret_net.Eth.World.{
  Failure, polled_by_event, polled_by_period, mixed_polling, not_polled_by_event,
  not_polled_by_period, unknown_change, already_polled, unknown_polling,
}
use chainlink_eth_secret_net.Eth.Action.{Outcome, ok, err}

abbrev pub is_by : String → FeedSourceHandle → Bool
is_by issuer handle = handle.handler == issuer

abbrev pub is_of : FeedSourcePoll → FeedSourceHandle → Bool
is_of poll handle = handle.type == poll

abbrev pub type_of : FeedSourceHandle → FeedSourcePoll
type_of handle = handle.type

-- `actual === undefined ? [] : actual`
abbrev pub handles : Option (List FeedSourceHandle) → List FeedSourceHandle
handles none = []
handles (some handle) = handle

-- `alreadyPolledByIssuer`
abbrev pub polled_by : String → List FeedSourceHandle → List FeedSourcePoll
polled_by issuer handle = map type_of (select (is_by issuer) handle)

-- `if (condition) { if (permission) throw …; else warn }`
abbrev pub refuse :
    Bool → Bool → Failure → Outcome (List FeedSourceHandle) → Outcome (List FeedSourceHandle)
refuse condition permission e next = if condition && permission then err e else next

-- A registration as poller, put before the others.
abbrev pub registered :
    SourcePollingInfo
    → FeedSourcePoll
    → String
    → List FeedSourceHandle
    → Outcome (List FeedSourceHandle)
registered source_polling polling_type time source_handle =
    ok
      (record { handler = source_polling.issuer; type = polling_type; time = time } ∷ source_handle)

-- The registrations but those of the issuer in the given way.
abbrev pub without : String → FeedSourcePoll → List FeedSourceHandle → List FeedSourceHandle
without issuer polling_type =
    select (λ handle. not (is_by issuer handle && is_of polling_type handle))

unfoldable pub review_change :
    Settings
    → SourcePollingInfo
    → String
    → List FeedSourceHandle
    → Option SourcePollingChange
    → Outcome (List FeedSourceHandle)
review_change settings source_polling time source_handle (some add_listen_event) =
    let already = polled_by source_polling.issuer source_handle in
    refuse (includes already event) settings.source_polling_allow_multiple_by_same_issuer
      polled_by_event
      (refuse (includes already timeperiod)
        settings.source_polling_allow_multiple_type_by_same_issuer mixed_polling
        (registered source_polling event time source_handle))
review_change settings source_polling time source_handle (some add_periodic) =
    let already = polled_by source_polling.issuer source_handle in
    refuse (includes already timeperiod) settings.source_polling_allow_multiple_by_same_issuer
      polled_by_period
      (refuse (includes already event) settings.source_polling_allow_multiple_type_by_same_issuer
        mixed_polling (registered source_polling timeperiod time source_handle))
review_change settings source_polling time source_handle (some remove_listen_event) =
    if not (includes (polled_by source_polling.issuer source_handle) event)
    then err not_polled_by_event
    else ok (without source_polling.issuer event source_handle)
review_change settings source_polling time source_handle (some remove_periodic) =
    if not (includes (polled_by source_polling.issuer source_handle) timeperiod)
    then err not_polled_by_period
    else ok (without source_polling.issuer timeperiod source_handle)
review_change settings source_polling time source_handle none = err unknown_change

-- `time` is the date that a new registration gets.
unfoldable pub review_source_handling :
    Settings
    → String
    → Option (List FeedSourceHandle)
    → SourcePollingInfo
    → Outcome (List FeedSourceHandle)
unfolding review_change
review_source_handling settings time actual source_polling =
    review_change settings source_polling time (handles actual) source_polling.change

pub record PollingStatus : Type 0 where
  pub contract : String
  pub issuer : String
  pub handling : List FeedSourcePoll
  pub listener : ℕ
  pub querier : ℕ

pub extract_contract_polling_status : String → FeedConfigSource → PollingStatus
extract_contract_polling_status actor source =
    let handle = handles source.handle in
    record {
      contract = source.contract;
      issuer = actor;
      handling = polled_by actor handle;
      listener = count (is_of event) handle;
      querier = count (is_of timeperiod) handle;
    }

-- `switch (source.poll)`; `none` is `undefined`: no more polling is required.
required : Settings → PollingStatus → Option FeedSourcePoll → Outcome (Option FeedSourcePoll)
required settings status (some event) =
    ok (if ltb status.listener settings.source_nb_event_listener then some event else none)
required settings status (some timeperiod) =
    ok (if ltb status.querier settings.source_nb_periodic_querier then some timeperiod else none)
required settings status none = err unknown_polling

abbrev polls_in : Option FeedSourcePoll → List FeedSourcePoll → Bool
polls_in none handling = false
polls_in (some poll) handling = includes handling poll

unfoldable pub check_if_data_polling_required :
    Settings → String → FeedConfigSource → Outcome (Option FeedSourcePoll)
unfolding required extract_contract_polling_status
check_if_data_polling_required settings actor source =
    let status = extract_contract_polling_status actor source in
    if ltb 0 (length status.handling)
      && (not settings.source_polling_allow_multiple_by_same_issuer
          || polls_in source.poll status.handling
            && not settings.source_polling_allow_multiple_type_by_same_issuer)
    then err already_polled
    else required settings status source.poll
