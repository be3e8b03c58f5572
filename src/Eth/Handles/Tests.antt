-- ===== src/Eth/Handles/Tests.antt =====
-- Registrations of pollers.
use chainlink_eth_secret_net.Base.{
  String, List, [], ◌∷◌, none, some, true, ◌≡◌, ◌<◌, refl, ◌==◌, ◌&&◌, string_eq, if◌then◌else◌,
}
use chainlink_eth_secret_net.Config.Settings.{Settings}
use chainlink_eth_secret_net.Data.SourceEnums.{add_listen_event, remove_listen_event}
use chainlink_eth_secret_net.Data.FeedEnums.{FeedSourcePoll, event, feed_source_poll_eq}
use chainlink_eth_secret_net.Data.Records.{FeedConfigSource, FeedSourceHandle, SourcePollingInfo}
use chainlink_eth_secret_net.Eth.World.{not_polled_by_event}
use chainlink_eth_secret_net.Eth.Action.{ok, err}
use chainlink_eth_secret_net.Eth.Samples.{settings, source}
use chainlink_eth_secret_net.Eth.Handles.{review_change, review_source_handling}
use chainlink_eth_secret_net.Eth.Handles.Registrations.{
  registrations, review_source_handling-removal, review_source_handling-add-remove,
  review_source_handling-denied,
}
use chainlink_eth_secret_net.Eth.Handles.Registry.{
  Counts, review_all, register_all, review_all-refines,
}

abbrev listener : FeedSourceHandle
listener = record { handler = "eth-client-1"; type = event; time = "2022-01-01" }

abbrev adding : SourcePollingInfo
adding = record {
  source = "0xA";
  issuer = "eth-client-1";
  change = some add_listen_event;
  info = none;
}

abbrev removing : SourcePollingInfo
removing = record {
  source = "0xA";
  issuer = "eth-client-1";
  change = some remove_listen_event;
  info = none;
}

abbrev permissive : Settings
permissive = record settings { source_polling_allow_multiple_by_same_issuer = true }

review_source_handling-removal_example :
    (registrations "eth-client-1" event (listener ∷ []) ≡ 0
      → review_source_handling settings "2022-01-02" (some (listener ∷ [])) removing
        ≡ err not_polled_by_event)
    × (0 < registrations "eth-client-1" event (listener ∷ [])
        → (l : List FeedSourceHandle) × (review_source_handling settings "2022-01-02"
              (some (listener ∷ []))
              removing
            ≡ ok l)
          × ((j : String) (p : FeedSourcePoll)
              → registrations j p l ≡ (
                  if j == "eth-client-1" && p == event
                  then 0
                  else registrations j p (listener ∷ []))))
review_source_handling-removal_example =
    review_source_handling-removal settings "2022-01-02" (some (listener ∷ [])) removing event refl

review_source_handling-add-remove_example :
    review_source_handling settings "2022-01-01" (some (listener ∷ [])) removing ≡ ok []
unfolding review_source_handling review_change
review_source_handling-add-remove_example =
    review_source_handling-add-remove settings "2022-01-01" none adding event {l = listener ∷ []}
      refl refl

review_source_handling-denied_example :
    review_source_handling settings "2022-01-01" (some (listener ∷ [])) adding
    ≡ ok (listener ∷ listener ∷ [])
review_source_handling-denied_example =
    review_source_handling-denied settings "2022-01-01" (some (listener ∷ [])) adding event refl
      refl refl

abbrev listened : FeedConfigSource
listened = record source { poll = some event; handle = some (listener ∷ []) }

review_all-refines_example :
    Counts
      (review_all settings (("2022-01-01", adding) ∷ ("2022-01-02", removing) ∷ []) (listener ∷ []))
      (register_all settings
        (("2022-01-01", adding) ∷ ("2022-01-02", removing) ∷ [])
        (λ j p. registrations j p (listener ∷ [])))
review_all-refines_example =
    review_all-refines settings (("2022-01-01", adding) ∷ ("2022-01-02", removing) ∷ [])
      (listener ∷ []) (λ j p. registrations j p (listener ∷ [])) (λ j p. refl)
