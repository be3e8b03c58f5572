-- ===== src/Validity/Tests.antt =====
-- The decorators with functions of class-validator that accept much.
use chainlink_eth_secret_net.Base.{
  ℕ, ◌==◌, string_eq, if◌then◌else◌, [], ◌∷◌, none, some, true, length, ◌≡◌, Option, Bool, count,
  ◌≤◌, String, ◌≢◌, refl, arith,
}
use chainlink_eth_secret_net.Base.Maps
use chainlink_eth_secret_net.Data.SourceEnums.{add_periodic}
use chainlink_eth_secret_net.Data.FeedEnums.{event, timeperiod, custom}
use chainlink_eth_secret_net.Data.Records.{FeedConfigSource, FeedSourceHandle, SourcePollingInfo}
use chainlink_eth_secret_net.Eth.Action.{ok, Subscription, Listened}
use chainlink_eth_secret_net.Eth.Samples.{world, source, node, settings}
use chainlink_eth_secret_net.Eth.Handles.{review_source_handling, review_change}
use chainlink_eth_secret_net.Eth.Service.{initiate_source_data_polling}
use chainlink_eth_secret_net.Validity.{
  Checks, nested, valid_handle, valid_source, valid_details, valid_polling,
}
use chainlink_eth_secret_net.Validity.Registered.{review_source_handling-valid}
use chainlink_eth_secret_net.Validity.Unsigned.{initiate_source_data_polling-unsigned}

-- An address has 42 characters, another text 12.
abbrev checks : Checks
checks = record {
  size = λ s. if s == "0xA" then 42 else 12;
  text_size = λ t. length t;
  is_ethereum_address = λ a. true;
  is_date_string = λ d. true;
  is_number = λ n. true;
  is_positive = λ n. true;
  contains = λ s t. true;
}

abbrev polled_source : FeedConfigSource
polled_source = record source { period = some 120 }

abbrev adding : SourcePollingInfo
adding = record { source = "0xA"; issuer = "eth-client-1"; change = some add_periodic; info = none }

abbrev registered : FeedSourceHandle
registered = record { handler = "eth-client-1"; type = timeperiod; time = "2022-01-01" }

review_source_handling-valid_example : nested 20 (valid_handle checks) (registered ∷ []) ≡ true
unfolding valid_handle valid_polling review_source_handling review_change
review_source_handling-valid_example =
    review_source_handling-valid checks settings "2022-01-01" none adding (registered ∷ []) refl
      refl refl (omega arith) refl

abbrev listener : FeedConfigSource
listener = record polled_source { poll = some event; event = some custom }

abbrev unsigned : FeedConfigSource
unsigned = record listener { event_signature = none }

initiate_source_data_polling-unsigned_example :
    let (r, n') = initiate_source_data_polling world unsigned "ethusd" (node 0) in
    (valid_source checks unsigned ≡ true)
    × ((started : Option ℕ) → r ≢ ok started)
    × ((q : Subscription → Bool) → count q n'.subscriptions ≤ count q (node 0).subscriptions)
    × ((k : String) (l : Listened)
        → Maps.get k n'.source_listening ≡ some l
        → Maps.get k (node 0).source_listening ≡ some l)
unfolding valid_source valid_details
initiate_source_data_polling-unsigned_example =
    initiate_source_data_polling-unsigned checks world listener "ethusd" "Changed(int)" (node 0)
      refl refl refl
