-- ===== src/Validity/Unsigned.antt =====
-- A source that is to be listened to for a custom event, with no signature of that event.
use chainlink_eth_secret_net.Base.{
  ℕ, ◌≤◌, String, Option, none, some, Bool, true, ◌≡◌, ◌≢◌, arith, count,
}
use chainlink_eth_secret_net.Base.Maps
use chainlink_eth_secret_net.Data.FeedEnums.{
  event, custom, feed_source_poll_eq, feed_source_event_eq, feed_source_type_eq,
}
use chainlink_eth_secret_net.Data.Records.{FeedConfigSource}
use chainlink_eth_secret_net.Eth.World.{World}
use chainlink_eth_secret_net.Eth.Action.{Node, Listened, Subscription, ok}
use chainlink_eth_secret_net.Eth.Service.{initiate_source_data_polling}
use chainlink_eth_secret_net.Eth.Service.Unnamed.{
  unchanged-IsQuiet, initiate_event_listener-Fails, initiate_event_listener-IsQuiet,
}
use chainlink_eth_secret_net.Validity.{Checks, valid_source, valid_details}

-- A custom event needs a signature, but the decorators do not ask for it: a valid source with a
-- signature stays valid without it. The start of the polling of a source with a custom event and no
-- signature never returns, in any state and whatever the contract answers; after it there are no more
-- callbacks than before, of any sort, and every entry of the map of listeners was there before.
pub initiate_source_data_polling-unsigned :
    (c : Checks) (w : World) (source : FeedConfigSource) (feed_id signature : String) (n : Node)
    → source.poll ≡ some event
    → source.event ≡ some custom
    → valid_source c (record source { event_signature = some signature }) ≡ true
    → let unsigned = record source { event_signature = none } in
      let (r, n') = initiate_source_data_polling w unsigned feed_id n in
      (valid_source c unsigned ≡ true)
      × ((started : Option ℕ) → r ≢ ok started)
      × ((q : Subscription → Bool) → count q n'.subscriptions ≤ count q n.subscriptions)
      × ((k : String) (l : Listened)
          → Maps.get k n'.source_listening ≡ some l
          → Maps.get k n.source_listening ≡ some l)
unfolding valid_source valid_details initiate_source_data_polling
initiate_source_data_polling-unsigned c w source feed_id signature n by_event is_custom valid =
    let unsigned : FeedConfigSource = record source { event_signature = none } in
    let fails = initiate_event_listener-Fails w unsigned feed_id (ground arith) in
    let quiet =
      (initiate_event_listener-IsQuiet n w unsigned feed_id (ground arith)).at n
        (unchanged-IsQuiet n) in
    (
      ground arith,
      rw (by_event, initiate_source_data_polling) (λ started. fails.at n started),
      rw (by_event, initiate_source_data_polling) quiet.subscriptions,
      rw (by_event, initiate_source_data_polling) quiet.source_listening,
    )
