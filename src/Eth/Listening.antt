-- ===== src/Eth/Listening.antt =====
-- The callback of an emitted event (listenToContractEvent) and the shutdown of the service, of
-- eth-client/src/eth-connect.service.ts.
pub mod Casts
pub mod Shutdown
mod Tests
use chainlink_eth_secret_net.Base.{ℕ, Option, none, some}
use chainlink_eth_secret_net.Data.SourceEnums.{SourceDataUpdateReason}
use chainlink_eth_secret_net.Data.Records.{FeedSourceData, JsNumber, big_number}
use chainlink_eth_secret_net.Eth.World.{World, EventArgs, event_cast, client_close, stream_close}
use chainlink_eth_secret_net.Eth.Action.{Action, Subscription, ask, rethrow, attempt, ◌>>=◌, ◌>>◌}
use chainlink_eth_secret_net.Eth.Contracts.{convert_price, convert_date}
use chainlink_eth_secret_net.Eth.Casting.{cast_source_data_update}
use chainlink_eth_secret_net.Eth.Polling.{stop_all_source_polling, stop_all_source_event_listener}

-- The round is passed on as the object that the event has. No one waits for the callback.
pub on_event : World → Subscription → EventArgs → Action (Unit {0})
unfolding convert_price convert_date
on_event w s e = do
  time ← convert_date w e.updated_at
  let result : FeedSourceData = record {
    path = none;
    decimals = none;
    value = convert_price w e.current s.decimals;
    time = time;
    round = some (big_number e.round);
  }
  rethrow event_cast
      (cast_source_data_update w s.feed_id s.source_id result SourceDataUpdateReason.data_change)

-- How the streams and the Kafka client close; `none` is a rejection.
pub record Closing : Type 0 where
  pub streams : ℕ → Option (Unit {0})
  pub client : ℕ → Option (Unit {0})

-- A failure to close the streams is only logged. The pause before them is no change of the state.
unfoldable pub shutdown : World → Closing → Action (Unit {0})
shutdown w c = do
  stop_all_source_polling w
  stop_all_source_event_listener w
  attempt stream_close (ask c.streams)
  rethrow client_close (ask c.client)
