-- ===== src/Eth/Listening/Casts.antt =====
-- What an event casts.
use chainlink_eth_secret_net.Base.{
  String, suc, ◌*◌, none, some, ◌≡◌, ◌∷◌, refl, inl, inr, arith, Bool-cases, if◌then◌else◌,
}
use chainlink_eth_secret_net.Data.SourceEnums.{SourceDataUpdateReason}
use chainlink_eth_secret_net.Data.Records.{FeedSourceData, big_number}
use chainlink_eth_secret_net.Eth.World.{
  World, EventArgs, within, data_cast, event_cast, write_failed,
}
use chainlink_eth_secret_net.Eth.Action.{Node, Subscription, ok, err}
use chainlink_eth_secret_net.Eth.Contracts.{convert_price, convert_date}
use chainlink_eth_secret_net.Eth.Casting.Written.{
  Keeps, update_of, cast_source_data_update_lem, cast_source_data_update-Keeps,
}
use chainlink_eth_secret_net.Eth.Action.Keeping.{Preserves}
use chainlink_eth_secret_net.Eth.Frames.{Frames, frame_rules}
use chainlink_eth_secret_net.Eth.Listening.{on_event}

-- The data that an event gives.
abbrev pub event_data : World → Subscription → EventArgs → String → FeedSourceData
event_data w s e time = record {
  path = none;
  decimals = none;
  value = convert_price w e.current s.decimals;
  time = time;
  round = some (big_number e.round);
}

pub on_event-Preserves :
    {P : Node → Type 0} (f : Frames P) (w : World) (s : Subscription) (e : EventArgs)
    → Preserves P (on_event w s e)
unfolding on_event
on_event-Preserves f w s e = search frame_rules

-- An event with a date that can be converted casts one update of its source, with the changed data,
-- if the broker takes it, and throws otherwise. What the instance tracks stays as it is, also the
-- last data of the listener: the same event casts its update again.
pub on_event_lem :
    (w : World) (s : Subscription) (e : EventArgs) (time : String) (n : Node)
    → w.runtime.to_iso (e.updated_at * 1000) ≡ some time
    → let (r, n') = on_event w s e n in
      let c =
        update_of s.feed_id s.source_id
          (event_data w s e time)
          SourceDataUpdateReason.data_change in
      let taken = w.broker.accepts (suc n.calls) c in
      Keeps n n'
      × (r ≡ (if taken then ok tt else err (within event_cast (within data_cast write_failed))))
      × (n'.sent ≡ (if taken then c ∷ n.sent else n.sent))
unfolding on_event convert_date
on_event_lem w s e time n dated =
    let m = record n { calls = suc n.calls } in
    let d = event_data w s e time in
    let k =
      cast_source_data_update-Keeps w s.feed_id s.source_id d SourceDataUpdateReason.data_change
        m in
    let (result, sent) =
      cast_source_data_update_lem w s.feed_id s.source_id d SourceDataUpdateReason.data_change m in
    rw dated (
      record {
        service_id = k.service_id;
        network = k.network;
        source_polling = k.source_polling;
        source_listening = k.source_listening;
        intervals = k.intervals;
        subscriptions = k.subscriptions;
        calls = omega (arith, k.calls);
      },
      rw result
          (elim (Bool-cases (
            w.broker.accepts m.calls
              (update_of s.feed_id s.source_id d SourceDataUpdateReason.data_change))) [
                | inl e' ↦ rw e' refl
                | inr e' ↦ rw e' refl
              ]),
      sent,
    )
