-- ===== src/Eth/Casting/Written.antt =====
-- What the writing of records changes in an instance, and what is written.
use chainlink_eth_secret_net.Base.{
  ℕ, ◌≤◌, String, ◌∷◌, Option, none, some, true, false, inl, inr, Bool-cases, if◌then◌else◌, ◌≡◌,
  refl, arith,
}
use chainlink_eth_secret_net.Data.SourceEnums.{
  SourceCastReason, handling_failed, SourceDataUpdateReason, SourcePollingChange,
}
use chainlink_eth_secret_net.Data.Channels.{Topic, ErrorType, error_source, source_data}
use chainlink_eth_secret_net.Data.Records.{FeedSourceData, FeedConfigSource}
use chainlink_eth_secret_net.Eth.World.{
  World, Cast, Payload, Note, Failure, within, validate_source_config, invalid_config, error_info,
  data_cast, write_failed,
}
use chainlink_eth_secret_net.Eth.Action.{Node, Outcome, ok, err, write_to_stream}
use chainlink_eth_secret_net.Eth.Issues.{issue_source_processing_note}
use chainlink_eth_secret_net.Eth.Casting.{
  worded, cast_source_config, cast_error_source_config, cast_source_polling,
  cast_source_data_update, cast_error,
}

-- All that an instance tracks is as before; records may have been written.
pub record Keeps (n n' : Node) : Type 0 where
  pub service_id : n'.service_id ≡ n.service_id
  pub network : n'.network ≡ n.network
  pub source_polling : n'.source_polling ≡ n.source_polling
  pub source_listening : n'.source_listening ≡ n.source_listening
  pub intervals : n'.intervals ≡ n.intervals
  pub subscriptions : n'.subscriptions ≡ n.subscriptions
  pub calls : n.calls ≤ n'.calls

-- A record is written exactly when the write succeeds.
abbrev pub Wrote : Outcome (Unit {0}) → Cast → Node → Node → Type 0
Wrote (ok _) c n n' = n'.sent ≡ c ∷ n.sent
Wrote (err _) c n n' = n'.sent ≡ n.sent

-- The record that carries an update of a source's data.
abbrev pub update_of : String → String → FeedSourceData → SourceDataUpdateReason → Cast
update_of feed id d reason = record {
  topic = source_data;
  key = id;
  value = Payload.update (record {
    feed_id = feed;
    source_id = some id;
    source = some d;
    reason = some reason;
    info = none;
  });
}

pub write_to_stream-Keeps : (w : World) (c : Cast) (n : Node) → Keeps n (write_to_stream w c n).1
unfolding write_to_stream
write_to_stream-Keeps w c n = ground arith

pub write_to_stream-Wrote :
    (w : World) (c : Cast) (n : Node) → let (r, n') = write_to_stream w c n in Wrote r c n n'
unfolding write_to_stream
write_to_stream-Wrote w c n = ground arith

pub cast_source_config-Keeps :
    (w : World) (topic : Topic) (id : String) (source : FeedConfigSource)
    (reason : SourceCastReason) (info : Option Note) (n : Node)
    → Keeps n (cast_source_config w topic id source reason info n).2
unfolding cast_source_config write_to_stream
cast_source_config-Keeps w topic id source reason info n = ground arith

pub cast_error_source_config-Keeps :
    (w : World) (t : ErrorType) (source : FeedConfigSource) (id : String) (e : Failure) (n : Node)
    → Keeps n (cast_error_source_config w t source id e n).2
unfolding cast_error_source_config write_to_stream
cast_error_source_config-Keeps w t source id e n = ground arith

pub cast_source_polling-Keeps :
    (w : World) (topic : Topic) (id : String) (change : SourcePollingChange) (info : Option Note)
    (n : Node)
    → Keeps n (cast_source_polling w topic id change info n).1
unfolding cast_source_polling write_to_stream
cast_source_polling-Keeps w topic id change info n = ground arith

pub cast_source_data_update-Keeps :
    (w : World) (feed id : String) (d : FeedSourceData) (reason : SourceDataUpdateReason) (n : Node)
    → Keeps n (cast_source_data_update w feed id d reason n).1
unfolding cast_source_data_update write_to_stream
cast_source_data_update-Keeps w feed id d reason n = ground arith

-- What an update of a source's data comes to.
pub cast_source_data_update_lem :
    (w : World) (feed id : String) (d : FeedSourceData) (reason : SourceDataUpdateReason) (n : Node)
    → let (r, n') = cast_source_data_update w feed id d reason n in
      let c : Cast = update_of feed id d reason in
      let taken = w.broker.accepts n.calls c in
      (r ≡ (if taken then ok tt else err (within data_cast write_failed)))
      × (n'.sent ≡ (if taken then c ∷ n.sent else n.sent))
unfolding cast_source_data_update write_to_stream
cast_source_data_update_lem w feed id d reason n =
    elim (Bool-cases (w.broker.accepts n.calls (update_of feed id d reason))) [
      | inl e ↦ rw e (refl, refl)
      | inr e ↦ rw e (refl, refl)
    ]

pub cast_error-Keeps :
    (w : World) (topic : Topic) (t : ErrorType) (key : String) (e : Failure) (n : Node)
    → Keeps n (cast_error w topic t key e n).1
unfolding cast_error write_to_stream
cast_error-Keeps w topic t key e n = ground arith

-- The source that is written carries the new issue.
pub cast_source_config-Wrote :
    (w : World) (topic : Topic) (id : String) (source : FeedConfigSource)
    (reason : SourceCastReason) (info : Option Note) (n : Node)
    → let (source', r, n') = cast_source_config w topic id source reason info n in
      Wrote r (record { topic = topic; key = id; value = Payload.config source' }) n n'
unfolding cast_source_config write_to_stream
cast_source_config-Wrote w topic id source reason info n = ground arith

pub cast_error_source_config-Wrote :
    (w : World) (t : ErrorType) (source : FeedConfigSource) (id : String) (e : Failure) (n : Node)
    → let (source', r, n') = cast_error_source_config w t source id e n in
      Wrote r (record { topic = error_source; key = id; value = Payload.config source' }) n n'
unfolding cast_error_source_config write_to_stream
cast_error_source_config-Wrote w t source id e n = ground arith

-- A source that is not valid with its new issue is not written.
pub cast_source_config-invalid :
    (w : World) (topic : Topic) (id : String) (source : FeedConfigSource)
    (reason : SourceCastReason) (info : Option Note) (n : Node)
    → w.validator.valid_source (cast_source_config w topic id source reason info n).0 ≡ false
    → let (source', r, n') = cast_source_config w topic id source reason info n in
      (r ≡ err (within validate_source_config invalid_config)) × (n' ≡ n)
unfolding cast_source_config
cast_source_config-invalid w topic id source reason info n h = ground arith

-- The source that comes back is the source with a note.
pub cast_source_config-note :
    (w : World) (topic : Topic) (id : String) (source : FeedConfigSource)
    (reason : SourceCastReason) (info : Option Note) (n : Node)
    → (cast_source_config w topic id source reason info n).0
      ≡ (issue_source_processing_note w.settings n.service_id source reason (worded w info)).0
unfolding cast_source_config
cast_source_config-note w topic id source reason info n = refl

-- The note changes the issues of the source only.
pub cast_source_config-rest :
    (w : World) (topic : Topic) (id : String) (source : FeedConfigSource)
    (reason : SourceCastReason) (info : Option Note) (n : Node)
    → let source' = (cast_source_config w topic id source reason info n).0 in
      source' ≡ record source { issue = source'.issue }
unfolding cast_source_config issue_source_processing_note
cast_source_config-rest w topic id source reason info n = refl

-- A valid source that the broker takes is written.
pub cast_source_config-accepted :
    (w : World) (topic : Topic) (id : String) (source : FeedConfigSource)
    (reason : SourceCastReason) (info : Option Note) (n : Node)
    → ((s : FeedConfigSource) → w.validator.valid_source s ≡ true)
    → ((c : ℕ) (r : Cast) → w.broker.accepts c r ≡ true)
    → let (source', r, n') = cast_source_config w topic id source reason info n in
      (r ≡ ok tt)
      × (n'.sent ≡ record { topic = topic; key = id; value = Payload.config source' } ∷ n.sent)
unfolding cast_source_config write_to_stream
cast_source_config-accepted w topic id source reason info n valid accepts = ground (
  arith,
  valid (issue_source_processing_note w.settings n.service_id source reason (worded w info)).0,
  accepts n.calls (record {
    topic = topic;
    key = id;
    value =
        Payload.config
          (issue_source_processing_note w.settings n.service_id source reason (worded w info)).0;
  }),
)

pub cast_error_source_config-accepted :
    (w : World) (t : ErrorType) (source : FeedConfigSource) (id : String) (e : Failure) (n : Node)
    → ((s : FeedConfigSource) → w.validator.valid_source s ≡ true)
    → ((c : ℕ) (r : Cast) → w.broker.accepts c r ≡ true)
    → let (source', r, n') = cast_error_source_config w t source id e n in
      (r ≡ ok tt)
      × (n'.sent
          ≡ record { topic = error_source; key = id; value = Payload.config source' } ∷ n.sent)
unfolding cast_error_source_config
cast_error_source_config-accepted w t source id e n valid accepts =
    let (r, sent) =
      cast_source_config-accepted w error_source id source handling_failed
        (some (error_info t source id e)) n valid accepts in
    (rw r refl, sent)
