-- ===== src/Feed/Startup.antt =====
-- The start and the end of the handler of feed requests: init, initStreams and shutdown of
-- feed-handler/src/feed-handler.service.ts, with the hooks onModuleInit and onApplicationShutdown of feed-handler/src/feed-handler.controller.ts. Promises that are
-- not awaited are run to their end in the order in which they are started.
mod Tests
use chainlink_eth_secret_net.Base.{
  ℕ, zero, suc, String, List, [], ◌∷◌, Option, none, some, Bool, true, false, ◌≡◌, ◌⊎◌, inl, inr,
  refl, ap, Option-cases, Bool-cases, if◌then◌else◌,
}
use chainlink_eth_secret_net.Config.Service
use chainlink_eth_secret_net.Config.Service.{RelaydConfigService}
use chainlink_eth_secret_net.Data.Channels.{Topic, feed_config, source_config, error_feed}
use chainlink_eth_secret_net.Http.{Failing, HttpException, client_error, not_found}
use chainlink_eth_secret_net.Kafka.{KafkaAdmin, create_topics}
use chainlink_eth_secret_net.Feed.{Settled, fulfilled, failed, http_ok}

pub data StartFailure : Type 0 where
  rejected : StartFailure
  table_init merge_init streams_corrupted : StartFailure → StartFailure

-- What the start asks of the libraries: the admin client of the broker, whether the factory of the
-- streams is made, the starts of the table and of the stream of source configs, and the closing of the
-- streams and of the Kafka client; `none` is a rejection.
pub record FeedLaunch : Type 0 where
  pub admin : KafkaAdmin
  pub makes_streams : Bool
  pub table : Option (Unit {0})
  pub merge : Option (Unit {0})
  pub closes_streams : Option (Unit {0})
  pub closes_client : Option (Unit {0})

-- `topics` is the answer of createTopics, which is only logged; `unhandled` has the rejections that no
-- code catches, the newest first; `streams_closed` and `client_closed` are set by a closing that works.
pub record FeedHandlerService : Type 0 where
  pub topics : Option Bool
  pub stream_factory : Bool
  pub feed_table : Bool
  pub merging : Bool
  pub unhandled : List StartFailure
  pub streams_closed : Bool
  pub client_closed : Bool

abbrev pub idle : FeedHandlerService
idle = record {
  topics = none;
  stream_factory = false;
  feed_table = false;
  merging = false;
  unhandled = [];
  streams_closed = false;
  client_closed = false;
}

abbrev pub FeedStep : Type 0
FeedStep = Settled StartFailure (Unit {0}) × FeedHandlerService

abbrev merge_started : Option (Unit {0}) → FeedHandlerService → FeedStep
merge_started none s = (failed (merge_init rejected), s)
merge_started (some u) s = (fulfilled tt, record s { merging = true })

abbrev streams_started : Option (Unit {0}) → Option (Unit {0}) → FeedHandlerService → FeedStep
streams_started none merge s = (failed (table_init rejected), s)
streams_started (some u) merge s = merge_started merge (record s { feed_table = true })

unfoldable pub init_streams : FeedLaunch → FeedHandlerService → FeedStep
init_streams l s = streams_started l.table l.merge s

-- The promise of the streams is not awaited; its catch throws, and nothing catches that.
abbrev left_behind : FeedStep → FeedHandlerService
left_behind (fulfilled u, s) = s
left_behind (failed e, s) = record s { unhandled = streams_corrupted e ∷ s.unhandled }

abbrev feed_topics : List Topic
feed_topics = feed_config ∷ source_config ∷ error_feed ∷ []

abbrev with_factory : Bool → FeedLaunch → FeedHandlerService → FeedStep
with_factory false l s = (failed rejected, s)
with_factory true l s =
    (fulfilled tt, left_behind (init_streams l (record s { stream_factory = true })))

-- What the creation of the topics comes to is only logged.
unfoldable pub init : FeedLaunch → FeedHandlerService → FeedStep
init l s = with_factory l.makes_streams l (record s { topics = create_topics l.admin feed_topics })

abbrev closes : Option (Unit {0}) → Bool
closes none = false
closes (some u) = true

-- A failure to close is only logged; without a factory there are no streams to close. The pause before
-- is no change of the state.
unfoldable pub shutdown : FeedLaunch → FeedHandlerService → FeedHandlerService
shutdown l s = record s {
  streams_closed = if s.stream_factory then closes l.closes_streams else s.streams_closed;
  client_closed = closes l.closes_client;
}

-- The hook for a shutdown: what the shutdown comes to is only logged.
unfoldable pub on_application_shutdown : FeedLaunch → FeedHandlerService → FeedHandlerService
on_application_shutdown l s = shutdown l s

abbrev shut_on_error : FeedLaunch → FeedStep → FeedHandlerService
shut_on_error l (fulfilled u, s) = s
shut_on_error l (failed e, s) = on_application_shutdown l s

-- The promise that the hook leaves behind, run to its end.
unfoldable pub on_module_init : FeedLaunch → FeedHandlerService → FeedHandlerService
on_module_init l s = shut_on_error l (init l s)

-- What a handler is whose streams were left to start.
abbrev pub IsOpen : FeedHandlerService → Type 0
IsOpen s =
    (s.stream_factory ≡ true)
    × (s.client_closed ≡ false)
    × (((s.feed_table ≡ true) × (s.merging ≡ true) × (s.unhandled ≡ []))
        ⊎ ((e : StartFailure) × (s.merging ≡ false) × (s.unhandled ≡ streams_corrupted e ∷ [])))

streams-IsOpen :
    (l : FeedLaunch) (topics : Option Bool) (table merge : Option (Unit {0}))
    → IsOpen (
        left_behind
          (streams_started table merge (record idle { topics = topics; stream_factory = true })))
streams-IsOpen l topics none merge = (refl, refl, inr (table_init rejected, refl, refl))
streams-IsOpen l topics (some u) none = (refl, refl, inr (merge_init rejected, refl, refl))
streams-IsOpen l topics (some u) (some v) = (refl, refl, inl (refl, refl, refl))

with_factory-IsOpen :
    (l : FeedLaunch) (topics : Option Bool) (made : Bool)
    → made ≡ true
    → IsOpen (shut_on_error l (with_factory made l (record idle { topics = topics })))
unfolding init_streams
with_factory-IsOpen l topics false made = absurd (cc made)
with_factory-IsOpen l topics true made = streams-IsOpen l topics l.table l.merge

-- Where the factory of the streams is made, the start never shuts the handler down, whatever the
-- broker, the table and the stream answer: either the table and the merging of sources run, or the
-- merging does not run, and all that is left of the error is a rejection that no code catches.
pub on_module_init-IsOpen :
    (l : FeedLaunch) → l.makes_streams ≡ true → IsOpen (on_module_init l idle)
unfolding on_module_init init
on_module_init-IsOpen l made =
    with_factory-IsOpen l (create_topics l.admin feed_topics) l.makes_streams made
