-- ===== src/Lib.antt =====
-- Models of the services that relay price feeds from Ethereum to Secret Network, and what they
-- guarantee.
--
-- The repository has a common library (common/src), an Ethereum client (eth-client/src), a handler of
-- feed requests (feed-handler/src) and a client of Secret Network (scrt-client/src). The services talk
-- over Kafka topics: the feed handler casts the config of a feed and of its source; each instance of
-- the Ethereum client validates new sources, polls valid ones or listens to their events, and casts
-- updates; what an instance reports about its polling is merged into the config of the source.
--
-- Base: names of the libraries passed on, Boolean tests and decidable equality of enumerations
-- (Base/Tests), lists on native numbers (Base/Lists), JavaScript maps in insertion order (Base/Maps),
-- integers of contracts (Base/Int).
--
-- Data: common/src/data/feed.data.ts and source.data.ts (Data/FeedEnums, Data/SourceEnums,
-- Data/Records); topics, error types and networks (Data/Channels). An absent or unknown value is
-- `none`. A field `data` is `source_data` and so on, where the name is taken.
--
-- Validity: the decorators of class-validator on these classes, as tests of a record, over the functions
-- of that library. They are those of instances of the classes, with instances in their fields. On an
-- object that was only parsed, or written as a literal, as the notes and handles of a source are,
-- `validate` finds none; so the validator of Eth/World stays a parameter of its own, and the tests say
-- how an object is judged once it is read as an instance.
--
-- Config: common/src/config/relayd.config.ts. Config/Defaults has the classes of defaults and the
-- ranges, Config/Service the constructor and the getters, Config/Settings the values that the Ethereum
-- client reads, Config/Ranges the theorems.
--
-- Eth: eth-client/src/eth-connect.service.ts and eth-connect.controller.ts.
--   Eth/World: what the code asks of others: class-validator, the runtime, the Kafka client, the
--     provider and the contracts. All are parameters. A call that may answer differently each time
--     takes its number; `none` is a rejection.
--   Eth/Action: the state of an instance (the maps sourcePolling and sourceListening, the running
--     timers and subscriptions, the cached network, the records written) and actions on it. An action
--     keeps its changes of state when it throws, as the code does. Callbacks and handlers run one at a
--     time; promises that the code awaits one after the other are run to their end.
--   Eth/Casting: castSourceConfig, castErrorSourceConfig, castSourcePolling, castSourceDataUpdate and
--     castError. The first two also return the source, which they mutate.
--   Eth/Issues: countIssueInLastRow and issueSourceProcessingNote. Eth/Handles: reviewSourceHandling,
--     extractContractPollingStatus and checkIfDataPollingRequired. Eth/Network: checkNetworkMatch.
--   Eth/Polling: tracking, starting and stopping of timers and listeners, checkForSourceDataChange.
--   Eth/Ticks: the callback that startPollingData gives to setInterval; `fire` runs it once.
--   Eth/Listening: the callback of an emitted event, and the shutdown of the service.
--   Eth/Contracts: calls of contracts, with convertValue for the options that are passed.
--   Eth/Validation: checkForContractEvent and validateSourceContract.
--   Eth/Service: handleSourceContract, initiateSourceDataPolling, getSourceFromTable and the callback of
--     mergeSourcePollingToConfig.
--   Eth/Controller: handleSourceConfig. Eth/Controller/Recasts lets instances handle, one after the
--     other, the last config that was cast.
--   Eth/Table: the key mapper of initKTableSourceConfig over a table of Kafka Streams, which
--     Kafka/Streams gives by its laws; Eth/Service/Merges follows a polling record into that table.
--   Eth/Reach: the states that an instance comes to by its handlers and callbacks in any order.
--     Eth/Frames, Eth/Action/Keeping and Eth/Action/Leading have the rules for invariants of actions.
--     Eth/Invariants names what a predicate on the state needs (IsInvariant), from which the modules Frames
--     and Invariants go through the components. The predicates are IsTracking, on the timers of the
--     tracked sources (the modules Tracking), and IsListening, on the subscriptions of the sources that
--     are listened to (the modules Heard).
--   Eth/Startup: init, initProvider, initStreams and the hooks of the controller, in Eth/Startup/Started
--     for a start that reaches the streams and in Eth/Startup/Refused for one that does not.
--   Eth/Service/Unnamed: the start of a listener of an event without a name.
--   Eth/Handles/Registry: the handles of a source as a table of counts.
--   Eth/Samples and the modules Tests: concrete systems, and the theorems applied to them.
--
-- Convert: ConvertContractUtils of common/src/utils/conversion.ts, with all options. Convert/Cases is
--   about its divider.
--
-- Http: HttpExceptionService of common/src/http/http.error.ts, and in Http/Filter its exception filter.
-- Rpc: the exception filter of common/src/kafka/rpc.error.ts.
--
-- Scrt: the client of Secret Network, scrt-client/src/scrt-connect and scrt-client/src/scrt-contract.
--
-- Feed: loadFeedFromTable, mergeSourceToFeedConfig (its callback), castFeedConfig and createFeed of
-- feed-handler/src/feed-handler.service.ts (the merge in Feed/Merging), and addFeedPrice of
-- feed-handler/src/feed-handler.controller.ts.
-- FeedWorld has the parameters, FeedNode the records written. The table of feeds is a parameter too: it
-- is filled from the topic, at a time that the handler does not control. Feed/Table has the key mapper of
-- initKTableFeed, and what a table that has caught up with the topic answers. Feed/Startup has
-- init, initStreams and shutdown, and the hooks of the controller; Feed/Statistics its route
-- getKakfaStreamStatistics.
--
-- Kafka: createTopics of common/src/kafka/kafka.utils.ts, with the topics of kafka.config.ts, and in
-- Kafka/Clients the getConfig functions.
--
-- EthTest: the service and the controller for manual tests, eth-client/src/eth-connect-test. EthTest/Logs
-- has the loop of loadLogEventAnswerUpdated, EthTest/Routes the routes.
--
-- Bounds: `fire_times` runs a timer a given number of times, and `circulate` takes a list of
-- instances; both are recursive on these, and the theorems hold for any number. The loop of
-- EthTest/Logs runs on fuel: the number of blocks wanted and two, since each pass scans a block. The
-- recursion of Feed/Statistics has the room of the call stack, which it exhausts.
-- Numbers of JavaScript are codes that the program only compares (Data/Records).
--
-- Not modelled: what the Kafka Streams library does to start a stream, logging, the wiring of the
-- framework, the Rust contract and the Solidity resources. The table of the sources hands out the
-- objects that it keeps, and a merge writes into them before the cast; the model has values instead.
pub mod Base
pub mod Config
pub mod Convert
pub mod Data
pub mod Eth
pub mod EthTest
pub mod Feed
pub mod Http
pub mod Kafka
pub mod Rpc
pub mod Scrt
pub mod Validity
