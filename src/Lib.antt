-- ===== src/Lib.antt =====
-- The account lookup bounded context (packages/ of this repository): a library that models the
-- code that answers lookups and keeps the oracles, with the theorems about it.
--
-- The parts and how they interact. The event handler of account-lookup-svc passes each message to
-- `handleEvent` of AccountLookupAggregate (packages/domain-lib/src/aggregate.ts). The aggregate
-- validates the FSPs of the message with the participant service, finds the oracle for the party
-- with the oracle finder, asks that oracle's adapter, and answers with one event. Its
-- administration methods register oracles in the finder and create their adapters. The finder and
-- one kind of adapter (packages/implementations-lib/src/oracles) store their data in MongoDB; the
-- other kind talks over HTTP to a remote oracle such as packages/http-oracle-svc. Express routes
-- of account-lookup-svc put a lookup and the administration behind tokens and privileges, and
-- packages/client-lib asks the lookup route.
--
-- The files, and the code they model:
--   Common: tests, lists, JavaScript's `string | null | undefined`, and `Action S A`, an async
--     method: a state goes in, and a result and a state come out; the state is kept when the
--     method throws. Common/Actions has the error classes (errors.ts of domain-lib,
--     implementations-lib).
--   Domain: entities (public-types-lib), the messages and events with their payloads, the
--     interfaces of packages/domain-lib/src/interfaces/infrastructure.ts, and the contract of a
--     finder.
--   Aggregate: AccountLookupAggregate. State is its one mutable field,
--     `_oracleProvidersAdapters`, beside the world behind its services. Validate has
--     `_validateMessageOrGetErrorEvent` and the two validations of participants, Oracles
--     `_getOracleAdapter`, `_getParticipantIdFromOracle` and `getAccountLookUp`, Queries,
--     Rejections and Associations the handlers, Dispatch `handleEvent`, and Admin `init`,
--     `destroy` and the methods behind the administration routes.
--   Mongo: Finder is MongoOracleFinderRepo, Provider and Search are MongoOracleProviderRepo (the
--     single associations; the search by page and the terms to search for), and Collection is
--     what they ask of the database.
--   RemoteOracle: class RemoteOracle of packages/http-oracle-svc, over the table that a `Map`
--     is, and Routes is RemoteOracleExpressRoutes of its server/remote_oracle_routes.ts,
--     and Service is the class of its service.ts.
--   Adapters: Http is HttpOracleProvider (adapters/remote/http_oracleprovider.ts), with Wire, the
--     network to the remote oracle's routes, and Factory is OracleAdapterFactory, with Stack, the
--     services put together.
--   Routes: packages/account-lookup-svc/src/routes: BaseRoutes, Admin is OracleAdminExpressRoutes,
--     Lookup is AccountLookupExpressRoutes; the privileges of domain-lib.
--   Service: `start` and `stop` of packages/account-lookup-svc/src/service.ts; Configuration has
--     the constants that it reads from the environment.
--   LastCommit: the script .circleci/getLastCommit.js of the build: Arguments its arguments.
--   Doubles: the finder, the adapter, the factory and the participant service in memory that the
--     tests run the aggregate on (packages/shared-mocks-lib).
--   LoadTest: the scripts of the load test, scripts/responder.js and scripts/sender.js.
--   LookupClient: AccountLookupHttpClient of packages/client-lib.
--   EventHandler: AccountLookupEventHandler of packages/account-lookup-svc/src/handler.ts.
--   Participants: ParticipantAdapter of packages/implementations-lib/src/external_adapters.
--   Examples: a small world that the code runs in, and the theorems at inputs in it.
-- Proofs stand in modules below the code they are about, named for what they prove (Laws, Accept,
-- Contract, Keys, Indexed, Start, Outcome, Registration, Removal, Reports, Storage, Outage, Pages,
-- Shortfall, Terms, Stack, RoundTrip, Guard, Delivery, Covered, Embedding, History, Startup, Recall, Missing,
-- Progress, Reload, Changes, Restart, Overlap, Lost, Entries, Coherence, Stale, Search, Verdict,
-- Answers, Count, Settings); Aggregate/Kinds, Passes and Ends carry the proofs that several
-- handlers share.
--
-- What lies outside is a parameter. `Services` holds the finder, the adapter factory, the
-- participant service and the random ids over a world `W`; `Collection`, `Cache`, `File`,
-- `Broker` and `ParticipantsClient` hold the calls of MongoDB, Redis, the file system, Kafka and
-- the participants bounded context; `SearchCollection`, `HttpClient`, `Security` and `Requester`
-- those of the search, of axios, of the security library and of the client's requester;
-- `Platform` and `Server` those of a service that starts or stops, `Api` those of `fetch`, and `Bus`
-- those of Kafka and the clock in the scripts of the load test. Which handler a path leads to and whether the validators find errors is given: an endpoint, and a
-- verdict. What a theorem relies on is a record of laws among its hypotheses: FinderLaws,
-- ServiceLaws, CollectionLaws, StoreLaws, CacheLaws, KeepsLimit, StackLaws, QuietStart, AllAnswer,
-- FileLaws, ServerLaws, ReadsBack, Reaches, EntryLaws, Steady. A random id is taken not to be the id of a known oracle.
--
-- Conventions. A payload field is a text, `null` or `undefined`, and `?? null`, `===` and the
-- test of an `if` are written out on these; a structured field is carried as its JSON text. An
-- event carries its payload. Logging, metrics and tracing, and the texts of errors, are left out.
-- A call runs to its end before the next one begins, but for the writes of RemoteOracle/Overlap and Lost.
-- Loops are recursion on the list they run over, but for the `while` of LastCommit, which takes
-- rounds and is shown to need as many as there are pages. An argument of that script is not named
-- like a method of objects. A page index or size is
-- an integer, an infinity or NaN; that numbers above 2 ^ 53 are rounded is left out. A parameter of
-- a query is a text or absent. The methods of the HTTP provider are those of a provider whose
-- `init` succeeded. A remote oracle's file whose JSON text is `null` is not modelled.
--
-- Not modelled: the configuration of the remote oracle, the process signals of the two services
-- and their health and metrics routes; how the database matches, sorts and groups; the doubles of the consumer, the
-- producer, the requester, the token helper and the authorization client.
pub mod Common
pub mod Domain
pub mod Aggregate
pub mod Mongo
pub mod RemoteOracle
pub mod Adapters
pub mod EventHandler
pub mod Participants
pub mod Routes
pub mod LookupClient
pub mod Service
pub mod LastCommit
pub mod Doubles
pub mod LoadTest
pub mod Examples
