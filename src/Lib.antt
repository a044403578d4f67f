-- ===== src/Lib.antt =====
-- This library models the rule engine of engine/src, which evaluates rules on webhook events, and
-- proves what its parts rely on from each other. A batch of predicates, actions, integrations and
-- rules is registered; for each event the engine walks the when trees of the rules on it, and a
-- rule that holds runs its strategy: it queues its actions, or counts entries in an aggregation
-- store, or files a check in a scheduled store that a worker claims later. Calls of integrations
-- go through an adapter.
--
-- The parts and their files:
--
--   Entities          what is registered, contexts, the registry: engine/src/public/*.ts,
--                     engine/src/internal/registry.ts
--   Issues, Checks,   buildRegistry, engine/src/engine/registration.ts: duplicate names, references,
--   Registration      pinned arguments, the maps and the dispatch index
--   When              evaluateNode and evaluateWhen, engine/src/engine/predicates.ts
--   Predicates        resolveUse of that file, with memo, fail-open and events
--   Arguments         mergeActionArgs, engine/src/engine/actions.ts, and the same loops of resolveUse
--   Strategies        engine/src/engine/strategy-handlers.ts and the queues of actions.ts
--   Runner            engine/src/engine/evaluation-runner.ts
--   Actions           engine/src/engine/action-executor.ts
--   Cancellation      CancellationScope, engine/src/engine/utility/cancellation.ts
--   Builders          engine/src/engine/builders: Rule, Impl (actions and predicates), Integration
--   Engine            engine/src/engine/engine.ts
--   ScheduledRun,     engine/src/engine/scheduled-worker.ts: one check with its contexts
--   Worker            (engine/src/engine/utility/context-factories.ts); timer, attempts, claims
--   AggregationStore  engine/src/utility/aggregation-store.ts
--   ScheduledStore    engine/src/utility/scheduled-store.ts
--   PostgresStorage   demo/src/postgres-storage.ts: Entries for the aggregation store,
--                     with its Transaction, Checks for
--                     the scheduled store, as tables, and Notifications
--   Duration          engine/src/engine/utility/duration.ts
--   Emitter           engine/src/engine/utility/emitter.ts
--   Adapter           engine/src/engine/adapter.ts: Breaker, Semaphore, Cache, Retry, Layers,
--                     and Wrapped, the methods with cache keys and events
--   Demo              demo/src: Store (rules.ts), Html and Dashboard (dashboard.ts), Server (server.ts),
--                     GitHub (the calls of rules.ts), Uri (its use of texts) and Rules (rules.ts),
--                     whose Batch is what createDemoEngine registers
--   Canonical         canonicalJson, engine/src/engine/utility/canonical.ts; Predicates takes it as an
--                     argument
--   JsMap, Common     the language's Map, lists, sorting, results
--
-- State is a record that each operation takes and returns. What throws returns a Result; a step of
-- an evaluation or of a check keeps the writes that it made before it threw. The functions that
-- users write are fields of the entities and return a Result. The schemas of the validation
-- library are the parse functions that they stand for. Times are natural numbers in milliseconds
-- and arguments of the operations that read the clock. Numbers of the sources that are fractions
-- or negative are not modelled.
--
-- The binary searches of the aggregation store run on fuel, one more than the length of the array,
-- and answer none when it runs out or when they read outside the array. The loop over attempts of
-- the adapter has as much fuel as it has rounds. The walk of Canonical has one more than the heap
-- has objects, for no chain of distinct ancestors is longer than the heap. The digits of a number
-- have as much fuel as the number and one more. Every other loop is structural recursion.
--
-- An abort signal is an argument: in an evaluation the number of checks after which it is seen, in
-- a scheduled check the error that it ends with, in the adapter a function of the caller. Actions
-- that run side by side are settled one after another. A promise in the cache of an adapter is a
-- number.
--
-- Not modelled: elapsed times and log lines of an evaluation; the references and integrations that
-- engine/src/engine/utility/context.ts puts into a context; a promise that settles while the
-- layers of another call run; a callback of the emitter that changes the subscriptions; the layers
-- that demo/src/rules.ts asks for its classifier; the constructors of trees and the clock of
-- engine/src/utility; the entry point of the demo.
--
-- The Postgres stores are the SQL statements as functions of the rows, run one after another: row
-- locks and statements that overlap are not modelled. What the database reads back for a payload
-- that toJson has written, its order of texts and the order of the rows that an update returns are
-- arguments. In PostgresStorage/Entries/Transaction the statements that the database refuses are
-- an argument too; a refused one changes nothing, and a commit that is refused has not taken
-- place. A text of demo/src/rules.ts is a list of code points in which a surrogate may stand
-- alone.
pub mod Common
pub mod JsMap
pub mod AggregationStore
pub mod ScheduledStore
pub mod PostgresStorage
pub mod Duration
pub mod Adapter
pub mod Entities
pub mod Arguments
pub mod When
pub mod Canonical
pub mod Predicates
pub mod Issues
pub mod Checks
pub mod Registration
pub mod Actions
pub mod ScheduledRun
pub mod Worker
pub mod Strategies
pub mod Runner
pub mod Builders
pub mod Cancellation
pub mod Emitter
pub mod Engine
pub mod Demo
