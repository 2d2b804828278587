-- ===== src/Lib.antt =====
-- A model of the foundry: its graph of entities and edges, the event log and its projection, the
-- ingestion of events, the factory that starts builds, their dispatch, receipts and repairs, and the
-- stores behind them.
--
-- How the parts interact. An emission on the bus appends an event to the log, projects it into the
-- graph and runs the handlers of its type; a rebuild clears the graph and projects the whole log
-- again. Events from outside come as envelopes of the contract through the ingestor, which
-- validates, checks the hash, looks the id up, stores, projects and moves a checkpoint. A tick of the
-- factory reads ideas and builds from the graph, lets the planner choose, emits the events of each
-- build and hands its task to the router, which passes it to a transport or the outbox. The outbox's
-- consumer turns the tasks of drift into repairs.
--
-- Prelude        lists, dictionaries (a Map or an object: entries in insertion order), texts, paths, and
--                actions that may throw and keep what they wrote (Prelude.Exec).
-- Model          the values of JavaScript that events carry, src/model/types.js (EntityType, RelKind)
--                and template literals.
-- Graph          src/graph/inmemory.js (Graph.InMemory: `upsert_entity`, `link`, `neighbors`, ... are
--                the methods of InMemoryGraphStore) and `findPaths` of src/graph/store.js
--                (Graph.Paths: `loop` is the while loop, `expand` its body, `scan` and `offer` the
--                inner loop). Graph.Index has the invariant `IsLinked` of the four maps; Graph.Links,
--                Graph.Keeps, Graph.Neighbors and Graph.Upsert are about the methods,
--                Graph.Paths.Fuel, Graph.Paths.Walks and Graph.Paths.Complete about the search.
-- Event          src/event/bus.js (Event.Bus), src/event/projector.js (Event.Projector: one `on_*`
--                per case), InMemoryEventStore of src/event/jsonl-store.js (Event.Log) and the
--                directory lock of JsonlEventStore (Event.Lock: a step per call of the file system,
--                two for an append, a clock, any number of writers; Event.Lock.Alone and
--                Event.Lock.Whole are about its runs). Of src/event/r2-store.js, Event.R2 has the keys and
--                LocalR2Fallback, Event.Artifacts has ArtifactStore over it.
-- Contract       contracts/index.js: names, `validateEvent`, `createEvent`, `classifyFailure`.
-- Ingest         src/events/canonical-ingestor.js over the interface `EventStore` (Ingest.Store),
--                src/events/checkpoint-store.js, and JsonlEventStore of src/event/jsonl-store.js as an
--                implementation of the interface (Ingest.Jsonl).
-- Dispatch       src/dispatch/router-dispatcher.js: Dispatch.Router has `dispatch` up to the await of the
--                transport (`begin`) and after it (`finish`), Dispatch.Machine their interleavings,
--                Dispatch.Once and Dispatch.Answers what holds of them, Dispatch.Outbox src/dispatch/outbox.js.
-- Builds         src/dispatch/agentbuild-dispatcher.js (Builds.Blueprint, Builds.Agent),
--                src/dispatch/workorder-dispatcher.js (Builds.Workorder),
--                src/ideas/blueprint-compiler.js (Builds.Compiler) and src/receipt/receipt-v2.js
--                (Builds.Receipt).
-- Hydra          src/graph/hydradb: Hydra.Cypher has the quoting and the statements of projector.js,
--                Hydra.Projector one definition per case, Hydra.Schema the tables of schema.js,
--                Hydra.Executor `executeAll` of executor.js.
-- Reconcile      `standardDrift` of src/reconcile/reconciler.js (Reconcile.Drift), the order of texts it
--                uses (Reconcile.Order) and the map it builds (Reconcile.Latest).
-- Planner        `rank` and `select` of src/planner/idea-planner.js over a scale of totals.
-- Controller     `tick` of src/controller/factory-controller.js (Controller.Candidates,
--                Controller.Factory), and what the methods of src/controller/control-plane.js and
--                src/standards/catalog.js emit (Controller.Plane, with `createRepairTasks` of
--                src/reconcile/reconciler.js).
-- Standards      src/standards/conformance.js: Standards.Conformance has the evaluator,
--                Standards.Recorded what the graph has of a verdict that is recorded, and
--                Standards.Verdict what verdicts mean for the reconciler.
-- Registry       src/registry/capability-registry.js.
-- Consumer       scripts/outbox-consumer.mjs: Consumer.Brief has the queries and the brief,
--                Consumer.Loop the loop and `main`; Consumer.Open, Consumer.Growth, Consumer.Ids and
--                Consumer.Settled are about runs.
-- Domains        src/domain-search/engine.js: meanings, candidates, scores and the engine's methods.
--
-- What is taken from outside: random bytes, clocks and hashes are arguments, `JSON.stringify` and
-- `JSON.parse` are a record whose law is that parsing gives back what was written (Ingest.Store), the
-- ingestor's projector and the graph's `query` are the constructor's arguments as in the source. The
-- handlers of the bus act on a state of their own. The totals of the planner and `localeCompare` are
-- a record with the laws of a total order, and the hash behind Hydra's ids is a function. So are
-- digests, child processes, the answers of the Hydra database and of the registry of names.
--
-- Fuel. `findPaths` takes a number of rounds; where no entity has more than b neighbours, the weight
-- of the start (weight b maxDepth, one round for an item and b items below it per level) and two more
-- rounds are enough. `decimal` takes the number as the fuel of its digits, and the batches of
-- `batchRdapCheck` the number of names, of which each round takes one at least.
--
-- Simplifications. Ids and types of entities are texts; an id of another kind is refused like a
-- missing one. Numbers are integers. Case changes are those of ASCII. An entity's fields beside id,
-- type, name and data are not kept. A line of the event file that is JSON and no object counts as
-- unreadable, and the checkpoint file has no fields but its own four. A value that the code reads as
-- an array and that is none counts as empty. `path.join` is that of a POSIX system (Prelude.Paths).
-- An append to the event file reaches it in two pieces.
--
-- Not modelled: the calls of the S3 client and the scans of files, the scores of ideas, experiments
-- and the resolver, analytics, the importer and the canonical generator, the regular expressions of
-- LocalGraphStore, the other Hydra transports, the loading of the registry, the server, the
-- integrations and the other scripts.

pub mod Prelude
pub mod Model
pub mod Graph
pub mod Event
pub mod Contract
pub mod Ingest
pub mod Dispatch
pub mod Hydra
pub mod Reconcile
pub mod Planner
pub mod Consumer
pub mod Domains
pub mod Builds
pub mod Controller
pub mod Standards
pub mod Registry
