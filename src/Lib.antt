-- ===== src/Lib.antt =====
-- manipulate: access to objects that are kept in memory, in a cache, behind HTTP or in MongoDB,
-- through one interface (the interface `Manipulator` of manipulate.go). This library models the
-- parts of it that stand on their own logic.
--
-- The parts:
--   Errors (errors.go): the error types as one data type, what they print and wrap, and the
--     functions `IsXError`. A call that may fail or panic returns a `Result`.
--   Context (context.go, options.go): `mcontext` as a record; `NewContext`, `Derive` and the options
--     `ContextOptionX`, named `option_x`, as functions on it, and as data in Context.Choices.
--   Iter (iter.go): `IterFunc`, `IterUntilFunc` and `Iter`. The manipulator is a function on
--     explicit state. They derive a context for each block, and read `Next` of it.
--   Backoff (internal/backoff/backoff.go): `NextWithCurve`.
--   Filter (filter.go): a filter as a tree of what the accessors of elemental's type return.
--   Memory (manipmemory/manipulator.go, manipmemory/utils.go): the in-memory manipulator.
--     Memory.Query is `retrieveFromFilter` and what it calls; Memory.Store the operations and
--     the registry of transactions. A method with a Go name `DoThis` is `do_this`.
--     Memory.Schema (manipmemory/schema.go, manipmemory/utils.go, manipmemory/options.go) is the
--     making of the tables with their indexes, and the index for texts.
--   Vortex (manipvortex/manipulator.go, utils.go, processors.go, transaction.go, reconciler.go,
--     prefetcher.go, subscriber.go, options.go of the same folder): the cache in front of another
--     manipulator. Vortex.Strength is the consistency of a request; Vortex.Commit `commitUpstream`
--     and `commitLocal`; Vortex.Writes `coreCRUDOperation`, `genericUpdater` and `backgroundSync`;
--     Vortex.Reads `Retrieve`; Vortex.Bulk `RetrieveMany`, `Count` and `DeleteMany`; Vortex.Warming
--     `warmUp`, `Flush` and the default prefetcher, which goes by Iter; Vortex.Subscriptions the
--     identities whose events are committed and `updateFilter`; Vortex.Events `eventHandler`,
--     `pushEvent`, `pushErrors`, `pushStatus` and what `monitor` does with an event; Vortex.Monitor
--     `monitor` as a whole, with the flush at a reconnection; Vortex.Making the options and `New`.
--   ObjectId (internal/objectid/objectid.go): `Parse`, with bytes as numbers. Snip
--     (internal/snip/snip.go): `Snip`, on texts.
--   Mongo (manipmongo/compiler.go, utils.go, helpers.go, manipulator.go of the same folder): the
--     manipulator over MongoDB. Mongo.Bson are the documents that it sends, Mongo.Compiler
--     `CompileFilter`, Mongo.Failures `HandleQueryError`, Mongo.Retry `RunQuery`, Mongo.Ordering
--     the ordering, the selected fields and the filter for the next page, Mongo.Queries the
--     documents and queries of the operations, Mongo.Reads and Mongo.Writes the operations,
--     and Mongo.Indexes the functions on the indexes of a collection.
--   Http (maniphttp/manipulator.go, utils.go, options.go, helpers.go, subscriber.go of the same
--     folder): the manipulator behind HTTP. Http.Urls, Http.Headers and Http.Parameters make a
--     request, Http.Exchange
--     and Http.Send are `send`, Http.Operations the operations on top of it, Http.Making the options and `New`, Http.Renewal
--     the renewal of the token with the subscriptions of Push that it notifies, Http.Direct
--     `DirectSend` and `BatchCreate`, Http.Subscribing what a subscription is made with.
--   Push (internal/push/push.go, internal/push/utils.go): a subscription; Push.Connection is
--     `connect` and Push.Listening `listen`.
--   Prelude: names shared by all, numbers, texts and Go's maps. Examples: concrete parameters.
--
-- State is passed explicitly: an operation takes the record of the state and returns it with what
-- it returns. Sequences of operations are the data types `Step` and `Reach` beside their
-- invariants. memdb, the deep copy, elemental, mgo, net/http, the websocket, the reconcilers, the
-- clock and the other manipulators are parameters; what the code relies on in them is stated as a
-- hypothesis (`IsIndexed`, `IsKeyed`, `IsReadable`, `IsKeeping`, `IsKeptWithKey`, `IsCollection`, and
-- the documented meaning of MongoDB's operators, `IsMongo` and `HasFields`), and Examples has
-- parameters for which it holds.
--
-- Bounds and fuel: the loop of the iteration takes fuel, since nothing in the source bounds the
-- pages of a server; one more round than there are pages, or objects, is enough. The loops of
-- `RunQuery`, `send` and `connect` take fuel for their tries: for the first two one more than the
-- number of the try after which the context has ended is enough; `connect` has no such bound. All
-- other functions are total. Durations and times are natural numbers of nanoseconds. Integers of a
-- context are ℤ: the code compares, copies and prints them, and `RetrieveMany` of manipmongo
-- multiplies two of them, for pages that do not overflow.
--
-- Not modelled: locks and goroutines (an operation is one step), a transaction queue of capacity 0
-- (whether a send on it succeeds depends on whether the background loop waits for it at that
-- moment), the deprecated constructors of errors, the accessors of the context (they are its
-- fields), in manipmemory what reads an object by reflection, which is a parameter, in manipvortex
-- the commit log's file and the test doubles, in manipmongo the options, the sessions and the
-- collections (calls of mgo) and the explanations of queries, in maniphttp the simulated failures,
-- the transport but for its URL, and the decoding of a body, tracing, and the package maniptest
-- (mocks).
pub mod Prelude
pub mod Errors
pub mod Backoff
pub mod Context
pub mod Iter
pub mod Filter
pub mod Memory
pub mod Vortex
pub mod ObjectId
pub mod Snip
pub mod Mongo
pub mod Http
pub mod Push
pub mod Examples
