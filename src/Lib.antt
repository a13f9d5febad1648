-- ===== src/Lib.antt =====
-- authzcache is a server that stands before the Descope backend and answers fine-grained authorization
-- checks from memory. internal/services/authz.go is the service: it keeps one cache and one SDK client
-- per project, asks the project's cache first (`Check`, `WhoCanAccess`, `WhatCanTargetAccess`), sends
-- what the cache does not answer to the SDK, gives the SDK's checks to the cache, sends writes to the SDK
-- before it invalidates, and records a metric for each call.
-- internal/services/caches/projectauthzcache.go is the cache of a project: an LRU cache of direct grants
-- with two index maps, an LRU cache of indirect grants, a cache of lookup results, the loaded schema with
-- its compiled conditions (internal/services/cel/cel.go), and a poller that removes what the backend
-- reports as changed, with a cooldown before it purges on errors.
-- internal/services/metrics/collector.go adds up the metrics. internal/controllers/controller.go is the
-- gRPC server on the service: it converts messages, and errors by
-- pkg/authzcache/errors/errortypes.go; cmd/authzcache/main.go starts all with the values of
-- internal/config/config.go and the clients of internal/services/remote/remote.go.
--
-- The files:
-- - Base: tests, lists and maps over native numbers, equality as an instance, `do` over options,
--   decimal digits (`strconv.Itoa`), text literals.
-- - Sdk: the structs of the Descope SDK. Lru: the interface of the LRU cache and its laws.
-- - Direct: the direct grants (`addDirectRelation`, `removeDirectRelationsByResource`, `...ByTarget`,
--   `removeIndexOnCacheEviction`, the index functions, `key`). Direct/Index, Direct/Key,
--   Direct/Eviction, Direct/Sweep, Direct/Both, Direct/Sound and Direct/Precise prove what they do.
-- - Cel: `Compile` and `Eval`.
-- - Cache: the state of `projectAuthzCache` and `NewProjectAuthzCache`. Cache/Checks is
--   `CheckRelations`; Cache/Schemas is `GetSchema`, `UpdateCacheWithSchema`, `EnsureSchemaLoaded` and
--   the purges; Cache/Updates is `UpdateCacheWithAddedRelations`, `UpdateCacheWithDeletedRelations` and
--   `UpdateCacheWithChecks`; Cache/Lookup is the lookup cache; Cache/Polling is
--   `updateCacheWithRemotePolling` and the cooldown; Cache/History is any sequence of all of these, and
--   Cache/History/Spec says what a cache may hold as a specification over the calls, with no LRU, index
--   or key in it.
-- - Config: the getters of internal/config/config.go and the settings that they give.
-- - Metrics: `Record` and `SnapshotAndReset`. Metrics/Reporter: `buildPayload`, what `report` posts
--   and, in Metrics/Reporter/Request, the address and the request
--   (internal/services/metrics/reporter.go).
-- - Services: Services/Check is `Check`, Services/Access the two lookups and their filters,
--   Services/Projects `getOrCreateProjectCache` and the writes, Services/Projects/Requests any
--   sequence of requests, polls and timers; Services/Backend is what they take from outside.
-- - Remote: `NewDescopeClientWithProjectID` (internal/services/remote/remote.go).
-- - Errors: `ServiceErrorFromSdkError`, `setRetryAfter` and `errorHandlerWithRetryAfter`
--   (cmd/authzcache/main.go).
-- - Controllers: the methods of internal/controllers/controller.go. `save_schema`, `create_tuples`,
--   `delete_tuples`, `check_tuples`, `list_targets` and `list_relations` are `CreateFGASchema`,
--   `CreateFGARelations`, `DeleteFGARelations`, `Check`, `WhoCanAccess` and `WhatCanTargetAccess`.
-- - Tests: a list cache that meets the laws, and the theorems at concrete inputs.
--
-- How the code is modelled. A Go string is the list of its bytes; a Go map is an association list.
-- A method of the cache holds the mutex from its first access to its last, so it is one function
-- from state to state, and a history is a list of such calls in any order; `CheckRelations` moves
-- entries in the LRU order under the read lock, which the laws of the LRU cache leave open. What
-- `time.Now()` returns is an argument of the cache's methods and is read from the world by the
-- service's; times and durations are in nanoseconds. `addToLookupCache` reads the clock once for each
-- entry that it finds; one creation of relations takes one time for all of them. The cooldown timer is nil or holds the time
-- at which it is due. The lookup cache holds addresses of entries in a list, since
-- `addToLookupCache` writes through the pointer that it gets. An int64 is its bit pattern, and so
-- is a configured duration; that a time plus a duration overflows is not covered. Every loop is
-- over a list but that of `strconv.Itoa`, which gets one round more than the number, and a number
-- has no more digits than that. An error of the common library is a value that names the call that
-- makes it. A request of the service is one function; Cache/History/Race has the order in which a
-- check is stored after a write that it was made before, other interleavings of requests are not
-- modelled. Logging is left out.
--
-- Parameters: the LRU cache and cel-go with the CEL types of the backend (`Externals`), the SDK,
-- the project id of a context and the clock (`Backend`), the making of clients (`RemoteSdk`), the
-- values of the environment (`Environment`), structpb and the text of an SDK error (`Messages`).
-- The laws (`LruLaws`, `BackendLaws`) state what the repository's tests and code rely on: a cache
-- holds what was added last under a key unless it was removed, purged or reported as pushed out,
-- and the SDK answers a check request in its order.
--
-- Not modelled: the marshalling, the sending and the ticker of the metrics reporter, the project
-- id middleware, the wiring of the servers in `serve` and that grpc carries header metadata to the
-- gateway, generated code and mocks.
pub mod Base
pub mod Sdk
pub mod Lru
pub mod Direct
pub mod Cel
pub mod Cache
pub mod Config
pub mod Metrics
pub mod Remote
pub mod Errors
pub mod Services
pub mod Controllers
pub mod Tests
