-- ===== src/Lib.antt =====
-- MizuFlow: feature flags that are saved in MySQL, carried to etcd, watched there by every server and streamed to the
-- SDK clients that evaluate them.
--
-- The parts and how they interact. `SaveFeature` writes the master record, an audit record and an outbox task in one
-- transaction; `syncToEtcd` and, for what it misses, the outbox worker carry the task's flag to etcd with a
-- compare-and-swap on versions, and the reconciler compares the master records with etcd. Every server watches etcd:
-- `Run` keeps a snapshot of the flags, a ring of the latest messages, and hands every message to the hub. A client of
-- the stream gets the messages that it missed from the ring and the following ones from the hub; one that is too old
-- for the ring is told to fetch the snapshot.
--
-- Which file models which code:
--   Base           what the modules share: lists and integers over the native numbers, association lists, texts
--   Api            pkg/api/v1/feature.go, pkg/constraints/protocol.go
--   Buffer         internal/buffer/revision_buffer.go: the ring and its binary search
--   Keys           internal/service/feature.go: `BuildFeatureKey` and the parser of delete events in `Run`
--   Cache          internal/service/cache.go
--   Json           encoding/json on flags, a parameter
--   Etcd           internal/repository/etcd.go; its watch and its read of a prefix are in Watch/Run
--   Db             internal/model and the interfaces of internal/repository
--   Outbox         internal/service/worker.go, and `syncToEtcd` of internal/service/feature.go
--   Reconciler     internal/service/reconciler.go
--   Features       internal/service/feature.go: `validatePayload`, `SaveFeature`, `RollbackFeature`
--   Watch          internal/service/feature.go: `Run`, `GetCompensation`, `GetAllFeatures`; Watch/Run is the whole of `Run`
--   Stream         internal/api/stream_handler.go
--   Sdk            client/client.go
--   Hub            internal/service/hub.go; Hub/Requests: the requests of
--                  internal/api/stream_handler.go with the hub; Hub/Metered: its observer
--   Delivery       the way of a change from the watch through the ring, the hub and the stream into a client
--   System         the writers of etcd and of the outbox together, as a step relation
--   Boot           cmd/server/main.go, internal/config/config.go
--   Auth           internal/service/auth.go
--   RateLimit      internal/middleware/ratelimit.go: the script of the token bucket, and the middleware
--   Repo           internal/repository/feature.go, audit.go, outbox.go and sdk.go: the statements that are given to gorm
--   Http           internal/api/router.go, feature_handler.go and auth_handler.go, internal/middleware/jwt.go, auth.go
--                  and trace.go, internal/service/context.go: a request from its route to the services and back
--   Samples        inputs that the tests share
-- A module's child Tests holds runs and concrete instances.
--
-- How state is modelled. Every operation is a function from the state before to the result and the state after; what a
-- lock guards is one step. The client of etcd, gorm and its transaction, Redis, JWT, the JSON decoders, the file system
-- and the hash are parameters, and the services take the repositories as interfaces, which Repo fills; what is relied
-- on of them are the records of laws in Etcd/Laws, Outbox/Laws, Reconciler/Ends, Features/Atomic, Auth/Rotation,
-- Http/Sessions, RateLimit/Admits, Reconciler/Keeps, Repo/Laws, Sdk/Persists and System/Saves, and the hypotheses on the
-- watch in Watch/Run. The laws of etcd let other clients act before every call.
--
-- Bounds and fuel. Integers of Go are ℤ; `Version++` wraps around at 64 bits, and the other sums stay in the range of
-- lists that fit in memory. The loop of `SaveFeatureIfNewer` goes round four times at most, as `maxRetries` says. The
-- loop of `reconcile` runs on fuel, of which one more than the rows left is enough; the loop of the binary search runs
-- on the length of its interval.
--
-- The numbers of the script of the token bucket are doubles of Lua; here they are exact numbers of millionths, the
-- unit of the clock that the script is given.
--
-- Not modelled: logging, the collectors of metrics, the binding of requests and cross-origin headers, which are calls of
-- libraries; and the load test, a tool that stands beside the program. Tickers, selects and connections are inputs: a
-- loop runs over the list of what its selects take. Which of several ready channels a select takes, and how the
-- goroutines interleave, is left to that list.
pub mod Base
pub mod Api
pub mod Buffer
pub mod Keys
pub mod Cache
pub mod Json
pub mod Etcd
pub mod Watch
pub mod Db
pub mod Outbox
pub mod Reconciler
pub mod Features
pub mod Stream
pub mod Delivery
pub mod Sdk
pub mod Hub
pub mod Auth
pub mod RateLimit
pub mod Http
pub mod Repo
pub mod System
pub mod Boot
pub mod Samples
