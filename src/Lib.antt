-- ===== src/Lib.antt =====
-- The Go backend of Kubernetes Operational View: what its parts do, and what holds of them.
--
-- The program watches clusters and shows them in a browser. The cluster manager queries each cluster
-- and puts the result (internal/models) into a store (internal/store); the publisher
-- (internal/events/publisher.go) writes events to the store and to its own subscribers, the handlers
-- of the browsers' streams; the delta calculator (internal/delta) works out what changed between two
-- states of a cluster, so that only changes are sent. Screen tokens, kept by the store, let a screen
-- without a user log in once.
--
-- Files and the code they model:
--   Prelude, Dict, Chan    what the code uses of Go: tests, slices, maps, buffered channels. A map is
--                          an association list; what ranges over it sees the list's order. A
--                          channel's send is that of a `select` with a default case.
--   Json                   the values that encoding/json decodes into `interface{}`, and
--                          reflect.DeepEqual on them. Numbers are integers.
--   Models                 internal/models/types.go: the types; Models/Validate the `Validate`
--                          methods, Models/Clone the `Clone` methods. A nil map and an empty one
--                          differ; a nil pointer that is followed is a panic (`none`, `panic`).
--   Store                  internal/store/types.go; Store/Memory internal/store/memory.go, one
--                          definition per method on a record for the store. The clock readings and
--                          the random bytes of a call are its arguments. Store/Memory/Runs has the
--                          runs of calls in any order, which the mutex of the code allows.
--   Events                 the `Store` interface as the publisher uses it; Events/Publisher
--                          internal/events/publisher.go over any such store; Events/Format the
--                          names and payloads that are sent to browsers.
--   Delta                  internal/delta/types.go; Delta/Calculator internal/delta/calculator.go,
--                          written once over any kind of keys; Delta/Slices Go slices with their
--                          shared arrays, and the plain paths that keys are meant to be; Delta/Patch
--                          what applying a delta means.
--   Auth                   Auth/Sessions internal/auth/session.go: the session manager.
--   Errors                 internal/errors/types.go; Errors/Handler internal/errors/handler.go, and
--                          Errors/Retry its `RetryWithBackoff`, over any operation and any wait.
--   Cluster                internal/cluster/types.go; Cluster/Discovery the `MultiDiscoverer` of
--                          internal/cluster/discovery.go; Cluster/Manager internal/cluster/manager.go:
--                          health checks, pruning and rediscovery, over any store and publisher.
--   Store/Contract         what the `Store` interface promises of clusters; Store/Redis
--                          internal/store/redis.go, over a client of a Redis server (its documented
--                          behaviour is `Serves` in Store/Redis/Server) and over JSON codecs.
--   Cluster/QueryEngine    internal/cluster/query_engine.go, over the store, the publisher, the metrics
--                          and what it reads of Kubernetes objects (Cluster/Kubernetes);
--                          Models/Totals the totals of internal/models/types.go.
--   Models/Pods            internal/models/converters.go: adding and removing pods.
--   Delta/Previous, Delta/Optimize   the rest of internal/delta/calculator.go, and `OptimizeDelta` of
--                          internal/delta/compression.go.
--   Health                 internal/health/health.go: the checks and the health response.
--   Config                 internal/config/config.go, loader.go and file.go, over YAML, files and the
--                          environment; Config/Texts what they use of strings and strconv.
--   Events/Sse             internal/events/sse.go, over any publisher and any connections; Events/Sse/
--                          Publishers fits the publisher in. `HandleSSE` is in parts, and its calls are
--                          taken one after another.
--   Auth/Oauth             internal/auth/oauth.go, over a provider; Auth/Middleware middleware.go, as
--                          verdicts on a request; Auth/Manager the handlers of manager.go.
--   Delta/Integration      internal/delta/integration.go, over what takes the events.
--   Tests                  the theorems at concrete inputs, and the data for that.
--
-- Times are numbers of nanoseconds and do not wrap. Recursion is structural throughout, so nothing
-- runs on fuel. A panic is a value of the results. A mutex makes each method one step. What is not
-- in the repository is a parameter: a Redis server, a provider of identities, the Kubernetes API, the
-- connections of browsers, files and YAML. Not modelled are the goroutines that poll and tick, logging,
-- metrics, the HTTP server with its routes and pages, and the slices and maps that two copies of a node
-- share.
pub mod Prelude
pub mod Dict
pub mod Json
pub mod Models
pub mod Chan
pub mod Store
pub mod Events
pub mod Delta
pub mod Auth
pub mod Errors
pub mod Cluster
pub mod Health
pub mod Config
mod Tests
