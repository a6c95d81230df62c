-- ===== src/Lib.antt =====
-- The verification library of the gateway: an HTTP and gRPC reverse proxy that routes requests to
-- the instances of services, which it finds in a registry, checks for health and retries.
--
-- How the parts interact. config/ loads the configuration, a list of endpoints with their
-- backends, middlewares and retry settings. For each endpoint proxy/proxy.go builds a handler: a
-- chain of middlewares (middleware/) around a client (client/). A request runs through the retry
-- loop of the handler; each attempt goes through the chain to the client, which asks a selector
-- for a healthy node and sends the request there. Errors of all parts are answered by errors/ in
-- one envelope. The health checker learns of nodes from the registry and of failures from its own
-- probes and from the requests.
--
-- - Common: Go's strings as lists of bytes, maps, headers, runes, integers and their printing, as
--   far as the gateway uses them. A Go string is a list of bytes (`bytes "..."` is its UTF-8),
--   strings.ToLower and ToUpper change the ASCII letters only, so hosts, methods and names with
--   other letters are kept as they are; a map is an association list, an int64 duration is an
--   integer of nanoseconds. http.Header keys are made canonical as in net/textproto.
-- - Http: the requests and responses of net/http.
-- - Config/Types: the messages of api/gateway/config/v1/gateway.pb.go that are read. Config/Merge:
--   MakeReplaceOrPrependEndpointFn and mergePriorityConfig of config/config.go. Config/Reload:
--   applyEnvs and executeLoader of config/config.go, with Sorting, Keys, Rollback and Laws.
--   Config/Watching: Watch, Close and the watch loops of config/config.go, with Invariant (which
--   goroutines are alive) and Laws (what stays decodable). The order in which Go goes through a
--   map is a parameter.
-- - Client/Node: client/node.go. Client/Health: the three maps of client/health_checker.go and the
--   operations on them, with Update (updateNodes), Failures (counting to the limit), Invariant
--   (all histories of operations) and Loop (the ticker and the goroutine). Client/RoundTrip:
--   RoundTrip of client/client.go.
-- - Client/Target: client/target.go. Client/Factory: node_callback, apply_backends and
--   cancel_applier are Callback, apply and Cancel of the nodeApplier of client/factory.go;
--   Factory/Build: NewFactory and Close.
-- - Client/Watch: the serviceWatcher of client/servicewatch.go, its operations and its steps, with
--   Invariant and History (all histories of steps), Loops, Delivery (who gets a list), Cleanup and
--   Delay (calculateRetryDelay).
-- - Config/CtrlLoader: the files and versions of config/config-loader/ctrl-loader.go, with Run
--   (Load and Run), Rotation (which service is asked) and Outcome (what a load leaves).
-- - Loader/Path: path.Clean, Join, Dir and Base of Go's standard library. Loader/Keys: the keys of
--   pkg/loader/source.go. Loader/Source: NewSource, Load and the watch of the configuration
--   center. Loader/Files: ReplaceFile, snapshotFile and restoreFile. Loader/Watch: SyncFile and
--   WatchFile, with LastGood (the file as a register), Synced (behind SyncFile) and Runtime (what
--   onChange has built). A file system is a map from paths to contents and permissions; each of
--   its operations may fail, as a record of faults says, and directories are not represented.
-- - Router/Mux: cleanPath, Handle, SyncClose and ProtectedHandler of router/mux/mux.go. Server:
--   the ports and altSvcMiddleware of server/proxy.go.
-- - Errors/Codes: errors/constants.go and the errors themselves. Errors/Mapping:
--   errors/mapping.go. Errors/Response: errors/response.go and errors/cors.go.
-- - Middleware/Request: the options and the filter of middleware/request.go. Middleware/Registry:
--   middleware/registry.go and the types of middleware/middleware.go. Middleware/Jwt:
--   middleware/jwt/jwt.go. Middleware/Ip: middleware/ip/ip.go. Middleware/RouterFilter:
--   middleware/routerfilter/routerfilter.go. Middleware/Rbac: the decision of
--   middleware/rbac/rbac.go, with Roles (its cache) and Enforcer (InitEnforcer, initializeEnforcer
--   and the watches of setupWatchers). Middleware/CircuitBreaker:
--   middleware/circuitbreaker/circuitbreaker.go. Middleware/Cors: middleware/cors/cors.go.
--   Middleware/Rewrite: middleware/rewrite/rewrite.go.
-- - Proxy/Serve: the handlers between the server and an endpoint, of main, proxy/auth/auth.go,
--   proxy/proxy.go and router/mux/mux.go.
-- - Proxy/Forwarded: setXFFHeader of proxy/proxy.go.
-- - Proxy/Condition: proxy/condition/condition.go. Proxy/Retry: proxy/retry.go. Proxy/Loop: the
--   handler that buildEndpoint of proxy/proxy.go returns. Proxy/Update: Update, buildEndpoint and
--   buildMiddleware of proxy/proxy.go, with Middlewares (the order of the chain).
--
-- Concurrency. The operations of the health checker hold its lock, so a history is a sequence of
-- whole operations; a probe takes the lock after its request, so its result may come in after any
-- other operation, and the histories allow that. The loop of the checker is a state machine of its
-- ticker, its context and its goroutine, which is spawned first and runs later.
--
-- Each section of the service watcher that holds its lock is a step of its own: the two parts of
-- applyServices, setSelectedCache and doCallback, as well as the two parts of the cleanup; so are
-- the callback of Add, which holds no lock, and the return of a loop. A loop returns only when the
-- context of its status is done, as far as the registry answers Canceled for nothing else. Where
-- apply_services stands in a theorem, its two parts follow each other with nothing in between.
--
-- The events of a file watch are handled one after the other, each with the faults that its file
-- operations meet; the watches of the two RBAC files are taken one at a time, not interleaved.
--
-- Termination. The retry loops recurse on the attempts that are left, so each is total. No fuel is
-- used. The loops that run as long as the gateway does, the watch of the configuration center and
-- Run of the control plane loader, recurse on the list of the streams or rounds that they meet.
--
-- Parameters. The selector and the upstream servers are environments that give the choice and the
-- answer of each attempt. golang-jwt is a record whose only assumed law is that a token whose
-- method has no key is not valid. The skip rules of its middleware are a list of decisions on a
-- request. The trippers of clients, the answer of the router to a route and the decoding of the
-- configuration are parameters with no law; going through a map is a parameter that meets each
-- entry once. proto.Marshal, the gRPC codes of kratos and the JSON decoding of header values are
-- parameters with no law. casbin is a record of three functions, Casdoor a function from a user to
-- its answer, the sre breaker a record of operations on a state, all with no law. configsource of
-- config-center gives the selected source, the contents and the streams of events. gorilla/mux
-- matches the templates and prefixes of routes, url.Parse, regexp.Compile, the HTTP calls of the
-- control plane loader, its JSON and its YAML are parameters with no law. What is built from
-- files, in Loader/Watch/Runtime, is a function that gives the same for files that agree where it
-- reads.
--
-- Not modelled: metrics, logging and tracing, which do not change what is answered; TLS and
-- sockets; generated code; the middlewares and the parts of the router and the server that have no
-- file here; the reading, decoding and hashing of the configuration's files; the options of the
-- sre breaker; the features of the control plane; the addresses of network interfaces.
mod Common
pub mod Errors
mod Http
pub mod Config
pub mod Client
pub mod Loader
pub mod Middleware
pub mod Proxy
pub mod Router
pub mod Server
