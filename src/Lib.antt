-- ===== src/Lib.antt =====
-- Verification of cdp-cache, an HTTP cache module for the web server Caddy.
--
-- The program and its parts. A request comes to the middleware (handler.go), which looks it up in
-- the store of entries (cache.go), or else asks the next handler in a goroutine of its own and
-- reads its answer through a buffer (response.go). From the status and the headers of the answer it
-- decides whether the entry may be stored, and for how long (cache.go). An admin API lists, shows
-- and purges entries (endpoint.go); a block of the Caddyfile gives the configuration (caddyfile.go).
-- A request holds the lock of its URL (url_lock.go). The body of an entry goes into a file, into the
-- memory of a group of nodes, or into redis (backends/). With the distributed cache, the nodes find
-- each other and publish their deletions through Consul (extends/distributed), which may also keep
-- the server's certificates (extends/storage); the log may go to InfluxDB (extends/influxlog).
--
-- Which file models which part:
--   Base       lists, Booleans, integers, byte strings (as lists of numbers below 256, with the
--              functions of Go's package strings that the code calls) and association lists.
--   Header     http.Header as a map from canonical names to values; copyHeaders of response.go.
--   Http       the fields of http.Request and of http.ResponseWriter that the program uses.
--   Rule       PathRuleMatcher and HeaderRuleMatcher of cache.go.
--   Config     Config of caddyfile.go with its defaults. Config/Caddyfile is UnmarshalCaddyfile and
--              provisionRuleMatchers of handler.go.
--   Status     expirationObject, judgeResponseShouldCacheOrNot and getCacheStatus of cache.go.
--   Bucket     getBucketIndexForKey of cache.go: CRC-32 modulo the number of buckets.
--   Entry      Entry, NewEntry, IsFresh, matchVary and keyWithRespectVary of cache.go.
--   Key        getKey and bodyHash of cache.go.
--   Store      HTTPCache of cache.go: NewHTTPCache, Get, Put and Keys. Store/Cleaning is Del,
--              cleanEntry and distributedClean; Store/History runs sequences of calls. Store/Spec is
--              the cache as a map from keys to lists of entries, and Store/Bodies the cache with the
--              goroutines that it starts and the bodies that are cleaned; Store/Shared is the
--              quotient of the caches that no caller can tell apart.
--   Response   Response of response.go, with a channel as the number of values that it holds.
--              Response/Fetch is fetchUpstream of handler.go: two goroutines over one Response, and
--              Response/Fetch/Errors the channel of the upstream's error with popOrNil;
--              Response/Fetch/Abandoned the branches of ServeHTTP that set no storage.
--   Handler    shouldUseCache and isWebSocket of response.go, respond of handler.go and the writers
--              of cache.go. Handler/Serve is ServeHTTP of handler.go for one request.
--              Handler/Repeats and Handler/Leaks are sequences of requests, Handler/Leaks with purges
--              and cleanings between them.
--   Endpoint   the payload, Purge and the admin handlers of endpoint.go; TrimBy of
--              pkg/helper/helper.go. Endpoint/Routes is the table of routes with the mux of net/http.
--   Provision  Provision of handler.go with the package variables that it sets, and Cleanup.
--   UrlLock    URLLock of url_lock.go, with its mutexes, and the requests that take them as threads.
--   Backend    backends/: the interface and Base of backend.go. Backend/Memory, Backend/Redis and Backend/File are the
--              three storages, and Backend/Subscription the list of a file's readers.
--              Backend/File/Copy is io.Copy from a reader, and Backend/File/Stream a reader beside
--              the writer.
--   Distributed  extends/distributed, with handleDeleteKey of handler.go: identifiers, peers, the
--              published deletions. Distributed/Setup is its configuration and Provision.
--   Storage    extends/storage: consul.go over a key-value store, and its configuration.
--   Influx     extends/influxlog: the point that a line becomes, its configuration and, in
--              Influx/Clients, the clients that are made and closed.
--   Subdirectives  the loop that the parsers of the three extensions share.
--
-- How state and failure are modelled. A function that changes state takes it and returns it. An
-- index out of range, and a slice or a dereference that panics, is `none`. A slice is its live part
-- with the cells behind it that a deletion in place has vacated. A pointer to an entry is a number,
-- `ident`, by which entries are compared. A call of now() is a reading of a clock, a function from
-- the number of the reading to a time in nanoseconds, so that no theorem needs the clock to stand
-- still unless it says so. Two goroutines are run by a schedule, a list that says which of them
-- moves next; the requests at the locks of URLs are numbered threads of the same kind. Fuel stands
-- for two loops: that of strconv.Itoa has the number itself plus one, since it has no more digits, and
-- io.Copy from a file has one more than the bytes that are left, since each read of a buffer that is
-- not empty takes at least one. Every other loop is a recursion on the list or the number of rounds.
--
-- Parameters: the package cachecontrol with http.ParseTime (the record CacheControl); the methods of
-- a storage backend (BackendOps); the next handler, the replacer and the construction of a storage
-- (World); the services of Consul (Outside); JSON, the parsers of numbers and of durations, and the
-- dispenser of Caddy (Tools); regular expressions; groupcache (GroupCache) and the client of redis
-- (RedisClient), with the laws IsGroup, IsStore and Forgets; the agent of Consul (Agent), its
-- key-value store (KeyValue, with the law IsReliable where a theorem needs that no call fails) and
-- its locks; the decoder and the clock of the log (LogTools); the replacer of Caddy (Replacer, with
-- the law IsReplacer) and SHA-1.
--
-- Not modelled: the locks of the store and of the storages, whose calls are single steps here; the
-- errors of the operating system in backends/file.go; the methods of DistributedLock and
-- handleConfigChanged, which only call Consul or Caddy (extends/); IPAddr of
-- pkg/helper, which asks the operating system; the command (cmd/main.go); logging, the pools of
-- buffers and the texts of most errors.
pub mod Base
pub mod Header
pub mod Http
pub mod Key
pub mod Subdirectives
pub mod Influx
pub mod Rule
pub mod Config
pub mod Status
pub mod Bucket
pub mod Entry
pub mod Storage
pub mod Store
pub mod Response
pub mod Handler
pub mod Distributed
pub mod Endpoint
pub mod Provision
pub mod UrlLock
pub mod Backend
