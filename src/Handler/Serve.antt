-- ===== src/Handler/Serve.antt =====
-- ServeHTTP of handler.go for one request, with the cache it reads and changes.
use cdp_cache.Base.{
  ℕ, suc, Bool, true, false, not, Option, none, some, List, [], ◌++◌, leb, if◌then◌else◌, inl,
}
use cdp_cache.Base.Int.{ℤ}
use cdp_cache.Base.Text.{Str}
use cdp_cache.Header.{Header}
use cdp_cache.Http.{Request, Writer, write_status}
use cdp_cache.Config.{Config}
use cdp_cache.Status.{CacheControl, Clock}
use cdp_cache.Entry.{Entry, new_entry, key_with_respect_vary}
use cdp_cache.Store as Caches
use cdp_cache.Store.{HttpCache, Task}
use cdp_cache.Response.{
  BackendOps, Outcome, done, blocked, panicked, ◌>>◌, new_response, set_body, close,
}
use cdp_cache.Backend.{AnyBackend, any_ops}
use cdp_cache.Handler.{
  Failure, no_pre_collect, failed, Reading, Ending, answered, fails, hangs, crashes, cache_hit,
  cache_miss, cache_skip, cache_bypass, should_use_cache, add_status_header, respond,
}

-- What the upstream makes of a request: its status and headers, the error that is there when its
-- header is, and the body that it goes on to write.
pub record Fetched : Type 0 where
  pub code : ℕ
  pub header_map : Header
  pub snap_header : Header
  pub error : Option Str
  pub content : Str

-- The moments of one call: the lookup, the peers, the fetch, the stale lookup.
pub data Moment : Type 0 where
  at_lookup at_peers at_fetch at_stale : Moment

-- What the program takes from outside during one call.
pub record World (B Reader : Type 0) : Type 1 where
  pub cc : CacheControl
  -- getKey: the template with the replacer of the request
  pub get_key : Str → Request → Str
  -- next.ServeHTTP on a writer, and on a Response
  pub direct : Request → Writer → Writer × Option Str
  pub fetch : Request → Fetched
  -- setBackend: the storage and the error of its construction, by the type, the path, the storage
  -- key and the expiration
  pub new_backend : Str → Str → Str → ℤ → Option B × Option Str
  pub ops : BackendOps B Reader
  pub reading : Moment → Entry → Reading
  pub clock : Moment → Clock
  -- the address of a new entry
  pub address : Moment → ℕ

-- How the call ends: nil, an error of the upstream, a caddyhttp.Error, never, or in a panic, from
-- which net/http recovers.
pub data Reply : Type 0 where
  served : Reply
  upstream_error : Str → Reply
  http_error : ℕ → Failure → Reply
  never : Reply
  crashed : Reply

-- The cache, the tasks started, how often the upstream was asked, the client's writer.
pub record State : Type 0 where
  pub cache : HttpCache
  pub tasks : List Task
  pub fetches : ℕ
  pub writer : Writer

infixl 5 ◌>>=◌
abbrev pub ◌>>=◌ {ℓ κ} : {A : Type ℓ} {B : Type κ} → Option A → (A → Option B) → Option B
none >>= f = none
some a >>= f = f a

-- The rest of the handler, where the part before it has not ended the call.
abbrev pub unless_ended :
    State → Option Reply → (State → Option (State × Reply)) → Option (State × Reply)
unless_ended s none next = next s
unless_ended s (some reply) next = some (s, reply)

abbrev pub on_writer : State → Writer → State
on_writer s w = record s { writer = w }

module _ {B Reader : Type 0} (o : World B Reader) (config : Config) (distributed : Bool)
    (req : Request) where
  abbrev pub key : Str
  key = o.get_key config.cache_key_template req

  -- After respond with a cached entry: only an error that is no NoPreCollectError goes on.
  abbrev pub settle : State → Entry → Writer → Ending → State × Option Reply
  settle s e w answered = (on_writer s w, some served)
  settle s e w (fails no_pre_collect) = (on_writer s (write_status w e.code), some served)
  settle s e w (fails (failed m)) = (on_writer s w, none)
  settle s e w hangs = (on_writer s w, some never)
  settle s e w crashes = (on_writer s w, some crashed)

  -- The answer with what Get found, if it is public.
  unfoldable pub serve_cached : Moment → State → Option Entry → State × Option Reply
  serve_cached m s none = (s, none)
  serve_cached m s (some e) =
      let (w, ending) = respond o.ops config cache_hit e new_response [] (o.reading m e) s.writer in
      if e.is_public then settle s e w ending else (s, none)

  -- Put, with the tasks that it starts.
  unfoldable pub store : State → Entry → Option State
  store s e = do
    (h, ts) ← Caches.put s.cache e config
    some (record s { cache = h; tasks = s.tasks ++ ts })

  -- The entry that is made before the peers are asked.
  unfoldable pub peer_entry : Entry
  peer_entry = new_entry o.cc (o.address at_peers) key req 200 [] [] config (o.clock at_peers)

  unfoldable pub new_storage : Entry → Option B × Option Str
  new_storage e = o.new_backend config.cache_type config.path (key_with_respect_vary e) e.expiration

  -- After respond with the entry of the peers: only NoPreCollectError goes on. The error that is
  -- passed on is the zero value of the failed type assertion.
  abbrev pub settle_peers : State → Entry → Writer → Ending → State × Option Reply
  settle_peers s e w answered = (on_writer s w, some served)
  settle_peers s e w (fails no_pre_collect) = (on_writer s w, none)
  settle_peers s e w (fails (failed m)) = (on_writer s w, some (http_error e.code no_pre_collect))
  settle_peers s e w hangs = (on_writer s w, some never)
  settle_peers s e w crashes = (on_writer s w, some crashed)

  -- setBackend leaves the body nil where no storage was made.
  abbrev pub as_backend : Option B → Option (AnyBackend B)
  as_backend none = none
  as_backend (some b) = some (inl b)

  abbrev pub answer_peers : State → Outcome (AnyBackend B) (Unit {0}) → State × Option Reply
  answer_peers s (done r t) =
      let (w, ending) =
        respond o.ops config cache_hit peer_entry r [] (o.reading at_peers peer_entry) s.writer in
      settle_peers s peer_entry w ending
  answer_peers s (blocked r) = (s, some never)
  answer_peers s panicked = (s, some crashed)

  -- The branch for `h.Distributed != nil`, behind the construction of the storage.
  abbrev pub peers_with : State → Option B × Option Str → Option (State × Option Reply)
  peers_with s (b, some e) = some (s, some (http_error 500 (failed e)))
  peers_with s (b, none) = do
    t ← store s peer_entry
    some (answer_peers t ((set_body (as_backend b) >> close (any_ops o.ops)) new_response))

  unfoldable pub ask_peers : State → Option (State × Option Reply)
  ask_peers s = if distributed then peers_with s (new_storage peer_entry) else some (s, none)

  -- NewEntry in fetchUpstream.
  unfoldable pub fetched_entry : Entry
  fetched_entry =
      let f = o.fetch req in
      new_entry o.cc (o.address at_fetch) key req f.code f.header_map f.snap_header config
        (o.clock at_fetch)

  abbrev pub settle_miss : State → Writer → Ending → State × Reply
  settle_miss s w answered = (on_writer s w, served)
  settle_miss s w (fails f) = (on_writer s w, http_error fetched_entry.code f)
  settle_miss s w hangs = (on_writer s w, never)
  settle_miss s w crashes = (on_writer s w, crashed)

  -- respond with the fetched entry, before its body is set or after it.
  unfoldable pub answer_fetched : Str → State → State × Reply
  answer_fetched status s =
      let (w, ending) =
        respond o.ops config status fetched_entry new_response (o.fetch req).content
          (o.reading at_fetch fetched_entry) s.writer in
      settle_miss s w ending

  abbrev pub store_with : State → Option B × Option Str → Option (State × Reply)
  store_with s (b, some e) = some (s, http_error 500 (failed e))
  store_with s (b, none) = do t ← store s fetched_entry; some (answer_fetched cache_miss t)

  abbrev pub without_error : State → Option Str → Option (State × Reply)
  without_error s (some e) = some (s, http_error fetched_entry.code (failed e))
  without_error s none =
      if fetched_entry.is_public
      then store_with s (new_storage fetched_entry)
      else some (answer_fetched cache_skip s)

  -- The stale entry in place of an error of the upstream.
  abbrev pub serve_stale : State → Option (State × Option Reply)
  serve_stale s =
      if leb 500 fetched_entry.code
      then Caches.get s.cache key req true (o.clock at_stale)
        >>= (λ found. some (serve_cached at_stale s found))
      else some (s, none)

  -- From fetchUpstream to the end.
  unfoldable pub serve_upstream : State → Option (State × Reply)
  serve_upstream s = do
    (t, reply) ← serve_stale (record s { fetches = suc s.fetches })
    unless_ended t reply (λ u. without_error u (o.fetch req).error)

  abbrev pub bypassed : State → Writer × Option Str → State × Reply
  bypassed s (w, none) = (on_writer s w, served)
  bypassed s (w, some e) = (on_writer s w, upstream_error e)

  -- What follows the lock of the URL.
  unfoldable pub serve_locked : State → Option (State × Reply)
  serve_locked s = do
    found ← Caches.get s.cache key req false (o.clock at_lookup)
    let (t, reply) = serve_cached at_lookup s found
    unless_ended t reply (λ u. ask_peers u >>= λ (v, r). unless_ended v r serve_upstream)

  -- ServeHTTP; `none` is a panic of the cache.
  unfoldable pub serve_http : State → Option (State × Reply)
  serve_http s =
      if not (should_use_cache req config)
      then some (
          bypassed (record s { fetches = suc s.fetches })
            (o.direct req (add_status_header config cache_bypass s.writer)))
      else serve_locked s
