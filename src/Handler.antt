-- ===== src/Handler.antt =====
-- The middleware of handler.go: shouldUseCache and isWebSocket (response.go), respond and its
-- writers (handler.go, cache.go), and ServeHTTP for one request.
-- Parameters: the next handler, the replacer behind getKey, the package cachecontrol, the clock,
-- the construction of a storage backend, and what reading a stored body gives. The wait for the
-- lock of the URL and the log are left out. Of the goroutine of the upstream, what it does while
-- writePrivateResponse waits in WaitClose is here; all its schedules are in Response/Fetch.
pub mod Guard
pub mod Serve
pub mod Hit
pub mod Miss
pub mod Repeats
pub mod Leaks
pub mod Safety
pub mod Peers
pub mod Tests
use cdp_cache.Base.{
  ℕ, zero, suc, Bool, true, false, not, ◌&&◌, ◌||◌, Option, none, some, List, [], ◌∷◌, ◌==◌, ltb,
  ◌/◌, ◌%◌, ◌+◌, if◌then◌else◌, ◌⊎◌, inl, inr,
}
use cdp_cache.Base.Text.{Str, codes, str_eq, to_lower}
use cdp_cache.Header as Headers
use cdp_cache.Header.{Header, copy_headers}
use cdp_cache.Http.{Request, Writer, write_status, write_body}
use cdp_cache.Config.{Config}
use cdp_cache.Response.{
  BackendOps, Response, Outcome, done, blocked, panicked, M, ◌>>=◌, ◌>>◌, new_response, set_body,
  wait_body, wait_close, write_to_body, close,
}
use cdp_cache.Backend.{AnyBackend, any_ops}
use cdp_cache.Entry.{Entry}

abbrev pub cache_hit : Str
cache_hit = codes "hit"

abbrev pub cache_miss : Str
cache_miss = codes "miss"

abbrev pub cache_skip : Str
cache_skip = codes "skip"

abbrev pub cache_bypass : Str
cache_bypass = codes "bypass"

-- The loop over config.MatchMethods.
unfoldable pub match_method : List Str → Str → Bool
match_method [] method = false
match_method (m ∷ ms) method = str_eq m method || match_method ms method

-- The loop of isWebSocket over the values of Connection.
unfoldable pub any_upgrade : List Str → Bool
any_upgrade [] = false
any_upgrade (v ∷ vs) = str_eq (to_lower v) (codes "upgrade") || any_upgrade vs

-- isWebSocket
unfoldable pub is_web_socket : Header → Bool
unfolding any_upgrade
is_web_socket h =
    if not (str_eq (to_lower (Headers.get h (codes "Upgrade"))) (codes "websocket"))
    then false
    else any_upgrade (Headers.values h (codes "Connection"))

-- shouldUseCache
unfoldable pub should_use_cache : Request → Config → Bool
unfolding match_method is_web_socket
should_use_cache req config =
    if not (match_method config.match_methods req.method)
    then false
    else if not (str_eq (Headers.get req.header (codes "range")) [])
    then false
    else not (is_web_socket req.header)

-- addStatusHeaderIfConfigured
unfoldable pub add_status_header : Config → Str → Writer → Writer
add_status_header config status w =
    if str_eq config.status_header []
    then w
    else record w { header = Headers.set w.header config.status_header status }

-- The errors that ServeHTTP tells apart: NoPreCollectError and any other.
pub data Failure : Type 0 where
  no_pre_collect : Failure
  failed : Str → Failure

-- What GetReader of a response gives: the length of its body, what io.Copy copies and its error.
pub data Reading : Type 0 where
  opened : ℕ → Str → Option Str → Reading
  not_opened : Failure → Reading

-- How respond ends: without an error, with one, never, or in a panic.
pub data Ending : Type 0 where
  answered : Ending
  fails : Failure → Ending
  hangs : Ending
  crashes : Ending

-- strconv.Itoa for a length, with fuel for the digits.
unfoldable pub digits : ℕ → ℕ → Str → Str
digits zero n acc = acc
digits (suc fuel) n acc =
    let rest = digits fuel (n / 10) ((b'0' + n % 10) ∷ acc) in
    if ltb n 10 then (b'0' + n % 10) ∷ acc else rest

abbrev pub itoa : ℕ → Str
itoa n = digits (suc n) n []

-- The Content-Length of a stored body, where the header has none.
unfoldable pub with_content_length : ℕ → Header → Header
with_content_length length h =
    if not (str_eq (Headers.get h (codes "Content-Length")) [])
    then h
    else if str_eq (itoa length) (codes "0")
    then h
    else Headers.set h (codes "Content-Length") (itoa length)

abbrev ended : Option Str → Ending
ended none = answered
ended (some e) = fails (failed e)

-- writePublicResponse
unfoldable pub write_public_response : Entry → Reading → Writer → Writer × Ending
unfolding with_content_length
write_public_response e (not_opened f) w = (w, fails f)
write_public_response e (opened length content copy_error) w = (
  write_body (write_status (record w { header = with_content_length length w.header }) e.code)
      content,
  ended copy_error,
)

module _ {B Reader : Type 0} (ops : BackendOps B Reader) where
  -- The writer behind the wrapping backend, with what has been written through it by then.
  abbrev client : Writer → Option (AnyBackend B) → Writer
  client w (some (inr v)) = v
  client w (some (inl b)) = w
  client w none = w

  -- The upstream, blocked in Write or Close until a backend is set: its body, then Close.
  abbrev upstream : Str → M (AnyBackend B) (Unit {0})
  upstream content = wait_body >> (write_to_body (any_ops ops) content >>= λ _. close (any_ops ops))

  abbrev after_upstream : Writer → Outcome (AnyBackend B) (Unit {0}) → Writer × Ending
  after_upstream w (done r t) = (client w r.body, answered)
  after_upstream w (blocked r) = (client w r.body, hangs)
  after_upstream w panicked = (w, crashes)

  -- WaitClose: it returns at once, or the upstream goes on first.
  abbrev after_wait : Str → Writer → Outcome (AnyBackend B) (Unit {0}) → Writer × Ending
  after_wait content w (done r t) = (client w r.body, answered)
  after_wait content w (blocked r) = after_upstream w ((upstream content >> wait_close) r)
  after_wait content w panicked = (w, crashes)

  abbrev after_set_body : Str → Writer → Outcome (AnyBackend B) (Unit {0}) → Writer × Ending
  after_set_body content w (done r t) = after_wait content w (wait_close r)
  after_set_body content w (blocked r) = (w, hangs)
  after_set_body content w panicked = (w, crashes)

  -- writePrivateResponse, where the upstream goes on to write the content.
  unfoldable pub write_private_response :
      Entry → Response (AnyBackend B) → Str → Writer → Writer × Ending
  write_private_response e r content w =
      let v = write_status w e.code in after_set_body content v (set_body (some (inr v)) r)

  -- WriteBodyTo
  unfoldable pub write_body_to :
      Entry → Response (AnyBackend B) → Str → Reading → Writer → Writer × Ending
  unfolding write_public_response write_private_response
  write_body_to e r content reading w =
      if not e.is_public
      then write_private_response e r content w
      else write_public_response e reading w

  -- respond
  unfoldable pub respond :
      Config → Str → Entry → Response (AnyBackend B) → Str → Reading → Writer → Writer × Ending
  unfolding add_status_header write_body_to
  respond config status e r content reading w =
      let v = add_status_header config status w in
      let u : Writer = record v { header = copy_headers e.snap_header v.header } in
      if str_eq e.request.method (codes "HEAD")
      then (write_status u e.code, answered)
      else write_body_to e r content reading u
