-- ===== src/Handler/Miss.antt =====
-- ServeHTTP where the cache holds no answer.
use cdp_cache.Base.{
  suc, ◌≡◌, ◌≢◌, refl, ap, ◌∙◌, Bool, true, false, Option, none, some, List, ◌++◌, leb,
}
use cdp_cache.Base.Text.{Str, codes, str_eq_of_ne}
use cdp_cache.Http.{Request, Writer}
use cdp_cache.Config.{Config}
use cdp_cache.Status.{Clock}
use cdp_cache.Entry.{Entry, new_entry}
use cdp_cache.Store as Caches
use cdp_cache.Store.{HttpCache, Task, put}
use cdp_cache.Store.Place.{StaysFresh}
use cdp_cache.Store.Lookup.{get-put}
use cdp_cache.Store.Invariant.{IsValid, put-IsValid}
use cdp_cache.Response.{
  new_response, set_body, wait_close, wait_body, write_to_body, close, finish_close,
}
use cdp_cache.Backend.{base_ops, any_ops}
use cdp_cache.Handler.{
  Ending, answered, fails, hangs, crashes, should_use_cache, respond, write_body_to,
  write_private_response, cache_miss, cache_skip,
}
use cdp_cache.Handler.Serve.{
  World, at_lookup, State, Reply, served, key, fetched_entry, new_storage, store, serve_cached,
  answer_fetched, ask_peers, serve_upstream, serve_locked, serve_http, at_fetch, settle_miss,
}
use cdp_cache.Handler.Hit.{Delivered, add_status_header-status}

module _ {B Reader : Type 0} (o : World B Reader) (config : Config) (req : Request) where
  -- The cache may be used and has nothing, and the upstream answers below 500 without an error.
  pub record Misses (s : State) : Type 0 where
    pub allowed : should_use_cache req config ≡ true
    pub not_found :
        Caches.get s.cache (key o config false req) req false (o.clock at_lookup) ≡ some none
    pub no_failure : leb 500 (fetched_entry o config false req).code ≡ false
    pub no_error : (o.fetch req).error ≡ none

  unstored :
      (s : State)
      → Misses s
      → (fetched_entry o config false req).is_public ≡ false
      → serve_http o config false req s
        ≡ some (answer_fetched o config false req cache_skip (record s { fetches = suc s.fetches }))
  unfolding serve_http serve_locked serve_cached ask_peers serve_upstream
  unstored s m p = rw (m.allowed, m.not_found, m.no_failure, m.no_error, p) refl

  abbrev passed : Entry → Writer → Writer × Ending
  passed e w =
      respond o.ops config cache_skip e new_response (o.fetch req).content (o.reading at_fetch e) w

  passed-Delivered :
      (e : Entry) (w : Writer)
      → e.is_public ≡ false
      → e.request.method ≢ codes "HEAD"
      → w.status ≡ none
      → ((passed e w).1 ≡ answered)
        × Delivered o config false req e (o.fetch req).content w (passed e w).0
  unfolding respond write_body_to write_private_response set_body wait_close wait_body write_to_body
      close finish_close any_ops base_ops new_response
  passed-Delivered e w p n f =
      let (a, b) = add_status_header-status o config false req cache_skip w in
      rw (str_eq_of_ne n, p) (refl, record { status = rw (a, f) refl; body = rw b refl })

  pub fetched_entry-fields :
      ((fetched_entry o config false req).request ≡ req)
      × ((fetched_entry o config false req).key ≡ key o config false req)
      × ((fetched_entry o config false req).code ≡ (o.fetch req).code)
  unfolding fetched_entry new_entry
  fetched_entry-fields = (refl, refl, refl)

  -- Without the distributed cache, if the cache may be used and has nothing, and the upstream
  -- answers a request other than HEAD below 500, without an error and with a response that is not
  -- public, then the client, to whom no status has been sent yet, gets its status and its body; the
  -- upstream is asked once, and the cache and the tasks stay.
  pub private_passes :
      (s : State)
      → Misses s
      → (fetched_entry o config false req).is_public ≡ false
      → req.method ≢ codes "HEAD"
      → s.writer.status ≡ none
      → (v : Writer) × (serve_http o config false req s
          ≡ some (record s { fetches = suc s.fetches; writer = v }, served))
        × (v.status ≡ some (o.fetch req).code)
        × (v.body ≡ s.writer.body ++ (o.fetch req).content)
  unfolding answer_fetched
  private_passes s m p n f =
      let (same, k, c) = fetched_entry-fields in
      let e = fetched_entry o config false req in
      let (a, d) = passed-Delivered e s.writer p (rw same n) f in
      ((passed e s.writer).0, unstored s m p ∙ rw a refl, d.status ∙ ap some c, d.body)

  stored :
      (s : State) (b : Option B)
      → Misses s
      → IsValid s.cache
      → (fetched_entry o config false req).is_public ≡ true
      → new_storage o config false req (fetched_entry o config false req) ≡ (b, none)
      → (h : HttpCache) × (ts : List Task) × (put s.cache (fetched_entry o config false req) config
          ≡ some (h, ts))
        × (serve_http o config false req s
            ≡ some (
                answer_fetched o config false req cache_miss
                  (record s { cache = h; tasks = s.tasks ++ ts; fetches = suc s.fetches })))
  unfolding serve_http serve_locked serve_cached ask_peers serve_upstream store
  stored s b m v p q =
      let (h, ts, e, w) = put-IsValid s.cache (fetched_entry o config false req) config v in
      (h, ts, e, rw (m.allowed, m.not_found, m.no_failure, m.no_error, q, e, p) refl)

  settle_miss-keeps :
      (s : State) (w : Writer) (d : Ending)
      → ((settle_miss o config false req s w d).0.cache ≡ s.cache)
        × ((settle_miss o config false req s w d).0.fetches ≡ s.fetches)
  settle_miss-keeps s w answered = (refl, refl)
  settle_miss-keeps s w (fails f) = (refl, refl)
  settle_miss-keeps s w hangs = (refl, refl)
  settle_miss-keeps s w crashes = (refl, refl)

  answer_fetched-keeps :
      (status : Str) (s : State)
      → ((answer_fetched o config false req status s).0.cache ≡ s.cache)
        × ((answer_fetched o config false req status s).0.fetches ≡ s.fetches)
  unfolding answer_fetched
  answer_fetched-keeps status s = settle_miss-keeps s _ _

  -- A miss whose response is stored: one fetch, and what Get finds from then on.
  pub miss_then_holds :
      (s : State) (b : Option B)
      → Misses s
      → IsValid s.cache
      → (fetched_entry o config false req).is_public ≡ true
      → new_storage o config false req (fetched_entry o config false req) ≡ (b, none)
      → (t : State) × (r : Reply) × (serve_http o config false req s ≡ some (t, r))
        × (t.fetches ≡ suc s.fetches)
        × ((stale : Bool) (clock : Clock)
            → StaysFresh (fetched_entry o config false req) clock
            → Caches.get t.cache (key o config false req) req stale clock
              ≡ some (some (fetched_entry o config false req)))
  unfolding fetched_entry new_entry
  miss_then_holds s b m v p q =
      let (h, ts, e, ends) = stored s b m v p q in
      let middle : State = record s { cache = h; tasks = s.tasks ++ ts; fetches = suc s.fetches } in
      let x = answer_fetched o config false req cache_miss middle in
      let (kept, asked) = answer_fetched-keeps cache_miss middle in
      (x.0, x.1, ends, asked, λ stale clock f. rw kept (found stale clock h ts f e))
    where
      fetched : Entry
      fetched = fetched_entry o config false req

      found :
          (stale : Bool) (clock : Clock) (h : HttpCache) (ts : List Task)
          → StaysFresh fetched clock
          → put s.cache fetched config ≡ some (h, ts)
          → Caches.get h fetched.key fetched.request stale clock ≡ some (some fetched)
      found stale clock h ts f e = get-put s.cache fetched config stale clock e f

  -- Without the distributed cache, if the cache is valid, may be used and has nothing, and the
  -- upstream answers below 500, without an error and with a public response whose storage can be
  -- made, then ServeHTTP, however the answer to the client ends, asks the upstream once and leaves a
  -- cache in which Get finds the new entry for the same request, as long as it is fresh.
  pub miss_then_found :
      (s : State) (b : Option B) (stale : Bool) (clock : Clock)
      → Misses s
      → IsValid s.cache
      → (fetched_entry o config false req).is_public ≡ true
      → new_storage o config false req (fetched_entry o config false req) ≡ (b, none)
      → StaysFresh (fetched_entry o config false req) clock
      → (t : State) × (r : Reply) × (serve_http o config false req s ≡ some (t, r))
        × (t.fetches ≡ suc s.fetches)
        × (Caches.get t.cache (key o config false req) req stale clock
            ≡ some (some (fetched_entry o config false req)))
  miss_then_found s b stale clock m v p q f =
      let (t, r, ends, asked, found) = miss_then_holds s b m v p q in
      (t, r, ends, asked, found stale clock f)
