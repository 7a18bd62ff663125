-- ===== src/Handler/Hit.antt =====
-- ServeHTTP where the cache holds an answer.
use cdp_cache.Base.{ℕ, suc, ◌≡◌, ◌≢◌, refl, Bool, true, false, none, some, [], ◌++◌, leb, arith}
use cdp_cache.Base.Text.{Str, codes, str_eq_of_ne}
use cdp_cache.Http.{Request, Writer}
use cdp_cache.Config.{Config}
use cdp_cache.Entry.{Entry}
use cdp_cache.Store as Caches
use cdp_cache.Response.{new_response}
use cdp_cache.Handler.{
  Ending, opened, answered, should_use_cache, respond, add_status_header, write_body_to,
  write_public_response, cache_hit,
}
use cdp_cache.Handler.Serve.{
  World, Moment, at_lookup, at_stale, State, served, key, fetched_entry, serve_cached,
  serve_upstream, serve_locked, serve_http,
}

module _ {B Reader : Type 0} (o : World B Reader) (config : Config) (distributed : Bool)
    (req : Request) where
  -- The client's writer after the answer, by the entry and what its body reads as: the status of
  -- the entry is sent unless one was sent before, and the body is appended, except for HEAD.
  pub record Delivered (e : Entry) (content : Str) (w v : Writer) : Type 0 where
    pub status : v.status ≡ some e.code
    pub body : v.body ≡ w.body ++ content

  abbrev sent : Str → Moment → Entry → Writer → Writer × Ending
  sent status m e w = respond o.ops config status e new_response [] (o.reading m e) w

  pub add_status_header-status :
      (text : Str) (w : Writer)
      → ((add_status_header config text w).status ≡ w.status)
        × ((add_status_header config text w).body ≡ w.body)
  unfolding add_status_header
  add_status_header-status text w = ground arith

  pub sent-Delivered :
      (text : Str) (e : Entry) (m : Moment) (w : Writer) (length : ℕ) (content : Str)
      → e.is_public ≡ true
      → e.request.method ≢ codes "HEAD"
      → w.status ≡ none
      → o.reading m e ≡ opened length content none
      → ((sent text m e w).1 ≡ answered) × Delivered e content w (sent text m e w).0
  unfolding respond write_body_to write_public_response
  sent-Delivered text e m w length content p n f r =
      let (a, b) = add_status_header-status text w in
      rw (str_eq_of_ne n, r, p) (refl, record { status = rw (a, f) refl; body = rw b refl })

  -- If the cache may be used, Get finds a public entry that is not the answer to a HEAD request,
  -- its body can be read, and no status has been sent yet, then ServeHTTP ends without an error:
  -- the client gets the status of the entry and its body, the upstream is not asked, and the cache
  -- and the tasks stay.
  pub hit_served :
      (s : State) (e : Entry) (length : ℕ) (content : Str)
      → should_use_cache req config ≡ true
      → Caches.get s.cache (key o config distributed req) req false (o.clock at_lookup)
        ≡ some (some e)
      → e.is_public ≡ true
      → e.request.method ≢ codes "HEAD"
      → s.writer.status ≡ none
      → o.reading at_lookup e ≡ opened length content none
      → (v : Writer) × (serve_http o config distributed req s
          ≡ some (record s { writer = v }, served))
        × Delivered e content s.writer v
  unfolding serve_http serve_locked serve_cached
  hit_served s e length content uses found p n f r =
      let (a, d) = sent-Delivered cache_hit e at_lookup s.writer length content p n f r in
      ((sent cache_hit at_lookup e s.writer).0, rw (uses, found, a, p) refl, d)

  -- From the fetch on: if the upstream answers with 500 or more, Get with stale entries finds a
  -- public entry that is not the answer to a HEAD request, its body can be read, and no status has
  -- been sent yet, then the client gets the status and the body of that entry instead, without an
  -- error, and the cache and the tasks stay.
  pub stale_served :
      (s : State) (e : Entry) (length : ℕ) (content : Str)
      → leb 500 (fetched_entry o config distributed req).code ≡ true
      → Caches.get s.cache (key o config distributed req) req true (o.clock at_stale)
        ≡ some (some e)
      → e.is_public ≡ true
      → e.request.method ≢ codes "HEAD"
      → s.writer.status ≡ none
      → o.reading at_stale e ≡ opened length content none
      → (v : Writer) × (serve_upstream o config distributed req s
          ≡ some (record s { fetches = suc s.fetches; writer = v }, served))
        × Delivered e content s.writer v
  unfolding serve_upstream serve_cached
  stale_served s e length content bad found p n f r =
      let (a, d) = sent-Delivered cache_hit e at_stale s.writer length content p n f r in
      ((sent cache_hit at_stale e s.writer).0, rw (bad, found, a, p) refl, d)
