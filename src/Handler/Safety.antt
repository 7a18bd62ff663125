-- ===== src/Handler/Safety.antt =====
-- What ServeHTTP keeps, whatever the request, the configuration and the outside are.
pub mod Parts
use cdp_cache.Base.{
  ℕ, suc, ◌≡◌, refl, ap, ◌⊎◌, inl, inr, Bool, true, false, Option, none, some, leb, Bool-cases,
  if◌then◌else◌, ◌++◌, List, [], ◌∷◌, All,
}
use cdp_cache.Base.Text.{Str}
use cdp_cache.Http.{Request, Writer}
use cdp_cache.Config.{Config}
use cdp_cache.Entry.{Entry, new_entry}
use cdp_cache.Store.Invariant.{IsValid, put-IsValid, get-IsValid}
use cdp_cache.Store.Puts.{put_all, put_all-snoc, All-snoc}
use cdp_cache.Response.{Outcome, done, blocked, panicked, ◌>>◌, new_response, set_body, close}
use cdp_cache.Handler.{
  Ending, answered, fails, hangs, no_pre_collect, failed, should_use_cache, cache_miss, cache_skip,
  add_status_header, cache_bypass,
}
use cdp_cache.Handler.Serve.{
  World, Moment, State, Reply, settle_miss, answer_peers, without_error, store_with, settle,
  settle_peers, serve_cached, peer_entry, new_storage, fetched_entry, store, ask_peers,
  answer_fetched, serve_stale, serve_upstream, serve_locked, bypassed, ◌>>=◌, serve_http,
  peers_with, unless_ended, key, at_stale, at_lookup,
}
use cdp_cache.Handler.Safety.Parts.{
  either_way, Fine, Ends, ends, serve_cached-Fine, store-Fine, fetched_entry-key, ask_peers-Fine,
  answer_fetched-Fine,
}

module _ {B Reader : Type 0} (o : World B Reader) (config : Config) (distributed : Bool)
    (req : Request) (start : State) where
  store_with-Ends :
      (n : ℕ) (s : State) (b : Option B × Option Str)
      → Fine o config distributed req start n s
      → Ends o config distributed req start n (store_with o config distributed req s b)
  store_with-Ends n s (b, some e) f = (s, _, refl, f)
  store_with-Ends n s (b, none) f =
      let (t, p, g) =
        store-Fine o config distributed req start n s (fetched_entry o config distributed req)
          (fetched_entry-key o config distributed req start) f in
      ends o config distributed req start n (answer_fetched o config distributed req cache_miss t)
        (rw p refl) (answer_fetched-Fine o config distributed req start n cache_miss t g)

  without_error-Ends :
      (n : ℕ) (s : State) (e : Option Str)
      → Fine o config distributed req start n s
      → Ends o config distributed req start n (without_error o config distributed req s e)
  without_error-Ends n s (some e) f = (s, _, refl, f)
  without_error-Ends n s none f =
      let e = fetched_entry o config distributed req in
      either_way (Ends o config distributed req start n) e.is_public
        (store_with-Ends n s (new_storage o config distributed req e) f)
        (ends o config distributed req start n
          (answer_fetched o config distributed req cache_skip s) refl
          (answer_fetched-Fine o config distributed req start n cache_skip s f))

  unless_ended-Ends :
      (n : ℕ) (s : State) (r : Option Reply) (next : State → Option (State × Reply))
      → Fine o config distributed req start n s
      → ((t : State)
          → Fine o config distributed req start n t
          → Ends o config distributed req start n (next t))
      → Ends o config distributed req start n (unless_ended s r next)
  unless_ended-Ends n s none next f go = go s f
  unless_ended-Ends n s (some r) next f go = (s, r, refl, f)

  serve_stale-Fine :
      (n : ℕ) (s : State)
      → Fine o config distributed req start n s
      → Ends o config distributed req start n (serve_stale o config distributed req s)
  serve_stale-Fine n s f =
      let (x, q) =
        get-IsValid s.cache (key o config distributed req) req true (o.clock at_stale) f.valid in
      either_way (Ends o config distributed req start n)
        (leb 500 (fetched_entry o config distributed req).code)
        (ends o config distributed req start n (serve_cached o config distributed req at_stale s x)
          (rw q refl) (serve_cached-Fine o config distributed req start n at_stale s x f))
        (s, none, refl, f)

  serve_upstream-Ends :
      (n : ℕ) (s : State)
      → Fine o config distributed req start n s
      → Ends o config distributed req start (suc n) (serve_upstream o config distributed req s)
  unfolding serve_upstream
  serve_upstream-Ends n s f =
      let (t, r, p, g) =
        serve_stale-Fine (suc n) (record s { fetches = suc s.fetches })
          (record { valid = f.valid; asked = ap suc f.asked; stored = f.stored }) in
      rw p (
        unless_ended-Ends (suc n) t r _ g
          (λ u h. without_error-Ends (suc n) u (o.fetch req).error h))

  -- The upstream was asked so many times, or once more.
  abbrev pub EndsWithin : ℕ → Option (State × Reply) → Type 0
  EndsWithin n x =
      Ends o config distributed req start n x ⊎ Ends o config distributed req start (suc n) x

  unless_ended-EndsWithin :
      (n : ℕ) (s : State) (r : Option Reply) (next : State → Option (State × Reply))
      → Fine o config distributed req start n s
      → ((t : State) → Fine o config distributed req start n t → EndsWithin n (next t))
      → EndsWithin n (unless_ended s r next)
  unless_ended-EndsWithin n s none next f go = go s f
  unless_ended-EndsWithin n s (some r) next f go = inl (s, r, refl, f)

  after_lookup-EndsWithin :
      (n : ℕ) (s : State)
      → Fine o config distributed req start n s
      → EndsWithin n (
          ask_peers o config distributed req s >>= λ (t, r).
          unless_ended t r (serve_upstream o config distributed req))
  after_lookup-EndsWithin n s f =
      let (t, r, p, g) = ask_peers-Fine o config distributed req start n s f in
      rw p (unless_ended-EndsWithin n t r _ g (λ u h. inr (serve_upstream-Ends n u h)))

  serve_locked-EndsWithin :
      (n : ℕ) (s : State)
      → Fine o config distributed req start n s
      → EndsWithin n (serve_locked o config distributed req s)
  unfolding serve_locked
  serve_locked-EndsWithin n s f =
      let (x, q) =
        get-IsValid s.cache (key o config distributed req) req false (o.clock at_lookup) f.valid in
      rw q (
        unless_ended-EndsWithin n _ _ _
          (serve_cached-Fine o config distributed req start n at_lookup s x f)
          (λ u g. after_lookup-EndsWithin n u g))

  bypassed-Fine :
      (n : ℕ) (s : State) (x : Writer × Option Str)
      → Fine o config distributed req start n s
      → Fine o config distributed req start n (bypassed o config distributed req s x).0
  bypassed-Fine n s (w, none) f = record { valid = f.valid; asked = f.asked; stored = f.stored }
  bypassed-Fine n s (w, some e) f = record { valid = f.valid; asked = f.asked; stored = f.stored }

  -- Whatever the request, the upstream, the peers and the storage do: from a valid cache, ServeHTTP
  -- never indexes out of range, leaves a valid cache, asks the upstream at most once, and changes the
  -- cache and the goroutines that wait only by Puts of entries under the key of the request.
  pub serve_http-EndsWithin :
      IsValid start.cache → EndsWithin start.fetches (serve_http o config distributed req start)
  unfolding serve_http
  serve_http-EndsWithin v = elim (Bool-cases (should_use_cache req config)) [
    | inl p ↦ rw p (
        serve_locked-EndsWithin start.fetches start
          (record { valid = v; asked = refl; stored = ([], (unfold put_all in refl), tt) }))
    | inr p ↦ rw p (
        inr (
          ends o config distributed req start (suc start.fetches)
            (bypassed o config distributed req (record start { fetches = suc start.fetches })
              (o.direct req (add_status_header config cache_bypass start.writer)))
            refl
            (bypassed-Fine (suc start.fetches) (record start { fetches = suc start.fetches }) _
              (record { valid = v; asked = refl; stored = ([], (unfold put_all in refl), tt) }))))
  ]
