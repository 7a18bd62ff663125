-- ===== src/Response/Fetch/Silent.antt =====
-- fetchUpstream of handler.go where the upstream returns without writing a header.
use cdp_cache.Base.{
  ◌≡◌, ◌≢◌, refl, ◌⊎◌, inl, inr, Bool, true, false, none, some, List, [], ◌∷◌, arith, Option-cases,
  subst,
}
use cdp_cache.Base.Text.{Str}
use cdp_cache.Response.{
  BackendOps, Response, set_header, wait_headers, wait_body, close, finish_close,
}
use cdp_cache.Response.Fetch.{
  Action, sets, writes_header, writes, flushes, Upstream, acting, in_write, in_close, finished,
  Plan, Handler, waiting, fetched, attached, answered, Sys, act, upstream_step, answer,
  handler_step, run, start, IsSilent, or_same,
}

abbrev Quiet : Upstream → Type 0
Quiet (acting todo) = IsSilent todo
Quiet (in_write buf todo) = ⊥
Quiet in_close = Unit
Quiet finished = ⊥

-- The handler waits for the headers, and the upstream can at most wait for the body.
pub record IsStuck {B : Type 0} (r : Response B) (u : Upstream) (h : Handler) : Type 0 where
  pub waits : h ≡ waiting
  pub no_header : r.headers_chan ≡ 0
  pub no_body : r.body ≡ none
  pub no_token : r.body_chan ≡ 0
  pub quiet : Quiet u

module _ {B Reader : Type 0} (ops : BackendOps B Reader) (detect : Str → Str) (plan : Plan)
    (storage : B) where
  act-IsStuck :
      (r : Response B) (h : Handler) (u : Upstream) (t : Sys B)
      → IsStuck r u h
      → act ops detect plan storage r h u ≡ some t
      → IsStuck t.resp t.up t.handler
  unfolding act close wait_body finish_close set_header
  act-IsStuck r h (acting []) t v e = ground arith
  act-IsStuck r h (acting (sets k w ∷ todo)) t v e = ground arith
  act-IsStuck r h (acting (writes_header code ∷ todo)) t v e = absurd v.quiet
  act-IsStuck r h (acting (writes buf ∷ todo)) t v e = absurd v.quiet
  act-IsStuck r h (acting (flushes ∷ todo)) t v e = absurd v.quiet
  act-IsStuck r h (in_write buf todo) t v e = absurd v.quiet
  act-IsStuck r h in_close t v e = ground arith
  act-IsStuck r h finished t v e = absurd v.quiet

  answer-stuck :
      (p : Plan) (r : Response B) (u : Upstream) (h : Handler)
      → IsStuck r u h
      → answer ops detect plan storage p r u h ≡ none
  unfolding answer wait_headers
  answer-stuck p r u waiting v = ground arith
  answer-stuck p r u fetched v = absurd (ground arith)
  answer-stuck p r u attached v = absurd (ground arith)
  answer-stuck p r u answered v = absurd (ground arith)

  run-IsStuck :
      (bs : List Bool) (s : Sys B)
      → IsStuck s.resp s.up s.handler
      → IsStuck
          (run ops detect plan storage bs s).resp
          (run ops detect plan storage bs s).up
          (run ops detect plan storage bs s).handler
  unfolding run
  run-IsStuck [] s v = v
  run-IsStuck (true ∷ bs) s v =
      run-IsStuck bs (or_same s (upstream_step ops detect plan storage s))
        (moves (Option-cases (upstream_step ops detect plan storage s)))
    where
      moves :
          (upstream_step ops detect plan storage s ≡ none)
            ⊎ ((t : Sys B) × (upstream_step ops detect plan storage s ≡ some t))
          → IsStuck
              (or_same s (upstream_step ops detect plan storage s)).resp
              (or_same s (upstream_step ops detect plan storage s)).up
              (or_same s (upstream_step ops detect plan storage s)).handler
      moves (inl n) = rw n v
      moves (inr (t, e)) = rw e (act-IsStuck s.resp s.handler s.up t v (unfold upstream_step in e))
  run-IsStuck (false ∷ bs) s v =
      run-IsStuck bs (or_same s (handler_step ops detect plan storage s)) (
        let still : handler_step ops detect plan storage s ≡ none =
          unfold handler_step in answer-stuck plan s.resp s.up s.handler v in
        rw still v)

  -- If the upstream returns, with an error or without one, and has neither written a header nor a
  -- body nor flushed, then under every schedule the handler stays in WaitHeaders and the goroutine
  -- of the upstream never ends: the request is never answered.
  pub silent_upstream_deadlocks :
      (todo : List Action) (bs : List Bool)
      → IsSilent todo
      → ((run ops detect plan storage bs (start ops detect plan storage todo)).handler ≡ waiting)
        × ((run ops detect plan storage bs (start ops detect plan storage todo)).up ≢ finished)
  unfolding start
  silent_upstream_deadlocks todo bs q =
      let v =
        run-IsStuck bs (start ops detect plan storage todo)
          (record { waits = refl; no_header = refl; no_body = refl; no_token = refl; quiet = q }) in
      (v.waits, λ e. subst Quiet e v.quiet)
