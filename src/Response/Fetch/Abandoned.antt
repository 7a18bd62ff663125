-- ===== src/Response/Fetch/Abandoned.antt =====
-- fetchUpstream of handler.go where ServeHTTP answers and gives the response no storage.
use cdp_cache.Base.{
  ◌≡◌, ◌≢◌, refl, Bool, true, false, Option, none, some, List, [], ◌∷◌, arith, subst,
}
use cdp_cache.Base.Text.{Str}
use cdp_cache.Response.{
  BackendOps, Response, set_header, write_header, write_implicit_header, wait_headers, wait_body,
  write_to_body, write, flush, close, finish_close,
}
use cdp_cache.Response.Fetch.{
  Action, sets, writes_header, writes, flushes, Upstream, acting, in_write, in_close, finished,
  Plan, public_body, public_head, private_body, private_head, given_up, no_storage, Handler,
  waiting, fetched, attached, answered, Sys, act, upstream_step, answer, handler_step, run, start,
  or_same,
}
use cdp_cache.Response.Fetch.Good.{Unfinished}

-- The handler answers without a call of SetBody.
abbrev pub Abandons : Plan → Type 0
Abandons public_body = ⊥
Abandons public_head = ⊥
Abandons private_body = ⊥
Abandons private_head = Unit
Abandons given_up = Unit
Abandons no_storage = ⊥

abbrev Unattached : Handler → Type 0
Unattached waiting = Unit
Unattached fetched = Unit
Unattached attached = ⊥
Unattached answered = Unit

-- No storage has come, and the goroutine of the upstream is not at its end.
pub record IsLeft {B : Type 0} (r : Response B) (u : Upstream) (h : Handler) : Type 0 where
  pub no_body : r.body ≡ none
  pub no_token : r.body_chan ≡ 0
  pub unfinished : Unfinished u
  pub unattached : Unattached h

module _ {B Reader : Type 0} (ops : BackendOps B Reader) (detect : Str → Str) (plan : Plan)
    (storage : B) where
  act-IsLeft :
      (r : Response B) (h : Handler) (u : Upstream) (t : Sys B)
      → IsLeft r u h
      → act ops detect plan storage r h u ≡ some t
      → IsLeft t.resp t.up t.handler
  unfolding act close wait_body finish_close set_header write_header write_implicit_header write
      flush write_to_body
  act-IsLeft r h (acting []) t v e = ground arith
  act-IsLeft r h (acting (sets k w ∷ todo)) t v e = ground arith
  act-IsLeft r h (acting (writes_header code ∷ todo)) t v e = ground arith
  act-IsLeft r h (acting (writes buf ∷ todo)) t v e = ground arith
  act-IsLeft r h (acting (flushes ∷ todo)) t v e = ground arith
  act-IsLeft r h (in_write buf todo) t v e = ground arith
  act-IsLeft r h in_close t v e = ground arith
  act-IsLeft r h finished t v e = absurd v.unfinished

  answer-IsLeft :
      (p : Plan) (r : Response B) (u : Upstream) (h : Handler) (t : Sys B)
      → Abandons p
      → IsLeft r u h
      → answer ops detect plan storage p r u h ≡ some t
      → IsLeft t.resp t.up t.handler
  unfolding answer wait_headers
  answer-IsLeft p r u waiting t a v e = ground arith
  answer-IsLeft private_head r u fetched t a v e = ground arith
  answer-IsLeft given_up r u fetched t a v e = ground arith
  answer-IsLeft public_body r u fetched t a v e = absurd a
  answer-IsLeft public_head r u fetched t a v e = absurd a
  answer-IsLeft private_body r u fetched t a v e = absurd a
  answer-IsLeft no_storage r u fetched t a v e = absurd a
  answer-IsLeft p r u attached t a v e = absurd v.unattached
  answer-IsLeft p r u answered t a v e = absurd (ground arith)

  same-IsLeft :
      (s : Sys B) (o : Option (Sys B))
      → IsLeft s.resp s.up s.handler
      → ((t : Sys B) → o ≡ some t → IsLeft t.resp t.up t.handler)
      → let t = or_same s o in IsLeft t.resp t.up t.handler
  same-IsLeft s none v f = v
  same-IsLeft s (some t) v f = f t refl

  run-IsLeft :
      (bs : List Bool) (s : Sys B)
      → Abandons plan
      → IsLeft s.resp s.up s.handler
      → let t = run ops detect plan storage bs s in IsLeft t.resp t.up t.handler
  unfolding run
  run-IsLeft [] s a v = v
  run-IsLeft (true ∷ bs) s a v =
      run-IsLeft bs (or_same s (upstream_step ops detect plan storage s)) a (
        same-IsLeft s (upstream_step ops detect plan storage s) v
          (λ t e. act-IsLeft s.resp s.handler s.up t v (unfold upstream_step in e)))
  run-IsLeft (false ∷ bs) s a v =
      run-IsLeft bs (or_same s (handler_step ops detect plan storage s)) a (
        same-IsLeft s (handler_step ops detect plan storage s) v
          (λ t e. answer-IsLeft plan s.resp s.up s.handler t a v (unfold handler_step in e)))

  -- If the handler answers without a call of SetBody, as for a HEAD request whose response is not
  -- public, and where a stale entry or the error of the upstream is the answer, then under every
  -- schedule, whatever the upstream writes, its goroutine never ends.
  pub upstream_is_left :
      (todo : List Action) (bs : List Bool)
      → Abandons plan
      → (run ops detect plan storage bs (start ops detect plan storage todo)).up ≢ finished
  unfolding start
  upstream_is_left todo bs a e =
      let v =
        run-IsLeft bs (start ops detect plan storage todo) a
          (record { no_body = refl; no_token = refl; unfinished = tt; unattached = tt }) in
      subst Unfinished e v.unfinished
