-- ===== src/Response/Fetch/Progress.antt =====
-- fetchUpstream of handler.go where the upstream writes a header: nobody waits for ever.
use cdp_cache.Base.{
  ◌≡◌, refl, ◌⊎◌, inl, inr, Bool, true, false, Option, none, some, List, [], ◌∷◌, arith, subst, sym,
}
use cdp_cache.Base.Text.{Str}
use cdp_cache.Response.{
  BackendOps, Response, write_header, set_body, wait_headers, wait_close, wait_body, write_to_body,
  flush, close, finish_close, get_reader,
}
use cdp_cache.Response.Fetch.{
  Action, sets, writes_header, writes, flushes, Upstream, acting, in_write, in_close, finished,
  Plan, public_body, public_head, private_body, private_head, given_up, no_storage, Handler,
  waiting, fetched, attached, answered, Sys, act, upstream_step, answer, handler_step, run, start,
  WillWrite, or_same,
}
use cdp_cache.Response.Fetch.Good.{
  is_set, Served, Good, implicit_header-Headed, writes-act, act-Good, Stores, answer-Good, moves,
}

module _ {B Reader : Type 0} (ops : BackendOps B Reader) (detect : Str → Str) (plan : Plan)
    (storage : B) where
  -- Before the handler has the headers or the storage is set, it can move, or the upstream can.
  early-moves :
      (r : Response B) (u : Upstream)
      → Good r u waiting
      → (r.headers_chan ≡ 1) ⊎ (moves (act ops detect plan storage r waiting u) ≡ true)
  unfolding act write_header flush
  early-moves r (acting []) v = inl (ground arith)
  early-moves r (acting (sets k w ∷ todo)) v = inr refl
  early-moves r (acting (writes_header code ∷ todo)) v = ground arith
  early-moves r (acting (writes buf ∷ todo)) v =
      let (s, d, k) = implicit_header-Headed ops detect plan storage buf r (ground arith) in
      inr (
        unfold wait_body write_to_body in
        ground (arith, writes-act ops detect plan storage r buf todo waiting s d k.wrote, k))
  early-moves r (acting (flushes ∷ todo)) v = ground arith
  early-moves r (in_write buf todo) v = inl (ground arith)
  early-moves r in_close v = inl (ground arith)
  early-moves r finished v = absurd (ground arith)

  -- With the storage set the upstream can move until it is finished.
  late-moves :
      (r : Response B) (u : Upstream) (h : Handler) (w : Bool)
      → is_set r.body ≡ true
      → r.wrote_header ≡ true
      → Served r u w
      → (u ≡ finished) ⊎ (moves (act ops detect plan storage r h u) ≡ true)
  unfolding act close wait_body finish_close write_header flush write_to_body
  late-moves r (acting []) h w b o v = inr (ground arith)
  late-moves r (acting (sets k x ∷ todo)) h w b o v = inr refl
  late-moves r (acting (writes_header code ∷ todo)) h w b o v = inr (ground arith)
  late-moves r (acting (writes buf ∷ todo)) h w b o v =
      let (s, d, k) = implicit_header-Headed ops detect plan storage buf r (inl o) in
      inr (ground (arith, writes-act ops detect plan storage r buf todo h s d k.wrote, k))
  late-moves r (acting (flushes ∷ todo)) h w b o v = inr (ground arith)
  late-moves r (in_write buf todo) h w b o v = inr (ground arith)
  late-moves r in_close h w b o v = inr (ground arith)
  late-moves r finished h w b o v = inl refl

  abbrev pub CanMove : Response B → Upstream → Handler → Type 0
  CanMove r u h =
      (moves (act ops detect plan storage r h u) ≡ true)
      ⊎ (moves (answer ops detect plan storage plan r u h) ≡ true)

  answer-moves :
      (p : Plan) (r : Response B)
      → Stores p
      → is_set r.body ≡ true
      → Served r finished true
      → moves (answer ops detect plan storage p r finished attached) ≡ true
  unfolding answer get_reader wait_close
  answer-moves public_body r st b v = ground arith
  answer-moves public_head r st b v = refl
  answer-moves private_body r st b v = ground arith
  answer-moves private_head r st b v = absurd st
  answer-moves given_up r st b v = absurd st
  answer-moves no_storage r st b v = absurd st

  fetched-moves :
      (p : Plan) (r : Response B) (u : Upstream)
      → r.body_chan ≡ 0
      → moves (answer ops detect plan storage p r u fetched) ≡ true
  unfolding answer set_body
  fetched-moves private_head r u e = refl
  fetched-moves given_up r u e = refl
  fetched-moves p r u e = ground arith

  waiting-moves :
      (p : Plan) (r : Response B) (u : Upstream)
      → r.headers_chan ≡ 1
      → moves (answer ops detect plan storage p r u waiting) ≡ true
  unfolding answer wait_headers
  waiting-moves p r u e = ground arith

  Good-CanMove :
      (r : Response B) (u : Upstream) (h : Handler)
      → Stores plan
      → Good r u h
      → ((u ≡ finished) × (h ≡ answered)) ⊎ CanMove r u h
  Good-CanMove r u waiting st v = elim (early-moves r u v) [
    | inl e ↦ inr (inr (waiting-moves plan r u e))
    | inr m ↦ inr (inl m)
  ]
  Good-CanMove r u fetched st v = inr (inr (fetched-moves plan r u v.0.no_token))
  Good-CanMove r u attached st (b, o, v) = elim (late-moves r u attached true b o v) [
    | inl e ↦ inr (
        inr (
          subst (λ x. moves (answer ops detect plan storage plan r x attached) ≡ true) (sym e)
            (answer-moves plan r st b (subst (λ x. Served r x true) e v))))
    | inr m ↦ inr (inl m)
  ]
  Good-CanMove r u answered st (b, o, v) = elim (late-moves r u answered false b o v) [
    | inl e ↦ inl (e, refl)
    | inr m ↦ inr (inl m)
  ]

  moved-Good :
      (s : Sys B) (o : Option (Sys B))
      → Good s.resp s.up s.handler
      → ((t : Sys B) → o ≡ some t → Good t.resp t.up t.handler)
      → let t = or_same s o in Good t.resp t.up t.handler
  moved-Good s none v f = v
  moved-Good s (some t) v f = f t refl

  upstream-act :
      (s t : Sys B)
      → upstream_step ops detect plan storage s ≡ some t
      → act ops detect plan storage s.resp s.handler s.up ≡ some t
  unfolding upstream_step
  upstream-act s t e = e

  handler-answer :
      (s t : Sys B)
      → handler_step ops detect plan storage s ≡ some t
      → answer ops detect plan storage plan s.resp s.up s.handler ≡ some t
  unfolding handler_step
  handler-answer s t e = e

  run-Good :
      (bs : List Bool) (s : Sys B)
      → Stores plan
      → Good s.resp s.up s.handler
      → let t = run ops detect plan storage bs s in Good t.resp t.up t.handler
  unfolding run
  run-Good [] s st v = v
  run-Good (true ∷ bs) s st v =
      run-Good bs (or_same s (upstream_step ops detect plan storage s)) st (
        moved-Good s (upstream_step ops detect plan storage s) v
          (λ t e. act-Good ops detect plan storage s.resp s.up s.handler t v (upstream-act s t e)))
  run-Good (false ∷ bs) s st v =
      run-Good bs (or_same s (handler_step ops detect plan storage s)) st (
        moved-Good s (handler_step ops detect plan storage s) v (λ t e.
          answer-Good ops detect plan storage plan s.resp s.up s.handler t st v
            (handler-answer s t e)))

  -- If the upstream writes a header sooner or later, and the handler sets a storage (Stores: the
  -- response is public or the request is no HEAD request, no stale entry and no error of the
  -- upstream is the answer, and the storage can be made), then under every schedule, at every
  -- moment, the upstream or the handler can move, unless the upstream has closed the response and
  -- the handler has answered.
  pub upstream_answers :
      (todo : List Action) (bs : List Bool)
      → Stores plan
      → WillWrite todo
      → let s = run ops detect plan storage bs (start ops detect plan storage todo) in
        ((s.up ≡ finished) × (s.handler ≡ answered))
        ⊎ (moves (upstream_step ops detect plan storage s) ≡ true)
        ⊎ (moves (handler_step ops detect plan storage s) ≡ true)
  unfolding upstream_step handler_step
  upstream_answers todo bs st w =
      let s = run ops detect plan storage bs (start ops detect plan storage todo) in
      Good-CanMove s.resp s.up s.handler st
        (run-Good bs (start ops detect plan storage todo) st begins)
    where
      begins :
          Good
            (start ops detect plan storage todo).resp
            (start ops detect plan storage todo).up
            (start ops detect plan storage todo).handler
      begins = unfold start in ground arith
