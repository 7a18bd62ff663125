-- ===== src/Response/Fetch/Errors/Kept.antt =====
-- The moves of fetchUpstream of handler.go before the response has a storage, where the upstream
-- writes a body.
use cdp_cache.Base.{
  ℕ, ◌≡◌, inl, inr, true, false, Option, none, some, List, [], ◌∷◌, ◌==◌, arith, Bool-cases,
}
use cdp_cache.Base.Text.{Str}
use cdp_cache.Response.{
  BackendOps, Response, blocked, snapshot, with_content_type, set_header, write_header,
  write_implicit_header, wait_headers, wait_body, write, flush,
}
use cdp_cache.Response.Fetch.{
  Action, sets, writes_header, writes, flushes, Upstream, acting, in_write, in_close, finished,
  Plan, Handler, waiting, fetched, attached, answered, Sys, woken, act, answer,
}
use cdp_cache.Response.Fetch.Errors.{Fetching, WritesBody}

abbrev pub StillWrites : Upstream → Type 0
StillWrites (acting todo) = WritesBody todo
StillWrites (in_write buf todo) = Unit
StillWrites in_close = ⊥
StillWrites finished = ⊥

abbrev pub BeforeBody : Handler → Type 0
BeforeBody waiting = Unit
BeforeBody fetched = Unit
BeforeBody attached = ⊥
BeforeBody answered = ⊥

module _ {B : Type 0} where
  -- The response has no storage, and no token for one.
  abbrev pub Bare : Response B → Type 0
  Bare r = (r.body ≡ none) × (r.body_chan ≡ 0)

  -- Before popOrNil.
  pub record IsEarly (f : Fetching B) : Type 0 where
    pub not_popped : f.popped ≡ none
    pub not_sent : f.sent ≡ false
    pub nothing_there : f.err_chan ≡ none
    pub bare : Bare f.sys.resp
    pub writing : StillWrites f.sys.up
    pub early : BeforeBody f.sys.handler

  -- A step of the upstream that does not end the response.
  abbrev pub Kept : Option (Sys B) → Type 0
  Kept none = Unit
  Kept (some s) = Bare s.resp × StillWrites s.up × BeforeBody s.handler

module _ {B Reader : Type 0} (ops : BackendOps B Reader) (detect : Str → Str) (plan : Plan)
    (storage : B) where
  write_waits :
      (buf : Str) (r : Response B)
      → Bare r
      → (s : Response B) × (write ops detect buf r ≡ blocked s) × Bare s
  unfolding write write_implicit_header write_header wait_body
  write_waits buf r (n, t) = elim (Bool-cases r.wrote_header) [
    | inl w ↦ (r, ground (arith, n, t, w), (n, t))
    | inr w ↦
        let m = with_content_type detect buf r.header_map in
        let headed : Response B = record r {
          header_map = m;
          wrote_header = true;
          snap_header = snapshot m;
        } in
        elim (Bool-cases (r.headers_chan == 0)) [
          | inl free ↦ (record headed { headers_chan = 1 }, ground (arith, n, t, w, free), (n, t))
          | inr full ↦ (headed, ground (arith, n, t, w, full), (n, t))
        ]
  ]

  write_header-Kept :
      (h : Handler) (r : Response B) (code : ℕ) (todo : List Action)
      → Bare r
      → WritesBody todo
      → BeforeBody h
      → Kept (woken h (acting todo) (write_header code r))
  unfolding write_header
  write_header-Kept h r code todo (n, t) w e = elim (Bool-cases r.wrote_header) [
    | inl wrote ↦ rw wrote ((n, t), w, e)
    | inr not_yet ↦ elim (Bool-cases (r.headers_chan == 0)) [
      | inl free ↦ rw (not_yet, free) ((n, t), w, e)
      | inr full ↦ rw (not_yet, full) tt
    ]
  ]

  flush-Kept :
      (h : Handler) (r : Response B) (todo : List Action)
      → Bare r
      → WritesBody todo
      → BeforeBody h
      → Kept (woken h (acting todo) (flush ops r))
  unfolding flush write_header
  flush-Kept h r todo (n, t) w e = elim (Bool-cases r.wrote_header) [
    | inl wrote ↦ rw (wrote, n) ((n, t), w, e)
    | inr not_yet ↦ elim (Bool-cases (r.headers_chan == 0)) [
      | inl free ↦ rw (not_yet, free, n) ((n, t), w, e)
      | inr full ↦ rw (not_yet, full) tt
    ]
  ]

  pub act-Kept :
      (r : Response B) (h : Handler) (u : Upstream)
      → Bare r
      → StillWrites u
      → BeforeBody h
      → Kept (act ops detect plan storage r h u)
  unfolding act set_header
  act-Kept r h (acting (sets k v ∷ todo)) b w e = (b, w, e)
  act-Kept r h (acting (writes_header code ∷ todo)) b w e = write_header-Kept h r code todo b w e
  act-Kept r h (acting (writes buf ∷ todo)) b w e =
      let (s, waits, bare) = write_waits buf r b in rw waits (bare, tt, e)
  act-Kept r h (acting (flushes ∷ todo)) b w e = flush-Kept h r todo b w e
  act-Kept r h (in_write buf todo) (n, t) w e = rw t tt
  act-Kept r h (acting []) b w e = elim w [ ]
  act-Kept r h in_close b w e = elim w [ ]
  act-Kept r h finished b w e = elim w [ ]

  pub answer-Kept :
      (r : Response B) (u : Upstream)
      → Bare r
      → StillWrites u
      → Kept (answer ops detect plan storage plan r u waiting)
  unfolding answer wait_headers
  answer-Kept r u b w = elim (Bool-cases (r.headers_chan == 0)) [
    | inl nothing ↦ rw nothing tt
    | inr token ↦ rw token (b, w, tt)
  ]
