-- ===== src/Response/Fetch/Good.antt =====
-- What fetchUpstream of handler.go keeps to, where the upstream writes a header.
use cdp_cache.Base.{
  ◌≡◌, refl, ◌⊎◌, inl, inr, Bool, true, false, Option, none, some, List, [], ◌∷◌, arith,
  if◌then◌else◌, Bool-cases,
}
use cdp_cache.Base.Text.{Str}
use cdp_cache.Response.{
  BackendOps, Response, done, ◌>>=◌, snapshot, with_content_type, set_header, write_header,
  write_implicit_header, set_body, wait_headers, wait_close, wait_body, write_to_body, write, flush,
  close, finish_close, get_reader,
}
use cdp_cache.Response.Fetch.{
  Action, sets, writes_header, writes, flushes, Upstream, acting, in_write, in_close, finished,
  Plan, public_body, public_head, private_body, private_head, given_up, no_storage, Handler,
  waiting, fetched, attached, answered, Sys, moved, act, answer, WillWrite,
}

abbrev pub Unfinished : Upstream → Type 0
Unfinished finished = ⊥
Unfinished (acting todo) = Unit
Unfinished (in_write buf todo) = Unit
Unfinished in_close = Unit

module _ {B : Type 0} where
  -- The end of the body has not been announced.
  pub record IsOpen (r : Response B) : Type 0 where
    pub not_complete : r.body_complete ≡ false
    pub no_complete : r.body_complete_chan ≡ 0
    pub no_closed : r.closed_chan ≡ 0

  abbrev pub is_set : Option B → Bool
  is_set none = false
  is_set (some b) = true

  pub record NoBody (r : Response B) : Type 0 where
    pub absent : r.body ≡ none
    pub no_token : r.body_chan ≡ 0

  -- The header is not written and will be, or it is written.
  abbrev pub Ahead : Response B → Upstream → Type 0
  Ahead r (acting todo) = (r.wrote_header ≡ true) ⊎ WillWrite todo
  Ahead r (in_write buf todo) = r.wrote_header ≡ true
  Ahead r in_close = r.wrote_header ≡ true
  Ahead r finished = ⊥

  -- With the storage set: who waits for it is woken, and at the end the channels say so.
  abbrev pub Served : Response B → Upstream → Bool → Type 0
  Served r (acting todo) w = IsOpen r
  Served r (in_write buf todo) w = IsOpen r × (r.body_chan ≡ 1)
  Served r in_close w = IsOpen r × (r.body_chan ≡ 1)
  Served r finished true = (r.body_complete ≡ true) × (r.closed_chan ≡ 1)
  Served r finished false = r.body_complete ≡ true

  -- What holds of the two goroutines at every moment.
  abbrev pub Good : Response B → Upstream → Handler → Type 0
  Good r u waiting =
      NoBody r
      × IsOpen r
      × Ahead r u
      × (((r.wrote_header ≡ false) × (r.headers_chan ≡ 0))
          ⊎ ((r.wrote_header ≡ true) × (r.headers_chan ≡ 1)))
  Good r u fetched = NoBody r × IsOpen r × (r.wrote_header ≡ true) × Unfinished u
  Good r u attached = (is_set r.body ≡ true) × (r.wrote_header ≡ true) × Served r u true
  Good r u answered = (is_set r.body ≡ true) × (r.wrote_header ≡ true) × Served r u false

  abbrev pub moves : Option (Sys B) → Bool
  moves none = false
  moves (some t) = true

-- The handler sets a storage. It sets none to a HEAD request whose response is not public, where a
-- stale entry or the error of the upstream is the answer, and where the storage cannot be made.
abbrev pub Stores : Plan → Type 0
Stores public_body = Unit
Stores public_head = Unit
Stores private_body = Unit
Stores private_head = ⊥
Stores given_up = ⊥
Stores no_storage = ⊥

module _ {B Reader : Type 0} (ops : BackendOps B Reader) (detect : Str → Str) (plan : Plan)
    (storage : B) where
  pub implicit_header_written :
      (b : Str) (r : Response B)
      → r.wrote_header ≡ true
      → write_implicit_header detect b r ≡ done r tt
  unfolding write_implicit_header
  implicit_header_written b r w = rw w

  -- What the implicit header changes of the fields that the goroutines wait on.
  pub record Headed (r s : Response B) : Type 0 where
    pub wrote : s.wrote_header ≡ true
    pub same_body : s.body ≡ r.body
    pub same_body_chan : s.body_chan ≡ r.body_chan
    pub same_complete : s.body_complete ≡ r.body_complete
    pub same_complete_chan : s.body_complete_chan ≡ r.body_complete_chan
    pub same_closed_chan : s.closed_chan ≡ r.closed_chan
    pub token : s.headers_chan ≡ (if r.wrote_header then r.headers_chan else 1)

  pub implicit_header-Headed :
      (b : Str) (r : Response B)
      → (r.wrote_header ≡ true) ⊎ (r.headers_chan ≡ 0)
      → (s : Response B) × (write_implicit_header detect b r ≡ done s tt) × Headed r s
  unfolding write_implicit_header write_header
  implicit_header-Headed b r h = elim (Bool-cases r.wrote_header) [
    | inl w ↦ (
      r,
      implicit_header_written b r w,
      record {
        wrote = w;
        same_body = refl;
        same_body_chan = refl;
        same_complete = refl;
        same_complete_chan = refl;
        same_closed_chan = refl;
        token = rw w;
      },
    )
    | inr n ↦
        let m = with_content_type detect b r.header_map in
        (
          record r {
            header_map = m;
            code = r.code;
            wrote_header = true;
            snap_header = snapshot m;
            headers_chan = 1;
          },
          ground arith,
          ground arith,
        )
  ]

  -- A write after its implicit header.
  pub writes-act :
      (r : Response B) (buf : Str) (todo : List Action) (h : Handler) (s : Response B)
      → write_implicit_header detect buf r ≡ done s tt
      → s.wrote_header ≡ true
      → act ops detect plan storage r h (acting (writes buf ∷ todo))
        ≡ moved h (acting todo) (in_write buf todo) ((wait_body >>= λ _. write_to_body ops buf) s)
  unfolding act write
  writes-act r buf todo h s d w = rw d

  pub act-Good :
      (r : Response B) (u : Upstream) (h : Handler) (t : Sys B)
      → Good r u h
      → act ops detect plan storage r h u ≡ some t
      → Good t.resp t.up t.handler
  unfolding act close wait_body finish_close set_header write_header flush write_to_body
  act-Good r (acting []) waiting t v e = ground arith
  act-Good r (acting []) fetched t v e = ground arith
  act-Good r (acting []) attached t v e = ground arith
  act-Good r (acting []) answered t v e = ground arith
  act-Good r (acting (sets k w ∷ todo)) waiting t v e = ground arith
  act-Good r (acting (sets k w ∷ todo)) fetched t v e = ground arith
  act-Good r (acting (sets k w ∷ todo)) attached t v e = ground arith
  act-Good r (acting (sets k w ∷ todo)) answered t v e = ground arith
  act-Good r (acting (writes_header code ∷ todo)) waiting t v e = ground arith
  act-Good r (acting (writes_header code ∷ todo)) fetched t v e = ground arith
  act-Good r (acting (writes_header code ∷ todo)) attached t v e = ground arith
  act-Good r (acting (writes_header code ∷ todo)) answered t v e = ground arith
  act-Good r (acting (writes buf ∷ todo)) waiting t v e =
      let (s, d, k) = implicit_header-Headed buf r (ground arith) in
      ground (arith, writes-act r buf todo waiting s d k.wrote, e, k)
  act-Good r (acting (writes buf ∷ todo)) fetched t v e =
      let (s, d, k) = implicit_header-Headed buf r (ground arith) in
      ground (arith, writes-act r buf todo fetched s d k.wrote, e, k)
  act-Good r (acting (writes buf ∷ todo)) attached t v e =
      let (s, d, k) = implicit_header-Headed buf r (ground arith) in
      ground (arith, writes-act r buf todo attached s d k.wrote, e, k)
  act-Good r (acting (writes buf ∷ todo)) answered t v e =
      let (s, d, k) = implicit_header-Headed buf r (ground arith) in
      ground (arith, writes-act r buf todo answered s d k.wrote, e, k)
  act-Good r (acting (flushes ∷ todo)) waiting t v e = ground arith
  act-Good r (acting (flushes ∷ todo)) fetched t v e = ground arith
  act-Good r (acting (flushes ∷ todo)) attached t v e = ground arith
  act-Good r (acting (flushes ∷ todo)) answered t v e = ground arith
  act-Good r (in_write buf todo) waiting t v e = ground arith
  act-Good r (in_write buf todo) fetched t v e = ground arith
  act-Good r (in_write buf todo) attached t v e = ground arith
  act-Good r (in_write buf todo) answered t v e = ground arith
  act-Good r in_close waiting t v e = ground arith
  act-Good r in_close fetched t v e = ground arith
  act-Good r in_close attached t v e = ground arith
  act-Good r in_close answered t v e = ground arith
  act-Good r finished h t v e = absurd (ground arith)

  pub answer-Good :
      (p : Plan) (r : Response B) (u : Upstream) (h : Handler) (t : Sys B)
      → Stores p
      → Good r u h
      → answer ops detect plan storage p r u h ≡ some t
      → Good t.resp t.up t.handler
  unfolding answer wait_headers set_body get_reader wait_close
  answer-Good p r (acting todo) waiting t st v e = ground arith
  answer-Good p r (in_write buf todo) waiting t st v e = ground arith
  answer-Good p r in_close waiting t st v e = ground arith
  answer-Good p r finished waiting t st v e = absurd (ground arith)
  answer-Good private_head r u h t st v e = absurd st
  answer-Good given_up r u h t st v e = absurd st
  answer-Good no_storage r u h t st v e = absurd st
  answer-Good p r (acting todo) fetched t st v e = ground arith
  answer-Good p r (in_write buf todo) fetched t st v e = ground arith
  answer-Good p r in_close fetched t st v e = ground arith
  answer-Good p r finished fetched t st v e = absurd (ground arith)
  answer-Good p r (acting todo) attached t st v e = ground arith
  answer-Good p r (in_write buf todo) attached t st v e = ground arith
  answer-Good p r in_close attached t st v e = ground arith
  answer-Good p r finished attached t st v e = ground arith
  answer-Good p r u answered t st v e = absurd (ground arith)
