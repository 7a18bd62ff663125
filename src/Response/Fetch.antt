-- ===== src/Response/Fetch.antt =====
-- fetchUpstream of handler.go with what ServeHTTP does to the response afterwards: two goroutines
-- over one Response. A schedule says which of them moves next; each move is one call of a method of
-- response.go, or one wake-up from a channel.
pub mod Silent
pub mod Abandoned
pub mod Errors
pub mod Good
pub mod Progress
use cdp_cache.Base.{
  ℕ, zero, suc, ◌≡◌, ◌≢◌, refl, ◌⊎◌, inl, inr, Bool, true, false, Option, none, some, List, [], ◌∷◌,
  ◌++◌, ◌==◌, arith, All, if◌then◌else◌,
}
use cdp_cache.Base.Text.{Str}
use cdp_cache.Response.{
  BackendOps, Response, Outcome, done, blocked, panicked, M, ◌>>◌, receive_body, new_response,
  set_header, write_header, write_implicit_header, set_body, wait_headers, wait_close, wait_body,
  write_to_body, write, flush, close, finish_close, get_reader,
}

-- What next.ServeHTTP does with its response writer, in order.
pub data Action : Type 0 where
  sets : Str → Str → Action
  writes_header : ℕ → Action
  writes : Str → Action
  flushes : Action

-- The goroutine of the upstream: before its next action, waiting in Write with the rest ahead,
-- waiting in Close, or at its end.
pub data Upstream : Type 0 where
  acting : List Action → Upstream
  in_write : Str → List Action → Upstream
  in_close : Upstream
  finished : Upstream

-- How the handler goes on once it has the headers: a public response or another one, with a body or
-- to a HEAD request; given_up, where a stale entry or the error of the upstream is the answer and
-- the response gets no storage; no_storage, where setBackend fails after SetBody with no backend.
pub data Plan : Type 0 where
  public_body public_head private_body private_head given_up no_storage : Plan

-- The handler: in WaitHeaders, with the headers, with the storage set, done.
pub data Handler : Type 0 where
  waiting fetched attached answered : Handler

pub record Sys (B : Type 0) : Type 0 where
  pub resp : Response B
  pub up : Upstream
  pub handler : Handler

module _ {B : Type 0} where
  -- A call that returns or waits moves the upstream accordingly; a panic leaves no state.
  abbrev moved : {A : Type 0} → Handler → Upstream → Upstream → Outcome B A → Option (Sys B)
  moved h next wait (done r a) = some (record { resp = r; up = next; handler = h })
  moved h next wait (blocked r) = some (record { resp = r; up = wait; handler = h })
  moved h next wait panicked = none

  -- A wake-up from a channel: `none` if there is nothing to receive.
  abbrev pub woken : {A : Type 0} → Handler → Upstream → Outcome B A → Option (Sys B)
  woken h next (done r a) = some (record { resp = r; up = next; handler = h })
  woken h next (blocked r) = none
  woken h next panicked = none

  abbrev went : {A : Type 0} → Upstream → Handler → Outcome B A → Option (Sys B)
  went u next (done r a) = some (record { resp = r; up = u; handler = next })
  went u next (blocked r) = none
  went u next panicked = none

  abbrev or_same : Sys B → Option (Sys B) → Sys B
  or_same s none = s
  or_same s (some t) = t

module _ {B Reader : Type 0} (ops : BackendOps B Reader) (detect : Str → Str) (plan : Plan)
    (storage : B) where
  unfoldable pub act : Response B → Handler → Upstream → Option (Sys B)
  act r h (acting []) = moved h finished in_close (close ops r)
  act r h (acting (sets k v ∷ todo)) =
      some (record { resp = set_header k v r; up = acting todo; handler = h })
  act r h (acting (writes_header code ∷ todo)) = woken h (acting todo) (write_header code r)
  act r h (acting (writes buf ∷ todo)) =
      moved h (acting todo) (in_write buf todo) (write ops detect buf r)
  act r h (acting (flushes ∷ todo)) = woken h (acting todo) (flush ops r)
  act r h (in_write buf todo) = woken h (acting todo) ((receive_body >> write_to_body ops buf) r)
  act r h in_close = woken h finished ((receive_body >> finish_close ops) r)
  act r h finished = none

  -- The upstream moves; `none` if it cannot.
  unfoldable pub upstream_step : Sys B → Option (Sys B)
  unfolding act
  upstream_step s = act s.resp s.handler s.up

  unfoldable pub answer : Plan → Response B → Upstream → Handler → Option (Sys B)
  answer p r u waiting = went u fetched (wait_headers r)
  answer private_head r u fetched = some (record { resp = r; up = u; handler = answered })
  answer given_up r u fetched = some (record { resp = r; up = u; handler = answered })
  answer no_storage r u fetched = went u attached (set_body none r)
  answer p r u fetched = went u attached (set_body (some storage) r)
  answer public_body r u attached = went u answered (get_reader ops r)
  answer private_body r u attached = went u answered (wait_close r)
  answer p r u attached = some (record { resp = r; up = u; handler = answered })
  answer p r u answered = none

  unfoldable pub handler_step : Sys B → Option (Sys B)
  unfolding answer
  handler_step s = answer plan s.resp s.up s.handler

  -- A schedule: true lets the upstream move, false the handler; who cannot move stays.
  unfoldable pub run : List Bool → Sys B → Sys B
  run [] s = s
  run (true ∷ bs) s = run bs (or_same s (upstream_step s))
  run (false ∷ bs) s = run bs (or_same s (handler_step s))

  unfoldable pub start : List Action → Sys B
  unfolding new_response
  start todo = record { resp = new_response; up = acting todo; handler = waiting }

-- The script writes no header, neither openly nor by its first write or flush.
abbrev pub IsSilent : List Action → Type 0
IsSilent [] = Unit
IsSilent (sets k v ∷ todo) = IsSilent todo
IsSilent (writes_header code ∷ todo) = ⊥
IsSilent (writes buf ∷ todo) = ⊥
IsSilent (flushes ∷ todo) = ⊥

-- The script writes a header sooner or later.
abbrev pub WillWrite : List Action → Type 0
WillWrite [] = ⊥
WillWrite (sets k v ∷ todo) = WillWrite todo
WillWrite (writes_header code ∷ todo) = Unit
WillWrite (writes buf ∷ todo) = Unit
WillWrite (flushes ∷ todo) = Unit
