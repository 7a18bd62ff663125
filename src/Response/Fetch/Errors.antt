-- ===== src/Response/Fetch/Errors.antt =====
-- errChan and popOrNil of handler.go: fetchUpstream asks for the error of the upstream as soon as
-- its header is there.
pub mod Kept
pub mod Hidden
use mathlib.Core.Option
use cdp_cache.Base.{
  ℕ, ◌≡◌, refl, sym, ap, ◌∙◌, subst, ◌⊎◌, inl, inr, Bool, true, false, Option, none, some, List, [],
  ◌∷◌, ◌==◌, arith, Bool-cases, Option-cases,
}
use cdp_cache.Base.Text.{Str}
use cdp_cache.Response.{
  BackendOps, Response, blocked, done, snapshot, with_content_type, ◌>>=◌, set_header, write_header,
  write_implicit_header, wait_headers, wait_body, write, flush, new_response,
}
use cdp_cache.Response.Fetch.{
  Action, sets, writes_header, writes, flushes, Upstream, acting, in_write, in_close, finished,
  Plan, Handler, waiting, fetched, attached, answered, Sys, woken, moved, act, upstream_step,
  answer, handler_step, start, or_same,
}

-- popOrNil: the error, and what is left in the channel.
unfoldable pub pop_or_nil : Option (Option Str) → Option Str × Option (Option Str)
pop_or_nil none = (none, none)
pop_or_nil (some err) = (err, none)

-- The two goroutines with errChan, whether the upstream has sent into it, and what popOrNil has
-- returned.
pub record Fetching (B : Type 0) : Type 0 where
  pub sys : Sys B
  pub err_chan : Option (Option Str)
  pub sent : Bool
  pub popped : Option (Option Str)

module _ {B Reader : Type 0} (ops : BackendOps B Reader) (detect : Str → Str) (plan : Plan)
    (storage : B) (error : Option Str) where
  abbrev pub on_sys : Fetching B → Option (Sys B) → Option (Fetching B)
  on_sys f none = none
  on_sys f (some s) = some (record f { sys = s })

  -- The goroutine of the upstream: next.ServeHTTP, then the send of its error, then Close.
  unfoldable pub upstream_goes : Upstream → Bool → Fetching B → Option (Fetching B)
  unfolding upstream_step
  upstream_goes (acting []) false f = some (record f { err_chan = some error; sent = true })
  upstream_goes u sent f = on_sys f (upstream_step ops detect plan storage f.sys)

  abbrev pub popped_from : Fetching B → Option Str × Option (Option Str) → Fetching B
  popped_from f (err, rest) = record f { popped = some err; err_chan = rest }

  -- The handler: popOrNil is the last thing in fetchUpstream, and after an error the response is
  -- left alone.
  unfoldable pub handler_goes : Handler → Option (Option Str) → Fetching B → Option (Fetching B)
  unfolding handler_step pop_or_nil
  handler_goes fetched none f = some (popped_from f (pop_or_nil f.err_chan))
  handler_goes h (some (some err)) f = none
  handler_goes h p f = on_sys f (handler_step ops detect plan storage f.sys)

  abbrev pub stays : Fetching B → Option (Fetching B) → Fetching B
  stays f none = f
  stays f (some g) = g

  -- A schedule: true lets the upstream move, false the handler; who cannot move stays.
  unfoldable pub goes : List Bool → Fetching B → Fetching B
  unfolding upstream_goes handler_goes
  goes [] f = f
  goes (true ∷ bs) f = goes bs (stays f (upstream_goes f.sys.up f.sent f))
  goes (false ∷ bs) f = goes bs (stays f (handler_goes f.sys.handler f.popped f))

  -- A new response, an empty channel.
  unfoldable pub begin : List Action → Fetching B
  unfolding start
  begin todo = record {
    sys = start ops detect plan storage todo;
    err_chan = none;
    sent = false;
    popped = none;
  }

-- The script writes to the body.
abbrev pub WritesBody : List Action → Type 0
WritesBody [] = ⊥
WritesBody (sets k v ∷ todo) = WritesBody todo
WritesBody (writes_header code ∷ todo) = WritesBody todo
WritesBody (writes buf ∷ todo) = Unit
WritesBody (flushes ∷ todo) = WritesBody todo
