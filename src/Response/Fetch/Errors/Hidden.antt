-- ===== src/Response/Fetch/Errors/Hidden.antt =====
-- What popOrNil of handler.go can see of the error of an upstream that writes a body.
use cdp_cache.Base.{
  ◌≡◌, refl, sym, ap, ◌∙◌, subst, ◌⊎◌, inl, inr, Bool, true, false, Option, none, some, List, [],
  ◌∷◌,
}
use cdp_cache.Base.Text.{Str}
use cdp_cache.Response.{BackendOps}
use cdp_cache.Response.Fetch.{
  Action, Upstream, acting, in_write, in_close, finished, Plan, Handler, waiting, fetched, attached,
  answered, Sys, upstream_step, handler_step,
}
use cdp_cache.Response.Fetch.Errors.{
  Fetching, pop_or_nil, on_sys, upstream_goes, handler_goes, stays, goes, begin, WritesBody,
}
use cdp_cache.Response.Fetch.Errors.Kept.{
  StillWrites, BeforeBody, IsEarly, Kept, act-Kept, answer-Kept,
}

module _ {B Reader : Type 0} (ops : BackendOps B Reader) (detect : Str → Str) (plan : Plan)
    (storage : B) (error : Option Str) where
  -- popOrNil has returned no error, or has not come yet.
  abbrev Unseen : Fetching B → Type 0
  Unseen f = (f.popped ≡ some none) ⊎ IsEarly f

  on_sys-popped :
      (f : Fetching B) (r : Option (Sys B))
      → (stays ops detect plan storage error f (on_sys ops detect plan storage error f r)).popped
        ≡ f.popped
  on_sys-popped f none = refl
  on_sys-popped f (some s) = refl

  on_sys-IsEarly :
      (f : Fetching B) (r : Option (Sys B))
      → IsEarly f
      → Kept r
      → IsEarly (stays ops detect plan storage error f (on_sys ops detect plan storage error f r))
  on_sys-IsEarly f none e k = e
  on_sys-IsEarly f (some s) e (b, w, before) = record {
    not_popped = e.not_popped;
    not_sent = e.not_sent;
    nothing_there = e.nothing_there;
    bare = b;
    writing = w;
    early = before;
  }

  after_upstream : Upstream → Bool → Fetching B → Fetching B
  after_upstream u sent f =
      stays ops detect plan storage error f (upstream_goes ops detect plan storage error u sent f)

  upstream-popped :
      (u : Upstream) (sent : Bool) (f : Fetching B) → (after_upstream u sent f).popped ≡ f.popped
  unfolding after_upstream upstream_goes
  upstream-popped (acting []) false f = refl
  upstream-popped (acting []) true f = on_sys-popped f _
  upstream-popped (acting (a ∷ todo)) sent f = on_sys-popped f _
  upstream-popped (in_write buf todo) sent f = on_sys-popped f _
  upstream-popped in_close sent f = on_sys-popped f _
  upstream-popped finished sent f = on_sys-popped f _

  upstream-IsEarly :
      (u : Upstream) (sent : Bool) (f : Fetching B)
      → StillWrites u
      → IsEarly f
      → IsEarly (after_upstream u sent f)
  unfolding after_upstream upstream_goes upstream_step
  upstream-IsEarly (acting []) sent f w e = elim w [ ]
  upstream-IsEarly (acting (a ∷ todo)) sent f w e =
      on_sys-IsEarly f _ e (
        act-Kept ops detect plan storage f.sys.resp f.sys.handler f.sys.up e.bare e.writing e.early)
  upstream-IsEarly (in_write buf todo) sent f w e =
      on_sys-IsEarly f _ e (
        act-Kept ops detect plan storage f.sys.resp f.sys.handler f.sys.up e.bare e.writing e.early)
  upstream-IsEarly in_close sent f w e = elim w [ ]
  upstream-IsEarly finished sent f w e = elim w [ ]

  after_handler : Handler → Option (Option Str) → Fetching B → Fetching B
  after_handler h p f =
      stays ops detect plan storage error f (handler_goes ops detect plan storage error h p f)

  handler-popped :
      (h : Handler) (f : Fetching B) → (after_handler h (some none) f).popped ≡ f.popped
  unfolding after_handler handler_goes
  handler-popped waiting f = on_sys-popped f _
  handler-popped fetched f = on_sys-popped f _
  handler-popped attached f = on_sys-popped f _
  handler-popped answered f = on_sys-popped f _

  handler-Unseen :
      (h : Handler) (f : Fetching B)
      → f.sys.handler ≡ h
      → BeforeBody h
      → IsEarly f
      → Unseen (after_handler h none f)
  unfolding after_handler handler_goes handler_step pop_or_nil
  handler-Unseen waiting f q w e =
      let kept : Kept (handler_step ops detect plan storage f.sys) =
        rw q (answer-Kept ops detect plan storage f.sys.resp f.sys.up e.bare e.writing) in
      inr (on_sys-IsEarly f _ e kept)
  handler-Unseen fetched f q w e = inl (rw e.nothing_there refl)
  handler-Unseen attached f q w e = elim w [ ]
  handler-Unseen answered f q w e = elim w [ ]

  goes-Unseen :
      (bs : List Bool) (f : Fetching B)
      → Unseen f
      → Unseen (goes ops detect plan storage error bs f)
  unfolding goes after_upstream after_handler
  goes-Unseen [] f a = a
  goes-Unseen (true ∷ bs) f (inl p) = goes-Unseen bs _ (inl (upstream-popped f.sys.up f.sent f ∙ p))
  goes-Unseen (true ∷ bs) f (inr e) =
      goes-Unseen bs _ (inr (upstream-IsEarly f.sys.up f.sent f e.writing e))
  goes-Unseen (false ∷ bs) f (inl p) = goes-Unseen bs _ (
      inl
        (ap (λ x. (after_handler f.sys.handler x f).popped) p ∙ handler-popped f.sys.handler f ∙ p))
  goes-Unseen (false ∷ bs) f (inr e) = goes-Unseen bs _ (
      subst (λ x. Unseen (after_handler f.sys.handler x f)) (sym e.not_popped)
        (handler-Unseen f.sys.handler f refl e.early e))

  -- If the upstream writes anything to the body, then, whatever its script, its error and the order
  -- in which the two goroutines move, popOrNil never returns that error: it has not been called
  -- yet, or it has returned nil.
  pub write_hides_error :
      (todo : List Action) (bs : List Bool)
      → WritesBody todo
      → let f = goes ops detect plan storage error bs (begin ops detect plan storage error todo) in
        (f.popped ≡ none) ⊎ (f.popped ≡ some none)
  unfolding begin
  write_hides_error todo bs w = done_or_early (goes-Unseen bs _ (inr first))
    where
      first : IsEarly (begin ops detect plan storage error todo)
      first = record {
        not_popped = refl;
        not_sent = refl;
        nothing_there = refl;
        bare = (refl, refl);
        writing = w;
        early = tt;
      }

      done_or_early : {f : Fetching B} → Unseen f → (f.popped ≡ none) ⊎ (f.popped ≡ some none)
      done_or_early (inl p) = inr p
      done_or_early (inr e) = inl e.not_popped
