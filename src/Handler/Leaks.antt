-- ===== src/Handler/Leaks.antt =====
-- The middleware (handler.go), the store (cache.go) and the goroutines that clean entries, together:
-- any number of requests, purges and cleanings, one after the other.
pub mod Tests
use mathlib.Core.Option
use cdp_cache.Base.{
  ℕ, ◌<◌, ◌≡◌, refl, sym, ap, ◌∙◌, subst, inl, inr, false, Option, none, some, List, [], ◌∷◌, ◌++◌,
  arith, Option-cases, length, map,
}
use cdp_cache.Base.Int.{pos_part}
use cdp_cache.Base.Text.{Str}
use cdp_cache.Http.{Request, Writer}
use cdp_cache.Config.{Config}
use cdp_cache.Status.{Clock}
use cdp_cache.Entry.{Entry}
use cdp_cache.Store.{HttpCache, Task, put}
use cdp_cache.Store.Cleaning.{Outside}
use cdp_cache.Store.Lookup.{slot_of}
use cdp_cache.Store.Spec.{live_list}
use cdp_cache.Store.Puts.{put_all}
use cdp_cache.Store.Bodies as Bodies
use cdp_cache.Store.Bodies.{System, next, history, total, is_body, stored_by}
use cdp_cache.Store.Bodies.Deletes.{Local}
use cdp_cache.Store.Bodies.Balance.{first_system, history_from_start, history-Reaches}
use cdp_cache.Store.Bodies.Drain.{schedule, nothing_leaks}
use cdp_cache.Handler.Serve.{World, State, Reply, ◌>>=◌, serve_http}
use cdp_cache.Handler.Safety.{EndsWithin, serve_http-EndsWithin}

-- A request with the outside that it meets, the configuration and its writer; or what is not a
-- request: a Put, a Del, a goroutine.
pub data Event (B Reader : Type 0) : Type 1 where
  requests : World B Reader → Config → Request → Writer → Event B Reader
  other : Bodies.Event → Event B Reader

abbrev pub asked : System → Writer → State
asked s w = record { cache = s.cache; tasks = s.pending; fetches = 0; writer = w }

abbrev pub served_system : System → State × Reply → System
served_system s (t, reply) = record s { cache = t.cache; pending = t.tasks }

unfoldable pub next_event : {B Reader : Type 0} → Outside → System → Event B Reader → Option System
next_event o s (requests world config req w) =
    serve_http world config false req (asked s w) >>= λ r. some (served_system s r)
next_event o s (other v) = next o s v

unfoldable pub run_events :
    {B Reader : Type 0} → Outside → System → List (Event B Reader) → Option System
unfolding next_event
run_events o s [] = some s
run_events o s (v ∷ vs) = next_event o s v >>= λ t. run_events o t vs

module _ (o : Outside) where
  history-append :
      (s : System) (vs ws : List Bodies.Event) {t : System}
      → history o s vs ≡ some t
      → history o s (vs ++ ws) ≡ history o t ws
  unfolding history
  history-append s [] ws {t} p = let same : s ≡ t = ground (arith, p) in rw same refl
  history-append s (v ∷ vs) ws {t} p = elim (Option-cases (next o s v)) [
    | inl n ↦ absurd (ground (arith, p, n))
    | inr (u, q) ↦
        let rest : history o u vs ≡ some t = ground (arith, p, q) in
        rw q (history-append u vs ws rest)
  ]

  -- Puts, as events of the store.
  abbrev as_events : Config → List Entry → List Bodies.Event
  as_events config [] = []
  as_events config (e ∷ es) = Bodies.stores e config ∷ as_events config es

  history-put_all :
      (config : Config) (es : List Entry) (h : HttpCache) (ts : List Task) (done : List Entry)
      {g : HttpCache} {us : List Task}
      → put_all config es (h, ts) ≡ some (g, us)
      → history o (record { cache = h; pending = ts; cleaned = done }) (as_events config es)
        ≡ some (record { cache = g; pending = us; cleaned = done })
  unfolding history next put_all
  history-put_all config [] h ts done {g} {us} p =
      let same : (h, ts) ≡ (g, us) = Option.some_inj.0 p in
      ap
        (λ (c : HttpCache × List Task).
          some (record { cache = c.0; pending = c.1; cleaned = done }))
        same
  history-put_all config (e ∷ es) h ts done {g} {us} p = elim (Option-cases (put h e config)) [
    | inl n ↦ absurd (ground (arith, p, n))
    | inr (r, q) ↦
        let rest : put_all config es (r.0, ts ++ r.1) ≡ some (g, us) = ground (arith, p, q) in
        rw q (history-put_all config es r.0 (ts ++ r.1) done rest)
  ]

  -- An event is a history of the store.
  abbrev Told : System → Option System → Type 0
  Told s result =
      (t : System) × (vs : List Bodies.Event) × (result ≡ some t) × (history o s vs ≡ some t)

  event-Told :
      {B Reader : Type 0} (s : System) (v : Event B Reader)
      → Local s.cache
      → Told s (next_event o s v)
  unfolding next_event
  event-Told s (requests world config req w) l =
      stored_events (serve_http-EndsWithin world config false req (asked s w) l.0)
    where
      stored_events :
          EndsWithin world config false req
            (asked s w)
            0
            (serve_http world config false req (asked s w))
          → Told s (next_event o s (requests world config req w))
      stored_events (inl (t, r, p, f)) =
          let (es, q, a) = f.stored in
          (
            served_system s (t, r),
            as_events config es,
            rw p refl,
            history-put_all config es s.cache s.pending s.cleaned q,
          )
      stored_events (inr (t, r, p, f)) =
          let (es, q, a) = f.stored in
          (
            served_system s (t, r),
            as_events config es,
            rw p refl,
            history-put_all config es s.cache s.pending s.cleaned q,
          )
  event-Told s (other v) l =
      let (t, p, m, counts) = history-Reaches o s (v ∷ []) l in (t, v ∷ [], one t p, p)
    where
      one : (t : System) → history o s (v ∷ []) ≡ some t → next o s v ≡ some t
      one t p = elim (Option-cases (next o s v)) [
        | inl n ↦ absurd (unfold history in ground (arith, p, n))
        | inr (u, q) ↦ unfold history in ground (arith, p, q)
      ]

  Local-history :
      (s t : System) (vs : List Bodies.Event)
      → Local s.cache
      → history o s vs ≡ some t
      → Local t.cache
  Local-history s t vs l p =
      let (u, q, m, counts) = history-Reaches o s vs l in
      subst (λ (x : System). Local x.cache) (Option.some_inj.0 (sym q ∙ p)) m

  run-Told :
      {B Reader : Type 0} (s : System) (vs : List (Event B Reader))
      → Local s.cache
      → Told s (run_events o s vs)
  unfolding run_events
  run-Told s [] l = (s, [], refl, (unfold history in refl))
  run-Told s (v ∷ vs) l =
      let (t, us, p, h) = event-Told s v l in
      let (u, ws, q, k) = run-Told t vs (Local-history s t us l h) in
      (u, us ++ ws, rw p q, history-append s us ws h ∙ k)

-- Without the distributed cache, from the first cache of a process with a positive number of
-- buckets: whatever requests come, with whatever configurations, answers of the upstream, clocks and
-- errors of storages, and whatever purges and cleanings come between them, each of these a step,
-- none makes the cache index out of range; and once the goroutines that wait have run, in any order,
-- the cache holds nothing under any key. There is a history of Put, Del and goroutines alone that
-- comes to the same, and each body has had its Clean called exactly as often as it is stored there.
pub requests_leak_nothing :
    {B Reader : Type 0} (o : Outside) (config : Config) (events : List (Event B Reader))
    (order : ℕ → ℕ)
    → 0 < pos_part config.cache_buckets_num
    → (s : System) × (t : System) × (vs : List Bodies.Event) × (run_events o
          (first_system config)
          events
        ≡ some s)
      × (history o (first_system config) vs ≡ some s)
      × (history o s (schedule order (length s.pending)) ≡ some t)
      × ((j : Str) → live_list (slot_of t.cache j) ≡ [])
      × ((j : Str) (k : ℕ) → total (is_body j k) t.cleaned ≡ total (stored_by j k) vs)
requests_leak_nothing o config events order p =
    let (first, e, l, counts) = history_from_start o config [] p in
    let same : first_system config ≡ first = Option.some_inj.0 (unfold history in e) in
    let start : Local (first_system config).cache =
      subst (λ (x : System). Local x.cache) (sym same) l in
    let (s, vs, run, told) = run-Told o (first_system config) events start in
    let (u, h, t, r, empty, cleaned) = nothing_leaks o config vs order p in
    let end : u ≡ s = Option.some_inj.0 (sym h ∙ told) in
    (
      s,
      t,
      vs,
      run,
      told,
      subst (λ (x : System). history o x (schedule order (length x.pending)) ≡ some t) end r,
      empty,
      cleaned,
    )
