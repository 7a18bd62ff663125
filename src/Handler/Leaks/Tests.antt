-- ===== src/Handler/Leaks/Tests.antt =====
-- A history of the whole: two requests, a purge between them, a goroutine.
use cdp_cache.Base.{ℕ, ◌≡◌, some, List, [], ◌∷◌, arith, length}
use cdp_cache.Base.Text.{Str, codes}
use cdp_cache.Config.{get_default_config}
use cdp_cache.Store.Lookup.{slot_of}
use cdp_cache.Store.Spec.{live_list}
use cdp_cache.Store.Bodies as Bodies
use cdp_cache.Store.Bodies.{System, history, total, is_body, stored_by}
use cdp_cache.Store.Bodies.Balance.{first_system}
use cdp_cache.Store.Bodies.Drain.{schedule}
use cdp_cache.Store.Tests.{calm, early}
use cdp_cache.Handler.Tests.{outside, ask, default, holding}
use cdp_cache.Handler.Leaks.{Event, requests, other, run_events, requests_leak_nothing}

abbrev events : List (Event Str Str)
events =
    requests (outside 200) default ask (holding []).writer
    ∷ other (Bodies.dels (codes "k") early)
    ∷ requests (outside 503) default ask (holding []).writer
    ∷ other (Bodies.runs 0)
    ∷ []

requests_leak_nothing_example :
    (s : System) × (t : System) × (vs : List Bodies.Event) × (run_events calm
        (first_system default)
        events
      ≡ some s)
    × (history calm (first_system default) vs ≡ some s)
    × (history calm s (schedule (λ n. n) (length s.pending)) ≡ some t)
    × ((j : Str) → live_list (slot_of t.cache j) ≡ [])
    × ((j : Str) (k : ℕ) → total (is_body j k) t.cleaned ≡ total (stored_by j k) vs)
unfolding get_default_config
requests_leak_nothing_example = requests_leak_nothing calm default events (λ n. n) (omega arith)
