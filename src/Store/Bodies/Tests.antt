-- ===== src/Store/Bodies/Tests.antt =====
-- The theorems on stored bodies at a concrete history.
use cdp_cache.Base.{ℕ, ◌+◌, ◌≡◌, some, List, [], ◌∷◌, arith, length}
use cdp_cache.Base.Text.{Str, codes}
use cdp_cache.Store.Lookup.{slot_of}
use cdp_cache.Store.Spec.{live_list}
use cdp_cache.Store.Bodies.{
  System, Event, stores, dels, runs, history, total, is_body, cleans_body, stored_by, in_cache,
}
use cdp_cache.Store.Bodies.Balance.{first_system, bodies_balance}
use cdp_cache.Store.Bodies.Drain.{schedule, nothing_leaks}
use cdp_cache.Store.Tests.{page, calm, early, english, default, two_buckets}

-- A first version, a second one that takes its place, a purge, and a goroutine.
abbrev events : List Event
events =
    stores english default ∷ stores (page 4 "en") default ∷ dels (codes "k") early ∷ runs 0 ∷ []

bodies_balance_example :
    (s : System) × (history calm (first_system two_buckets) events ≡ some s)
    × ((j : Str) (k : ℕ)
        → in_cache j k s.cache + total (cleans_body j k) s.pending + total (is_body j k) s.cleaned
          ≡ total (stored_by j k) events)
bodies_balance_example = bodies_balance calm two_buckets events (omega arith)

nothing_leaks_example :
    (s : System) × (history calm (first_system two_buckets) events ≡ some s)
    × (t : System) × (history calm s (schedule (λ n. n) (length s.pending)) ≡ some t)
    × ((j : Str) → live_list (slot_of t.cache j) ≡ [])
    × ((j : Str) (k : ℕ) → total (is_body j k) t.cleaned ≡ total (stored_by j k) events)
nothing_leaks_example = nothing_leaks calm two_buckets events (λ n. n) (omega arith)
