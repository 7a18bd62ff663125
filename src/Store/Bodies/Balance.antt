-- ===== src/Store/Bodies/Balance.antt =====
-- The bodies of the cache of cache.go over a history of Put, Del and the goroutines: none is lost,
-- and none has its Clean called twice.
use cdp_cache.Base.{
  ℕ, zero, suc, ◌+◌, ◌-◌, ◌≤◌, ◌<◌, ◌≡◌, refl, false, Option, none, some, List, [], ◌∷◌, ◌++◌,
  arith,
}
use cdp_cache.Base.Int.{pos_part}
use cdp_cache.Base.Text.{Str}
use cdp_cache.Config.{Config}
use cdp_cache.Entry.{Entry}
use cdp_cache.Store.{HttpCache, Task, clean_later, clean_body, made_http_cache}
use cdp_cache.Store.Cleaning.{Outside}
use cdp_cache.Store.Invariant.{made_http_cache-IsValid}
use cdp_cache.Store.Spec.{first_slot}
use cdp_cache.Store.Bodies.{
  System, Event, stores, dels, runs, pick, perform, next, history, wake, total, is_body,
  cleans_body, removes_entry, stored_by, in_cache,
}
use cdp_cache.Store.Bodies.Counting.{total-append}
use cdp_cache.Store.Bodies.Effects.{put-counts, clean_entry-counts}
use cdp_cache.Store.Bodies.Deletes.{Local, put-Local, cleaned-Local, del-counts}

pick-total :
    (f : Task → ℕ) (n : ℕ) (t : Task) (ts : List Task)
    → total f ((pick n t ts).0 ∷ (pick n t ts).1) ≡ total f (t ∷ ts)
unfolding pick
pick-total f n t [] = refl
pick-total f zero t (u ∷ ts) = refl
pick-total f (suc n) t (u ∷ ts) = omega (arith, pick-total f n u ts)

-- What a goroutine does to the counts.
abbrev Ran : HttpCache → List Entry → Task × List Task → Option System → Type 0
Ran h done c result =
    (s : System) × (result ≡ some s)
    × Local s.cache
    × (s.pending ≡ c.1)
    × ((j : Str) (k : ℕ)
        → (in_cache j k s.cache + total (is_body j k) s.cleaned
            ≡ in_cache j k h + cleans_body j k c.0 + total (is_body j k) done)
          × (in_cache j k s.cache ≤ in_cache j k h - removes_entry j k c.0))

perform-Ran :
    (o : Outside) (h : HttpCache) (done : List Entry) (c : Task × List Task)
    → Local h
    → Ran h done c (perform o h done c)
unfolding perform
perform-Ran o h done (clean_later t e, rest) v =
    let (r, p, w) = cleaned-Local o h e v in
    (
      record { cache = r.0; pending = rest; cleaned = done ++ r.1.0 },
      rw p refl,
      w,
      refl,
      λ j k.
          let (counts, less) = clean_entry-counts o j k h e v.0 v.1 p in
          (omega (arith, counts, total-append (is_body j k) done r.1.0), omega (arith, less)),
    )
perform-Ran o h done (clean_body e, rest) v = (
  record { cache = h; pending = rest; cleaned = done ++ (e ∷ []) },
  refl,
  v,
  refl,
  λ j k. (omega (arith, total-append (is_body j k) done (e ∷ [])), omega arith),
)

-- Every body that was stored, n times, is in the cache, waits for its Clean, or has had it; and
-- every entry in the cache has its removal scheduled.
abbrev pub Balanced : Str → ℕ → ℕ → System → Type 0
Balanced j k n s =
    (in_cache j k s.cache + total (cleans_body j k) s.pending + total (is_body j k) s.cleaned ≡ n)
    × (in_cache j k s.cache ≤ total (removes_entry j k) s.pending)

abbrev Follows : System → Event → Option System → Type 0
Follows s v result =
    (t : System) × (result ≡ some t)
    × Local t.cache
    × ((j : Str) (k n : ℕ) → Balanced j k n s → Balanced j k (n + stored_by j k v) t)

wake-Follows :
    (o : Outside) (n : ℕ) (h : HttpCache) (done : List Entry) (ts : List Task)
    → Local h
    → Follows (record { cache = h; pending = ts; cleaned = done }) (runs n) (wake o n h done ts)
unfolding wake
wake-Follows o n h done [] l = (
  record { cache = h; pending = []; cleaned = done },
  refl,
  l,
  λ j k m b. (omega (arith, b.0), b.1),
)
wake-Follows o n h done (t ∷ ts) l =
    let (s, p, w, rest, counts) = perform-Ran o h done (pick n t ts) l in
    (
      s,
      p,
      w,
      λ j k m b.
          let (bodies, less) = counts j k in
          (
            rw rest (omega (arith, b.0, bodies, pick-total (cleans_body j k) n t ts)),
            rw rest (omega (arith, b.1, less, pick-total (removes_entry j k) n t ts)),
          ),
    )

next-Follows : (o : Outside) (s : System) (v : Event) → Local s.cache → Follows s v (next o s v)
unfolding next
next-Follows o s (stores e config) l =
    let (g, ts, p, w) = put-Local s.cache e config l in
    (
      record s { cache = g; pending = s.pending ++ ts },
      rw p refl,
      w,
      λ j k n b.
          let (counts, removals) = put-counts j k s.cache e config l.0 p in
          (
            omega (arith, b.0, counts, total-append (cleans_body j k) s.pending ts),
            omega (arith, b.1, counts, removals, total-append (removes_entry j k) s.pending ts),
          ),
    )
next-Follows o s (dels key clock) l =
    let (r, p, w, counts) = del-counts o key clock s.cache l in
    (
      record s { cache = r.0; cleaned = s.cleaned ++ r.1.0 },
      rw p refl,
      w,
      λ j k n b. (
        omega (arith, b.0, counts j k, total-append (is_body j k) s.cleaned r.1.0),
        omega (arith, b.1, counts j k),
      ),
    )
next-Follows o s (runs n) l = wake-Follows o n s.cache s.cleaned s.pending l

abbrev pub Reaches : System → List Event → Option System → Type 0
Reaches s vs result =
    (t : System) × (result ≡ some t)
    × Local t.cache
    × ((j : Str) (k n : ℕ) → Balanced j k n s → Balanced j k (n + total (stored_by j k) vs) t)

pub history-Reaches :
    (o : Outside) (s : System) (vs : List Event) → Local s.cache → Reaches s vs (history o s vs)
unfolding history
history-Reaches o s [] l = (s, refl, l, λ j k n b. (omega (arith, b.0), b.1))
history-Reaches o s (v ∷ vs) l =
    let (t, p, w, counts) = next-Follows o s v l in
    let (u, q, x, counts') = history-Reaches o t vs w in
    (
      u,
      rw p q,
      x,
      λ j k n b.
          let c = counts' j k (n + stored_by j k v) (counts j k n b) in (omega (arith, c.0), c.1),
    )

-- The system before the first request, with what NewHTTPCache returns for a positive number of
-- buckets (new_http_cache-made).
abbrev pub first_system : Config → System
first_system config = record {
  cache = made_http_cache none config false;
  pending = [];
  cleaned = [];
}

start-Balanced :
    (config : Config) (j : Str) (k : ℕ)
    → 0 < pos_part config.cache_buckets_num
    → Balanced j k 0 (first_system config)
unfolding in_cache
start-Balanced config j k p = rw (first_slot config false j p) (refl, omega arith)

pub history_from_start :
    (o : Outside) (config : Config) (vs : List Event)
    → 0 < pos_part config.cache_buckets_num
    → (s : System) × (history o (first_system config) vs ≡ some s)
      × Local s.cache
      × ((j : Str) (k : ℕ) → Balanced j k (total (stored_by j k) vs) s)
history_from_start o config vs p =
    let (s, q, l, counts) =
      history-Reaches o (first_system config) vs
        (made_http_cache-IsValid config false p, unfold made_http_cache in refl) in
    (
      s,
      q,
      l,
      λ j k. let b = counts j k 0 (start-Balanced config j k p) in (omega (arith, b.0), b.1),
    )

-- Without a cluster, from the first cache of a process with a positive number of buckets, no
-- sequence of Put, Del and goroutines, in whatever order these come and whatever errors Clean
-- meets, panics; and each body that was stored is as often in the cache, or waiting for the Clean
-- that Put starts for a replaced entry, or cleaned, as it was stored.
pub bodies_balance :
    (o : Outside) (config : Config) (vs : List Event)
    → 0 < pos_part config.cache_buckets_num
    → (s : System) × (history o (first_system config) vs ≡ some s)
      × ((j : Str) (k : ℕ)
          → in_cache j k s.cache + total (cleans_body j k) s.pending + total (is_body j k) s.cleaned
            ≡ total (stored_by j k) vs)
bodies_balance o config vs p =
    let (s, q, l, counts) = history_from_start o config vs p in (s, q, λ j k. (counts j k).0)
