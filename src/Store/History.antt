-- ===== src/Store/History.antt =====
-- Sequences of operations on the cache of cache.go.
use mathlib.Core.Option
use cdp_cache.Base.{
  ℕ, zero, suc, ◌<◌, ◌≡◌, refl, inl, inr, Bool, Option, none, some, List, [], ◌∷◌, ◌++◌, arith,
  Bool-cases, Option-cases, get_elem?, length,
}
use cdp_cache.Base.Int.{pos_part}
use cdp_cache.Base.Text.{Str}
use cdp_cache.Base.Assoc.{lookup}
use cdp_cache.Config.{Config}
use cdp_cache.Status.{Clock}
use cdp_cache.Entry.{Entry, is_fresh}
use cdp_cache.Store.{HttpCache, ◌>>=◌, Task, new_http_cache, made_http_cache, put, later}
use cdp_cache.Store.Cleaning.{Outside, CleanResult, Cleaned, clean_entry, cells, del_loop, del}
use cdp_cache.Store.Invariant.{
  IsValid, bucket_of-IsValid, made_http_cache-IsValid, new_http_cache-made, put-IsValid,
  clean_entry-IsValid,
}

del_loop-IsValid :
    (o : Outside) (key : Str) (rounds i : ℕ) (clock : Clock) (h : HttpCache)
    → IsValid h
    → (g : HttpCache) × (r : CleanResult) × (del_loop o key rounds i clock h ≡ some (g, r))
      × IsValid g
unfolding del_loop
del_loop-IsValid o key zero i clock h v = (h, ([], none), refl, v)
del_loop-IsValid o key (suc rounds) i clock h v =
    let next =
      λ (g : HttpCache) (w : IsValid g). del_loop-IsValid o key rounds (suc i) (later clock) g w in
    elim (Option-cases (get_elem? (cells h key) i)) [
      | inl n ↦ (h, ([], none), ground (arith, n), v)
      | inr (x, q) ↦
          let (g, r, e, w) = clean_entry-IsValid o h x v in
          elim (Bool-cases (is_fresh x (clock 0))) [
            | inl fresh ↦ elim (Option-cases r.1) [
              | inl fine ↦
                  let (g', r', e', w') = next g w in
                  (g', (r.0 ++ r'.0, r'.1), ground (arith, q, fresh, e, fine, e'), w')
              | inr (err, broken) ↦ (g, r, ground (arith, q, fresh, e, broken), w)
            ]
            | inr stale ↦
                let (g', r', e', w') = next h v in (g', r', ground (arith, q, stale, e'), w')
          ]
    ]

-- Del never panics on a valid cache, and leaves a valid one, on every path.
pub del-IsValid :
    (o : Outside) (key : Str) (clock : Clock) (h : HttpCache)
    → IsValid h
    → (g : HttpCache) × (r : CleanResult) × (del o key clock h ≡ some (g, r)) × IsValid g
unfolding del
del-IsValid o key clock h v =
    let (b, q) = bucket_of-IsValid h key v in
    elim (Option-cases (lookup key b)) [
      | inl n ↦ (h, ([], none), ground (arith, q, n), v)
      | inr (slot, m) ↦
          let (g, r, e, w) = del_loop-IsValid o key (length slot.live) 0 clock h v in
          (g, r, ground (arith, q, m, e), w)
    ]

-- One call on the cache; cleanEntry is called by the goroutine that scheduleCleanEntry starts.
pub data Call : Type 0 where
  puts : Entry → Config → Call
  cleans : Entry → Call
  dels : Str → Clock → Call

-- The cache after a call; `none` is a panic.
unfoldable pub step : Outside → HttpCache → Call → Option HttpCache
step o h (puts e config) = Option.map (λ (r : HttpCache × List Task). r.0) (put h e config)
step o h (cleans e) = Option.map (λ (r : Cleaned). r.0) (clean_entry o h e)
step o h (dels key clock) = Option.map (λ (r : Cleaned). r.0) (del o key clock h)

unfoldable pub run : Outside → HttpCache → List Call → Option HttpCache
unfolding step
run o h [] = some h
run o h (c ∷ cs) = step o h c >>= λ g. run o g cs

step-IsValid :
    (o : Outside) (h : HttpCache) (c : Call)
    → IsValid h
    → (g : HttpCache) × (step o h c ≡ some g) × IsValid g
unfolding step
step-IsValid o h (puts e config) v = let (g, ts, q, w) = put-IsValid h e config v in (g, rw q, w)
step-IsValid o h (cleans e) v = let (g, r, q, w) = clean_entry-IsValid o h e v in (g, rw q, w)
step-IsValid o h (dels key clock) v = let (g, r, q, w) = del-IsValid o key clock h v in (g, rw q, w)

run_from :
    (o : Outside) (h : HttpCache) (cs : List Call)
    → IsValid h
    → (g : HttpCache) × (run o h cs ≡ some g) × IsValid g
unfolding run
run_from o h [] v = (h, refl, v)
run_from o h (c ∷ cs) v =
    let (g, q, w) = step-IsValid o h c v in let (k, p, u) = run_from o g cs w in (k, rw q p, u)

-- With a positive number of buckets the first NewHTTPCache of a process does not panic, and from
-- its cache no sequence of Put, Del and cleanEntry panics, whatever the storages and the cluster answer, and the cache it leads to is
-- valid.
pub run-IsValid :
    (o : Outside) (config : Config) (distributed_on : Bool) (cs : List Call)
    → 0 < pos_part config.cache_buckets_num
    → (h : HttpCache) × (g : HttpCache) × (new_http_cache none config distributed_on ≡ some h)
      × (run o h cs ≡ some g)
      × IsValid g
run-IsValid o config distributed_on cs p =
    let h = made_http_cache none config distributed_on in
    let (g, q, v) = run_from o h cs (made_http_cache-IsValid config distributed_on p) in
    (h, g, new_http_cache-made config distributed_on p, q, v)
