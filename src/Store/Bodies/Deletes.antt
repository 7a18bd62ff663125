-- ===== src/Store/Bodies/Deletes.antt =====
-- Put, cleanEntry and Del of cache.go without a cluster: none panics on a valid cache, and what Del
-- takes out of the cache has its Clean called.
use cdp_cache.Base.{
  ℕ, zero, suc, ◌+◌, ◌≡◌, refl, ◌∙◌, inl, inr, false, Option, none, some, List, [], ◌++◌, arith,
  Bool-cases, Option-cases, get_elem?, length,
}
use cdp_cache.Base.Text.{Str}
use cdp_cache.Base.Assoc.{lookup}
use cdp_cache.Config.{Config}
use cdp_cache.Status.{Clock}
use cdp_cache.Entry.{Entry, is_fresh}
use cdp_cache.Store.{HttpCache, bucket_of, Task, later, put}
use cdp_cache.Store.Cleaning.{
  Outside, CleanResult, Cleaned, clean_entry, remove_entry, cells, del_loop, del,
}
use cdp_cache.Store.Lookup.{slot_of}
use cdp_cache.Store.Invariant.{IsValid, bucket_of-IsValid, put-IsValid, clean_entry-IsValid}
use cdp_cache.Store.Spec.{live_list}
use cdp_cache.Store.Bodies.{total, is_body, in_cache}
use cdp_cache.Store.Bodies.Counting.{total-append}
use cdp_cache.Store.Bodies.Effects.{clean_entry-counts}

-- A valid cache without a cluster.
abbrev pub Local : HttpCache → Type 0
Local h = IsValid h × (h.is_distributed ≡ false)

pub put-Local :
    (h : HttpCache) (e : Entry) (config : Config)
    → Local h
    → (g : HttpCache) × (ts : List Task) × (put h e config ≡ some (g, ts)) × Local g
put-Local h e config (v, local) =
    let (g, ts, p, w) = put-IsValid h e config v in (g, ts, p, (w, kept g ts p ∙ local))
  where
    kept :
        (g : HttpCache) (ts : List Task)
        → put h e config ≡ some (g, ts)
        → g.is_distributed ≡ h.is_distributed
    kept g ts p = elim (Option-cases (bucket_of h e.key)) [
      | inl n ↦ absurd (unfold put in ground (arith, p, n))
      | inr (b, q) ↦ unfold put in ground (arith, p, q)
    ]

-- cleanEntry with its counts.
pub cleaned-Local :
    (o : Outside) (h : HttpCache) (e : Entry)
    → Local h
    → (r : Cleaned) × (clean_entry o h e ≡ some r) × Local r.0
cleaned-Local o h e (v, local) =
    let (g, r, p, w) = clean_entry-IsValid o h e v in ((g, r), p, (w, kept g r p ∙ local))
  where
    kept :
        (g : HttpCache) (r : CleanResult)
        → clean_entry o h e ≡ some (g, r)
        → g.is_distributed ≡ h.is_distributed
    kept g r p = elim (Option-cases (bucket_of h e.key)) [
      | inl n ↦ absurd (unfold clean_entry in ground (arith, p, n))
      | inr (b, q) ↦ elim (Option-cases (remove_entry e (live_list (slot_of h e.key)))) [
        | inl n ↦ unfold clean_entry in unfold slot_of in ground (arith, p, q, n)
        | inr (rest, m) ↦ unfold clean_entry in unfold slot_of in ground (arith, p, q, m)
      ]
    ]

-- Del: what leaves the cache has its Clean called.
abbrev pub Kept : HttpCache → Option Cleaned → Type 0
Kept h result =
    (r : Cleaned) × (result ≡ some r)
    × Local r.0
    × ((j : Str) (k : ℕ) → in_cache j k r.0 + total (is_body j k) r.1.0 ≡ in_cache j k h)

del_loop-counts :
    (o : Outside) (key : Str) (rounds i : ℕ) (clock : Clock) (h : HttpCache)
    → Local h
    → Kept h (del_loop o key rounds i clock h)
unfolding del_loop
del_loop-counts o key zero i clock h v = ((h, ([], none)), refl, v, λ j k. omega arith)
del_loop-counts o key (suc rounds) i clock h v =
    let after =
      λ (g : HttpCache) (w : Local g). del_loop-counts o key rounds (suc i) (later clock) g w in
    elim (Option-cases (get_elem? (cells h key) i)) [
      | inl n ↦ ((h, ([], none)), ground (arith, n), v, λ j k. omega arith)
      | inr (x, q) ↦
          let (r, e, w) = cleaned-Local o h x v in
          let counts = λ (j : Str) (k : ℕ). (clean_entry-counts o j k h x v.0 v.1 e).0 in
          elim (Bool-cases (is_fresh x (clock 0))) [
            | inl fresh ↦ elim (Option-cases r.1.1) [
              | inl fine ↦
                  let (r', e', w', counts') = after r.0 w in
                  (
                    (r'.0, (r.1.0 ++ r'.1.0, r'.1.1)),
                    ground (arith, q, fresh, e, fine, e'),
                    w',
                    λ j k.
                        omega
                          (arith, counts j k, counts' j k, total-append (is_body j k) r.1.0 r'.1.0),
                  )
              | inr (err, broken) ↦ (r, ground (arith, q, fresh, e, broken), w, counts)
            ]
            | inr stale ↦
                let (r', e', w', counts') = after h v in
                (r', ground (arith, q, stale, e'), w', counts')
          ]
    ]

pub del-counts :
    (o : Outside) (key : Str) (clock : Clock) (h : HttpCache) → Local h → Kept h (del o key clock h)
unfolding del
del-counts o key clock h v =
    let (b, q) = bucket_of-IsValid h key v.0 in
    elim (Option-cases (lookup key b)) [
      | inl n ↦ ((h, ([], none)), ground (arith, q, n), v, λ j k. omega arith)
      | inr (slot, m) ↦
          let (r, e, w, counts) = del_loop-counts o key (length slot.live) 0 clock h v in
          (r, ground (arith, q, m, e), w, counts)
    ]
