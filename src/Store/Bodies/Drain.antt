-- ===== src/Store/Bodies/Drain.antt =====
-- The cache of cache.go once every goroutine that it started has run: nothing is left.
use cdp_cache.Base.{
  ℕ, zero, suc, ◌-◌, ◌<◌, ◌≡◌, refl, ap, subst, inl, inr, ==_refl, some, List, [], ◌∷◌, arith,
  Option-cases, All, length,
}
use cdp_cache.Base.Int.{pos_part}
use cdp_cache.Base.Text.{Str, str_eq_refl}
use cdp_cache.Config.{Config}
use cdp_cache.Entry.{Entry}
use cdp_cache.Store.{HttpCache, Task, clean_later, clean_body}
use cdp_cache.Store.Cleaning.{Outside, clean_entry}
use cdp_cache.Store.Lookup.{slot_of}
use cdp_cache.Store.Invariant.{IsValid}
use cdp_cache.Store.Bodies.{
  System, Event, runs, pick, perform, wake, next, history, total, is_body, stored_by, cleans_body,
  removes_entry, in_cache,
}
use cdp_cache.Store.Spec.{slot_of-IsValid, live_list}
use cdp_cache.Store.Bodies.Effects.{slot_of-HasKey}
use cdp_cache.Store.Bodies.Balance.{first_system, history_from_start, history-Reaches}

-- The goroutines one after the other, in an order that the argument picks.
abbrev pub schedule : (ℕ → ℕ) → ℕ → List Event
schedule order zero = []
schedule order (suc n) = runs (order n) ∷ schedule order n

pick-length : (n : ℕ) (t : Task) (ts : List Task) → length ((pick n t ts).1) ≡ length ts
unfolding pick
pick-length n t [] = refl
pick-length zero t (u ∷ ts) = refl
pick-length (suc n) t (u ∷ ts) = ap suc (pick-length n u ts)

perform-pending :
    (o : Outside) (h : HttpCache) (done : List Entry) (c : Task × List Task) {s : System}
    → perform o h done c ≡ some s
    → s.pending ≡ c.1
unfolding perform
perform-pending o h done (clean_later t e, rest) p = elim (Option-cases (clean_entry o h e)) [
  | inl n ↦ absurd (ground (arith, p, n))
  | inr (r, q) ↦ ground (arith, p, q)
]
perform-pending o h done (clean_body e, rest) p = ground (arith, p)

wake-length :
    (o : Outside) (n : ℕ) (h : HttpCache) (done : List Entry) (ts : List Task) {s : System}
    → wake o n h done ts ≡ some s
    → length s.pending ≡ length ts - 1
unfolding wake
wake-length o n h done [] p = ground (arith, p)
wake-length o n h done (t ∷ ts) p =
    rw (perform-pending o h done (pick n t ts) p) (omega (arith, pick-length n t ts))

schedule-drains :
    (o : Outside) (order : ℕ → ℕ) (n : ℕ) (s : System) {t : System}
    → length s.pending ≡ n
    → history o s (schedule order n) ≡ some t
    → length t.pending ≡ 0
unfolding history next
schedule-drains o order zero s e p = ground (arith, e, p)
schedule-drains o order (suc n) s {t} e p =
    elim (Option-cases (wake o (order n) s.cache s.cleaned s.pending)) [
      | inl x ↦ absurd (ground (arith, p, x))
      | inr (u, q) ↦
          let rest : history o u (schedule order n) ≡ some t = ground (arith, p, q) in
          schedule-drains o order n u
            (omega (arith, e, wake-length o (order n) s.cache s.cleaned s.pending q)) rest
    ]

schedule-stored :
    (order : ℕ → ℕ) (n : ℕ) (j : Str) (k : ℕ) → total (stored_by j k) (schedule order n) ≡ 0
schedule-stored order zero j k = refl
schedule-stored order (suc n) j k = omega (arith, schedule-stored order n j k)

is_body_self : (e : Entry) → is_body e.key e.ident e ≡ 1
unfolding is_body
is_body_self e = rw (str_eq_refl e.key, ==_refl e.ident) refl

-- A list of entries of a key that has none of them.
none_there :
    (j : Str) (es : List Entry)
    → All (λ e. e.key ≡ j) es
    → ((k : ℕ) → total (is_body j k) es ≡ 0)
    → es ≡ []
none_there j [] a c = refl
none_there j (e ∷ es) (p, a) c =
    let one : is_body j e.ident e ≡ 1 = subst (λ i. is_body i e.ident e ≡ 1) p (is_body_self e) in
    absurd (omega (arith, one, c e.ident))

slot_is_empty :
    (h : HttpCache) (j : Str)
    → IsValid h
    → ((k : ℕ) → in_cache j k h ≡ 0)
    → live_list (slot_of h j) ≡ []
unfolding in_cache
slot_is_empty h j v c =
    let (s, q) = slot_of-IsValid h j v in
    rw q (none_there j s.live (slot_of-HasKey h j s v q) (λ k. rw q at (c k)))

nothing_pending : (ts : List Task) → length ts ≡ 0 → (f : Task → ℕ) → total f ts ≡ 0
nothing_pending [] e f = refl
nothing_pending (t ∷ ts) e f = absurd (omega (arith, e))

-- Without a cluster, from the first cache of a process with a positive number of buckets, after any
-- sequence of Put, Del and goroutines, once the goroutines that wait have run, in any order and
-- whatever errors Clean meets, the cache holds nothing under any key, and each body has had its
-- Clean called exactly as often as it was stored.
pub nothing_leaks :
    (o : Outside) (config : Config) (vs : List Event) (order : ℕ → ℕ)
    → 0 < pos_part config.cache_buckets_num
    → (s : System) × (history o (first_system config) vs ≡ some s)
      × (t : System) × (history o s (schedule order (length s.pending)) ≡ some t)
      × ((j : Str) → live_list (slot_of t.cache j) ≡ [])
      × ((j : Str) (k : ℕ) → total (is_body j k) t.cleaned ≡ total (stored_by j k) vs)
nothing_leaks o config vs order p =
    let (s, q, l, counts) = history_from_start o config vs p in
    let n = length s.pending in
    let (t, r, m, ends) = history-Reaches o s (schedule order n) l in
    let drained = schedule-drains o order n s refl r in
    let final = λ (j : Str) (k : ℕ). ends j k (total (stored_by j k) vs) (counts j k) in
    let empty : (j : Str) (k : ℕ) → in_cache j k t.cache ≡ 0 =
      λ j k. omega (arith, (final j k).1, nothing_pending t.pending drained (removes_entry j k)) in
    (
      s,
      q,
      t,
      r,
      λ j. slot_is_empty t.cache j m.0 (empty j),
      λ j k. omega (
        arith,
        (final j k).0,
        empty j k,
        nothing_pending t.pending drained (cleans_body j k),
        schedule-stored order n j k,
      ),
    )
