-- ===== src/Store/Bodies/Effects.antt =====
-- What one Put, cleanEntry or Del of cache.go does to the number of times that a body is in the
-- cache.
use mathlib.Core.Option
use cdp_cache.Base.{
  ℕ, ◌+◌, ◌-◌, ◌≡◌, refl, sym, ◌∙◌, subst, inl, inr, false, ◌==◌, ==_iff, ◌&&◌, Option, none, some,
  List, [], ◌∷◌, arith, Bool-cases, Option-cases, if◌then◌else◌,
}
use cdp_cache.Base.Text.{Str, str_eq, str_eq_iff}
use cdp_cache.Config.{Config}
use cdp_cache.Entry.{Entry}
use cdp_cache.Base.Int.{◌+ℤ◌}
use cdp_cache.Store.{HttpCache, Slot, Task, clean_later, clean_replaced, put, replaced, place_slot}
use cdp_cache.Store.Invariant.{IsValid, HasKey, slot-HasKey}
use cdp_cache.Store.Purge.{bucket_of_slot, clean_entry-local}
use cdp_cache.Store.Cleaning.{Outside, Cleaned, clean_entry, remove_entry, shrunk}
use cdp_cache.Store.Lookup.{slot_of, slot_of-put}
use cdp_cache.Store.Spec.{slot_of-IsValid}
use cdp_cache.Store.Bodies.{total, is_body, cleans_body, removes_entry, in_cache}
use cdp_cache.Store.Bodies.Counting.{
  total_some, total-place, total-remove_entry, total-remove_none, replaced-All,
}

pub slot_of-HasKey :
    (h : HttpCache) (key : Str) (s : Slot) → IsValid h → slot_of h key ≡ some s → HasKey key s
slot_of-HasKey h key s v q =
    let (b, found, same) = bucket_of_slot h key s q in
    subst (λ t. HasKey key t) same (slot-HasKey h key v found)

-- What Put starts.
pub put-tasks :
    (h : HttpCache) (e : Entry) (config : Config) (s : Slot) {g : HttpCache} {ts : List Task}
    → slot_of h e.key ≡ some s
    → put h e config ≡ some (g, ts)
    → ts ≡ clean_later (e.expiration +ℤ config.stale_max_age) e ∷ clean_replaced (replaced e s.live)
unfolding put
put-tasks h e config s q p =
    let (b, found, same) = bucket_of_slot h e.key s q in ground (arith, p, found, same)

is_body_ne : (j : Str) (k : ℕ) (x : Entry) → str_eq x.key j ≡ false → is_body j k x ≡ 0
unfolding is_body
is_body_ne j k x h = rw h refl

total-clean_replaced :
    (j : Str) (k : ℕ) (r : Option Entry)
    → (total (cleans_body j k) (clean_replaced r) ≡ total_some (is_body j k) r)
      × (total (removes_entry j k) (clean_replaced r) ≡ 0)
total-clean_replaced j k none = (refl, refl)
total-clean_replaced j k (some x) = (omega arith, refl)

in_cache-slot :
    (j : Str) (k : ℕ) (h : HttpCache) (s : Slot)
    → slot_of h j ≡ some s
    → in_cache j k h ≡ total (is_body j k) s.live
unfolding in_cache
in_cache-slot j k h s q = rw q refl

in_cache_same :
    (j : Str) (k : ℕ) (h g : HttpCache)
    → slot_of g j ≡ slot_of h j
    → in_cache j k g ≡ in_cache j k h
unfolding in_cache
in_cache_same j k h g q = rw q refl

-- A body of an entry under another key is not the one that is counted.
replaced_ne :
    (j : Str) (k : ℕ) (e : Entry) (s : Slot)
    → str_eq e.key j ≡ false
    → HasKey e.key s
    → total_some (is_body j k) (replaced e s.live) ≡ 0
replaced_ne j k e s miss keyed = elim (Option-cases (replaced e s.live)) [
  | inl n ↦ rw n refl
  | inr (x, q) ↦
      let key : x.key ≡ e.key = replaced-All (λ y. y.key ≡ e.key) e s.live keyed x q in
      rw q (is_body_ne j k x (rw key miss))
]

-- Put, without a panic: the new body comes in, and the one that it replaces goes out.
in_cache-put :
    (j : Str) (k : ℕ) (h : HttpCache) (e : Entry) (config : Config) (s : Slot) {g : HttpCache}
    {ts : List Task}
    → slot_of h e.key ≡ some s
    → HasKey e.key s
    → put h e config ≡ some (g, ts)
    → in_cache j k g + total_some (is_body j k) (replaced e s.live) ≡ in_cache j k h + is_body j k e
unfolding place_slot
in_cache-put j k h e config s {g} q keyed p =
    let view = slot_of-put h e config j p in
    elim (Bool-cases (str_eq e.key j)) [
      | inl hit ↦
          let before : slot_of h j ≡ some s = rw (← (str_eq_iff e.key j).0 hit) q in
          let after : slot_of g j ≡ some (place_slot e s) = view ∙ rw (hit, before) refl in
          rw (in_cache-slot j k h s before, in_cache-slot j k g (place_slot e s) after)
            (total-place (is_body j k) e s.live)
      | inr miss ↦
          let same : slot_of g j ≡ slot_of h j = view ∙ rw miss refl in
          rw (in_cache_same j k h g same, replaced_ne j k e s miss keyed, is_body_ne j k e miss)
            refl
    ]

-- Put, without a panic on a valid cache: a body more is in the cache or waits for its Clean, and
-- its removal is scheduled.
pub put-counts :
    (j : Str) (k : ℕ) (h : HttpCache) (e : Entry) (config : Config) {g : HttpCache} {ts : List Task}
    → IsValid h
    → put h e config ≡ some (g, ts)
    → (in_cache j k g + total (cleans_body j k) ts ≡ in_cache j k h + is_body j k e)
      × (total (removes_entry j k) ts ≡ is_body j k e)
put-counts j k h e config {g} {ts} v p =
    let (s, q) = slot_of-IsValid h e.key v in
    let (bodies, removals) = total-clean_replaced j k (replaced e s.live) in
    let tasks = put-tasks h e config s q p in
    let moved = in_cache-put j k h e config s q (slot_of-HasKey h e.key s v q) p in
    (rw (tasks, bodies) (omega (arith, moved)), rw (tasks, removals) (omega arith))

clean_entry_absent :
    (o : Outside) (h : HttpCache) (e : Entry) (s : Slot)
    → slot_of h e.key ≡ some s
    → remove_entry e s.live ≡ none
    → clean_entry o h e ≡ some (h, ([], none))
unfolding clean_entry
clean_entry_absent o h e s q n =
    let (b, found, same) = bucket_of_slot h e.key s q in ground (arith, found, same, n)

in_cache_absent :
    (j : Str) (k : ℕ) (h : HttpCache) (e : Entry) (s : Slot)
    → slot_of h e.key ≡ some s
    → remove_entry e s.live ≡ none
    → in_cache j k h ≡ in_cache j k h - is_body j k e
unfolding is_body
in_cache_absent j k h e s q n = elim (Bool-cases (str_eq e.key j && (e.ident == k))) [
  | inl hit ↦
      let key : e.key ≡ j = (str_eq_iff e.key j).0 (ground (arith, hit)) in
      let ident : e.ident ≡ k = (==_iff e.ident k).0 (ground (arith, hit)) in
      let gone : in_cache j k h ≡ 0 =
        rw (← ident, in_cache-slot j e.ident h s (rw (← key) q)) (total-remove_none j e s.live n) in
      omega (arith, gone)
  | inr miss ↦ rw miss (omega arith)
]

-- The counts after the slot of e loses it.
in_cache-shrunk :
    (j : Str) (k : ℕ) (h g : HttpCache) (e : Entry) (s : Slot) (rest : List Entry)
    → slot_of h e.key ≡ some s
    → HasKey e.key s
    → remove_entry e s.live ≡ some rest
    → slot_of g j ≡ (if str_eq e.key j then some (shrunk e rest s) else slot_of h j)
    → in_cache j k g + is_body j k e ≡ in_cache j k h
in_cache-shrunk j k h g e s rest q keyed m view = elim (Bool-cases (str_eq e.key j)) [
  | inl hit ↦
      let before : slot_of h j ≡ some s = rw (← (str_eq_iff e.key j).0 hit) q in
      let after : slot_of g j ≡ some (shrunk e rest s) = view ∙ rw hit refl in
      rw (in_cache-slot j k h s before, in_cache-slot j k g (shrunk e rest s) after)
        (sym (total-remove_entry j k e s.live keyed m))
  | inr miss ↦
      let same : slot_of g j ≡ slot_of h j = view ∙ rw miss refl in
      rw (in_cache_same j k h g same, is_body_ne j k e miss) (omega arith)
]

-- cleanEntry, without a cluster: what leaves the cache has its Clean called, and the body of e
-- leaves it if it is there.
pub clean_entry-counts :
    (o : Outside) (j : Str) (k : ℕ) (h : HttpCache) (e : Entry)
    → IsValid h
    → h.is_distributed ≡ false
    → {r : Cleaned} → clean_entry o h e ≡ some r
    → (in_cache j k r.0 + total (is_body j k) r.1.0 ≡ in_cache j k h)
      × (in_cache j k r.0 ≡ in_cache j k h - is_body j k e)
clean_entry-counts o j k h e v local {r} p =
    let (s, q) = slot_of-IsValid h e.key v in
    elim (Option-cases (remove_entry e s.live)) [
      | inl n ↦
          let same : (h, ([], none)) ≡ r =
            Option.some_inj.0 (sym (clean_entry_absent o h e s q n) ∙ p) in
          rw (← same) (omega arith, in_cache_absent j k h e s q n)
      | inr (rest, m) ↦
          let (g, found, view) = clean_entry-local o h e s rest q m local in
          let same : (g, (e ∷ [], o.clean_error e)) ≡ r = Option.some_inj.0 (sym found ∙ p) in
          let moved =
            in_cache-shrunk j k h g e s rest q (slot_of-HasKey h e.key s v q) m (view j) in
          rw (← same) (omega (arith, moved), omega (arith, moved))
    ]
