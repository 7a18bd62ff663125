-- ===== src/Store/Lookup.antt =====
-- The cache of cache.go as a function from keys to slots, and what Get finds after Put.
use mathlib.Core.Option
use cdp_cache.Base.{
  ℕ, ◌≡◌, ◌≢◌, ap, inl, inr, Bool, true, ◌==◌, ==_iff, Option, some, List, arith, Bool-cases,
  Option-cases, if◌then◌else◌, get_elem?, get_elem?-set_self, get_elem?-set_ne,
}
use cdp_cache.Base.Text.{Str, str_eq, str_eq_iff, str_eq_refl, str_eq_of_ne}
use cdp_cache.Base.Assoc.{lookup, insert, lookup-insert}
use cdp_cache.Http.{Request}
use cdp_cache.Config.{Config}
use cdp_cache.Status.{Clock}
use cdp_cache.Bucket.{bucket_index}
use cdp_cache.Entry.{Entry, match_vary}
use cdp_cache.Store.{
  HttpCache, Slot, Bucket, Task, bucket_of, slot_or_nil, find_entry, get, place_slot, with_slot,
  put,
}
use cdp_cache.Store.Place.{
  StaysFresh, Among, WasFresh, find_entry-place, find_entry_sound, find_entry_complete,
}

-- The abstract view: the slot of each key, `none` where the index is out of range.
unfoldable pub slot_of : HttpCache → Str → Option Slot
slot_of h key = Option.map (λ b. slot_or_nil (lookup key b)) (bucket_of h key)

pub slot_of-bucket :
    (h : HttpCache) (key : Str) {b : Bucket}
    → bucket_of h key ≡ some b
    → slot_of h key ≡ some (slot_or_nil (lookup key b))
unfolding slot_of
slot_of-bucket h key e = rw e

pub get-slot_of :
    (h : HttpCache) (key : Str) (req : Request) (stale : Bool) (clock : Clock)
    → get h key req stale clock
      ≡ Option.map (λ (s : Slot). find_entry s.live req stale clock) (slot_of h key)
unfolding get slot_of
get-slot_of h key req stale clock = elim (Option-cases (bucket_of h key)) [
  | inl e ↦ rw e
  | inr (b, e) ↦ rw e
]

abbrev index_of : HttpCache → Str → ℕ
index_of h key = bucket_index h.cache_buckets_num key

bucket_of-with_slot_same :
    (h : HttpCache) (key j : Str) (s : Slot) (b : Bucket)
    → bucket_of h key ≡ some b
    → index_of h key ≡ index_of h j
    → bucket_of (with_slot h key s b) j ≡ some (insert key s b)
unfolding bucket_of
bucket_of-with_slot_same h key j s b e same =
    let found : get_elem? h.entries (index_of h j) ≡ some b = rw (← same) e in
    rw (same, get_elem?-set_self h.entries (index_of h j) (insert key s b) found)

bucket_of_same :
    (h : HttpCache) (key j : Str) → index_of h key ≡ index_of h j → bucket_of h j ≡ bucket_of h key
unfolding bucket_of
bucket_of_same h key j same = rw same

bucket_of-with_slot_ne :
    (h : HttpCache) (key j : Str) (s : Slot) (b : Bucket)
    → index_of h key ≢ index_of h j
    → bucket_of (with_slot h key s b) j ≡ bucket_of h j
unfolding bucket_of
bucket_of-with_slot_ne h key j s b differ =
    get_elem?-set_ne h.entries (index_of h key) (index_of h j) (insert key s b) differ

-- A write to the slot of a key is a write to the abstract function at that key.
pub slot_of-with_slot :
    (h : HttpCache) (key j : Str) (s : Slot) (b : Bucket)
    → bucket_of h key ≡ some b
    → slot_of (with_slot h key s b) j ≡ (if str_eq key j then some s else slot_of h j)
unfolding slot_of
slot_of-with_slot h key j s b e = elim (Bool-cases (index_of h key == index_of h j)) [
  | inl same ↦
      let index = (==_iff _ _).0 same in
      rw (bucket_of-with_slot_same h key j s b e index, bucket_of_same h key j index, e)
        (ground (arith, lookup-insert key j s b))
  | inr differ ↦
      rw (bucket_of-with_slot_ne h key j s b (λ q. ground (arith, q)))
        (rw (str_eq_of_ne (λ (q : key ≡ j). ground (arith, ap (index_of h) q))))
]

put-some :
    (h : HttpCache) (e : Entry) (config : Config) {g : HttpCache} {ts : List Task}
    → put h e config ≡ some (g, ts)
    → (b : Bucket) × (bucket_of h e.key ≡ some b)
      × (g ≡ with_slot h e.key (place_slot e (slot_or_nil (lookup e.key b))) b)
unfolding put
put-some h e config p = elim (Option-cases (bucket_of h e.key)) [
  | inl n ↦ absurd (ground (arith, n))
  | inr (b, q) ↦ (b, q, ground (arith, q))
]

-- Put changes the slot of the entry's key, by its loop, and no other.
pub slot_of-put :
    (h : HttpCache) (e : Entry) (config : Config) (key : Str) {g : HttpCache} {ts : List Task}
    → put h e config ≡ some (g, ts)
    → slot_of g key
      ≡ (if str_eq e.key key then Option.map (place_slot e) (slot_of h key) else slot_of h key)
slot_of-put h e config key p =
    let (b, q, same) = put-some h e config p in
    rw (same, slot_of-with_slot h e.key key (place_slot e (slot_or_nil (lookup e.key b))) b q)
      (elim (Bool-cases (str_eq e.key key)) [
        | inl hit ↦ rw (hit, ← (str_eq_iff e.key key).0 hit, slot_of-bucket h e.key q)
        | inr miss ↦ rw miss
      ])

-- Whatever the cache holds, after a Put that does not panic Get finds the entry just stored, for
-- the request that it answered, as long as it is fresh.
pub get-put :
    (h : HttpCache) (e : Entry) (config : Config) (stale : Bool) (clock : Clock) {g : HttpCache}
    {ts : List Task}
    → put h e config ≡ some (g, ts)
    → StaysFresh e clock
    → get g e.key e.request stale clock ≡ some (some e)
unfolding place_slot
get-put h e config stale clock {g} p f =
    let (b, q, same) = put-some h e config p in
    rw
      (
        get-slot_of g e.key e.request stale clock,
        slot_of-put h e config e.key p,
        str_eq_refl e.key,
        slot_of-bucket h e.key q,
      )
      (rw (find_entry-place e (slot_or_nil (lookup e.key b)).live stale clock f))

-- After a Put that does not panic, Get answers under every other key as before it.
pub get-put_ne :
    (h : HttpCache) (e : Entry) (config : Config) (key : Str) (req : Request) (stale : Bool)
    (clock : Clock) {g : HttpCache} {ts : List Task}
    → put h e config ≡ some (g, ts)
    → e.key ≢ key
    → get g key req stale clock ≡ get h key req stale clock
get-put_ne h e config key req stale clock {g} p n = rw (
  get-slot_of g key req stale clock,
  get-slot_of h key req stale clock,
  slot_of-put h e config key p,
  str_eq_of_ne n,
)

-- What Get returns is stored under the key, answers the request, and was fresh at a reading of the
-- clock unless stale entries are asked for.
pub get_sound :
    (h : HttpCache) (key : Str) (req : Request) (stale : Bool) (clock : Clock) (e : Entry)
    → get h key req stale clock ≡ some (some e)
    → (s : Slot) × (slot_of h key ≡ some s)
      × Among e s.live
      × (match_vary req e ≡ true)
      × WasFresh e stale clock
unfolding get
get_sound h key req stale clock e p = elim (Option-cases (bucket_of h key)) [
  | inl n ↦ absurd (ground (arith, n))
  | inr (b, q) ↦
      let (a, m, f) =
        find_entry_sound (slot_or_nil (lookup key b)).live req stale clock e (ground (arith, q)) in
      (slot_or_nil (lookup key b), slot_of-bucket h key q, a, m, f)
]

-- If the slot of a key holds an entry that answers the request and stays fresh, Get does not
-- report a miss.
pub get_complete :
    (h : HttpCache) (key : Str) (req : Request) (stale : Bool) (clock : Clock) (s : Slot)
    (e : Entry)
    → slot_of h key ≡ some s
    → Among e s.live
    → match_vary req e ≡ true
    → StaysFresh e clock
    → (x : Entry) × (get h key req stale clock ≡ some (some x))
get_complete h key req stale clock s e q a m f =
    let (x, found) = find_entry_complete s.live req stale clock e a m f in
    (x, rw (get-slot_of h key req stale clock, q, found))
