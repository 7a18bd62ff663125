-- ===== src/Store.antt =====
-- HTTPCache of cache.go: buckets of maps from cache keys to lists of entries.
-- A slice is its live part and the cells that deletions have vacated behind it, which Del still
-- reads. `none` as a result is the panic of an index out of range.
pub mod Cleaning
pub mod Place
pub mod Lookup
pub mod Invariant
pub mod Listing
pub mod Purge
pub mod Skipped
pub mod Reload
pub mod History
pub mod Puts
pub mod Spec
pub mod Shared
pub mod Bodies
pub mod Tests
use cdp_cache.Base.{
  ℕ, zero, suc, Bool, true, false, ◌&&◌, ◌||◌, Option, none, some, List, [], ◌∷◌, ◌++◌,
  if◌then◌else◌, get_elem?, set, replicate, drop,
}
use cdp_cache.Base.Int.{ℤ, pos, ◌+ℤ◌, magnitude, ltb_ℤ}
use cdp_cache.Base.Text.{Str}
use cdp_cache.Base.Assoc.{lookup, insert}
use cdp_cache.Http.{Request}
use cdp_cache.Config.{Config}
use cdp_cache.Status.{Clock}
use cdp_cache.Bucket.{bucket_index}
use cdp_cache.Entry.{Entry, is_fresh, match_vary}

-- A slice of entries: its elements, and what its array holds behind them.
pub record Slot : Type 0 where
  pub live : List Entry
  pub vacated : List Entry

abbrev pub Bucket : Type 0
Bucket = List (Str × Slot)

pub record HttpCache : Type 0 where
  pub cache_key_template : Str
  pub cache_buckets_num : ℕ
  pub entries : List Bucket
  pub is_distributed : Bool

-- What NewHTTPCache returns where `make` does not panic. The argument is the package variable
-- `entries`, `none` before the first call: the buckets are made once, and a later call takes them
-- over whatever their number is. math.Mod ignores the sign of the number of buckets.
unfoldable pub made_http_cache : Option (List Bucket) → Config → Bool → HttpCache
made_http_cache kept config distributed_on = record {
  cache_key_template = config.cache_key_template;
  cache_buckets_num = magnitude config.cache_buckets_num;
  entries = buckets kept;
  is_distributed = distributed_on;
}
  where
    buckets : Option (List Bucket) → List Bucket
    buckets none = replicate (magnitude config.cache_buckets_num) []
    buckets (some old) = old

-- NewHTTPCache; `none` is the panic of `make` for a negative number of buckets.
unfoldable pub new_http_cache : Option (List Bucket) → Config → Bool → Option HttpCache
new_http_cache none config distributed_on =
    if ltb_ℤ config.cache_buckets_num (pos 0)
    then none
    else some (made_http_cache none config distributed_on)
new_http_cache (some old) config distributed_on =
    some (made_http_cache (some old) config distributed_on)

infixl 5 ◌>>=◌
abbrev pub ◌>>=◌ {ℓ κ} : {A : Type ℓ} {B : Type κ} → Option A → (A → Option B) → Option B
none >>= f = none
some a >>= f = f a

-- The bucket of a key; `none` if its index is out of range.
unfoldable pub bucket_of : HttpCache → Str → Option Bucket
bucket_of h key = get_elem? h.entries (bucket_index h.cache_buckets_num key)

abbrev pub nil_slot : Slot
nil_slot = record { live = []; vacated = [] }

-- What a Go map gives for a key that may be missing.
abbrev pub slot_or_nil : Option Slot → Slot
slot_or_nil none = nil_slot
slot_or_nil (some s) = s

-- The clock after one reading.
abbrev pub later : Clock → Clock
later clock n = clock (suc n)

-- The loop of Get. Each round reads the clock once.
unfoldable pub find_entry : List Entry → Request → Bool → Clock → Option Entry
find_entry [] req include_stale clock = none
find_entry (e ∷ es) req include_stale clock =
    if (is_fresh e (clock 0) || include_stale) && match_vary req e
    then some e
    else find_entry es req include_stale (later clock)

-- Get: `some none` is the answer (nil, false).
unfoldable pub get : HttpCache → Str → Request → Bool → Clock → Option (Option Entry)
unfolding bucket_of find_entry
get h key req include_stale clock = do
  bucket ← bucket_of h key
  some (find_entry (slot_or_nil (lookup key bucket)).live req include_stale clock)

-- What runs later, in a goroutine of its own.
pub data Task : Type 0 where
  -- scheduleCleanEntry: cleanEntry at the given time
  clean_later : ℤ → Entry → Task
  -- `go previousEntry.Clean()`
  clean_body : Entry → Task

-- The loop of Put and the append behind it: the new entry takes the place of the first one that
-- its request matches.
unfoldable pub place : Entry → List Entry → List Entry
place e [] = e ∷ []
place e (x ∷ xs) = if match_vary e.request x then e ∷ xs else x ∷ place e xs

-- The entry whose place the loop takes.
unfoldable pub replaced : Entry → List Entry → Option Entry
replaced e [] = none
replaced e (x ∷ xs) = if match_vary e.request x then some x else replaced e xs

-- An append writes over the first vacated cell, if there is one.
unfoldable pub place_slot : Entry → Slot → Slot
unfolding place replaced
place_slot e s = record {
  live = place e s.live;
  vacated = elim (replaced e s.live) [ none ↦ drop 1 s.vacated | some x ↦ s.vacated ];
}

abbrev pub clean_replaced : Option Entry → List Task
clean_replaced none = []
clean_replaced (some x) = clean_body x ∷ []

abbrev pub with_slot : HttpCache → Str → Slot → Bucket → HttpCache
with_slot h key slot bucket = record h {
  entries = set h.entries (bucket_index h.cache_buckets_num key) (insert key slot bucket);
}

-- Put: the cache after it, and the tasks that it starts.
unfoldable pub put : HttpCache → Entry → Config → Option (HttpCache × List Task)
unfolding bucket_of place_slot
put h e config = do
  bucket ← bucket_of h e.key
  let slot = slot_or_nil (lookup e.key bucket)
  some (
    with_slot h e.key (place_slot e slot) bucket,
    clean_later (e.expiration +ℤ config.stale_max_age) e ∷ clean_replaced (replaced e slot.live),
  )

-- The loop of Keys over one map.
unfoldable pub bucket_keys : Bucket → List Str
bucket_keys [] = []
bucket_keys ((k, s) ∷ b) = elim s.live [ [] ↦ bucket_keys b | e ∷ es ↦ k ∷ bucket_keys b ]

unfoldable pub all_keys : List Bucket → List Str
unfolding bucket_keys
all_keys [] = []
all_keys (b ∷ bs) = bucket_keys b ++ all_keys bs

-- Keys
unfoldable pub keys : HttpCache → List Str
unfolding all_keys
keys h = all_keys h.entries
