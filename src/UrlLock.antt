-- ===== src/UrlLock.antt =====
-- URLLock of url_lock.go, and the threads of ServeHTTP (handler.go) that call it.
-- A thread moves by one access to shared memory at a time; a mutex that is taken stops it. The
-- slices are functions of an index, which for a positive number of buckets is always in range. A
-- mutex that `new` makes is the next number that is not in use.
pub mod Invariant
pub mod Exclusion
pub mod Owners
pub mod Progress
pub mod Stall
pub mod Tests
use cdp_cache.Base.{
  ℕ, suc, Bool, true, false, Option, none, some, List, [], ◌∷◌, ◌==◌, ◌&&◌, if◌then◌else◌,
}
use cdp_cache.Base.Int.{pos_part}
use cdp_cache.Base.Text.{Str, str_eq}
use cdp_cache.Config.{Config}
use cdp_cache.Bucket.{bucket_index}

pub record UrlLock : Type 0 where
  pub global_locks : ℕ → Bool
  pub keys : ℕ → Str → Option ℕ
  pub url_lock_buckets_size : ℕ
  -- which mutexes of `keys` are taken, and how many there are
  pub taken : ℕ → Bool
  pub allocated : ℕ

-- NewURLLock, for a number of buckets that is not negative: `make` panics otherwise (Provision).
unfoldable pub new_url_lock : Config → UrlLock
new_url_lock config = record {
  global_locks = λ b. false;
  keys = λ b k. none;
  url_lock_buckets_size = pos_part config.cache_buckets_num;
  taken = λ a. false;
  allocated = 0;
}

-- Where a thread stands: before Acquire; in it, with the bucket's mutex; with the key's mutex
-- looked up; with both; after it, with the key's mutex only.
pub data Pc : Type 0 where
  idle : Pc
  calling : Str → Pc
  inside : Str → Pc
  found : Str → ℕ → Pc
  leaving : Str → ℕ → Pc
  holding : Str → ℕ → Pc

abbrev pub update {ℓ} : {A : Type ℓ} → (ℕ → A) → ℕ → A → ℕ → A
update f i v j = if i == j then v else f j

abbrev pub bucket : UrlLock → Str → ℕ
bucket l key = bucket_index l.url_lock_buckets_size key

abbrev pub set_global : UrlLock → ℕ → Bool → UrlLock
set_global l b v = record l { global_locks = update l.global_locks b v }

abbrev pub set_taken : UrlLock → ℕ → Bool → UrlLock
set_taken l a v = record l { taken = update l.taken a v }

-- A new mutex under a key.
abbrev pub add_key : UrlLock → Str → UrlLock
add_key l key = record l {
  keys = λ b k. if (bucket l key == b) && str_eq key k then some l.allocated else l.keys b k;
  allocated = suc l.allocated;
}

-- `lock, exists := allLocks.keys[bucketIndex][key]`, with what follows if it does not exist.
unfoldable pub look_up : UrlLock → Str → Option ℕ → UrlLock × Pc
look_up l key (some a) = (l, found key a)
look_up l key none = (add_key l key, found key l.allocated)

-- A thread asks for a key, or runs on by one access; `none` if it cannot.
pub data Event : Type 0 where
  asks : Str → Event
  runs : Event

unfoldable pub advance : Event → UrlLock → Pc → Option (UrlLock × Pc)
unfolding look_up
advance (asks key) l idle = some (l, calling key)
advance (asks key) l p = none
advance runs l idle = none
-- Lock of the bucket's mutex
advance runs l (calling key) =
    if l.global_locks (bucket l key)
    then none
    else some (set_global l (bucket l key) true, inside key)
advance runs l (inside key) = some (look_up l key (l.keys (bucket l key) key))
-- Lock of the key's mutex
advance runs l (found key a) = if l.taken a then none else some (set_taken l a true, leaving key a)
-- the deferred Unlock
advance runs l (leaving key a) = some (set_global l (bucket l key) false, holding key a)
-- `defer lock.Unlock()` of ServeHTTP
advance runs l (holding key a) = some (set_taken l a false, idle)

pub record System : Type 0 where
  pub locks : UrlLock
  pub pc : ℕ → Pc

abbrev pub moved : System → ℕ → Option (UrlLock × Pc) → System
moved s i none = s
moved s i (some (l, p)) = record { locks = l; pc = update s.pc i p }

-- Thread i moves if it can.
unfoldable pub step : System → ℕ → Event → System
unfolding advance
step s i event = moved s i (advance event s.locks (s.pc i))

unfoldable pub run : List (ℕ × Event) → System → System
run [] s = s
run ((i, event) ∷ es) s = run es (step s i event)

unfoldable pub start : Config → System
unfolding new_url_lock
start config = record { locks = new_url_lock config; pc = λ i. idle }
