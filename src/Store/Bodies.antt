-- ===== src/Store/Bodies.antt =====
-- The cache of cache.go with the goroutines that it has started, scheduleCleanEntry's and those of
-- `go previousEntry.Clean()`, and the bodies that Clean has been called on. A goroutine is one
-- atomic step here: cleanEntry holds the lock of the bucket. Only without a cluster, where
-- cleanEntry itself cleans the body.
pub mod Counting
pub mod Effects
pub mod Deletes
pub mod Balance
pub mod Drain
pub mod Tests
use cdp_cache.Base.{
  ℕ, zero, suc, ◌+◌, Bool, true, false, ◌==◌, ◌&&◌, Option, none, some, List, [], ◌∷◌, ◌++◌,
  if◌then◌else◌,
}
use cdp_cache.Base.Text.{Str, str_eq}
use cdp_cache.Config.{Config}
use cdp_cache.Status.{Clock}
use cdp_cache.Entry.{Entry}
use cdp_cache.Store.{HttpCache, ◌>>=◌, Slot, Task, clean_later, clean_body, put, slot_or_nil}
use cdp_cache.Store.Cleaning.{Outside, clean_entry, del}
use cdp_cache.Store.Lookup.{slot_of}
use cdp_cache.Store.Spec.{live_list}

pub record System : Type 0 where
  pub cache : HttpCache
  pub pending : List Task
  pub cleaned : List Entry

pub data Event : Type 0 where
  -- Put
  stores : Entry → Config → Event
  -- Del
  dels : Str → Clock → Event
  -- the body of the goroutine with the given number, of the last one if there are not as many
  runs : ℕ → Event

-- One of the goroutines, and the others.
unfoldable pub pick : ℕ → Task → List Task → Task × List Task
pick n t [] = (t, [])
pick zero t (u ∷ ts) = (t, u ∷ ts)
pick (suc n) t (u ∷ ts) = let (v, rest) = pick n u ts in (v, t ∷ rest)

-- The body of a goroutine. The time it waits for is not modelled: it may come at any point.
unfoldable pub perform : Outside → HttpCache → List Entry → Task × List Task → Option System
perform o h done (clean_later t e, rest) = do
  r ← clean_entry o h e
  some (record { cache = r.0; pending = rest; cleaned = done ++ r.1.0 })
perform o h done (clean_body e, rest) =
    some (record { cache = h; pending = rest; cleaned = done ++ (e ∷ []) })

-- One goroutine of those that wait, if there is one.
unfoldable pub wake : Outside → ℕ → HttpCache → List Entry → List Task → Option System
unfolding pick perform
wake o n h done [] = some (record { cache = h; pending = []; cleaned = done })
wake o n h done (t ∷ ts) = perform o h done (pick n t ts)

unfoldable pub next : Outside → System → Event → Option System
unfolding wake
next o s (stores e config) = do
  r ← put s.cache e config
  some (record s { cache = r.0; pending = s.pending ++ r.1 })
next o s (dels key clock) = do
  r ← del o key clock s.cache
  some (record s { cache = r.0; cleaned = s.cleaned ++ r.1.0 })
next o s (runs n) = wake o n s.cache s.cleaned s.pending

-- The system after the events; `none` is a panic.
unfoldable pub history : Outside → System → List Event → Option System
unfolding next
history o s [] = some s
history o s (v ∷ vs) = next o s v >>= λ t. history o t vs

-- The sum of a measure over a list.
abbrev pub total {ℓ} : {A : Type ℓ} → (A → ℕ) → List A → ℕ
total f [] = 0
total f (a ∷ rest) = f a + total f rest

-- One for the body at the address k of an entry under the key j, else nothing.
abbrev pub one_if : Bool → ℕ
one_if true = 1
one_if false = 0

unfoldable pub is_body : Str → ℕ → Entry → ℕ
is_body j k e = one_if (str_eq e.key j && (e.ident == k))

-- A goroutine that cleans the body, and one that removes the entry.
abbrev pub cleans_body : Str → ℕ → Task → ℕ
cleans_body j k (clean_later t e) = 0
cleans_body j k (clean_body e) = is_body j k e

abbrev pub removes_entry : Str → ℕ → Task → ℕ
removes_entry j k (clean_later t e) = is_body j k e
removes_entry j k (clean_body e) = 0

abbrev pub stored_by : Str → ℕ → Event → ℕ
stored_by j k (stores e config) = is_body j k e
stored_by j k (dels key clock) = 0
stored_by j k (runs n) = 0

-- How often the body is in the cache.
unfoldable pub in_cache : Str → ℕ → HttpCache → ℕ
in_cache j k h = total (is_body j k) (live_list (slot_of h j))
