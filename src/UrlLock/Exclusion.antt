-- ===== src/UrlLock/Exclusion.antt =====
-- What Acquire of url_lock.go promises: one thread at a time for a key.
use cdp_cache.Base.{ℕ, ◌≡◌, List, arith}
use cdp_cache.Base.Text.{Str}
use cdp_cache.Config.{Config}
use cdp_cache.UrlLock.{holding, bucket, Event, run, start}
use cdp_cache.UrlLock.Invariant.{reached-Inv}

-- Under every schedule of any number of threads, two threads that both hold the lock of a key, as
-- between the return of Acquire and Unlock, are one thread.
pub mutual_exclusion :
    (config : Config) (es : List (ℕ × Event)) (i j : ℕ) (key : Str) (a b : ℕ)
    → (run es (start config)).pc i ≡ holding key a
    → (run es (start config)).pc j ≡ holding key b
    → i ≡ j
mutual_exclusion config es i j key a b p q =
    let v = reached-Inv config es in
    ground (arith, v.in_table i key a, v.in_table j key b, v.owned_unique i j a)

-- One mutex stands for one key: two threads that hold one mutex under two keys hold it under the
-- same key.
pub locks_are_separate :
    (config : Config) (es : List (ℕ × Event)) (i j : ℕ) (key other : Str) (a : ℕ)
    → (run es (start config)).pc i ≡ holding key a
    → (run es (start config)).pc j ≡ holding other a
    → key ≡ other
locks_are_separate config es i j key other a p q =
    let v = reached-Inv config es in
    let l = (run es (start config)).locks in
    ground (
      arith,
      v.in_table i key a,
      v.in_table j other a,
      v.one_key (bucket l key) (bucket l other) key other a,
    )
