-- ===== src/UrlLock/Tests.antt =====
-- Schedules of threads that call Acquire, and the theorems at them.
use cdp_cache.Base.{ℕ, ◌≡◌, refl, List, [], ◌∷◌, arith}
use cdp_cache.Base.Int.{pos}
use cdp_cache.Base.Text.{codes, str_eq}
use cdp_cache.Config.{Config, get_default_config}
use cdp_cache.Bucket.{bucket_index, checksum_ieee}
use cdp_cache.UrlLock.{
  calling, found, holding, Event, asks, runs, System, step, run, start, look_up, advance,
}
use cdp_cache.UrlLock.Exclusion.{mutual_exclusion}
use cdp_cache.UrlLock.Progress.{CanMove, acquire_no_deadlock}
use cdp_cache.UrlLock.Stall.{bucket_stalls}

locks : Unit {0}
unfolding get_default_config str_eq bucket_index checksum_ieee step run start look_up advance
locks = tt

abbrev one_bucket : Config
one_bucket = record default { cache_buckets_num = pos 1 }
  where
    default : Config
    default = get_default_config

-- Thread 0 acquires "a", thread 1 waits for it, and thread 2 calls Acquire for "b".
abbrev queue : List (ℕ × Event)
queue =
    (0, asks (codes "a"))
    ∷ (0, runs)
    ∷ (0, runs)
    ∷ (0, runs)
    ∷ (0, runs)
    ∷ (1, asks (codes "a"))
    ∷ (1, runs)
    ∷ (1, runs)
    ∷ (1, runs)
    ∷ (2, asks (codes "b"))
    ∷ (2, runs)
    ∷ []

abbrev queued : System
queued = run queue (start one_bucket)

queue_test :
    (queued.pc 0 ≡ holding (codes "a") 0)
    × (queued.pc 1 ≡ found (codes "a") 0)
    × (queued.pc 2 ≡ calling (codes "b"))
unfolding locks
queue_test = (refl, refl, refl)

-- After the release of "a", thread 1 and then thread 2 get their locks.
abbrev release : List (ℕ × Event)
release = (0, runs) ∷ (1, runs) ∷ (1, runs) ∷ (2, runs) ∷ (2, runs) ∷ (2, runs) ∷ (2, runs) ∷ []

release_test :
    ((run release queued).pc 1 ≡ holding (codes "a") 0)
    × ((run release queued).pc 2 ≡ holding (codes "b") 1)
unfolding locks
release_test = (refl, refl)

mutual_exclusion_example : ◌≡◌ {A = ℕ} 0 0
unfolding locks
mutual_exclusion_example = mutual_exclusion one_bucket queue 0 0 (codes "a") 0 0 refl refl

acquire_no_deadlock_example : (j : ℕ) × CanMove queued.locks (queued.pc j)
unfolding locks
acquire_no_deadlock_example = acquire_no_deadlock one_bucket queue 2 (λ e. cc)

bucket_stalls_example : (run ((2, runs) ∷ (1, runs) ∷ []) queued).pc 2 ≡ calling (codes "b")
unfolding locks
bucket_stalls_example =
    bucket_stalls one_bucket queue ((2, runs) ∷ (1, runs) ∷ []) 0 2 1 (codes "a") (codes "b")
      (codes "a") 0 refl
      (record { waiting = refl; taken = refl; caller = refl; same_bucket = refl })
      ((λ e. omega arith), ((λ e. omega arith), tt))
