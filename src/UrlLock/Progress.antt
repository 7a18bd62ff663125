-- ===== src/UrlLock/Progress.antt =====
-- Acquire of url_lock.go does not deadlock.
use cdp_cache.Base.{ℕ, ◌≡◌, ◌≢◌, refl, inl, inr, true, false, some, List, arith, Bool-cases}
use cdp_cache.Base.Text.{Str}
use cdp_cache.Config.{Config}
use cdp_cache.UrlLock.{
  UrlLock, set_global, set_taken, Pc, idle, calling, inside, found, leaving, holding, bucket, Event,
  runs, look_up, advance, run, start,
}
use cdp_cache.UrlLock.Invariant.{in_bucket, owned}
use cdp_cache.UrlLock.Owners.{Owners, reached-Owners}

abbrev pub CanMove : UrlLock → Pc → Type 0
CanMove l p = (x : UrlLock × Pc) × (advance runs l p ≡ some x)

module _ {l : UrlLock} {pc : ℕ → Pc} (o : Owners l pc) where
  abbrev Someone : Type 0
  Someone = (j : ℕ) × CanMove l (pc j)

  owner_moves : (j : ℕ) (p : Pc) (a : ℕ) → pc j ≡ p → owned p ≡ some a → Someone
  unfolding advance
  owner_moves j idle a e h = absurd (ground arith)
  owner_moves j (calling _) a e h = absurd (ground arith)
  owner_moves j (inside _) a e h = absurd (ground arith)
  owner_moves j (found _ _) a e h = absurd (ground arith)
  owner_moves j (leaving k b) a e h =
      (j, ((set_global l (bucket l k) false, holding k b), rw e refl))
  owner_moves j (holding k b) a e h = (j, ((set_taken l b false, idle), rw e refl))

  -- Who waits for the mutex of a key can take it, or its owner can move.
  found_moves : (j : ℕ) (k : Str) (a : ℕ) → pc j ≡ found k a → Someone
  unfolding advance
  found_moves j k a e = elim (Bool-cases (l.taken a)) [
    | inl busy ↦ let (n, has) = o.of_key a busy in owner_moves n (pc n) a refl has
    | inr free ↦ (j, ((set_taken l a true, leaving k a), rw (e, free) refl))
  ]

  inside_moves : (j : ℕ) (k : Str) → pc j ≡ inside k → Someone
  unfolding advance
  inside_moves j k e = (j, (look_up l k (l.keys (bucket l k) k), rw e refl))

  -- Who is in a bucket can move, or waits for somebody who can.
  in_bucket_moves : (j : ℕ) (p : Pc) (k : Str) → pc j ≡ p → in_bucket p ≡ some k → Someone
  in_bucket_moves j idle k e h = absurd (ground arith)
  in_bucket_moves j (calling _) k e h = absurd (ground arith)
  in_bucket_moves j (holding _ _) k e h = absurd (ground arith)
  in_bucket_moves j (inside k') k e h = inside_moves j k' e
  in_bucket_moves j (found k' a) k e h = found_moves j k' a e
  in_bucket_moves j (leaving k' a) k e h = owner_moves j (leaving k' a) a e refl

  calling_moves : (j : ℕ) (k : Str) → pc j ≡ calling k → Someone
  unfolding advance
  calling_moves j k e = elim (Bool-cases (l.global_locks (bucket l k))) [
    | inl busy ↦
        let (n, k', has, at) = o.of_bucket (bucket l k) busy in in_bucket_moves n (pc n) k' refl has
    | inr free ↦ (j, ((set_global l (bucket l k) true, inside k), rw (e, free) refl))
  ]

  anyone_moves : (i : ℕ) (p : Pc) → pc i ≡ p → p ≢ idle → Someone
  anyone_moves i idle e n = absurd (n refl)
  anyone_moves i (calling k) e n = calling_moves i k e
  anyone_moves i (inside k) e n = inside_moves i k e
  anyone_moves i (found k a) e n = found_moves i k a e
  anyone_moves i (leaving k a) e n = owner_moves i (leaving k a) a e refl
  anyone_moves i (holding k a) e n = owner_moves i (holding k a) a e refl

-- Under every schedule: as long as some thread is in Acquire or holds a lock, some thread can move.
pub acquire_no_deadlock :
    (config : Config) (es : List (ℕ × Event)) (i : ℕ)
    → (run es (start config)).pc i ≢ idle
    → (j : ℕ) × CanMove (run es (start config)).locks ((run es (start config)).pc j)
acquire_no_deadlock config es i n =
    anyone_moves (reached-Owners config es) i ((run es (start config)).pc i) refl n
