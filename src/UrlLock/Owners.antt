-- ===== src/UrlLock/Owners.antt =====
-- Every mutex of url_lock.go that is taken has an owner.
use cdp_cache.Base.{
  ℕ, ◌≡◌, refl, inl, inr, true, false, Option, none, some, List, [], ◌∷◌, ◌==◌, arith, Bool-cases,
}
use cdp_cache.Base.Text.{Str}
use cdp_cache.Config.{Config}
use cdp_cache.UrlLock.{
  UrlLock, add_key, Pc, idle, calling, inside, found, leaving, holding, update, bucket, Event, asks,
  runs, look_up, advance, System, moved, step, run, start,
}
use cdp_cache.UrlLock.Invariant.{in_bucket, owned, Inv, step-Inv, start-Inv}

-- Every mutex that is taken is some thread's.
pub record Owners (l : UrlLock) (pc : ℕ → Pc) : Type 0 where
  pub of_bucket :
      (b : ℕ)
      → l.global_locks b ≡ true
      → (i : ℕ) × (k : Str) × (in_bucket (pc i) ≡ some k) × (bucket l k ≡ b)
  pub of_key : (a : ℕ) → l.taken a ≡ true → (i : ℕ) × (owned (pc i) ≡ some a)

start-Owners : (config : Config) → Owners (start config).locks (start config).pc
unfolding start
start-Owners config = record {
  of_bucket = λ b h. absurd (ground arith);
  of_key = λ a h. absurd (ground arith);
}

module _ {l : UrlLock} {pc : ℕ → Pc} (v : Inv l pc) (o : Owners l pc) (i : ℕ) where
  -- A move that leaves the mutexes as they are, and what the thread has.
  still :
      (m : UrlLock) (p : Pc)
      → m.global_locks ≡ l.global_locks
      → m.taken ≡ l.taken
      → m.url_lock_buckets_size ≡ l.url_lock_buckets_size
      → in_bucket p ≡ in_bucket (pc i)
      → owned p ≡ owned (pc i)
      → Owners m (update pc i p)
  still m p g t n b w = record {
    of_bucket = λ c h.
        let (j, k, has, at) = o.of_bucket c (ground (arith, g)) in
        (j, k, ground arith, ground (arith, n));
    of_key = λ a h. let (j, has) = o.of_key a (ground (arith, t)) in (j, ground arith);
  }

  enter :
      (k : Str)
      → pc i ≡ calling k
      → Owners
          (record l { global_locks = update l.global_locks (bucket l k) true })
          (update pc i (inside k))
  enter k p = record {
    of_bucket = λ c h. elim (Bool-cases (bucket l k == c)) [
      | inl same ↦ (i, k, ground arith, ground (arith, same))
      | inr other ↦
          let (j, k', has, at) = o.of_bucket c (ground (arith, other)) in (j, k', ground arith, at)
    ];
    of_key = λ a h. let (j, has) = o.of_key a h in (j, ground arith);
  }

  take :
      (k : Str) (a : ℕ)
      → pc i ≡ found k a
      → Owners (record l { taken = update l.taken a true }) (update pc i (leaving k a))
  take k a p = record {
    of_bucket = λ c h. let (j, k', has, at) = o.of_bucket c h in (j, k', ground arith, at);
    of_key = λ b h. elim (Bool-cases (a == b)) [
      | inl same ↦ (i, ground (arith, same))
      | inr other ↦ let (j, has) = o.of_key b (ground (arith, other)) in (j, ground arith)
    ];
  }

  leave :
      (k : Str) (a : ℕ)
      → pc i ≡ leaving k a
      → Owners
          (record l { global_locks = update l.global_locks (bucket l k) false })
          (update pc i (holding k a))
  leave k a p = record {
    of_bucket =
        λ c h. let (j, k', has, at) = o.of_bucket c (ground arith) in (j, k', ground arith, at);
    of_key = λ b h. let (j, has) = o.of_key b h in (j, ground arith);
  }

  release :
      (k : Str) (a : ℕ)
      → pc i ≡ holding k a
      → Owners (record l { taken = update l.taken a false }) (update pc i idle)
  release k a p = record {
    of_bucket = λ c h. let (j, k', has, at) = o.of_bucket c h in (j, k', ground arith, at);
    of_key = λ b h. let (j, has) = o.of_key b (ground arith) in (j, ground arith);
  }

  look_up-Owners :
      (k : Str) (x : Option ℕ)
      → pc i ≡ inside k
      → Owners (look_up l k x).0 (update pc i (look_up l k x).1)
  unfolding look_up
  look_up-Owners k none p =
      still (add_key l k) (found k l.allocated) refl refl refl (rw p refl) (rw p refl)
  look_up-Owners k (some a) p = still l (found k a) refl refl refl (rw p refl) (rw p refl)

  abbrev After : Option (UrlLock × Pc) → Type 0
  After none = Unit
  After (some (m, q)) = Owners m (update pc i q)

  advance-After : (event : Event) (p : Pc) → pc i ≡ p → After (advance event l p)
  unfolding advance
  advance-After (asks k) idle e = still l (calling k) refl refl refl (rw e refl) (rw e refl)
  advance-After (asks k) (calling _) e = tt
  advance-After (asks k) (inside _) e = tt
  advance-After (asks k) (found _ _) e = tt
  advance-After (asks k) (leaving _ _) e = tt
  advance-After (asks k) (holding _ _) e = tt
  advance-After runs idle e = tt
  advance-After runs (calling k) e = elim (Bool-cases (l.global_locks (bucket l k))) [
    | inl busy ↦ rw busy tt
    | inr free ↦ rw free (enter k e)
  ]
  advance-After runs (inside k) e = look_up-Owners k (l.keys (bucket l k) k) e
  advance-After runs (found k a) e = elim (Bool-cases (l.taken a)) [
    | inl busy ↦ rw busy tt
    | inr free ↦ rw free (take k a e)
  ]
  advance-After runs (leaving k a) e = leave k a e
  advance-After runs (holding k a) e = release k a e

moved-Owners :
    (s : System) (i : ℕ) (x : Option (UrlLock × Pc)) (v : Inv s.locks s.pc)
    (o : Owners s.locks s.pc)
    → After v o i x
    → Owners (moved s i x).locks (moved s i x).pc
moved-Owners s i none v o h = o
moved-Owners s i (some (m, q)) v o h = h

run-Owners :
    (es : List (ℕ × Event)) (s : System)
    → Inv s.locks s.pc
    → Owners s.locks s.pc
    → Owners (run es s).locks (run es s).pc
unfolding run step
run-Owners [] s v o = o
run-Owners ((i, event) ∷ es) s v o = run-Owners es (step s i event) (step-Inv s i event v) (
    moved-Owners s i (advance event s.locks (s.pc i)) v o (advance-After v o i event (s.pc i) refl))

pub reached-Owners :
    (config : Config) (es : List (ℕ × Event))
    → Owners (run es (start config)).locks (run es (start config)).pc
reached-Owners config es = run-Owners es (start config) (start-Inv config) (start-Owners config)
