-- ===== src/UrlLock/Stall.antt =====
-- What Acquire of url_lock.go costs: it waits for the mutex of a key with the mutex of the bucket.
use cdp_cache.Base.{
  ℕ, ◌≡◌, ◌≢◌, refl, inl, inr, true, false, Option, none, some, List, [], ◌∷◌, All, arith,
  Bool-cases,
}
use cdp_cache.Base.Text.{Str}
use cdp_cache.Config.{Config}
use cdp_cache.UrlLock.{
  UrlLock, add_key, set_global, set_taken, Pc, idle, calling, inside, found, leaving, holding,
  update, bucket, Event, asks, runs, look_up, advance, System, moved, step, run, start,
}
use cdp_cache.UrlLock.Invariant.{owned, Inv, step-Inv, reached-Inv}

-- Thread w waits for the mutex a, which is taken, and thread i calls Acquire for a key of the
-- bucket that w is in.
pub record Waits (i w : ℕ) (key waited : Str) (a : ℕ) (l : UrlLock) (pc : ℕ → Pc) : Type 0 where
  pub waiting : pc w ≡ found waited a
  pub taken : l.taken a ≡ true
  pub caller : pc i ≡ calling key
  pub same_bucket : bucket l key ≡ bucket l waited

module _ (o i w : ℕ) (key waited : Str) (a : ℕ) where
  abbrev Stuck : UrlLock → (ℕ → Pc) → Type 0
  Stuck l pc = Waits i w key waited a l pc × (owned (pc o) ≡ some a)

  module _ {l : UrlLock} {pc : ℕ → Pc} (v : Inv l pc) (h : Stuck l pc) (j : ℕ) (other : j ≢ o) where
    abbrev After : Option (UrlLock × Pc) → Type 0
    After none = Unit
    After (some (m, q)) = Stuck m (update pc j q)

    -- A move of a thread that is none of the three, and takes nothing from them.
    past :
        (m : UrlLock) (q : Pc)
        → j ≢ i
        → j ≢ w
        → m.taken a ≡ true
        → m.url_lock_buckets_size ≡ l.url_lock_buckets_size
        → Stuck m (update pc j q)
    past m q ni nw t n = (
      record {
        waiting = ground (arith, h.0.waiting);
        taken = t;
        caller = ground (arith, h.0.caller);
        same_bucket = rw n h.0.same_bucket;
      },
      ground (arith, h.1),
    )

    look_up-After : (k : Str) (x : Option ℕ) → pc j ≡ inside k → After (some (look_up l k x))
    unfolding look_up
    look_up-After k none e =
        past (add_key l k) (found k l.allocated) (λ q. ground arith) (λ q. ground arith) h.0.taken
          refl
    look_up-After k (some b) e =
        past l (found k b) (λ q. ground arith) (λ q. ground arith) h.0.taken refl

    advance-After : (event : Event) (p : Pc) → pc j ≡ p → After (advance event l p)
    unfolding advance
    advance-After (asks k) idle e =
        past l (calling k) (λ q. ground arith) (λ q. ground arith) h.0.taken refl
    advance-After (asks k) (calling _) e = tt
    advance-After (asks k) (inside _) e = tt
    advance-After (asks k) (found _ _) e = tt
    advance-After (asks k) (leaving _ _) e = tt
    advance-After (asks k) (holding _ _) e = tt
    advance-After runs idle e = tt
    advance-After runs (calling k) e = elim (Bool-cases (l.global_locks (bucket l k))) [
      | inl busy ↦ rw busy tt
      | inr free ↦ rw free (
          past (set_global l (bucket l k) true) (inside k)
            (λ q. ground (arith, v.bucket_locked w waited, h.0.waiting, h.0.same_bucket))
            (λ q. ground arith) h.0.taken refl)
    ]
    advance-After runs (inside k) e = look_up-After k (l.keys (bucket l k) k) e
    advance-After runs (found k b) e = elim (Bool-cases (l.taken b)) [
      | inl busy ↦ rw busy tt
      | inr free ↦ rw free (
          past (set_taken l b true) (leaving k b) (λ q. ground arith) (λ q. ground arith)
            (ground arith) refl)
    ]
    advance-After runs (leaving k b) e =
        past (set_global l (bucket l k) false) (holding k b) (λ q. ground arith) (λ q. ground arith)
          h.0.taken refl
    advance-After runs (holding k b) e =
        past (set_taken l b false) idle (λ q. ground arith) (λ q. ground arith)
          (ground (arith, v.owned_unique j o a)) refl

  moved-Stuck :
      (s : System) (j : ℕ) (x : Option (UrlLock × Pc)) (v : Inv s.locks s.pc)
      (h : Stuck s.locks s.pc) (other : j ≢ o)
      → After v h j other x
      → Stuck (moved s j x).locks (moved s j x).pc
  moved-Stuck s j none v h other k = h
  moved-Stuck s j (some (m, q)) v h other k = k

  run-Stuck :
      (es : List (ℕ × Event)) (s : System)
      → Inv s.locks s.pc
      → Stuck s.locks s.pc
      → All (λ e. e.0 ≢ o) es
      → Stuck (run es s).locks (run es s).pc
  unfolding run step
  run-Stuck [] s v h others = h
  run-Stuck ((j, event) ∷ es) s v h (other, others) =
      run-Stuck es (step s j event) (step-Inv s j event v)
        (moved-Stuck s j (advance event s.locks (s.pc j)) v h other
          (advance-After v h j other event (s.pc j) refl))
        others

-- If a thread waits in Acquire for a key that thread o holds, then, as long as thread o does not
-- move, no thread that calls Acquire for any key of the same bucket gets beyond the call, whatever
-- all others do: a request that never ends stops every request of its bucket.
pub bucket_stalls :
    (config : Config) (es later : List (ℕ × Event)) (o i w : ℕ) (held key waited : Str) (a : ℕ)
    → (run es (start config)).pc o ≡ holding held a
    → Waits i w key waited a (run es (start config)).locks (run es (start config)).pc
    → All (λ e. e.0 ≢ o) later
    → (run later (run es (start config))).pc i ≡ calling key
bucket_stalls config es later o i w held key waited a owner h others =
    (run-Stuck o i w key waited a later (run es (start config)) (reached-Inv config es)
      (h, ground arith) others).0.caller
