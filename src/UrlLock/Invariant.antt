-- ===== src/UrlLock/Invariant.antt =====
-- What holds at every moment of the threads that call Acquire of url_lock.go.
use cdp_cache.Base.{
  ℕ, ◌≡◌, refl, inl, inr, true, false, Option, none, some, List, [], ◌∷◌, ◌<◌, arith, Bool-cases,
}
use cdp_cache.Base.Text.{Str, str_eq_iff}
use cdp_cache.Config.{Config}
use cdp_cache.UrlLock.{
  UrlLock, add_key, Pc, idle, calling, inside, found, leaving, holding, update, bucket, Event, asks,
  runs, look_up, advance, System, moved, step, run, start,
}

-- The key of a thread that has the mutex of a bucket.
abbrev pub in_bucket : Pc → Option Str
in_bucket (inside key) = some key
in_bucket (found key a) = some key
in_bucket (leaving key a) = some key
in_bucket p = none

-- The key and its mutex, where a thread has looked it up.
abbrev pub known : Pc → Option (Str × ℕ)
known (found key a) = some (key, a)
known (leaving key a) = some (key, a)
known (holding key a) = some (key, a)
known p = none

-- The mutex that a thread has taken.
abbrev pub owned : Pc → Option ℕ
owned (leaving key a) = some a
owned (holding key a) = some a
owned p = none

pub record Inv (l : UrlLock) (pc : ℕ → Pc) : Type 0 where
  pub bucket_locked :
      (i : ℕ) (k : Str) → in_bucket (pc i) ≡ some k → l.global_locks (bucket l k) ≡ true
  pub bucket_unique :
      (i j : ℕ) (k k' : Str)
      → in_bucket (pc i) ≡ some k
      → in_bucket (pc j) ≡ some k'
      → bucket l k ≡ bucket l k'
      → i ≡ j
  pub in_table :
      (i : ℕ) (k : Str) (a : ℕ) → known (pc i) ≡ some (k, a) → l.keys (bucket l k) k ≡ some a
  pub owned_taken : (i a : ℕ) → owned (pc i) ≡ some a → l.taken a ≡ true
  pub owned_unique : (i j a : ℕ) → owned (pc i) ≡ some a → owned (pc j) ≡ some a → i ≡ j
  pub below : (b : ℕ) (k : Str) (a : ℕ) → l.keys b k ≡ some a → a < l.allocated
  pub one_key :
      (b b' : ℕ) (k k' : Str) (a : ℕ) → l.keys b k ≡ some a → l.keys b' k' ≡ some a → k ≡ k'

pub start-Inv : (config : Config) → Inv (start config).locks (start config).pc
unfolding start
start-Inv config = record {
  bucket_locked = λ i k h. ground arith;
  bucket_unique = λ i j k k' h h' e. ground arith;
  in_table = λ i k a h. ground arith;
  owned_taken = λ i a h. ground arith;
  owned_unique = λ i j a h h'. ground arith;
  below = λ b k a h. ground arith;
  one_key = λ b b' k k' a h h'. ground arith;
}

module _ {l : UrlLock} {pc : ℕ → Pc} (v : Inv l pc) (i : ℕ) where
  enter-Inv :
      (k : Str)
      → pc i ≡ calling k
      → l.global_locks (bucket l k) ≡ false
      → Inv
          (record l { global_locks = update l.global_locks (bucket l k) true })
          (update pc i (inside k))
  enter-Inv k p free = record {
    bucket_locked = λ j k' h. ground (arith, v.bucket_locked j k', v.bucket_locked i k);
    bucket_unique = λ j j' k' k'' h h' e.
        ground (arith, v.bucket_unique j j' k' k'', v.bucket_locked j k', v.bucket_locked j' k'');
    in_table = λ j k' a h. ground (arith, v.in_table j k' a);
    owned_taken = λ j a h. ground (arith, v.owned_taken j a);
    owned_unique = λ j j' a h h'. ground (arith, v.owned_unique j j' a);
    below = v.below;
    one_key = v.one_key;
  }

  call-Inv : (k : Str) → pc i ≡ idle → Inv l (update pc i (calling k))
  call-Inv k p = record {
    bucket_locked = λ j k' h. ground (arith, v.bucket_locked j k');
    bucket_unique = λ j j' k' k'' h h' e. ground (arith, v.bucket_unique j j' k' k'');
    in_table = λ j k' a h. ground (arith, v.in_table j k' a);
    owned_taken = λ j a h. ground (arith, v.owned_taken j a);
    owned_unique = λ j j' a h h'. ground (arith, v.owned_unique j j' a);
    below = v.below;
    one_key = v.one_key;
  }

  find-Inv :
      (k : Str) (a : ℕ)
      → pc i ≡ inside k
      → l.keys (bucket l k) k ≡ some a
      → Inv l (update pc i (found k a))
  find-Inv k a p has = record {
    bucket_locked = λ j k' h. ground (arith, v.bucket_locked j k', v.bucket_locked i k);
    bucket_unique = λ j j' k' k'' h h' e.
        ground (
          arith,
          v.bucket_unique j j' k' k'',
          v.bucket_unique i j' k k'',
          v.bucket_unique j i k' k,
        );
    in_table = λ j k' b h. ground (arith, v.in_table j k' b);
    owned_taken = λ j b h. ground (arith, v.owned_taken j b);
    owned_unique = λ j j' b h h'. ground (arith, v.owned_unique j j' b);
    below = v.below;
    one_key = v.one_key;
  }

  make-Inv :
      (k : Str)
      → pc i ≡ inside k
      → l.keys (bucket l k) k ≡ none
      → Inv (add_key l k) (update pc i (found k l.allocated))
  make-Inv k p new = record {
    bucket_locked = λ j k' h. ground (arith, v.bucket_locked j k', v.bucket_locked i k);
    bucket_unique = λ j j' k' k'' h h' e.
        ground (
          arith,
          v.bucket_unique j j' k' k'',
          v.bucket_unique i j' k k'',
          v.bucket_unique j i k' k,
        );
    in_table = λ j k' b h. ground (arith, v.in_table j k' b, str_eq_iff k k');
    owned_taken = λ j b h. ground (arith, v.owned_taken j b);
    owned_unique = λ j j' b h h'. ground (arith, v.owned_unique j j' b);
    below = λ b k' a h. ground (arith, v.below b k' a);
    one_key = λ b b' k' k'' a h h'. ground (
      arith,
      v.one_key b b' k' k'' a,
      v.below b k' a,
      v.below b' k'' a,
      str_eq_iff k k',
      str_eq_iff k k'',
    );
  }

  take-Inv :
      (k : Str) (a : ℕ)
      → pc i ≡ found k a
      → l.taken a ≡ false
      → Inv (record l { taken = update l.taken a true }) (update pc i (leaving k a))
  take-Inv k a p free = record {
    bucket_locked = λ j k' h. ground (arith, v.bucket_locked j k', v.bucket_locked i k);
    bucket_unique = λ j j' k' k'' h h' e.
        ground (
          arith,
          v.bucket_unique j j' k' k'',
          v.bucket_unique i j' k k'',
          v.bucket_unique j i k' k,
        );
    in_table = λ j k' b h. ground (arith, v.in_table j k' b, v.in_table i k a);
    owned_taken = λ j b h. ground (arith, v.owned_taken j b);
    owned_unique =
        λ j j' b h h'. ground (arith, v.owned_unique j j' b, v.owned_taken j b, v.owned_taken j' b);
    below = v.below;
    one_key = v.one_key;
  }

  leave-Inv :
      (k : Str) (a : ℕ)
      → pc i ≡ leaving k a
      → Inv
          (record l { global_locks = update l.global_locks (bucket l k) false })
          (update pc i (holding k a))
  leave-Inv k a p = record {
    bucket_locked = λ j k' h. ground (arith, v.bucket_locked j k', v.bucket_unique i j k k');
    bucket_unique = λ j j' k' k'' h h' e. ground (arith, v.bucket_unique j j' k' k'');
    in_table = λ j k' b h. ground (arith, v.in_table j k' b, v.in_table i k a);
    owned_taken = λ j b h. ground (arith, v.owned_taken j b, v.owned_taken i a);
    owned_unique = λ j j' b h h'.
        ground (arith, v.owned_unique j j' b, v.owned_unique i j' b, v.owned_unique j i b);
    below = v.below;
    one_key = v.one_key;
  }

  release-Inv :
      (k : Str) (a : ℕ)
      → pc i ≡ holding k a
      → Inv (record l { taken = update l.taken a false }) (update pc i idle)
  release-Inv k a p = record {
    bucket_locked = λ j k' h. ground (arith, v.bucket_locked j k');
    bucket_unique = λ j j' k' k'' h h' e. ground (arith, v.bucket_unique j j' k' k'');
    in_table = λ j k' b h. ground (arith, v.in_table j k' b);
    owned_taken = λ j b h. ground (arith, v.owned_taken j b, v.owned_unique i j b);
    owned_unique = λ j j' b h h'. ground (arith, v.owned_unique j j' b);
    below = v.below;
    one_key = v.one_key;
  }

  look_up-Inv :
      (k : Str) (o : Option ℕ)
      → pc i ≡ inside k
      → l.keys (bucket l k) k ≡ o
      → Inv (look_up l k o).0 (update pc i (look_up l k o).1)
  unfolding look_up
  look_up-Inv k none p e = make-Inv k p e
  look_up-Inv k (some a) p e = find-Inv k a p e

  -- The invariant after a move, if there is one.
  abbrev After : Option (UrlLock × Pc) → Type 0
  After none = Unit
  After (some (m, q)) = Inv m (update pc i q)

  advance-After : (event : Event) (p : Pc) → pc i ≡ p → After (advance event l p)
  unfolding advance
  advance-After (asks k) idle e = call-Inv k e
  advance-After (asks k) (calling _) e = tt
  advance-After (asks k) (inside _) e = tt
  advance-After (asks k) (found _ _) e = tt
  advance-After (asks k) (leaving _ _) e = tt
  advance-After (asks k) (holding _ _) e = tt
  advance-After runs idle e = tt
  advance-After runs (calling k) e = elim (Bool-cases (l.global_locks (bucket l k))) [
    | inl busy ↦ rw busy tt
    | inr free ↦ rw free (enter-Inv k e free)
  ]
  advance-After runs (inside k) e = look_up-Inv k (l.keys (bucket l k) k) e refl
  advance-After runs (found k a) e = elim (Bool-cases (l.taken a)) [
    | inl busy ↦ rw busy tt
    | inr free ↦ rw free (take-Inv k a e free)
  ]
  advance-After runs (leaving k a) e = leave-Inv k a e
  advance-After runs (holding k a) e = release-Inv k a e

moved-Inv :
    (s : System) (i : ℕ) (o : Option (UrlLock × Pc)) (v : Inv s.locks s.pc)
    → After v i o
    → Inv (moved s i o).locks (moved s i o).pc
moved-Inv s i none v h = v
moved-Inv s i (some (m, q)) v h = h

pub step-Inv :
    (s : System) (i : ℕ) (event : Event)
    → Inv s.locks s.pc
    → Inv (step s i event).locks (step s i event).pc
unfolding step
step-Inv s i event v =
    moved-Inv s i (advance event s.locks (s.pc i)) v (advance-After v i event (s.pc i) refl)

pub run-Inv :
    (es : List (ℕ × Event)) (s : System) → Inv s.locks s.pc → Inv (run es s).locks (run es s).pc
unfolding run
run-Inv [] s v = v
run-Inv ((i, event) ∷ es) s v = run-Inv es (step s i event) (step-Inv s i event v)

-- The invariant at every moment of every schedule.
pub reached-Inv :
    (config : Config) (es : List (ℕ × Event))
    → Inv (run es (start config)).locks (run es (start config)).pc
reached-Inv config es = run-Inv es (start config) (start-Inv config)
