-- ===== src/Storage/Locks.antt =====
-- Lock and Unlock of extends/storage/consul.go.
use mathlib.Core.Option
use cdp_cache.Base.{
  sym, ◌≡◌, ◌≢◌, refl, ap, ◌∙◌, Option, none, some, List, [], ◌∷◌, All, Option-cases, Bool-cases,
  inl, inr,
}
use cdp_cache.Base.Text.{Str, str_eq, str_eq_refl, str_eq_of_ne}
use cdp_cache.Base.Assoc.{lookup, lookup-insert, lookup-erase}
use cdp_cache.Storage.{
  StorageConfig, HeldLocks, lock, lock_result, lock_found, unlock, unlock_result, generate_key,
}

held-lock :
    (again : Str → Option Str) (config : StorageConfig) (key : Str) (s : HeldLocks) (u : Unit {0})
    → lookup key s.held ≡ some u
    → lock again config key s ≡ (s, none)
unfolding lock
held-lock again config key s u h = ap (lock_found again config key s) h

locked :
    (config : StorageConfig) (key : Str) (s : HeldLocks) (r : Option Str)
    → (lock_result s key (generate_key config key) r).1 ≡ none
    → lookup key (lock_result s key (generate_key config key) r).0.held ≡ some tt
locked config key s none e = lookup-insert key key tt s.held ∙ rw (str_eq_refl key) refl
locked config key s (some err) e = absurd (Option.some-ne-none err e)

-- A call that comes in between, with what consul answers: a Lock, or an Unlock.
pub data LockCall : Type 0 where
  locks : (Str → Option Str) → Str → LockCall
  unlocks : (Str → Option Str) → Str → LockCall

unfoldable pub after_calls : StorageConfig → List LockCall → HeldLocks → HeldLocks
after_calls config [] s = s
after_calls config (locks acquire k ∷ calls) s =
    after_calls config calls (lock acquire config k s).0
after_calls config (unlocks release k ∷ calls) s =
    after_calls config calls (unlock release config k s).0

-- The call does not give the key back.
abbrev pub Keeps : Str → LockCall → Type 0
Keeps key (locks acquire k) = Unit
Keeps key (unlocks release k) = k ≢ key

lock_result-held :
    (key k generated : Str) (s : HeldLocks) (r : Option Str)
    → lookup key s.held ≡ some tt
    → lookup key (lock_result s k generated r).0.held ≡ some tt
lock_result-held key k generated s none h =
    lookup-insert k key tt s.held
    ∙ elim (Bool-cases (str_eq k key)) [ inl same ↦ rw same refl | inr other ↦ rw (other, h) refl ]
lock_result-held key k generated s (some e) h = h

lock-held :
    (acquire : Str → Option Str) (config : StorageConfig) (key k : Str) (s : HeldLocks)
    → lookup key s.held ≡ some tt
    → lookup key (lock acquire config k s).0.held ≡ some tt
unfolding lock
lock-held acquire config key k s h = elim (Option-cases (lookup k s.held)) [
  | inl n ↦ rw n (lock_result-held key k _ s (acquire (generate_key config k)) h)
  | inr (u, q) ↦ rw q h
]

unlock_result-held :
    (key k : Str) (s : HeldLocks) (r : Option Str)
    → k ≢ key
    → lookup key s.held ≡ some tt
    → lookup key (unlock_result s k r).0.held ≡ some tt
unlock_result-held key k s none n h = lookup-erase k key s.held ∙ rw (str_eq_of_ne n, h) refl
unlock_result-held key k s (some e) n h = h

unlock-held :
    (release : Str → Option Str) (config : StorageConfig) (key k : Str) (s : HeldLocks)
    → k ≢ key
    → lookup key s.held ≡ some tt
    → lookup key (unlock release config k s).0.held ≡ some tt
unfolding unlock
unlock-held release config key k s n h = elim (Option-cases (lookup k s.held)) [
  | inl m ↦ rw m h
  | inr (u, q) ↦ rw q (unlock_result-held key k s (release (generate_key config k)) n h)
]

after_calls-held :
    (config : StorageConfig) (key : Str) (calls : List LockCall) (s : HeldLocks)
    → All (Keeps key) calls
    → lookup key s.held ≡ some tt
    → lookup key (after_calls config calls s).held ≡ some tt
unfolding after_calls
after_calls-held config key [] s a h = h
after_calls-held config key (locks acquire k ∷ calls) s (p, a) h =
    after_calls-held config key calls (lock acquire config k s).0 a
      (lock-held acquire config key k s h)
after_calls-held config key (unlocks release k ∷ calls) s (p, a) h =
    after_calls-held config key calls (unlock release config k s).0 a
      (unlock-held release config key k s p h)

first_lock-held :
    (acquire : Str → Option Str) (config : StorageConfig) (key : Str) (s : HeldLocks)
    → (lock acquire config key s).1 ≡ none
    → lookup key (lock acquire config key s).0.held ≡ some tt
unfolding lock
first_lock-held acquire config key s e = elim (Option-cases (lookup key s.held)) [
  | inl n ↦ rw n (
      locked config key s (acquire (generate_key config key))
        (ap (λ o. (lock_found acquire config key s o).1) (sym n) ∙ e))
  | inr (u, h) ↦ rw h h
]

-- After a Lock that succeeds, and any sequence of Locks, and of Unlocks of other keys, by the same
-- process, whatever consul answers to them, the key is held, and a further Lock of it succeeds at
-- once: whatever consul would answer, the locks and the calls of consul stay as they are.
pub second_lock_does_not_wait :
    (acquire again : Str → Option Str) (config : StorageConfig) (key : Str) (s : HeldLocks)
    (calls : List LockCall)
    → (lock acquire config key s).1 ≡ none
    → All (Keeps key) calls
    → let t = after_calls config calls (lock acquire config key s).0 in
      (lookup key t.held ≡ some tt) × (lock again config key t ≡ (t, none))
second_lock_does_not_wait acquire again config key s calls e a =
    let t = after_calls config calls (lock acquire config key s).0 in
    let held =
      after_calls-held config key calls (lock acquire config key s).0 a
        (first_lock-held acquire config key s e) in
    (held, held-lock again config key t tt held)
