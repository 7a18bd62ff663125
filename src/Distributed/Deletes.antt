-- ===== src/Distributed/Deletes.antt =====
-- handleDeleteKey of handler.go on the keys that NewDistributedLock publishes.
use cdp_cache.Base.{
  ℕ, ◌≡◌, ◌≤◌, ◌↔◌, refl, sym, ap, ◌∙◌, false, Option, none, some, List, [], ◌∷◌, ◌++◌, arith,
  Bool-cases, ◌⊎◌, inl, inr, if◌then◌else◌, length, map, All,
}
use cdp_cache.Base.Text.{Str, codes, str_eq, has_prefix, trim_left, contains_byte}
use cdp_cache.Status.{Clock}
use cdp_cache.Store.{HttpCache}
use cdp_cache.Store.Cleaning.{Outside, Cleaned, del}
use cdp_cache.Distributed.{
  keyprefix, lock_key, original_key, KvPair, LockOptions, new_distributed_lock, handle_delete_key,
}

-- A key that does not begin with a byte of the prefix.
abbrev pub BeginsOutside : Str → Type 0
BeginsOutside [] = Unit
BeginsOutside (c ∷ key) = contains_byte (keyprefix ++ codes "/") c ≡ false

original_key-lock_key :
    (key : Str) → original_key (lock_key key) ≡ trim_left key (keyprefix ++ codes "/")
unfolding original_key has_prefix trim_left contains_byte
original_key-lock_key key = refl

length-trim_left : (s cutset : Str) → length (trim_left s cutset) ≤ length s
unfolding trim_left
length-trim_left [] cutset = omega arith
length-trim_left (c ∷ s) cutset = elim (Bool-cases (contains_byte cutset c)) [
  | inl h ↦ rw h (omega (arith, length-trim_left s cutset))
  | inr h ↦ rw h (omega arith)
]

trimmed_head :
    (c : ℕ) (key cutset : Str)
    → trim_left (c ∷ key) cutset ≡ c ∷ key
    → contains_byte cutset c ≡ false
unfolding trim_left
trimmed_head c key cutset e = elim (Bool-cases (contains_byte cutset c)) [
  | inl h ↦ absurd (omega (arith, length-trim_left key cutset, ap length (rw h at e)))
  | inr h ↦ h
]

trimmed_only_inside : (key : Str) → trim_left key (keyprefix ++ codes "/") ≡ key → BeginsOutside key
unfolding trim_left
trimmed_only_inside [] e = tt
trimmed_only_inside (c ∷ key) e = trimmed_head c key (keyprefix ++ codes "/") e

kept_outside : (key : Str) → BeginsOutside key → trim_left key (keyprefix ++ codes "/") ≡ key
unfolding trim_left
kept_outside [] b = refl
kept_outside (c ∷ key) b = rw b refl

-- The other nodes recover the key of a purge from the published one exactly if the key is empty or
-- begins with a byte that is not one of those of del_cache_key/.
pub key_recovered_iff : (key : Str) → (original_key (lock_key key) ≡ key) ↔ BeginsOutside key
key_recovered_iff key = (
  λ e. trimmed_only_inside key (sym (original_key-lock_key key) ∙ e),
  λ b. original_key-lock_key key ∙ kept_outside key b,
)

-- A purge of a key at a node with an address, in a session.
pub record Job : Type 0 where
  pub key : Str
  pub ip : Str
  pub session : Str

-- The pair that a lock puts into consul's store.
abbrev pair_of : LockOptions ⊎ Str → KvPair
pair_of (inl l) = record { key = l.key; value = l.value; session = l.session }
pair_of (inr e) = record { key = []; value = []; session = [] }

-- The pair of the lock that NewDistributedLock makes, for a session that is there.
unfoldable pub published : Job → KvPair
unfolding new_distributed_lock
published j = pair_of (new_distributed_lock (inl j.session) j.ip (λ options. none) j.key)

-- The keys of the other nodes' jobs are deleted, in their order.
unfoldable pub delete_jobs : Outside → (Str → Clock) → Str → List Job → HttpCache → Option HttpCache
delete_jobs o clock my_ip [] h = some h
delete_jobs o clock my_ip (j ∷ js) h =
    let next = λ (g : HttpCache). delete_jobs o clock my_ip js g in
    if str_eq j.ip my_ip
    then next h
    else elim (del o j.key (clock (lock_key j.key)) h) [ none ↦ none | some (g, _) ↦ next g ]

abbrev pub IsJob : Job → Type 0
IsJob j = (str_eq j.session [] ≡ false) × BeginsOutside j.key

after_del :
    (d : Option Cleaned) (f g : HttpCache → Option HttpCache)
    → ((h : HttpCache) → f h ≡ g h)
    → elim d [ none ↦ none | some (h, _) ↦ f h ] ≡ elim d [ none ↦ none | some (h, _) ↦ g h ]
after_del none f g e = refl
after_del (some (h, _)) f g e = e h

-- For keys that begin outside of the prefix's bytes, and locks that are held in a session, a node
-- that is told of the purges deletes exactly the keys that other nodes purge, each as that node's
-- own Del does, and none of its own.
pub purges_reach_other_nodes :
    (o : Outside) (clock : Str → Clock) (my_ip : Str) (jobs : List Job) (h : HttpCache)
    → All IsJob jobs
    → handle_delete_key o clock my_ip (map published jobs) h ≡ delete_jobs o clock my_ip jobs h
unfolding handle_delete_key delete_jobs published
purges_reach_other_nodes o clock my_ip [] h a = refl
purges_reach_other_nodes o clock my_ip (j ∷ js) h ((s, b), a) =
    elim (Bool-cases (str_eq j.ip my_ip)) [
      | inl m ↦ rw (s, m) (purges_reach_other_nodes o clock my_ip js h a)
      | inr m ↦
          rw (s, m, original_key-lock_key j.key ∙ kept_outside j.key b)
            (after_del (del o j.key (clock (lock_key j.key)) h)
              (λ g. handle_delete_key o clock my_ip (map published js) g)
              (λ g. delete_jobs o clock my_ip js g)
              (λ g. purges_reach_other_nodes o clock my_ip js g a))
    ]
